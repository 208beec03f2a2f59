-- ===== src/Adaptive/Governor.antt =====
-- src/nexara_prime/cost_governor.py. Scope names are in lower case. The product limit * warn_ratio of
-- floats, rounded down, is the argument `warn_at`; costs are natural numbers of a unit of choice.
use nexara_prime.Base.{
  ℕ, ◌+◌, ◌-◌, ◌<◌, String, ◌≡◌, refl, ap, ◌≢◌, ◌↔◌, Option, none, some, List, [], ◌∷◌, arith, ltb,
  leb, if◌then◌else◌, Eq, ◌==◌, contains, string_eq, nat_eq, length,
}
use nexara_prime.Base.Dict.{Dict, get, put, get-put}

pub record ScopeUsage : Type 0 where
  pub tokens : ℕ
  pub cost : ℕ

pub data Status : Type 0 where
  ok warn block : Status

pub record ScopeKey : Type 0 where
  pub scope : String
  pub key : String

unfoldable pub ScopeKey-discrete : Discrete ScopeKey
ScopeKey-discrete = hlevel (string_eq.dec)

instance abbrev pub scope_key_eq : Eq ScopeKey
scope_key_eq = record { dec = ScopeKey-discrete }

pub record TokenGovernor : Type 0 where
  pub budgets : Dict ScopeKey (Option ℕ)
  pub usage : Dict ScopeKey ScopeUsage

abbrev pub scopes : List String
scopes = "session" ∷ "mission" ∷ "provider" ∷ "model" ∷ "daily" ∷ []

-- `none` for the ValueError of an unknown scope; the daily scope has one key.
unfoldable pub scope_key : String → String → Option ScopeKey
scope_key scope key =
    if contains scopes scope
    then some (record { scope = scope; key = if scope == "daily" then "daily" else key })
    else none

unfoldable pub usage_at : TokenGovernor → ScopeKey → ScopeUsage
usage_at g k = elim (get g.usage k) [ none ↦ record { tokens = 0; cost = 0 } | some u ↦ u ]

-- An entry that is missing and one that is None are both without a limit.
unfoldable pub limit_at : TokenGovernor → ScopeKey → Option ℕ
limit_at g k = elim (get g.budgets k) [ none ↦ none | some limit ↦ limit ]

unfoldable pub status_of : (ℕ → ℕ) → ℕ → Option ℕ → Status
status_of warn_at tokens none = ok
status_of warn_at tokens (some limit) =
    if ltb limit tokens then block else if leb (warn_at limit) tokens then warn else ok

unfoldable pub set_budget : TokenGovernor → String → String → Option ℕ → Option TokenGovernor
set_budget g scope key limit = elim (scope_key scope key) [
  | none ↦ none
  | some k ↦ some (record g { budgets = put g.budgets k limit })
]

unfoldable pub add_cost : ℕ → Option ℕ → ℕ
add_cost total none = total
add_cost total (some cost) = total + cost

unfoldable pub add : ScopeUsage → ℕ → Option ℕ → ScopeUsage
add u tokens cost = record { tokens = u.tokens + tokens; cost = add_cost u.cost cost }

unfoldable pub record_at : TokenGovernor → ScopeKey → ℕ → Option ℕ → TokenGovernor
record_at g k tokens cost = record g { usage = put g.usage k (add (usage_at g k) tokens cost) }

unfoldable pub record_usage :
    (ℕ → ℕ) → TokenGovernor → String → String → ℕ → Option ℕ → Option (TokenGovernor × Status)
record_usage warn_at g scope key tokens cost = elim (scope_key scope key) [
  | none ↦ none
  | some k ↦ some (
    record_at g k tokens cost,
    status_of warn_at (add (usage_at g k) tokens cost).tokens (limit_at g k),
  )
]

unfoldable pub drop_daily : Dict ScopeKey ScopeUsage → Dict ScopeKey ScopeUsage
drop_daily [] = []
drop_daily ((k, u) ∷ d) =
    let rest = drop_daily d in if k.scope == "daily" then rest else (k, u) ∷ rest

unfoldable pub reset_daily : TokenGovernor → TokenGovernor × ℕ
reset_daily g =
    (record g { usage = drop_daily g.usage }, length g.usage - length (drop_daily g.usage))

drop_daily-get :
    (d : Dict ScopeKey ScopeUsage) (k : ScopeKey)
    → get (drop_daily d) k ≡ (if k.scope == "daily" then none else get d k)
unfolding drop_daily get
drop_daily-get [] k = ground arith
drop_daily-get ((j, u) ∷ d) k = ground (arith, drop_daily-get d k)

-- Resetting the daily scope makes its usage 0 and leaves the usage of every other scope.
pub reset_daily-usage :
    (g : TokenGovernor) (k : ScopeKey)
    → usage_at (reset_daily g).0 k
      ≡ (if k.scope == "daily" then record { tokens = 0; cost = 0 } else usage_at g k)
unfolding reset_daily usage_at
reset_daily-usage g k = ground (arith, drop_daily-get g.usage k)

status_of-block :
    (warn_at : ℕ → ℕ) (tokens : ℕ) (limit : Option ℕ)
    → (status_of warn_at tokens limit ≡ block) ↔ ((n : ℕ) × (limit ≡ some n) × (n < tokens))
unfolding status_of
status_of-block warn_at tokens none =
    ((λ h. ground (arith, h)), (λ (n, h, over). ground (arith, h)))
status_of-block warn_at tokens (some m) =
    ((λ h. (m, refl, exceeds h)), (λ (n, h, over). ground (arith, h, over)))
  where
    exceeds : status_of warn_at tokens (some m) ≡ block → m < tokens
    exceeds h = ground (arith, h)

record_at-usage :
    (g : TokenGovernor) (k : ScopeKey) (tokens : ℕ) (cost : Option ℕ)
    → usage_at (record_at g k tokens cost) k ≡ add (usage_at g k) tokens cost
unfolding record_at usage_at
record_at-usage g k tokens cost =
    ground (arith, get-put g.usage k k (add (usage_at g k) tokens cost))

record_at-other :
    (g : TokenGovernor) (k j : ScopeKey) (tokens : ℕ) (cost : Option ℕ)
    → k ≢ j
    → usage_at (record_at g k tokens cost) j ≡ usage_at g j
unfolding record_at usage_at
record_at-other g k j tokens cost differ =
    ground (arith, get-put g.usage k j (add (usage_at g k) tokens cost))

record_usage-known :
    (warn_at : ℕ → ℕ) (g : TokenGovernor) (scope key : String) (tokens : ℕ) (cost : Option ℕ)
    (k : ScopeKey)
    → scope_key scope key ≡ some k
    → record_usage warn_at g scope key tokens cost
      ≡ some (
        record_at g k tokens cost,
        status_of warn_at (add (usage_at g k) tokens cost).tokens (limit_at g k),
      )
unfolding record_usage
record_usage-known warn_at g scope key tokens cost k known = ground arith

-- Recording usage of a known scope adds the tokens to the usage of its key and leaves every other key;
-- the answer is BLOCK exactly if the key has a limit and the tokens used are now over it.
pub record_usage-counts :
    (warn_at : ℕ → ℕ) (g : TokenGovernor) (scope key : String) (tokens : ℕ) (cost : Option ℕ)
    (k : ScopeKey)
    → scope_key scope key ≡ some k
    → (g' : TokenGovernor) × (st : Status) × (record_usage warn_at g scope key tokens cost
        ≡ some (g', st))
      × ((usage_at g' k).tokens ≡ (usage_at g k).tokens + tokens)
      × ((j : ScopeKey) → k ≢ j → usage_at g' j ≡ usage_at g j)
      × ((st ≡ block) ↔ ((n : ℕ) × (limit_at g k ≡ some n) × (n < (usage_at g k).tokens + tokens)))
unfolding add
record_usage-counts warn_at g scope key tokens cost k known = (
  record_at g k tokens cost,
  status_of warn_at ((usage_at g k).tokens + tokens) (limit_at g k),
  record_usage-known warn_at g scope key tokens cost k known,
  ap ScopeUsage.tokens (record_at-usage g k tokens cost),
  (λ j differ. record_at-other g k j tokens cost differ),
  status_of-block warn_at ((usage_at g k).tokens + tokens) (limit_at g k),
)
