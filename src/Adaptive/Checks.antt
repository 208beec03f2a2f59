-- ===== src/Adaptive/Checks.antt =====
-- What the checks of a budget say of its usage.
use nexara_prime.Base.{
  ℕ, ◌+◌, ◌≤◌, ◌<◌, String, ◌≡◌, refl, ◌≢◌, ◌↔◌, ◌⊎◌, inl, inr, true, false, Option, none, some,
  List, [], ◌∷◌, arith, Bool-cases, Option-cases, string_eq, nat_eq, All,
}
use nexara_prime.Adaptive.Budget.{
  ResourceBudget, BudgetUsage, Category, tokens, cost, wall_time, tool_calls, retries, agents,
  browser_calls, evidence, category, add_usage, usage_or_new, track_usage, used, limit_of,
  categories, fraction, max_fraction, violations, ok, reaches, walk_ladder, over_budget_action,
  check_budget, nothing, has_budget_remaining,
}

within_iff_each :
    (u : BudgetUsage) (b : ResourceBudget) (cs : List Category)
    → (nothing (violations u b cs) ≡ true) ↔ All (λ c. used u c ≤ limit_of b c) cs
unfolding violations
within_iff_each u b [] = ground arith
within_iff_each u b (c ∷ cs) = ground (arith, within_iff_each u b cs)

every :
    (u : BudgetUsage) (b : ResourceBudget)
    → All (λ c. used u c ≤ limit_of b c) categories
    → (c : Category) → used u c ≤ limit_of b c
every u b h tokens = ground arith
every u b h cost = ground arith
every u b h wall_time = ground arith
every u b h tool_calls = ground arith
every u b h retries = ground arith
every u b h agents = ground arith
every u b h browser_calls = ground arith
every u b h evidence = ground arith

each :
    (u : BudgetUsage) (b : ResourceBudget)
    → ((c : Category) → used u c ≤ limit_of b c)
    → All (λ c. used u c ≤ limit_of b c) categories
each u b h = ground (
  arith,
  h tokens,
  h cost,
  h wall_time,
  h tool_calls,
  h retries,
  h agents,
  h browser_calls,
  h evidence,
)

has_budget_remaining-each :
    (u : BudgetUsage) (b : ResourceBudget)
    → ((c : Category) → used u c ≤ limit_of b c)
    → has_budget_remaining u b ≡ true
unfolding has_budget_remaining used limit_of
has_budget_remaining-each u b h = ground (arith, h tokens, h cost, h wall_time, h tool_calls)

-- A usage is within its budget exactly if it is within the limit of every category; and then the quick
-- check finds room too.
pub within_budget_iff :
    (u : BudgetUsage) (b : ResourceBudget)
    → (((check_budget u b).within_budget ≡ true) ↔ ((c : Category) → used u c ≤ limit_of b c))
      × ((check_budget u b).within_budget ≡ true → has_budget_remaining u b ≡ true)
unfolding check_budget
within_budget_iff u b = (
  (
    (λ h. every u b ((within_iff_each u b categories).0 h)),
    (λ h. (within_iff_each u b categories).1 (each u b h)),
  ),
  (λ h. has_budget_remaining-each u b (every u b ((within_iff_each u b categories).0 h))),
)

max_fraction-unlimited :
    (u : BudgetUsage) (b : ResourceBudget) (cs : List Category)
    → ((c : Category) → limit_of b c ≡ 0)
    → max_fraction u b (0, 1) cs ≡ (0, 1)
unfolding max_fraction fraction
max_fraction-unlimited u b [] h = refl
max_fraction-unlimited u b (c ∷ cs) h = ground (arith, h c, max_fraction-unlimited u b cs h)

over :
    (u : BudgetUsage) (b : ResourceBudget)
    → ((c : Category) → limit_of b c ≡ 0)
    → 0 < u.tokens_used
    → (check_budget u b).within_budget ≡ false
unfolding used
over u b h busy = elim (Bool-cases (check_budget u b).within_budget) [
  | inl within ↦ ground (arith, (within_budget_iff u b).0.0 within tokens, h tokens)
  | inr out ↦ out
]

-- Limits of 0 are not enforced: whatever is used, the action is ok, even where the usage is not within
-- the budget.
pub zero_limits_unenforced :
    (u : BudgetUsage) (b : ResourceBudget)
    → ((c : Category) → limit_of b c ≡ 0)
    → 0 < u.tokens_used
    → ((check_budget u b).action ≡ ok) × ((check_budget u b).within_budget ≡ false)
unfolding check_budget over_budget_action walk_ladder reaches
zero_limits_unenforced u b h busy =
    (rw (max_fraction-unlimited u b categories h) refl, over u b h busy)

add_usage-same : (u : BudgetUsage) (c : Category) (n : ℕ) → used (add_usage u c n) c ≡ used u c + n
unfolding used add_usage
add_usage-same u tokens n = refl
add_usage-same u cost n = refl
add_usage-same u wall_time n = refl
add_usage-same u tool_calls n = refl
add_usage-same u retries n = refl
add_usage-same u agents n = refl
add_usage-same u browser_calls n = refl
add_usage-same u evidence n = refl

add_usage-other :
    (u : BudgetUsage) (c d : Category) (n : ℕ) → c ≢ d → used (add_usage u c n) d ≡ used u d
unfolding used add_usage
add_usage-other u c d n differ = ground arith

-- Usage of a known category is added to that category of the record, or of a new one where none is
-- passed, and to no other; an unknown category is refused.
pub track_usage-used :
    (mission_id budget_id name : String) (amount : ℕ) (usage : Option BudgetUsage)
    → ((category name ≡ none) × (track_usage mission_id budget_id name amount usage ≡ none))
      ⊎ ((c : Category) × (u : BudgetUsage) × (category name ≡ some c)
          × (track_usage mission_id budget_id name amount usage ≡ some u)
          × (used u c ≡ used (usage_or_new mission_id budget_id usage) c + amount)
          × ((d : Category) → c ≢ d → used u d ≡ used (usage_or_new mission_id budget_id usage) d))
unfolding track_usage
track_usage-used mission_id budget_id name amount usage =
    let old = usage_or_new mission_id budget_id usage in
    elim (Option-cases (category name)) [
      | inl unknown ↦ inl (unknown, rw (track_usage, unknown) refl)
      | inr (c, known) ↦ inr (
        c,
        add_usage old c amount,
        known,
        rw (track_usage, known) refl,
        add_usage-same old c amount,
        (λ d differ. add_usage-other old c d amount differ),
      )
    ]
