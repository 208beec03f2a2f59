-- ===== src/Adaptive/Budget.antt =====
-- src/nexara_prime/resource_budget.py, and its records of src/nexara_prime/models.py. Costs are in
-- hundredths of the unit and fractions are exact. A percentage is a fraction (used, limit) that is
-- compared by cross multiplication; the rounded percentages and the texts of the violations, which
-- only report, are left out, and a violation is the name of its category.
use nexara_prime.Base.{
  ℕ, ◌+◌, ◌*◌, String, Bool, true, false, ◌&&◌, Option, none, some, List, [], ◌∷◌, ltb, leb,
  if◌then◌else◌, ◌==◌, string_eq, nat_eq,
}
use nexara_prime.Adaptive.{AdaptiveMode, s0, s1, s2, s3}

pub record ResourceBudget : Type 0 where
  pub mission_id : String
  pub token_budget : ℕ
  pub cost_budget : ℕ
  pub wall_time_budget_ms : ℕ
  pub tool_call_budget : ℕ
  pub retry_budget : ℕ
  pub agent_count_budget : ℕ
  pub browser_budget : ℕ
  pub evidence_budget : ℕ

pub record BudgetUsage : Type 0 where
  pub mission_id : String
  pub budget_id : String
  pub tokens_used : ℕ
  pub cost_used : ℕ
  pub wall_time_used_ms : ℕ
  pub tool_calls_used : ℕ
  pub retries_used : ℕ
  pub agents_spawned : ℕ
  pub browser_calls_used : ℕ
  pub evidence_used : ℕ

pub record Defaults : Type 0 where
  pub token_budget : ℕ
  pub cost_budget : ℕ
  pub wall_time_budget_ms : ℕ
  pub tool_call_budget : ℕ
  pub retry_budget : ℕ
  pub agent_count_budget : ℕ
  pub browser_budget : ℕ
  pub evidence_budget : ℕ

abbrev limits : ℕ → ℕ → ℕ → ℕ → ℕ → ℕ → ℕ → ℕ → Defaults
limits tokens cost wall tools retries agents browser evidence = record {
  token_budget = tokens;
  cost_budget = cost;
  wall_time_budget_ms = wall;
  tool_call_budget = tools;
  retry_budget = retries;
  agent_count_budget = agents;
  browser_budget = browser;
  evidence_budget = evidence;
}

unfoldable pub get_defaults_for_mode : AdaptiveMode → Defaults
get_defaults_for_mode s0 = limits 10000 50 60000 10 2 1 3 20
get_defaults_for_mode s1 = limits 50000 200 120000 25 4 4 6 50
get_defaults_for_mode s2 = limits 150000 800 300000 50 6 8 10 100
get_defaults_for_mode s3 = limits 500000 2500 600000 150 10 16 20 250

-- The keyword arguments of `create_budget`.
pub record Overrides : Type 0 where
  pub tokens : Option ℕ
  pub cost : Option ℕ
  pub wall_time_ms : Option ℕ
  pub tool_calls : Option ℕ
  pub retries : Option ℕ
  pub agents : Option ℕ
  pub browser : Option ℕ
  pub evidence : Option ℕ

unfoldable pub given : Option ℕ → ℕ → ℕ
given none default = default
given (some n) default = n

unfoldable pub create_budget : String → AdaptiveMode → Overrides → ResourceBudget
create_budget mission_id mode o =
    let d = get_defaults_for_mode mode in
    record {
      mission_id = mission_id;
      token_budget = given o.tokens d.token_budget;
      cost_budget = given o.cost d.cost_budget;
      wall_time_budget_ms = given o.wall_time_ms d.wall_time_budget_ms;
      tool_call_budget = given o.tool_calls d.tool_call_budget;
      retry_budget = given o.retries d.retry_budget;
      agent_count_budget = given o.agents d.agent_count_budget;
      browser_budget = given o.browser d.browser_budget;
      evidence_budget = given o.evidence d.evidence_budget;
    }

unfoldable pub new_usage : String → String → BudgetUsage
new_usage mission_id budget_id = record {
  mission_id = mission_id;
  budget_id = budget_id;
  tokens_used = 0;
  cost_used = 0;
  wall_time_used_ms = 0;
  tool_calls_used = 0;
  retries_used = 0;
  agents_spawned = 0;
  browser_calls_used = 0;
  evidence_used = 0;
}

-- The categories by name, for a name that is stripped and in lower case.
pub data Category : Type 0 where
  tokens cost wall_time tool_calls retries agents browser_calls evidence : Category

unfoldable pub category : String → Option Category
category name =
    if name == "tokens"
    then some tokens
    else if name == "cost"
    then some cost
    else if name == "wall_time"
    then some wall_time
    else if name == "tool_calls"
    then some tool_calls
    else if name == "retries"
    then some retries
    else if name == "agents"
    then some agents
    else if name == "browser_calls"
    then some browser_calls
    else if name == "evidence"
    then some evidence
    else none

unfoldable pub add_usage : BudgetUsage → Category → ℕ → BudgetUsage
add_usage u tokens n = record u { tokens_used = u.tokens_used + n }
add_usage u cost n = record u { cost_used = u.cost_used + n }
add_usage u wall_time n = record u { wall_time_used_ms = u.wall_time_used_ms + n }
add_usage u tool_calls n = record u { tool_calls_used = u.tool_calls_used + n }
add_usage u retries n = record u { retries_used = u.retries_used + n }
add_usage u agents n = record u { agents_spawned = u.agents_spawned + n }
add_usage u browser_calls n = record u { browser_calls_used = u.browser_calls_used + n }
add_usage u evidence n = record u { evidence_used = u.evidence_used + n }

unfoldable pub usage_or_new : String → String → Option BudgetUsage → BudgetUsage
usage_or_new mission_id budget_id none = new_usage mission_id budget_id
usage_or_new mission_id budget_id (some u) = u

-- `none` for the ValueError of an unknown category.
unfoldable pub track_usage : String → String → String → ℕ → Option BudgetUsage → Option BudgetUsage
track_usage mission_id budget_id name amount usage = elim (category name) [
  | none ↦ none
  | some c ↦ some (add_usage (usage_or_new mission_id budget_id usage) c amount)
]

unfoldable pub used : BudgetUsage → Category → ℕ
used u tokens = u.tokens_used
used u cost = u.cost_used
used u wall_time = u.wall_time_used_ms
used u tool_calls = u.tool_calls_used
used u retries = u.retries_used
used u agents = u.agents_spawned
used u browser_calls = u.browser_calls_used
used u evidence = u.evidence_used

unfoldable pub limit_of : ResourceBudget → Category → ℕ
limit_of b tokens = b.token_budget
limit_of b cost = b.cost_budget
limit_of b wall_time = b.wall_time_budget_ms
limit_of b tool_calls = b.tool_call_budget
limit_of b retries = b.retry_budget
limit_of b agents = b.agent_count_budget
limit_of b browser_calls = b.browser_budget
limit_of b evidence = b.evidence_budget

abbrev pub categories : List Category
categories =
    tokens ∷ cost ∷ wall_time ∷ tool_calls ∷ retries ∷ agents ∷ browser_calls ∷ evidence ∷ []

abbrev pub Fraction : Type 0
Fraction = ℕ × ℕ

abbrev pub more : Fraction → Fraction → Bool
more (n, d) (n', d') = ltb (n' * d) (n * d')

-- `used / limit`, or 0 without a positive limit.
unfoldable pub fraction : ℕ → ℕ → Fraction
fraction n limit = if ltb 0 limit then (n, limit) else (0, 1)

unfoldable pub max_fraction : BudgetUsage → ResourceBudget → Fraction → List Category → Fraction
max_fraction u b best [] = best
max_fraction u b best (c ∷ cs) =
    let next = fraction (used u c) (limit_of b c) in
    max_fraction u b (if more next best then next else best) cs

unfoldable pub violations : BudgetUsage → ResourceBudget → List Category → List Category
violations u b [] = []
violations u b (c ∷ cs) =
    let rest = violations u b cs in if ltb (limit_of b c) (used u c) then c ∷ rest else rest

pub data OverBudgetAction : Type 0 where
  ok warn degrade_model reduce_agents compress_context request_human stop : OverBudgetAction

-- The fraction has reached so many hundredths.
unfoldable pub reaches : Fraction → ℕ → Bool
reaches (n, d) percent = leb (percent * d) (100 * n)

unfoldable pub walk_ladder :
    Fraction → OverBudgetAction → List (ℕ × OverBudgetAction) → OverBudgetAction
walk_ladder q action [] = action
walk_ladder q action ((threshold, act) ∷ ladder) =
    walk_ladder q (if reaches q threshold then act else action) ladder

unfoldable pub over_budget_action : Fraction → OverBudgetAction
over_budget_action q = walk_ladder q ok (
    (80, warn)
    ∷ (95, degrade_model)
    ∷ (100, reduce_agents)
    ∷ (110, compress_context)
    ∷ (125, request_human)
    ∷ (150, stop)
    ∷ [])

pub record BudgetCheck : Type 0 where
  pub within_budget : Bool
  pub violated : List Category
  pub action : OverBudgetAction

abbrev pub nothing : List Category → Bool
nothing [] = true
nothing (c ∷ cs) = false

unfoldable pub check_budget : BudgetUsage → ResourceBudget → BudgetCheck
check_budget u b =
    let found = violations u b categories in
    record {
      within_budget = nothing found;
      violated = found;
      action = over_budget_action (max_fraction u b (0, 1) categories);
    }

unfoldable pub has_budget_remaining : BudgetUsage → ResourceBudget → Bool
has_budget_remaining u b =
    leb u.tokens_used b.token_budget
    && (leb u.cost_used b.cost_budget
        && (leb u.wall_time_used_ms b.wall_time_budget_ms
            && leb u.tool_calls_used b.tool_call_budget))
