-- ===== src/Adaptive/Tests.antt =====
-- Runs of the budgets and the escalation of adaptive missions, and the theorems at them.
use nexara_prime.Base.{
  ℕ, ◌*◌, ◌/◌, ◌≤◌, ◌<◌, ◌≡◌, refl, ◌↔◌, true, false, none, some, List, [], ◌∷◌, arith, string_eq,
  nat_eq,
}
use nexara_prime.Adaptive.Governor.{ScopeKey, TokenGovernor, scope_key, scope_key_eq}
use nexara_prime.Adaptive.{s0, s1, s2}
use nexara_prime.Adaptive.Budget.{
  ResourceBudget, BudgetUsage, Overrides, Category, create_budget, get_defaults_for_mode, given,
  used, limit_of, fraction, max_fraction, reaches, walk_ladder, over_budget_action, check_budget,
  has_budget_remaining, new_usage, stop, reduce_agents,
}
use nexara_prime.Adaptive.Escalation.{
  tool_failed, tool, Issue, Mission, CurrentState, EscalationDecision, active_triggers_of,
  easing_triggers, should_escalate, should_de_escalate, mode_escalation, mode_de_escalation,
  decide_mode, fires, task_resolved,
}
use nexara_prime.Adaptive.Checks.{within_budget_iff}

abbrev no_overrides : Overrides
no_overrides = record {
  tokens = none;
  cost = none;
  wall_time_ms = none;
  tool_calls = none;
  retries = none;
  agents = none;
  browser = none;
  evidence = none;
}

abbrev budget : ResourceBudget
budget = create_budget "m" s0 no_overrides

abbrev usage : BudgetUsage
usage = record (new_usage "m" "b") { tokens_used = 10000 }

abbrev overrun : BudgetUsage
overrun = record (new_usage "m" "b") { tokens_used = 15000 }

at_the_limit : (check_budget usage budget).action ≡ reduce_agents
unfolding check_budget over_budget_action walk_ladder reaches max_fraction fraction used limit_of
    create_budget given get_defaults_for_mode new_usage
at_the_limit = refl

stopped_at : (check_budget overrun budget).action ≡ stop
unfolding check_budget over_budget_action walk_ladder reaches max_fraction fraction used limit_of
    create_budget given get_defaults_for_mode new_usage
stopped_at = refl

within_budget_iff_example :
    (((check_budget usage budget).within_budget ≡ true)
      ↔ ((c : Category) → used usage c ≤ limit_of budget c))
    × ((check_budget usage budget).within_budget ≡ true → has_budget_remaining usage budget ≡ true)
within_budget_iff_example = within_budget_iff usage budget

abbrev zero_budget : ResourceBudget
zero_budget = record {
  mission_id = "m";
  token_budget = 0;
  cost_budget = 0;
  wall_time_budget_ms = 0;
  tool_call_budget = 0;
  retry_budget = 0;
  agent_count_budget = 0;
  browser_budget = 0;
  evidence_budget = 0;
}

zeros : (c : Category) → limit_of zero_budget c ≡ 0
unfolding limit_of
zeros c = ground arith

busy : 0 < usage.tokens_used
busy = omega arith

abbrev assisted : Mission
assisted = record { mission_id = "m"; adaptive_mode = s1 }

abbrev issues : List Issue
issues = tool_failed "grep" true ∷ []

abbrev raised_decision : EscalationDecision
raised_decision = record {
  mission_id = "m";
  from_mode = s1;
  to_mode = s2;
  trigger = tool "grep";
  active_triggers = tool "grep" ∷ [];
  approved = true;
  number = 1;
}

made : should_escalate 0 assisted 0 issues ≡ some raised_decision
unfolding should_escalate mode_escalation decide_mode active_triggers_of fires
made = refl

abbrev easy : CurrentState
easy = record {
  resolved = true;
  uncertainty = 50;
  complexity_score = 50;
  budget_remaining_pct = 5000;
  confirmed_simple = false;
}

abbrev eased_decision : EscalationDecision
eased_decision = record {
  mission_id = "m";
  from_mode = s1;
  to_mode = s0;
  trigger = task_resolved;
  active_triggers = task_resolved ∷ [];
  approved = true;
  number = 1;
}

eased : should_de_escalate 0 assisted easy ≡ some eased_decision
unfolding should_de_escalate mode_de_escalation decide_mode easing_triggers
eased = refl

abbrev eighty_percent : ℕ → ℕ
eighty_percent limit = limit * 8 / 10

abbrev day : ScopeKey
day = record { scope = "daily"; key = "daily" }

abbrev governor : TokenGovernor
governor = record {
  budgets = (day, some 100) ∷ [];
  usage = (day, record { tokens = 90; cost = 1 }) ∷ [];
}

daily_key : scope_key "daily" "monday" ≡ some day
unfolding scope_key string_eq
daily_key = refl
