-- ===== src/Agents/Tests.antt =====
-- Plans at concrete results of triage.
use nexara_prime.Base.{
  ℕ, zero, suc, ◌≤◌, max, String, ◌≡◌, refl, ◌⊎◌, false, [], ◌∷◌, ◌==◌, string_eq, nat_eq, length,
}
use nexara_prime.Adaptive.{AdaptiveMode, s0, s3}
use nexara_prime.Triage.{TriageResult}
use nexara_prime.Agents.{RuntimeRole-discrete, AgentPool}
use nexara_prime.Agents.Plan.{
  plan_of, draft_agents, dual_verification, scale_up, remaining_roles, without, ordered, base_roles,
  detailed_evidence, needs_reviewer, add_each, add_agent, SchedulerPolicy, CapabilityScore, Outside,
  reviewer_count, agent_limit, schedule_agents,
}
use nexara_prime.Agents.Limits.{schedule_agents-length, schedule_agents-reviewers}

abbrev policy : SchedulerPolicy
policy = record { roi_threshold = 300; max_agents_default = 3; max_agents_governed = 8 }

abbrev id_of : ℕ → String
id_of zero = "a0"
id_of (suc n) = "b"

abbrev world : Outside
world = record { ids = id_of; names_role = λ r t. false; is_generic = λ t. t == "tool.shell" }

abbrev no_agents : AgentPool
no_agents = record { active_agents = []; agent_counter = 0 }

abbrev assessed : AdaptiveMode → TriageResult
assessed mode = record {
  data_sensitivity = "high";
  expected_duration_ms = 6000;
  required_evidence_level = "detailed";
  complexity_score = 4500;
  risk_score = 6000;
  uncertainty_score = 0;
  recommended_mode = mode;
  escalation_conditions = [];
  required_roles = [];
  required_model_tier = "pro";
  required_governance_level = "strict";
  required_evidence_tier = "exhaustive";
  expected_cost = 1;
}

abbrev shell : CapabilityScore
shell = record { capability_id = "tool.shell"; supported_task_types = "shell" ∷ [] }

schedule_agents-length_example :
    length (schedule_agents world policy no_agents (assessed s0) (shell ∷ [])).1.agents
    ≤ max (agent_limit policy s0) 6
schedule_agents-length_example =
    schedule_agents-length world policy no_agents (assessed s0) (shell ∷ [])

schedule_agents-reviewers_example :
    (2
      ≤ reviewer_count (schedule_agents world policy no_agents (assessed s3) (shell ∷ [])).1.agents)
    ⊎ (8 ≤ length (schedule_agents world policy no_agents (assessed s3) (shell ∷ [])).1.agents)
schedule_agents-reviewers_example =
    schedule_agents-reviewers world policy no_agents (assessed s3) (shell ∷ []) refl

-- The limit of three is passed by the six roles that a mission at S0 asks for.
six_agents : length (schedule_agents world policy no_agents (assessed s0) (shell ∷ [])).1.agents ≡ 6
unfolding schedule_agents plan_of draft_agents dual_verification scale_up remaining_roles without
    ordered base_roles detailed_evidence needs_reviewer add_each add_agent RuntimeRole-discrete
    string_eq agent_limit
six_agents = refl
