-- ===== src/Governance/Policy.antt =====
-- `PolicyRuntime.enforce`.
use nexara_prime.Base.{
  String, Bool, true, false, not, Option, none, some, List, [], ◌∷◌, ◌++◌, if◌then◌else◌, ◌==◌,
  contains, string_eq, nat_eq,
}
use nexara_prime.Governance.{ApprovalLevel, blocked, level_eq, risk_approval, requires_approval}
use nexara_prime.Governance.Orchestrator.{
  Orchestrator, Denial, Verdict, denied, granted, Claim, verify,
}

pub data Reason : Type 0 where
  forbidden_action not_allowed r4_blocked missing_decision_id orchestrator_not_bound : Reason
  not_verified : Denial → Reason

pub record Violation : Type 0 where
  pub risk : String
  pub action : String
  pub reason : Reason
  pub timestamp : String

-- `orchestrator` is what the bound object holds at the time of the call.
pub record PolicyRuntime : Type 0 where
  pub violations : List Violation
  pub orchestrator : Option Orchestrator

-- `allowed` with the level and the decision that it rests on, or the reason of a refusal.
pub data Enforced : Type 0 where
  allow : ApprovalLevel → Option String → Enforced
  deny : Reason → Option ApprovalLevel → Enforced

abbrev pub is_allowed : Enforced → Bool
is_allowed (allow level id) = true
is_allowed (deny reason level) = false

unfoldable pub bind_orchestrator : PolicyRuntime → Orchestrator → PolicyRuntime
bind_orchestrator p o = record p { orchestrator = some o }

abbrev pub violate : PolicyRuntime → String → String → Reason → String → PolicyRuntime
violate p risk action reason now = record p {
  violations =
      p.violations
      ++ record { risk = risk; action = action; reason = reason; timestamp = now } ∷ [];
}

pub record Action : Type 0 where
  pub risk_level : String
  pub action : String
  pub mission_id : String
  pub project_id : String
  pub resource : String

abbrev pub claim_of : Action → Claim
claim_of a = record {
  mission_id = a.mission_id;
  project_id = a.project_id;
  action = a.action;
  resource = a.resource;
}

unfoldable pub enforce_verdict :
    PolicyRuntime → Action → String → String → Verdict → PolicyRuntime × Enforced
enforce_verdict p a id now (denied r) = (
  violate p a.risk_level a.action (not_verified r) now,
  deny (not_verified r) (some (risk_approval a.risk_level)),
)
enforce_verdict p a id now (granted d) = (p, allow (risk_approval a.risk_level) (some id))

-- The branch of the levels that need a decision.
unfoldable pub enforce_decision :
    PolicyRuntime → Action → Option String → Option Orchestrator → String → PolicyRuntime × Enforced
enforce_decision p a none o now = (p, deny missing_decision_id (some (risk_approval a.risk_level)))
enforce_decision p a (some id) none now =
    (p, deny orchestrator_not_bound (some (risk_approval a.risk_level)))
enforce_decision p a (some id) (some o) now =
    enforce_verdict p a id now (verify o id (claim_of a) now)

unfoldable pub enforce :
    PolicyRuntime
    → Action
    → List String
    → List String
    → Option String
    → String
    → PolicyRuntime × Enforced
enforce p a allowed_actions forbidden_actions decision_id now =
    if contains forbidden_actions a.action
    then (violate p a.risk_level a.action forbidden_action now, deny forbidden_action none)
    else if not (contains allowed_actions a.action)
    then (violate p a.risk_level a.action not_allowed now, deny not_allowed none)
    else if risk_approval a.risk_level == blocked
    then (violate p a.risk_level a.action r4_blocked now, deny r4_blocked none)
    else if requires_approval a.risk_level
    then enforce_decision p a decision_id p.orchestrator now
    else (p, allow (risk_approval a.risk_level) none)
