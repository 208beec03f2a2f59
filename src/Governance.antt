-- ===== src/Governance.antt =====
-- src/nexara_prime/brain/governance/autonomous_governance.py: risk levels, the authority engine and
-- the record of an approval. Times are Python's texts, compared as texts; ids and times that the
-- code draws are arguments.
pub mod Orchestrator
pub mod Policy
pub mod Records
pub mod Lifecycle
pub mod Pending
pub mod Enforce
pub mod Tests
use nexara_prime.Base.{
  ℕ, zero, suc, ◌+◌, ◌-◌, ◌*◌, ◌/◌, ◌≤◌, ◌<◌, min, max, String, ◌<>◌, ◌≡◌, refl, sym, ap, ◌∙◌, ◌≢◌,
  ◌↔◌, ◌⊎◌, inl, inr, Bool, true, false, not, ◌&&◌, ◌||◌, Option, none, some, List, [], ◌∷◌, ◌++◌,
  map, arith, ltb, leb, if◌then◌else◌, Bool-cases, Option-cases, Eq, ◌==◌, eq_iff, contains,
  ==-refl, string_eq, nat_eq, length, get_elem?, length-append, all, all-get_elem?, any, All,
  All-append, is_some, or_else,
}
use nexara_prime.Base.Text.{str_lt}

pub data ApprovalLevel : Type 0 where
  auto notify confirm human blocked : ApprovalLevel

pub data DecisionStatus : Type 0 where
  pending approved rejected revoked expired consumed : DecisionStatus

pub ApprovalLevel-discrete : Discrete ApprovalLevel
ApprovalLevel-discrete = hlevel

instance abbrev pub level_eq : Eq ApprovalLevel
level_eq = record { dec = ApprovalLevel-discrete }

pub DecisionStatus-discrete : Discrete DecisionStatus
DecisionStatus-discrete = hlevel

instance abbrev pub status_eq : Eq DecisionStatus
status_eq = record { dec = DecisionStatus-discrete }

-- RISK_APPROVAL_MAP.get(risk_level, ApprovalLevel.CONFIRM)
unfoldable pub risk_approval : String → ApprovalLevel
risk_approval risk_level =
    if risk_level == "R0"
    then auto
    else if risk_level == "R1"
    then auto
    else if risk_level == "R2"
    then confirm
    else if risk_level == "R3"
    then human
    else if risk_level == "R4"
    then blocked
    else confirm

-- risk_level in REQUIRES_APPROVAL
unfoldable pub requires_approval : String → Bool
requires_approval risk_level = risk_level == "R2" || (risk_level == "R3" || risk_level == "R4")

pub record Authority : Type 0 where
  pub approval_level : ApprovalLevel
  pub authorized : Bool
  pub can_plan : Bool
  pub can_dry_run : Bool
  pub can_execute : Bool
  pub requires_human : Bool
  pub requires_confirmation : Bool
  pub reason : String

-- `AuthorityEngine.authorize`, less the arguments that the answer repeats.
unfoldable pub authorize : String → Authority
authorize risk_level =
    let approval = risk_approval risk_level in
    if approval == blocked
    then record {
      approval_level = approval;
      authorized = false;
      can_plan = false;
      can_dry_run = false;
      can_execute = false;
      requires_human = true;
      requires_confirmation = true;
      reason = "R4_blocked_permanently";
    }
    else if requires_approval risk_level
    then record {
      approval_level = approval;
      authorized = false;
      can_plan = true;
      can_dry_run = true;
      can_execute = false;
      requires_human = approval == human;
      requires_confirmation = true;
      reason = "requires_approved_decision";
    }
    else record {
      approval_level = approval;
      authorized = true;
      can_plan = true;
      can_dry_run = true;
      can_execute = true;
      requires_human = false;
      requires_confirmation = false;
      reason = "auto_approved_low_risk";
    }

pub record ApprovalDecision : Type 0 where
  pub decision_id : String
  pub mission_id : String
  pub project_id : String
  pub risk_level : String
  pub action : String
  pub resource : String
  pub scope : String
  pub approval_level : ApprovalLevel
  pub status : DecisionStatus
  pub reason : String
  pub approved_by : String
  pub approved_at : String
  pub issued_at : String
  pub expires_at : String
  pub evidence_id : String
  pub nonce : String

-- `is_valid`, at the time `now`
unfoldable pub is_valid : ApprovalDecision → String → Bool
is_valid d now =
    if not (d.status == approved)
    then false
    else if not (d.expires_at == "") && str_lt d.expires_at now
    then false
    else true
