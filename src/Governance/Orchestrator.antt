-- ===== src/Governance/Orchestrator.antt =====
-- `ApprovalOrchestrator`: requests, decisions about them, and `verify`.
use nexara_prime.Base.{
  ℕ, ◌+◌, String, not, ◌&&◌, ◌||◌, Option, none, some, List, [], ◌∷◌, ◌++◌, if◌then◌else◌, ◌==◌,
  contains, string_eq, nat_eq, length,
}
use nexara_prime.Base.Dict.{Dict, get, put, values}
use nexara_prime.Governance.{
  confirm, human, blocked, level_eq, DecisionStatus, pending, approved, rejected, revoked, consumed,
  status_eq, risk_approval, ApprovalDecision, is_valid,
}

pub record Orchestrator : Type 0 where
  pub decisions : Dict String ApprovalDecision
  pub waiting : List String  -- `_pending`

abbrev pub new_orchestrator : Orchestrator
new_orchestrator = record { decisions = []; waiting = [] }

-- `list.remove`, which drops the first occurrence; the code calls it under `in`
unfoldable pub remove_first : List String → String → List String
remove_first [] a = []
remove_first (x ∷ xs) a = if x == a then xs else x ∷ remove_first xs a

unfoldable pub unqueue : List String → String → List String
unqueue waiting id = if contains waiting id then remove_first waiting id else waiting

pub record Asked : Type 0 where
  pub mission_id : String
  pub project_id : String
  pub risk_level : String
  pub action : String
  pub resource : String
  pub scope : String

unfoldable pub request :
    Orchestrator → Asked → String → String → String → Orchestrator × ApprovalDecision
request o a id nonce now =
    let approval = risk_approval a.risk_level in
    let d : ApprovalDecision = record {
      decision_id = id;
      mission_id = a.mission_id;
      project_id = a.project_id;
      risk_level = a.risk_level;
      action = a.action;
      resource = a.resource;
      scope = a.scope;
      approval_level = approval;
      status = pending;
      reason = "pending_approval";
      approved_by = "";
      approved_at = "";
      issued_at = now;
      expires_at = "";
      evidence_id = "";
      nonce = nonce;
    } in
    (
      record {
        decisions = put o.decisions id d;
        waiting =
            if approval == confirm || approval == human then o.waiting ++ id ∷ [] else o.waiting;
      },
      d,
    )

-- The records that the methods put in place of an old one.
abbrev pub approve_record : ApprovalDecision → String → String → ApprovalDecision
approve_record d approved_by now = record d {
  status = approved;
  reason = "approved";
  approved_by = approved_by;
  approved_at = now;
}

-- What is not passed on falls back to the field's default.
abbrev pub close_record : ApprovalDecision → DecisionStatus → String → ApprovalDecision
close_record d status reason = record d {
  status = status;
  reason = reason;
  approved_by = "";
  approved_at = "";
  expires_at = "";
  evidence_id = "";
}

abbrev pub consume_record : ApprovalDecision → ApprovalDecision
consume_record d = record d { status = consumed; reason = "consumed" }

unfoldable pub approve :
    Orchestrator → String → String → String → Orchestrator × Option ApprovalDecision
approve o id approved_by now = elim (get o.decisions id) [
  | none ↦ (o, none)
  | some d ↦
      let d' = approve_record d approved_by now in
      (record { decisions = put o.decisions id d'; waiting = unqueue o.waiting id }, some d')
]

unfoldable pub reject : Orchestrator → String → String → Orchestrator × Option ApprovalDecision
reject o id reason = elim (get o.decisions id) [
  | none ↦ (o, none)
  | some d ↦
      let d' = close_record d rejected reason in
      (record { decisions = put o.decisions id d'; waiting = unqueue o.waiting id }, some d')
]

unfoldable pub revoke : Orchestrator → String → Orchestrator × Option ApprovalDecision
revoke o id = elim (get o.decisions id) [
  | none ↦ (o, none)
  | some d ↦
      let d' = close_record d revoked "revoked" in
      (record o { decisions = put o.decisions id d' }, some d')
]

unfoldable pub consume : Orchestrator → String → String → Orchestrator × Option ApprovalDecision
consume o id now = elim (get o.decisions id) [
  | none ↦ (o, none)
  | some d ↦
      if not (is_valid d now)
      then (o, none)
      else let d' = consume_record d in (record o { decisions = put o.decisions id d' }, some d')
]

pub data Denial : Type 0 where
  decision_not_found mission_id_mismatch project_id_mismatch action_mismatch : Denial
  resource_mismatch r4_blocked_fail_closed : Denial
  decision_not_valid : DecisionStatus → Denial

-- `valid` and `authorized` are the same in every answer of `verify`.
pub data Verdict : Type 0 where
  denied : Denial → Verdict
  granted : ApprovalDecision → Verdict

pub record Claim : Type 0 where
  pub mission_id : String
  pub project_id : String
  pub action : String
  pub resource : String

unfoldable pub verify_record : ApprovalDecision → Claim → String → Verdict
verify_record d c now =
    if not (is_valid d now)
    then denied (decision_not_valid d.status)
    else if not (d.mission_id == c.mission_id)
    then denied mission_id_mismatch
    else if not (d.project_id == c.project_id)
    then denied project_id_mismatch
    else if not (d.action == c.action)
    then denied action_mismatch
    else if not (d.resource == c.resource) && not (d.resource == "*")
    then denied resource_mismatch
    else if d.approval_level == blocked
    then denied r4_blocked_fail_closed
    else granted d

unfoldable pub verify : Orchestrator → String → Claim → String → Verdict
verify o id c now = elim (get o.decisions id) [
  | none ↦ denied decision_not_found
  | some d ↦ verify_record d c now
]

-- `pending()`: a missing id is a KeyError, here `none`
unfoldable pub pending_decisions :
    Dict String ApprovalDecision → List String → Option (List ApprovalDecision)
pending_decisions ds [] = some []
pending_decisions ds (id ∷ ids) =
    let rest = pending_decisions ds ids in
    elim (get ds id) [ none ↦ none | some d ↦ elim rest [ none ↦ none | some l ↦ some (d ∷ l) ] ]

-- One of the counts of `stats`.
unfoldable pub count_status : DecisionStatus → List ApprovalDecision → ℕ
count_status s [] = 0
count_status s (d ∷ ds) = (if d.status == s then 1 else 0) + count_status s ds

pub record Stats : Type 0 where
  pub total : ℕ
  pub approved_count : ℕ
  pub rejected_count : ℕ
  pub pending_count : ℕ
  pub revoked_count : ℕ
  pub consumed_count : ℕ

unfoldable pub stats : Orchestrator → Stats
stats o =
    let ds = values o.decisions in
    record {
      total = length ds;
      approved_count = count_status approved ds;
      rejected_count = count_status rejected ds;
      pending_count = length o.waiting;
      revoked_count = count_status revoked ds;
      consumed_count = count_status consumed ds;
    }
