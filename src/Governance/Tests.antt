-- ===== src/Governance/Tests.antt =====
-- Runs of the governance layer, and the theorems at them.
use nexara_prime.Base.{
  String, ◌≡◌, refl, ◌≢◌, ◌↔◌, true, false, none, some, List, [], ◌∷◌, contains, string_eq, nat_eq,
  any,
}
use nexara_prime.Base.Dict.{get, put}
use nexara_prime.Base.Text.{str_lt}
use nexara_prime.Governance.{
  human, blocked, ApprovalLevel-discrete, DecisionStatus-discrete, pending, approved, risk_approval,
  requires_approval, ApprovalDecision, is_valid,
}
use nexara_prime.Governance.Orchestrator.{
  Orchestrator, new_orchestrator, Asked, request, approve, consume, verify, verify_record, granted,
  Claim, unqueue, remove_first,
}
use nexara_prime.Governance.Policy.{
  PolicyRuntime, Action, claim_of, allow, deny, is_allowed, enforce, enforce_decision,
  enforce_verdict, r4_blocked, missing_decision_id,
}
use nexara_prime.Governance.Lifecycle.{
  Call, request_call, approve_call, revoke_call, consume_call, call, run, approves,
  granted_needs_approve, ended_stays_ended,
}
use nexara_prime.Governance.Pending.{granted_not_r4}
use nexara_prime.Governance.Enforce.{Covers, Backed, verify_iff_Covers, enforce_iff}

abbrev asked : String → Asked
asked risk = record {
  mission_id = "m1";
  project_id = "p1";
  risk_level = risk;
  action = "deploy";
  resource = "*";
  scope = "local";
}

abbrev calls : List Call
calls = request_call (asked "R3") "d1" "n1" "1" ∷ approve_call "d1" "ann" "2" ∷ []

abbrev stored : ApprovalDecision
stored = record {
  decision_id = "d1";
  mission_id = "m1";
  project_id = "p1";
  risk_level = "R3";
  action = "deploy";
  resource = "*";
  scope = "local";
  approval_level = human;
  status = approved;
  reason = "approved";
  approved_by = "ann";
  approved_at = "2";
  issued_at = "1";
  expires_at = "";
  evidence_id = "";
  nonce = "n1";
}

abbrev claim : Claim
claim = record { mission_id = "m1"; project_id = "p1"; action = "deploy"; resource = "srv" }

run-calls : run new_orchestrator calls ≡ record { decisions = ("d1", stored) ∷ []; waiting = [] }
unfolding run call request approve get put risk_approval unqueue remove_first string_eq
    ApprovalLevel-discrete
run-calls = refl

verify-calls : verify (run new_orchestrator calls) "d1" claim "3" ≡ granted stored
unfolding run call request approve get put risk_approval unqueue remove_first string_eq
    ApprovalLevel-discrete verify verify_record is_valid DecisionStatus-discrete str_lt
verify-calls = refl

granted_needs_approve_example : any (approves "d1") calls ≡ true
granted_needs_approve_example = granted_needs_approve calls "d1" claim "3" stored verify-calls

granted_not_r4_example : stored.risk_level ≢ "R4"
granted_not_r4_example = granted_not_r4 calls "d1" claim "3" stored verify-calls

abbrev calls' : List Call
calls' = request_call (asked "R2") "d2" "n2" "5" ∷ consume_call "d1" "6" ∷ []

ended_stays_ended_example :
    ((c : Claim) (now : String) (d : ApprovalDecision)
      → verify (run (call (run new_orchestrator calls) (revoke_call "d1")) calls') "d1" c now
        ≢ granted d)
    × ((now : String)
        → (consume (run (call (run new_orchestrator calls) (revoke_call "d1")) calls') "d1" now).1
          ≡ none)
unfolding string_eq
ended_stays_ended_example =
    ended_stays_ended (run new_orchestrator calls) (revoke_call "d1") calls' "d1" refl refl

verify_iff_Covers_example :
    (verify (run new_orchestrator calls) "d1" claim "3" ≡ granted stored)
    ↔ ((get (run new_orchestrator calls).decisions "d1" ≡ some stored) × Covers stored claim "3")
verify_iff_Covers_example = verify_iff_Covers (run new_orchestrator calls) "d1" claim "3" stored

abbrev deploy : String → Action
deploy risk = record {
  risk_level = risk;
  action = "deploy";
  mission_id = "m1";
  project_id = "p1";
  resource = "srv";
}

abbrev policy : PolicyRuntime
policy = record {
  violations = [];
  orchestrator = some (record { decisions = ("d1", stored) ∷ []; waiting = [] });
}

enforce-deploy :
    (enforce policy (deploy "R3") ("deploy" ∷ []) [] (some "d1") "3"
      ≡ (policy, allow human (some "d1")))
    × ((enforce policy (deploy "R3") ("deploy" ∷ []) [] none "3").1
        ≡ deny missing_decision_id (some human))
    × ((enforce policy (deploy "R4") ("deploy" ∷ []) [] (some "d1") "3").1 ≡ deny r4_blocked none)
unfolding enforce enforce_decision enforce_verdict verify verify_record is_valid get risk_approval
    requires_approval string_eq ApprovalLevel-discrete DecisionStatus-discrete str_lt
enforce-deploy = (refl, refl, refl)

enforce_iff_example :
    (is_allowed (enforce policy (deploy "R3") ("deploy" ∷ []) [] (some "d1") "3").1 ≡ true) ↔ (
      (contains {A = String} [] "deploy" ≡ false)
      × (contains {A = String} ("deploy" ∷ []) "deploy" ≡ true)
      × (risk_approval "R3" ≢ blocked)
      × (requires_approval "R3" ≡ true
          → Backed (some "d1") policy.orchestrator (claim_of (deploy "R3")) "3"))
enforce_iff_example = enforce_iff policy (deploy "R3") ("deploy" ∷ []) [] (some "d1") "3"

abbrev waits : Orchestrator
waits = record { decisions = ("d1", record stored { status = pending }) ∷ []; waiting = "d1" ∷ [] }
