-- ===== src/Governance/Lifecycle.antt =====
-- An approval over a whole history of calls: what `verify` accepts was approved before, and was not
-- rejected, revoked or consumed since.
use nexara_prime.Base.{
  String, ◌≡◌, refl, ◌≢◌, inl, inr, Bool, true, false, none, some, List, [], ◌∷◌, arith, Bool-cases,
  Option-cases, ◌==◌, string_eq, nat_eq, any,
}
use nexara_prime.Base.Dict.{get, get-nil}
use nexara_prime.Governance.Records.{get-request, get-approve, get-reject, get-revoke, get-consume}
use nexara_prime.Governance.{level_eq, pending, approved, status_eq, ApprovalDecision, is_valid}
use nexara_prime.Governance.Orchestrator.{
  Orchestrator, new_orchestrator, Asked, request, approve, reject, revoke, consume, granted, Claim,
  verify, verify_record,
}

-- The calls that change an orchestrator, with the ids and times that they draw.
pub data Call : Type 0 where
  request_call : Asked → String → String → String → Call
  approve_call : String → String → String → Call
  reject_call : String → String → Call
  revoke_call : String → Call
  consume_call : String → String → Call

unfoldable pub call : Orchestrator → Call → Orchestrator
call o (request_call a id nonce now) = (request o a id nonce now).0
call o (approve_call id who now) = (approve o id who now).0
call o (reject_call id reason) = (reject o id reason).0
call o (revoke_call id) = (revoke o id).0
call o (consume_call id now) = (consume o id now).0

unfoldable pub run : Orchestrator → List Call → Orchestrator
run o [] = o
run o (c ∷ cs) = run (call o c) cs

abbrev pub approves : String → Call → Bool
approves id (approve_call j who now) = j == id
approves id _ = false

-- No approval stands under this id.
abbrev pub Unapproved : Orchestrator → String → Type 0
Unapproved o id = (d : ApprovalDecision) → get o.decisions id ≡ some d → d.status ≢ approved

verify-Unapproved :
    (o : Orchestrator) (id : String) (c : Claim) (now : String) (d : ApprovalDecision)
    → Unapproved o id
    → verify o id c now ≢ granted d
unfolding verify verify_record is_valid
verify-Unapproved o id c now d h = elim (Option-cases (get o.decisions id)) [
  | inl missing ↦ ground arith
  | inr (e, found) ↦ ground (arith, h e found)
]

consume-Unapproved :
    (o : Orchestrator) (id now : String) → Unapproved o id → (consume o id now).1 ≡ none
unfolding consume is_valid
consume-Unapproved o id now h = elim (Option-cases (get o.decisions id)) [
  | inl missing ↦ ground arith
  | inr (e, found) ↦ ground (arith, h e found)
]

consumed_was_valid :
    (o : Orchestrator) (id now : String) (d : ApprovalDecision)
    → (consume o id now).1 ≡ some d
    → (e : ApprovalDecision) × (get o.decisions id ≡ some e) × (is_valid e now ≡ true)
unfolding consume
consumed_was_valid o id now d h = elim (Option-cases (get o.decisions id)) [
  | inl missing ↦ ground arith
  | inr (e, found) ↦ (e, found, ground arith)
]

request_is_pending :
    (o : Orchestrator) (a : Asked) (id nonce now : String)
    → (request o a id nonce now).1.status ≡ pending
unfolding request
request_is_pending o a id nonce now = refl

-- Only an approval of the id itself makes an approved record.
call-Unapproved :
    (o : Orchestrator) (c : Call) (id : String)
    → approves id c ≡ false
    → Unapproved o id
    → Unapproved (call o c) id
unfolding call
call-Unapproved o (request_call a j nonce now) id no_approval h d found =
    ground (arith, get-request o a j nonce now id, request_is_pending o a j nonce now, h d)
call-Unapproved o (approve_call j who now) id no_approval h d found =
    ground (arith, get-approve o j who now id, h d)
call-Unapproved o (reject_call j reason) id no_approval h d found =
    elim (Option-cases (get o.decisions id)) [
      | inl missing ↦ ground (arith, get-reject o j reason id)
      | inr (e, there) ↦ ground (arith, get-reject o j reason id, h e)
    ]
call-Unapproved o (revoke_call j) id no_approval h d found =
    elim (Option-cases (get o.decisions id)) [
      | inl missing ↦ ground (arith, get-revoke o j id)
      | inr (e, there) ↦ ground (arith, get-revoke o j id, h e)
    ]
call-Unapproved o (consume_call j now) id no_approval h d found =
    elim (Option-cases (get o.decisions id)) [
      | inl missing ↦ ground (arith, get-consume o j now id)
      | inr (e, there) ↦ ground (arith, get-consume o j now id, h e)
    ]

run-Unapproved :
    (o : Orchestrator) (cs : List Call) (id : String)
    → any (approves id) cs ≡ false
    → Unapproved o id
    → Unapproved (run o cs) id
unfolding run
run-Unapproved o [] id no_approval h = h
run-Unapproved o (c ∷ cs) id no_approval h =
    run-Unapproved (call o c) cs id (ground arith) (call-Unapproved o c id (ground arith) h)

-- `verify` grants nothing, at any time and for any claim, unless an `approve` of that id is among
-- the calls made since the orchestrator was new.
pub granted_needs_approve :
    (cs : List Call) (id : String) (c : Claim) (now : String) (d : ApprovalDecision)
    → verify (run new_orchestrator cs) id c now ≡ granted d
    → any (approves id) cs ≡ true
granted_needs_approve cs id c now d g = elim (Bool-cases (any (approves id) cs)) [
  | inl called ↦ called
  | inr never ↦ absurd (
      verify-Unapproved (run new_orchestrator cs) id c now d
        (run-Unapproved new_orchestrator cs id never
          (λ e found. ground (arith, get-nil {V = ApprovalDecision} id)))
        g)
]

-- The calls that end an approval: they return the closed record.
abbrev pub Ends : Orchestrator → Call → String → Type 0
Ends o (reject_call j reason) id = j ≡ id
Ends o (revoke_call j) id = j ≡ id
Ends o (consume_call j now) id =
    (j ≡ id) × ((d : ApprovalDecision) × ((consume o j now).1 ≡ some d))
Ends o _ id = ⊥

Ends-Unapproved :
    (o : Orchestrator) (c : Call) (id : String) → Ends o c id → Unapproved (call o c) id
unfolding call
Ends-Unapproved o (request_call a j nonce now) id h d found = absurd h
Ends-Unapproved o (approve_call j who now) id h d found = absurd h
Ends-Unapproved o (reject_call j reason) id h d found = ground (arith, get-reject o j reason id)
Ends-Unapproved o (revoke_call j) id h d found = ground (arith, get-revoke o j id)
Ends-Unapproved o (consume_call j now) id (same, (e, done)) d found =
    let (b, there, valid) = consumed_was_valid o j now e done in
    ground (arith, get-consume o j now id)

-- Once an id is rejected, revoked or successfully consumed, `verify` grants nothing for it and it
-- cannot be consumed, at any time, after any calls that do not approve it again.
pub ended_stays_ended :
    (o : Orchestrator) (c : Call) (cs : List Call) (id : String)
    → Ends o c id
    → any (approves id) cs ≡ false
    → ((claim : Claim) (now : String) (d : ApprovalDecision)
        → verify (run (call o c) cs) id claim now ≢ granted d)
      × ((now : String) → (consume (run (call o c) cs) id now).1 ≡ none)
ended_stays_ended o c cs id ends no_approval =
    let h = run-Unapproved (call o c) cs id no_approval (Ends-Unapproved o c id ends) in
    (
      λ claim now d. verify-Unapproved (run (call o c) cs) id claim now d h,
      λ now. consume-Unapproved (run (call o c) cs) id now h,
    )
