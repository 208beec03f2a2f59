-- ===== src/Governance/Pending.antt =====
-- What holds of every orchestrator that calls have made: its records keep the level of their risk,
-- and its queue names known decisions.
use nexara_prime.Base.{
  String, ◌≡◌, refl, ap, ◌∙◌, ◌≢◌, ◌⊎◌, inl, inr, true, none, some, List, [], ◌∷◌, ◌++◌, arith,
  Option-cases, contains, string_eq, nat_eq,
}
use nexara_prime.Base.Dict.{get, get-nil}
use nexara_prime.Governance.{blocked, level_eq, risk_approval, ApprovalDecision, revoked}
use nexara_prime.Governance.Orchestrator.{
  Orchestrator, new_orchestrator, Asked, request, approve, reject, revoke, consume, granted, Claim,
  verify, verify_record, remove_first, unqueue, pending_decisions, close_record,
}
use nexara_prime.Governance.Records.{get-request, get-approve, get-reject, get-revoke, get-consume}
use nexara_prime.Governance.Lifecycle.{
  Call, request_call, approve_call, reject_call, revoke_call, consume_call, call, run,
}

-- Each record has the level that the map gives to its risk.
abbrev pub Levelled : Orchestrator → Type 0
Levelled o =
    (id : String) (d : ApprovalDecision)
    → get o.decisions id ≡ some d
    → d.approval_level ≡ risk_approval d.risk_level

request_level :
    (o : Orchestrator) (a : Asked) (id nonce now : String)
    → (request o a id nonce now).1.approval_level
      ≡ risk_approval (request o a id nonce now).1.risk_level
unfolding request
request_level o a id nonce now = refl

call-Levelled : (o : Orchestrator) (c : Call) → Levelled o → Levelled (call o c)
unfolding call
call-Levelled o (request_call a j nonce now) h id d found =
    ground (arith, get-request o a j nonce now id, request_level o a j nonce now, h id d)
call-Levelled o (approve_call j who now) h id d found = elim (Option-cases (get o.decisions id)) [
  | inl missing ↦ ground (arith, get-approve o j who now id)
  | inr (e, there) ↦ ground (arith, get-approve o j who now id, h id e)
]
call-Levelled o (reject_call j reason) h id d found = elim (Option-cases (get o.decisions id)) [
  | inl missing ↦ ground (arith, get-reject o j reason id)
  | inr (e, there) ↦ ground (arith, get-reject o j reason id, h id e)
]
call-Levelled o (revoke_call j) h id d found = elim (Option-cases (get o.decisions id)) [
  | inl missing ↦ ground (arith, get-revoke o j id)
  | inr (e, there) ↦ ground (arith, get-revoke o j id, h id e)
]
call-Levelled o (consume_call j now) h id d found = elim (Option-cases (get o.decisions id)) [
  | inl missing ↦ ground (arith, get-consume o j now id)
  | inr (e, there) ↦ ground (arith, get-consume o j now id, h id e)
]

run-Levelled : (o : Orchestrator) (cs : List Call) → Levelled o → Levelled (run o cs)
unfolding run
run-Levelled o [] h = h
run-Levelled o (c ∷ cs) h = run-Levelled (call o c) cs (call-Levelled o c h)

verify-get :
    (o : Orchestrator) (id : String) (c : Claim) (now : String) (d : ApprovalDecision)
    → verify o id c now ≡ granted d
    → (get o.decisions id ≡ some d) × (d.approval_level ≢ blocked)
unfolding verify verify_record
verify-get o id c now d g = elim (Option-cases (get o.decisions id)) [
  | inl missing ↦ ground arith
  | inr (e, found) ↦ ground arith
]

r4_blocked : risk_approval "R4" ≡ blocked
unfolding risk_approval string_eq
r4_blocked = refl

-- After any calls, `verify` grants no decision that was asked for at risk level R4, approved or not.
pub granted_not_r4 :
    (cs : List Call) (id : String) (c : Claim) (now : String) (d : ApprovalDecision)
    → verify (run new_orchestrator cs) id c now ≡ granted d
    → d.risk_level ≢ "R4"
granted_not_r4 cs id c now d g r4 =
    let (found, open_level) = verify-get (run new_orchestrator cs) id c now d g in
    let level =
      run-Levelled new_orchestrator cs
        (λ j e there. ground (arith, get-nil {V = ApprovalDecision} j)) id d found in
    open_level (level ∙ (ap risk_approval r4 ∙ r4_blocked))

contains-append :
    (xs : List String) (a b : String)
    → contains (xs ++ a ∷ []) b ≡ true
    → (contains xs b ≡ true) ⊎ (a ≡ b)
contains-append [] a b h = ground arith
contains-append (x ∷ xs) a b h = ground (arith, contains-append xs a b)

contains-remove_first :
    (xs : List String) (a b : String) → contains (remove_first xs a) b ≡ true → contains xs b ≡ true
unfolding remove_first
contains-remove_first [] a b h = h
contains-remove_first (x ∷ xs) a b h = ground (arith, contains-remove_first xs a b)

contains-unqueue :
    (xs : List String) (a b : String) → contains (unqueue xs a) b ≡ true → contains xs b ≡ true
unfolding unqueue
contains-unqueue xs a b h = ground (arith, contains-remove_first xs a b)

-- Each queued id has a record.
abbrev Queued : Orchestrator → Type 0
Queued o = (id : String) → contains o.waiting id ≡ true → get o.decisions id ≢ none

request_waiting :
    (o : Orchestrator) (a : Asked) (id nonce now j : String)
    → contains (request o a id nonce now).0.waiting j ≡ true
    → (contains o.waiting j ≡ true) ⊎ (id ≡ j)
unfolding request
request_waiting o a id nonce now j h = ground (arith, contains-append o.waiting id j)

approve_waiting :
    (o : Orchestrator) (id who now j : String)
    → contains (approve o id who now).0.waiting j ≡ true
    → contains o.waiting j ≡ true
unfolding approve
approve_waiting o id who now j h = ground (arith, contains-unqueue o.waiting id j)

reject_waiting :
    (o : Orchestrator) (id reason j : String)
    → contains (reject o id reason).0.waiting j ≡ true
    → contains o.waiting j ≡ true
unfolding reject
reject_waiting o id reason j h = ground (arith, contains-unqueue o.waiting id j)

revoke_waiting : (o : Orchestrator) (id : String) → (revoke o id).0.waiting ≡ o.waiting
unfolding revoke
revoke_waiting o id = ground arith

consume_waiting : (o : Orchestrator) (id now : String) → (consume o id now).0.waiting ≡ o.waiting
unfolding consume
consume_waiting o id now = ground arith

call-Queued : (o : Orchestrator) (c : Call) → Queued o → Queued (call o c)
unfolding call
call-Queued o (request_call a j nonce now) h id listed =
    ground (arith, get-request o a j nonce now id, request_waiting o a j nonce now id, h id)
call-Queued o (approve_call j who now) h id listed =
    ground (arith, get-approve o j who now id, approve_waiting o j who now id, h id)
call-Queued o (reject_call j reason) h id listed =
    ground (arith, get-reject o j reason id, reject_waiting o j reason id, h id)
call-Queued o (revoke_call j) h id listed =
    ground (arith, get-revoke o j id, revoke_waiting o j, h id)
call-Queued o (consume_call j now) h id listed =
    ground (arith, get-consume o j now id, consume_waiting o j now, h id)

run-Queued : (o : Orchestrator) (cs : List Call) → Queued o → Queued (run o cs)
unfolding run
run-Queued o [] h = h
run-Queued o (c ∷ cs) h = run-Queued (call o c) cs (call-Queued o c h)

pending_decisions_some :
    (o : Orchestrator) (ids : List String)
    → ((id : String) → contains ids id ≡ true → get o.decisions id ≢ none)
    → pending_decisions o.decisions ids ≢ none
unfolding pending_decisions
pending_decisions_some o [] h = ground arith
pending_decisions_some o (id ∷ ids) h =
    ground (arith, h id (ground arith), pending_decisions_some o ids (λ j m. h j (ground arith)))

-- After any calls, `pending()` finds a record for each queued id: it never raises a KeyError.
pub pending_total :
    (cs : List Call)
    → pending_decisions (run new_orchestrator cs).decisions (run new_orchestrator cs).waiting ≢ none
pending_total cs =
    let o : Orchestrator = run new_orchestrator cs in
    pending_decisions_some o o.waiting (run-Queued new_orchestrator cs (λ id listed. ground arith))

-- A decision that is revoked while it waits goes on waiting: the queue still lists its id, whose
-- record says that it is revoked.
pub revoked_still_waits :
    (o : Orchestrator) (id : String) (d : ApprovalDecision)
    → contains o.waiting id ≡ true
    → get o.decisions id ≡ some d
    → (contains (revoke o id).0.waiting id ≡ true)
      × ((e : ApprovalDecision) × (get (revoke o id).0.decisions id ≡ some e)
          × (e.status ≡ revoked))
revoked_still_waits o id d listed found = (
  rw (revoke_waiting o id) listed,
  (close_record d revoked "revoked", ground (arith, get-revoke o id id), refl),
)
