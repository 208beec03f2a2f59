-- ===== src/Orchestration/Consumption.antt =====
-- What the abstract machine says of a request that is consumed.
use nexara_prime.Base.{
  ℕ, String, ◌≡◌, refl, sym, ap, ◌∙◌, ◌≢◌, inl, inr, Bool, true, not, none, some, List, [], ◌∷◌,
  arith, Option-cases, ◌==◌, ==-refl, string_eq, nat_eq, all,
}
use nexara_prime.Base.Dict.{get}
use nexara_prime.Orchestration.{
  Stamp, queue_state_eq, lease_state_eq, claim_id_eq, ApprovalStatus, approval_status_eq,
  ApprovalStatus-discrete, ApprovalRequest, recovery_state_eq, verification_status_eq, Store,
}
use nexara_prime.Orchestration.Approvals.{after_consumption, consume_request}
use nexara_prime.Orchestration.Calls.{
  Seen, View, seen, view, update, Call, create, approve, reject, revoke, consume, expire,
  expire_spec, call, decide_spec, revoke_spec, consume_spec, call_spec, run, run_spec,
}
use nexara_prime.Orchestration.Views.{
  consume_on, consume_request-none, consume_request-some, consume_on-view,
}
use nexara_prime.Orchestration.Keyed.{keyed, call-keyed}
use nexara_prime.Orchestration.Refinement.{run_refines}

-- The call does not create the request anew.
abbrev pub keeps : String → Call → Bool
keeps id (create r) = not (r.approval_id == id)
keeps id (approve j actor now) = true
keeps id (reject j actor now) = true
keeps id (revoke j now) = true
keeps id (consume j now) = true
keeps id (expire now) = true

update-consumed :
    (v : View) (f : Seen → Seen) (j id : String) (e : Stamp)
    → f (some (ApprovalStatus.consumed, e)) ≡ some (ApprovalStatus.consumed, e)
    → v id ≡ some (ApprovalStatus.consumed, e)
    → update v j (f (v j)) id ≡ some (ApprovalStatus.consumed, e)
update-consumed v f j id e stays used = ground arith

call_spec-consumed :
    (v : View) (c : Call) (id : String) (e : Stamp)
    → keeps id c ≡ true
    → v id ≡ some (ApprovalStatus.consumed, e)
    → call_spec v c id ≡ some (ApprovalStatus.consumed, e)
unfolding call_spec decide_spec revoke_spec consume_spec expire_spec ApprovalStatus-discrete
call_spec-consumed v (create r) id e kept used = ground arith
call_spec-consumed v (approve j actor now) id e kept used =
    update-consumed v (decide_spec ApprovalStatus.approved now) j id e refl used
call_spec-consumed v (reject j actor now) id e kept used =
    update-consumed v (decide_spec ApprovalStatus.rejected now) j id e refl used
call_spec-consumed v (revoke j now) id e kept used = update-consumed v revoke_spec j id e refl used
call_spec-consumed v (expire now) id e kept used = ground arith
call_spec-consumed v (consume j now) id e kept used =
    update-consumed v consume_spec j id e refl used

all-tail :
    {A : Type 0} (f : A → Bool) (x : A) (xs : List A)
    → all f (x ∷ xs) ≡ true
    → (f x ≡ true) × (all f xs ≡ true)
all-tail f x xs h = ground arith

run_spec-consumed :
    (v : View) (cs : List Call) (id : String) (e : Stamp)
    → all (keeps id) cs ≡ true
    → v id ≡ some (ApprovalStatus.consumed, e)
    → run_spec v cs id ≡ some (ApprovalStatus.consumed, e)
unfolding run_spec
run_spec-consumed v [] id e kept used = used
run_spec-consumed v (c ∷ cs) id e kept used =
    let both = all-tail (keeps id) c cs kept in
    run_spec-consumed (call_spec v c) cs id e both.1 (call_spec-consumed v c id e both.0 used)

spent_row :
    (s : Store) (id : String) (e : Stamp) (now : ℕ) (r : ApprovalRequest)
    → seen (some r) ≡ some (ApprovalStatus.consumed, e)
    → consume_on s id now r ≡ (s, none)
unfolding ApprovalStatus-discrete
spent_row s id e now r used = ground arith

-- A request that is consumed is not consumed again.
spent_request :
    (s : Store) (id : String) (e : Stamp) (now : ℕ)
    → view s id ≡ some (ApprovalStatus.consumed, e)
    → consume_request s id now ≡ (s, none)
unfolding view
spent_request s id e now used = elim (Option-cases (get s.approval_requests id)) [
  | inl absent ↦ consume_request-none s id now absent
  | inr (r, found) ↦
      consume_request-some s id now r found ∙ spent_row s id e now r (sym (ap seen found) ∙ used)
]

taken_row :
    (s : Store) (id : String) (now : ℕ) (r x : ApprovalRequest)
    → (consume_on s id now r).1 ≡ some x
    → update (view s) id (consume_spec (some (r.status, r.expires_at))) id
      ≡ some (ApprovalStatus.consumed, x.expires_at)
unfolding after_consumption consume_spec
taken_row s id now r x taken = ground (arith, ==-refl id)

nothing_taken :
    (s : Store) (id : String) (now : ℕ) (x : ApprovalRequest)
    → get s.approval_requests id ≡ none
    → (consume_request s id now).1 ≢ some x
nothing_taken s id now x absent taken =
    ground (arith, ap (λ y. y.1) (consume_request-none s id now absent))

consume_request-spends :
    (s : Store) (id : String) (now : ℕ) (x : ApprovalRequest)
    → (consume_request s id now).1 ≡ some x
    → view (consume_request s id now).0 id ≡ some (ApprovalStatus.consumed, x.expires_at)
consume_request-spends s id now x taken = elim (Option-cases (get s.approval_requests id)) [
  | inl absent ↦ absurd (nothing_taken s id now x absent taken)
  | inr (r, found) ↦
      let same = consume_request-some s id now r found in
      ap (λ y. view y.0 id) same
      ∙ consume_on-view s id id now r found
      ∙ taken_row s id now r x (sym (ap (λ y. y.1) same) ∙ taken)
]

-- Where each request of the table stands once, under its own id: a request whose consumption succeeds
-- is spent. After any approvals, rejections, revocations, consumptions and expiries, and any creations
-- under other ids, a further consumption yields nothing and changes nothing. (A creation under the
-- same id would put a new request in its place.)
pub consumed_once :
    (s : Store) (id : String) (now later : ℕ) (r : ApprovalRequest) (cs : List Call)
    → keyed s.approval_requests ≡ true
    → (consume_request s id now).1 ≡ some r
    → all (keeps id) cs ≡ true
    → consume_request (run (consume_request s id now).0 cs) id later
      ≡ (run (consume_request s id now).0 cs, none)
unfolding call
consumed_once s id now later r cs well taken kept =
    spent_request (run (consume_request s id now).0 cs) id r.expires_at later (
      ap (λ v. v id)
        (run_refines (consume_request s id now).0 cs (call-keyed s (consume id now) well))
      ∙ run_spec-consumed (view (consume_request s id now).0) cs id r.expires_at kept
          (consume_request-spends s id now r taken))
