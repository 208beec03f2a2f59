-- ===== src/Orchestration/Views.antt =====
-- The operations of the approval queue at one id, seen by status and expiry.
use nexara_prime.Base.{
  ℕ, String, ◌≡◌, refl, sym, ap, ◌∙◌, inl, inr, Bool, true, false, Option, none, some, arith,
  if◌then◌else◌, Option-cases, ◌==◌, string_eq, nat_eq,
}
use nexara_prime.Base.Dict.{get, put, get-save, get-put}
use nexara_prime.Orchestration.{
  instant, queue_state_eq, lease_state_eq, claim_id_eq, ApprovalStatus, approval_status_eq,
  ApprovalRequest, recovery_state_eq, verification_status_eq, Store, emit, add_evidence,
}
use nexara_prime.Orchestration.Approvals.{
  put_request, create_request, decided, decide_on, decide_request, revoke_request,
  compare_and_set_status, after_consumption, consume_request,
}
use nexara_prime.Orchestration.Calls.{
  Seen, View, seen, view, update, decide_spec, revoke_spec, consume_spec,
}

view-put :
    (s : Store) (id j : String) (r : ApprovalRequest)
    → view (put_request s id r) j ≡ update (view s) id (some (r.status, r.expires_at)) j
unfolding view put_request
view-put s id j r = ground (arith, get-save s.approval_requests id j r)

update_same : (v : View) (id j : String) → v j ≡ update v id (v id) j
update_same v id j = ground arith

decide_on-view :
    (s : Store) (id j : String) (q : ApprovalStatus) (actor : String) (now : ℕ)
    (r : ApprovalRequest)
    → get s.approval_requests id ≡ some r
    → view (decide_on s id q actor false now r).0 j
      ≡ update (view s) id (decide_spec q now (some (r.status, r.expires_at))) j
unfolding decide_on decide_spec decided emit view put_request
decide_on-view s id j q actor now r found = ground (
  arith,
  get-save s.approval_requests id j (decided r q actor now),
  get-save s.approval_requests id j
      (record r { status = ApprovalStatus.expired; decided_at = instant now }),
)

pub decide_request-none :
    (s : Store) (id : String) (q : ApprovalStatus) (actor : String) (again : Bool) (now : ℕ)
    → get s.approval_requests id ≡ none
    → decide_request s id q actor again now ≡ (s, none)
unfolding decide_request
decide_request-none s id q actor again now absent = rw (decide_request, absent) refl

pub decide_request-some :
    (s : Store) (id : String) (q : ApprovalStatus) (actor : String) (again : Bool) (now : ℕ)
    (r : ApprovalRequest)
    → get s.approval_requests id ≡ some r
    → decide_request s id q actor again now ≡ decide_on s id q actor again now r
unfolding decide_request
decide_request-some s id q actor again now r found = rw (decide_request, found) refl

-- A change of the view at an id whose request is found, or is not.
seen-some :
    (s : Store) (id j : String) (f : Seen → Seen) (r : ApprovalRequest)
    → get s.approval_requests id ≡ some r
    → update (view s) id (f (some (r.status, r.expires_at))) j
      ≡ update (view s) id (f (view s id)) j
unfolding view
seen-some s id j f r found = ap (λ o. update (view s) id (f (seen o)) j) (sym found)

seen-none :
    (s : Store) (id j : String) (f : Seen → Seen)
    → get s.approval_requests id ≡ none
    → f none ≡ none
    → view s j ≡ update (view s) id (f (view s id)) j
unfolding view
seen-none s id j f absent stays =
    update_same (view s) id j
    ∙ ap (λ o. update (view s) id o j)
        (ap seen absent ∙ sym stays ∙ ap (λ o. f (seen o)) (sym absent))

pub decide_request-view :
    (s : Store) (id j : String) (q : ApprovalStatus) (actor : String) (now : ℕ)
    → view (decide_request s id q actor false now).0 j
      ≡ update (view s) id (decide_spec q now (view s id)) j
unfolding decide_spec
decide_request-view s id j q actor now = elim (Option-cases (get s.approval_requests id)) [
  | inl absent ↦
      ap (λ x. view x.0 j) (decide_request-none s id q actor false now absent)
      ∙ seen-none s id j (decide_spec q now) absent refl
  | inr (r, found) ↦
      ap (λ x. view x.0 j) (decide_request-some s id q actor false now r found)
      ∙ decide_on-view s id j q actor now r found
      ∙ seen-some s id j (decide_spec q now) r found
]

revoke_on-view :
    (s : Store) (id j : String) (now : ℕ) (r : ApprovalRequest)
    → get s.approval_requests id ≡ some r
    → view
        (if r.status == ApprovalStatus.consumed
          then (s, none)
          else decide_on s id ApprovalStatus.pending "system" true now r).0
        j
      ≡ update (view s) id (revoke_spec (some (r.status, r.expires_at))) j
unfolding decide_on revoke_spec decided emit view put_request
revoke_on-view s id j now r found =
    ground
      (arith, get-save s.approval_requests id j (decided r ApprovalStatus.pending "system" now))

pub revoke_request-none :
    (s : Store) (id : String) (now : ℕ)
    → get s.approval_requests id ≡ none
    → revoke_request s id now ≡ (s, none)
unfolding revoke_request
revoke_request-none s id now absent = rw (revoke_request, absent) refl

pub revoke_request-some :
    (s : Store) (id : String) (now : ℕ) (r : ApprovalRequest)
    → get s.approval_requests id ≡ some r
    → revoke_request s id now ≡ (
        if r.status == ApprovalStatus.consumed
        then (s, none)
        else decide_on s id ApprovalStatus.pending "system" true now r)
unfolding revoke_request
revoke_request-some s id now r found =
    rw
      (
        revoke_request,
        found,
        decide_request-some s id ApprovalStatus.pending "system" true now r found,
      )
      refl

pub revoke_request-view :
    (s : Store) (id j : String) (now : ℕ)
    → view (revoke_request s id now).0 j ≡ update (view s) id (revoke_spec (view s id)) j
unfolding revoke_spec
revoke_request-view s id j now = elim (Option-cases (get s.approval_requests id)) [
  | inl absent ↦
      ap (λ x. view x.0 j) (revoke_request-none s id now absent)
      ∙ seen-none s id j revoke_spec absent refl
  | inr (r, found) ↦
      ap (λ x. view x.0 j) (revoke_request-some s id now r found)
      ∙ revoke_on-view s id j now r found
      ∙ seen-some s id j revoke_spec r found
]

pub consume_request-none :
    (s : Store) (id : String) (now : ℕ)
    → get s.approval_requests id ≡ none
    → consume_request s id now ≡ (s, none)
unfolding consume_request
consume_request-none s id now absent = rw (consume_request, absent) refl

abbrev pub consumed_row : Store → String → ApprovalRequest → Store
consumed_row s id r = record s {
  approval_requests = put s.approval_requests id (record r { status = ApprovalStatus.consumed });
}

compare_and_set_status-some :
    (s : Store) (id : String) (r : ApprovalRequest)
    → get s.approval_requests id ≡ some r
    → compare_and_set_status s id ApprovalStatus.approved ApprovalStatus.consumed
      ≡ (if r.status == ApprovalStatus.approved then some (consumed_row s id r) else none)
unfolding compare_and_set_status
compare_and_set_status-some s id r found = rw (compare_and_set_status, found) refl

abbrev pub consume_on : Store → String → ℕ → ApprovalRequest → Store × Option ApprovalRequest
consume_on s id now r =
    if r.status == ApprovalStatus.approved
    then after_consumption s r now (some (consumed_row s id r))
    else (s, none)

pub consume_request-some :
    (s : Store) (id : String) (now : ℕ) (r : ApprovalRequest)
    → get s.approval_requests id ≡ some r
    → consume_request s id now ≡ consume_on s id now r
unfolding consume_request
consume_request-some s id now r found =
    rw (consume_request, found, compare_and_set_status-some s id r found) (ground arith)

pub consume_on-view :
    (s : Store) (id j : String) (now : ℕ) (r : ApprovalRequest)
    → get s.approval_requests id ≡ some r
    → view (consume_on s id now r).0 j
      ≡ update (view s) id (consume_spec (some (r.status, r.expires_at))) j
unfolding after_consumption consume_spec add_evidence view
consume_on-view s id j now r found =
    ground (arith, get-put s.approval_requests id j (record r { status = ApprovalStatus.consumed }))

pub consume_request-view :
    (s : Store) (id j : String) (now : ℕ)
    → view (consume_request s id now).0 j ≡ update (view s) id (consume_spec (view s id)) j
unfolding consume_spec
consume_request-view s id j now = elim (Option-cases (get s.approval_requests id)) [
  | inl absent ↦
      ap (λ x. view x.0 j) (consume_request-none s id now absent)
      ∙ seen-none s id j consume_spec absent refl
  | inr (r, found) ↦
      ap (λ x. view x.0 j) (consume_request-some s id now r found)
      ∙ consume_on-view s id j now r found
      ∙ seen-some s id j consume_spec r found
]

pub create_request-view :
    (s : Store) (r : ApprovalRequest) (j : String)
    → view (create_request s r) j ≡ update (view s) r.approval_id (some (r.status, r.expires_at)) j
unfolding create_request emit view
create_request-view s r j = view-put s r.approval_id j r
