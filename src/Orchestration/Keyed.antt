-- ===== src/Orchestration/Keyed.antt =====
-- The table of approval requests: each row stands once, under the id of its request.
use nexara_prime.Orchestration.Views.{
  decide_request-none, decide_request-some, revoke_request-none, revoke_request-some, consume_on,
  consume_request-none, consume_request-some,
}
use nexara_prime.Base.{
  ℕ, String, ◌≡◌, refl, ap, ◌∙◌, inl, inr, Bool, true, false, not, ◌&&◌, none, some, List, [], ◌∷◌,
  ◌++◌, arith, if◌then◌else◌, Option-cases, ◌==◌, ==-refl, string_eq, nat_eq, is_some,
}
use nexara_prime.Base.Dict.{Dict, get, put, save, remove, values, get-put, get-remove, get-append}
use nexara_prime.Orchestration.{
  instant, queue_state_eq, lease_state_eq, claim_id_eq, ApprovalStatus, approval_status_eq,
  ApprovalRequest, recovery_state_eq, verification_status_eq, Store, emit, add_evidence,
}
use nexara_prime.Orchestration.Approvals.{
  put_request, create_request, decided, decide_on, decide_request, approve_request, reject_request,
  revoke_request, after_consumption, consume_request, expire_requests, expire_stale_requests,
}
use nexara_prime.Orchestration.Calls.{Call, create, approve, reject, revoke, consume, expire, call}

unfoldable pub keyed : Dict String ApprovalRequest → Bool
keyed [] = true
keyed ((id, r) ∷ d) = r.approval_id == id && (not (is_some (get d id)) && keyed d)

keyed-put :
    (d : Dict String ApprovalRequest) (id : String) (r : ApprovalRequest)
    → r.approval_id ≡ id
    → keyed d ≡ true
    → keyed (put d id r) ≡ true
unfolding keyed put get
keyed-put [] id r same h = ground (arith, ==-refl id)
keyed-put ((k, x) ∷ d) id r same h = ground (arith, keyed-put d id r same, get-put d id k r)

keyed-remove :
    (d : Dict String ApprovalRequest) (id : String) → keyed d ≡ true → keyed (remove d id) ≡ true
unfolding keyed remove
keyed-remove [] id h = refl
keyed-remove ((k, x) ∷ d) id h = ground (arith, keyed-remove d id, get-remove d id k)

keyed-append :
    (d : Dict String ApprovalRequest) (id : String) (r : ApprovalRequest)
    → r.approval_id ≡ id
    → get d id ≡ none
    → keyed d ≡ true
    → keyed (d ++ (id, r) ∷ []) ≡ true
unfolding keyed get
keyed-append [] id r same absent h = ground (arith, ==-refl id)
keyed-append ((k, x) ∷ d) id r same absent h =
    ground (arith, keyed-append d id r same, get-append d id k r)

keyed-save :
    (d : Dict String ApprovalRequest) (id : String) (r : ApprovalRequest)
    → r.approval_id ≡ id
    → keyed d ≡ true
    → keyed (save d id r) ≡ true
unfolding save
keyed-save d id r same h =
    keyed-append (remove d id) id r same (rw (get-remove d id id, ==-refl id) refl)
      (keyed-remove d id h)

keyed-get :
    (d : Dict String ApprovalRequest) (id : String) (r : ApprovalRequest)
    → keyed d ≡ true
    → get d id ≡ some r
    → r.approval_id ≡ id
unfolding keyed get
keyed-get [] id r h found = cc
keyed-get ((k, x) ∷ d) id r h found = ground (arith, keyed-get d id r)

decide_on-keyed :
    (s : Store) (id : String) (q : ApprovalStatus) (actor : String) (again : Bool) (now : ℕ)
    (r : ApprovalRequest)
    → r.approval_id ≡ id
    → keyed s.approval_requests ≡ true
    → keyed (decide_on s id q actor again now r).0.approval_requests ≡ true
unfolding decide_on decided put_request emit
decide_on-keyed s id q actor again now r same h = ground (
  arith,
  keyed-save s.approval_requests id (decided r q actor now) same h,
  keyed-save s.approval_requests id
      (record r { status = ApprovalStatus.expired; decided_at = instant now }) same h,
)

decide_request-keyed :
    (s : Store) (id : String) (q : ApprovalStatus) (actor : String) (again : Bool) (now : ℕ)
    → keyed s.approval_requests ≡ true
    → keyed (decide_request s id q actor again now).0.approval_requests ≡ true
decide_request-keyed s id q actor again now h = elim (Option-cases (get s.approval_requests id)) [
  | inl absent ↦
      ap (λ x. keyed x.0.approval_requests) (decide_request-none s id q actor again now absent) ∙ h
  | inr (r, found) ↦
      ap (λ x. keyed x.0.approval_requests) (decide_request-some s id q actor again now r found)
      ∙ decide_on-keyed s id q actor again now r (keyed-get s.approval_requests id r h found) h
]

revoke_on-keyed :
    (s : Store) (id : String) (now : ℕ) (r : ApprovalRequest)
    → r.approval_id ≡ id
    → keyed s.approval_requests ≡ true
    → keyed
        (if r.status == ApprovalStatus.consumed
          then (s, none)
          else decide_on s id ApprovalStatus.pending "system" true now r).0.approval_requests
      ≡ true
revoke_on-keyed s id now r same h =
    ground (arith, decide_on-keyed s id ApprovalStatus.pending "system" true now r same h)

revoke_request-keyed :
    (s : Store) (id : String) (now : ℕ)
    → keyed s.approval_requests ≡ true
    → keyed (revoke_request s id now).0.approval_requests ≡ true
revoke_request-keyed s id now h = elim (Option-cases (get s.approval_requests id)) [
  | inl absent ↦ ap (λ x. keyed x.0.approval_requests) (revoke_request-none s id now absent) ∙ h
  | inr (r, found) ↦
      ap (λ x. keyed x.0.approval_requests) (revoke_request-some s id now r found)
      ∙ revoke_on-keyed s id now r (keyed-get s.approval_requests id r h found) h
]

consume_on-keyed :
    (s : Store) (id : String) (now : ℕ) (r : ApprovalRequest)
    → r.approval_id ≡ id
    → keyed s.approval_requests ≡ true
    → keyed (consume_on s id now r).0.approval_requests ≡ true
unfolding after_consumption add_evidence
consume_on-keyed s id now r same h =
    ground (
      arith,
      keyed-put s.approval_requests id (record r { status = ApprovalStatus.consumed }) same h,
    )

consume_request-keyed :
    (s : Store) (id : String) (now : ℕ)
    → keyed s.approval_requests ≡ true
    → keyed (consume_request s id now).0.approval_requests ≡ true
consume_request-keyed s id now h = elim (Option-cases (get s.approval_requests id)) [
  | inl absent ↦ ap (λ x. keyed x.0.approval_requests) (consume_request-none s id now absent) ∙ h
  | inr (r, found) ↦
      ap (λ x. keyed x.0.approval_requests) (consume_request-some s id now r found)
      ∙ consume_on-keyed s id now r (keyed-get s.approval_requests id r h found) h
]

expire_requests-keyed :
    (s : Store) (now : ℕ) (rs : List ApprovalRequest)
    → keyed s.approval_requests ≡ true
    → keyed (expire_requests s now rs).0.approval_requests ≡ true
unfolding expire_requests put_request
expire_requests-keyed s now [] h = h
expire_requests-keyed s now (r ∷ rs) h =
    let r' : ApprovalRequest = record r { status = ApprovalStatus.expired } in
    ground (
      arith,
      expire_requests-keyed s now rs h,
      expire_requests-keyed (put_request s r.approval_id r') now rs
          (keyed-save s.approval_requests r.approval_id r' refl h),
    )

pub call-keyed :
    (s : Store) (c : Call)
    → keyed s.approval_requests ≡ true
    → keyed (call s c).approval_requests ≡ true
unfolding call approve_request reject_request create_request put_request emit expire_stale_requests
call-keyed s (create r) h = keyed-save s.approval_requests r.approval_id r refl h
call-keyed s (approve id actor now) h =
    decide_request-keyed s id ApprovalStatus.approved actor false now h
call-keyed s (reject id actor now) h =
    decide_request-keyed s id ApprovalStatus.rejected actor false now h
call-keyed s (revoke id now) h = revoke_request-keyed s id now h
call-keyed s (consume id now) h = consume_request-keyed s id now h
call-keyed s (expire now) h = expire_requests-keyed s now (values s.approval_requests) h
