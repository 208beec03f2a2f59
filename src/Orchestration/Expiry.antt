-- ===== src/Orchestration/Expiry.antt =====
-- What `expire_stale` does to the view of the approval queue.
use nexara_prime.Orchestration.Keyed.{keyed}
use nexara_prime.Base.{
  ℕ, String, ◌≡◌, refl, ap, ◌∙◌, true, ◌&&◌, Option, none, some, List, [], ◌∷◌, arith,
  if◌then◌else◌, ◌==◌, string_eq, nat_eq,
}
use nexara_prime.Base.Dict.{Dict, get, get-save, values}
use nexara_prime.Orchestration.{
  queue_state_eq, lease_state_eq, claim_id_eq, ApprovalStatus, approval_status_eq, ApprovalRequest,
  recovery_state_eq, verification_status_eq, Store,
}
use nexara_prime.Orchestration.Approvals.{
  put_request, is_past, expire_requests, expire_stale_requests,
}
use nexara_prime.Orchestration.Calls.{seen, view, expire_spec}

-- What the loop of `expire_stale` makes of the row at one id.
abbrev settle : ℕ → String → Option ApprovalRequest → List ApprovalRequest → Option ApprovalRequest
settle now id o [] = o
settle now id o (r ∷ rs) =
    settle now id
      (if r.status == ApprovalStatus.pending && is_past now r.expires_at && r.approval_id == id
        then some (record r { status = ApprovalStatus.expired })
        else o)
      rs

expire_requests-get :
    (s : Store) (now : ℕ) (id : String) (rs : List ApprovalRequest)
    → get (expire_requests s now rs).0.approval_requests id
      ≡ settle now id (get s.approval_requests id) rs
unfolding expire_requests put_request
expire_requests-get s now id [] = refl
expire_requests-get s now id (r ∷ rs) =
    let r' : ApprovalRequest = record r { status = ApprovalStatus.expired } in
    ground (
      arith,
      expire_requests-get s now id rs,
      expire_requests-get (put_request s r.approval_id r') now id rs,
      get-save s.approval_requests r.approval_id id r',
    )

abbrev settled : ℕ → Option ApprovalRequest → Option ApprovalRequest → Option ApprovalRequest
settled now none o = o
settled now (some r) o =
    if r.status == ApprovalStatus.pending && is_past now r.expires_at
    then some (record r { status = ApprovalStatus.expired })
    else o

settle-keyed :
    (now : ℕ) (id : String) (o : Option ApprovalRequest) (d : Dict String ApprovalRequest)
    → keyed d ≡ true
    → settle now id o (values d) ≡ settled now (get d id) o
unfolding keyed get values
settle-keyed now id o [] h = refl
settle-keyed now id o ((k, r) ∷ d) h = ground (
  arith,
  settle-keyed now id o d,
  settle-keyed now id (some (record r { status = ApprovalStatus.expired })) d,
)

settled-seen :
    (now : ℕ) (o : Option ApprovalRequest) → seen (settled now o o) ≡ expire_spec now (seen o)
unfolding expire_spec
settled-seen now none = refl
settled-seen now (some r) = ground arith

pub expire_stale_requests-view :
    (s : Store) (now : ℕ) (id : String)
    → keyed s.approval_requests ≡ true
    → view (expire_stale_requests s now).0 id ≡ expire_spec now (view s id)
unfolding expire_stale_requests view
expire_stale_requests-view s now id h =
    ap seen (
      expire_requests-get s now id (values s.approval_requests)
      ∙ settle-keyed now id (get s.approval_requests id) s.approval_requests h)
    ∙ settled-seen now (get s.approval_requests id)
