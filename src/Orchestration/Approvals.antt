-- ===== src/Orchestration/Approvals.antt =====
-- src/nexara_prime/orchestration.py: `ApprovalQueue`, with the compare-and-set of
-- src/nexara_prime/db.py that its `consume` relies on; the integrity of the stored row is taken for
-- granted.
use nexara_prime.Base.{
  ℕ, String, Bool, true, false, not, ◌&&◌, Option, none, some, List, [], ◌∷◌, if◌then◌else◌, ◌==◌,
  string_eq, nat_eq,
}
use nexara_prime.Base.Dict.{get, put, save, values}
use nexara_prime.Orchestration.{
  Stamp, instant, instant_before_or_equal, is_set, ApprovalStatus, approval_status_eq,
  ApprovalRequest, Store, emit, add_evidence,
}
use nexara_prime.Orchestration.ApprovalStatus.{pending, approved, rejected, expired, consumed}

unfoldable pub put_request : Store → String → ApprovalRequest → Store
put_request s id r = record s { approval_requests = save s.approval_requests id r }

unfoldable pub create_request : Store → ApprovalRequest → Store
create_request s r = emit (put_request s r.approval_id r) "approval_created" r.mission_id

unfoldable pub pending_in : List ApprovalRequest → List ApprovalRequest
pending_in [] = []
pending_in (r ∷ rs) = let rest = pending_in rs in if r.status == pending then r ∷ rest else rest

unfoldable pub list_pending : Store → List ApprovalRequest
list_pending s = pending_in (values s.approval_requests)

-- `expires_at` is set and has passed.
unfoldable pub is_past : ℕ → Stamp → Bool
is_past now t = is_set t && not (instant_before_or_equal (instant now) t)

unfoldable pub decided : ApprovalRequest → ApprovalStatus → String → ℕ → ApprovalRequest
decided r status actor now = record r {
  status = status;
  decided_by = some actor;
  decided_at = instant now;
}

unfoldable pub decide_on :
    Store
    → String
    → ApprovalStatus
    → String
    → Bool
    → ℕ
    → ApprovalRequest
    → Store × Option ApprovalRequest
decide_on s id status actor revoke now r =
    if not revoke && not (r.status == pending)
    then (s, none)
    else if not revoke && is_past now r.expires_at
    then (
      emit (put_request s id (record r { status = expired; decided_at = instant now }))
          "approval_expired" r.mission_id,
      none,
    )
    else (
      emit (put_request s id (decided r status actor now)) "approval_decided" r.mission_id,
      some (decided r status actor now),
    )

unfoldable pub decide_request :
    Store → String → ApprovalStatus → String → Bool → ℕ → Store × Option ApprovalRequest
decide_request s id status actor revoke now = elim (get s.approval_requests id) [
  | none ↦ (s, none)
  | some r ↦ decide_on s id status actor revoke now r
]

unfoldable pub approve_request : Store → String → String → ℕ → Store × Option ApprovalRequest
approve_request s id actor now = decide_request s id approved actor false now

unfoldable pub reject_request : Store → String → String → ℕ → Store × Option ApprovalRequest
reject_request s id actor now = decide_request s id rejected actor false now

unfoldable pub revoke_request : Store → String → ℕ → Store × Option ApprovalRequest
revoke_request s id now = elim (get s.approval_requests id) [
  | none ↦ (s, none)
  | some r ↦
      if r.status == consumed then (s, none) else decide_request s id pending "system" true now
]

-- The row keeps its place: a compare-and-set does not stamp it anew.
unfoldable pub compare_and_set_status :
    Store → String → ApprovalStatus → ApprovalStatus → Option Store
compare_and_set_status s id expected new = elim (get s.approval_requests id) [
  | none ↦ none
  | some r ↦
      if r.status == expected
      then some
          (record s { approval_requests = put s.approval_requests id (record r { status = new }) })
      else none
]

unfoldable pub after_consumption :
    Store → ApprovalRequest → ℕ → Option Store → Store × Option ApprovalRequest
after_consumption s r now none = (s, none)
after_consumption s r now (some s') = (
  add_evidence s' r.mission_id "approval_receipt",
  some (record r { status = consumed; decided_at = instant now }),
)

unfoldable pub consume_request : Store → String → ℕ → Store × Option ApprovalRequest
consume_request s id now = elim (get s.approval_requests id) [
  | none ↦ (s, none)
  | some r ↦
      if not (r.status == approved)
      then (s, none)
      else after_consumption s r now (compare_and_set_status s id approved consumed)
]

-- Over the rows as they were listed before the loop.
unfoldable pub expire_requests : Store → ℕ → List ApprovalRequest → Store × List String
expire_requests s now [] = (s, [])
expire_requests s now (r ∷ rs) =
    let next = put_request s r.approval_id (record r { status = expired }) in
    let hit = expire_requests next now rs in
    let miss = expire_requests s now rs in
    if r.status == pending && is_past now r.expires_at then (hit.0, r.approval_id ∷ hit.1) else miss

unfoldable pub expire_stale_requests : Store → ℕ → Store × List String
expire_stale_requests s now = expire_requests s now (values s.approval_requests)
