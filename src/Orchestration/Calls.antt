-- ===== src/Orchestration/Calls.antt =====
-- src/nexara_prime/orchestration.py: `ApprovalQueue` as an abstract machine. What a client sees of a
-- request is its status and its expiry, and each operation is a change of that view: at one id, or, for
-- the expiry of stale requests, at each.
use nexara_prime.Base.{
  ℕ, String, ◌&&◌, Option, none, some, List, [], ◌∷◌, if◌then◌else◌, ◌==◌, string_eq, nat_eq,
}
use nexara_prime.Base.Dict.{get}
use nexara_prime.Orchestration.{
  Stamp, queue_state_eq, lease_state_eq, claim_id_eq, ApprovalStatus, approval_status_eq,
  ApprovalRequest, recovery_state_eq, verification_status_eq, Store,
}
use nexara_prime.Orchestration.Approvals.{
  create_request, is_past, approve_request, reject_request, revoke_request, consume_request,
  expire_stale_requests,
}

abbrev pub Seen : Type 0
Seen = Option (ApprovalStatus × Stamp)

abbrev pub View : Type 0
View = String → Seen

abbrev pub seen : Option ApprovalRequest → Seen
seen none = none
seen (some r) = some (r.status, r.expires_at)

unfoldable pub view : Store → View
view s id = seen (get s.approval_requests id)

-- The view changed at one id.
abbrev pub update : View → String → Seen → View
update v id x j = if id == j then x else v j

pub data Call : Type 0 where
  create : ApprovalRequest → Call
  approve reject : String → String → ℕ → Call
  revoke consume : String → ℕ → Call
  expire : ℕ → Call

unfoldable pub call : Store → Call → Store
call s (create r) = create_request s r
call s (approve id actor now) = (approve_request s id actor now).0
call s (reject id actor now) = (reject_request s id actor now).0
call s (revoke id now) = (revoke_request s id now).0
call s (consume id now) = (consume_request s id now).0
call s (expire now) = (expire_stale_requests s now).0

-- A decision on a pending request, or its expiry.
unfoldable pub decide_spec : ApprovalStatus → ℕ → Seen → Seen
decide_spec target now none = none
decide_spec target now (some (q, e)) =
    if q == ApprovalStatus.pending
    then (if is_past now e then some (ApprovalStatus.expired, e) else some (target, e))
    else some (q, e)

unfoldable pub revoke_spec : Seen → Seen
revoke_spec none = none
revoke_spec (some (q, e)) =
    if q == ApprovalStatus.consumed then some (q, e) else some (ApprovalStatus.pending, e)

unfoldable pub consume_spec : Seen → Seen
consume_spec none = none
consume_spec (some (q, e)) =
    if q == ApprovalStatus.approved then some (ApprovalStatus.consumed, e) else some (q, e)

-- The expiry of a pending request whose time has passed.
unfoldable pub expire_spec : ℕ → Seen → Seen
expire_spec now none = none
expire_spec now (some (q, e)) =
    if q == ApprovalStatus.pending && is_past now e
    then some (ApprovalStatus.expired, e)
    else some (q, e)

unfoldable pub call_spec : View → Call → View
call_spec v (create r) = update v r.approval_id (some (r.status, r.expires_at))
call_spec v (approve id actor now) = update v id (decide_spec ApprovalStatus.approved now (v id))
call_spec v (reject id actor now) = update v id (decide_spec ApprovalStatus.rejected now (v id))
call_spec v (revoke id now) = update v id (revoke_spec (v id))
call_spec v (consume id now) = update v id (consume_spec (v id))
call_spec v (expire now) = λ j. expire_spec now (v j)

unfoldable pub run : Store → List Call → Store
run s [] = s
run s (c ∷ cs) = run (call s c) cs

unfoldable pub run_spec : View → List Call → View
run_spec v [] = v
run_spec v (c ∷ cs) = run_spec (call_spec v c) cs
