-- ===== src/Orchestration/Refinement.antt =====
-- The approval queue refines its abstract machine.
use nexara_prime.Base.{◌≡◌, refl, ap, ◌∙◌, true, List, [], ◌∷◌, string_eq, nat_eq}
use mathlib.Core.Path.{fun_ext}
use nexara_prime.Orchestration.{
  queue_state_eq, lease_state_eq, claim_id_eq, ApprovalStatus, approval_status_eq,
  recovery_state_eq, verification_status_eq, Store,
}
use nexara_prime.Orchestration.Approvals.{approve_request, reject_request}
use nexara_prime.Orchestration.Calls.{
  view, Call, create, approve, reject, revoke, consume, expire, call, call_spec, run, run_spec,
}
use nexara_prime.Orchestration.Views.{
  create_request-view, decide_request-view, revoke_request-view, consume_request-view,
}
use nexara_prime.Orchestration.Keyed.{keyed, call-keyed}
use nexara_prime.Orchestration.Expiry.{expire_stale_requests-view}

call_refines :
    (s : Store) (c : Call)
    → keyed s.approval_requests ≡ true
    → view (call s c) ≡ call_spec (view s) c
unfolding call call_spec approve_request reject_request
call_refines s (create r) h = fun_ext (λ j. create_request-view s r j)
call_refines s (approve id actor now) h =
    fun_ext (λ j. decide_request-view s id j ApprovalStatus.approved actor now)
call_refines s (reject id actor now) h =
    fun_ext (λ j. decide_request-view s id j ApprovalStatus.rejected actor now)
call_refines s (revoke id now) h = fun_ext (λ j. revoke_request-view s id j now)
call_refines s (consume id now) h = fun_ext (λ j. consume_request-view s id j now)
call_refines s (expire now) h = fun_ext (λ j. expire_stale_requests-view s now j h)

-- Where each request of the table stands once, under its own id: any sequence of creations, approvals,
-- rejections, revocations, consumptions and expiries of stale requests, seen by the status and the
-- expiry of each request, is the run of the abstract machine. There a pending request is approved or
-- rejected, or expires; an expiry ends all pending requests whose time has passed, and them only; an
-- approved one alone is consumed; all but a consumed one can be revoked to pending; and a creation
-- puts its request in place of what its id had.
pub run_refines :
    (s : Store) (cs : List Call)
    → keyed s.approval_requests ≡ true
    → view (run s cs) ≡ run_spec (view s) cs
unfolding run run_spec
run_refines s [] h = refl
run_refines s (c ∷ cs) h =
    run_refines (call s c) cs (call-keyed s c h) ∙ ap (λ v. run_spec v cs) (call_refines s c h)
