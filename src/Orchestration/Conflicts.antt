-- ===== src/Orchestration/Conflicts.antt =====
-- What a lease conflict does to a cycle.
use nexara_prime.Base.{
  ℤ, ℕ, suc, String, ◌≡◌, refl, ap, ◌∙◌, Bool, true, false, Option, none, some, List, [], ◌∷◌,
  arith, if◌then◌else◌, contains, ==-refl, string_eq, nat_eq,
}
use nexara_prime.Orchestration.{
  queue_state_eq, MissionQueueItem, WorkerDescriptor, lease_state_eq, claim_id_eq,
  approval_status_eq, recovery_state_eq, verification_status_eq, Store,
}
use nexara_prime.Orchestration.Queue.{dequeue}
use nexara_prime.Orchestration.Workers.{schedule}
use nexara_prime.Orchestration.Leases.{save_if_absent, check_writer, claim_writer, acquire_writer}
use nexara_prime.Orchestration.Control.{
  is_approval_blocked, hand_off, dispatch_to, dispatch_item, dispatch,
}

acquire_writer-refused :
    (s : Store) (m w : String) (ttl : Option ℤ) (now : ℕ)
    → (acquire_writer s m w ttl now).1 ≡ false
    → (acquire_writer s m w ttl now).0 ≡ s
unfolding acquire_writer check_writer claim_writer save_if_absent
acquire_writer-refused s m w ttl now h = ground arith

hand_off-refused :
    (s : Store) (now : ℕ) (id : String) (w : WorkerDescriptor) (r : Store × Bool)
    → r.1 ≡ false
    → r.0 ≡ s
    → hand_off s now id w r ≡ s
unfolding hand_off
hand_off-refused s now id w (s', true) h same = cc
hand_off-refused s now id w (s', false) h same = same

conflict-unchanged :
    (s : Store) (now : ℕ) (i : MissionQueueItem) (w : WorkerDescriptor)
    → is_approval_blocked s i.mission_id ≡ false
    → schedule s now i ≡ some w
    → (acquire_writer s i.mission_id w.worker_id none now).1 ≡ false
    → dispatch_item s now i ≡ s
unfolding dispatch_item dispatch_to
conflict-unchanged s now i w free chosen refused =
    rw (dispatch_item, free, dispatch_to, chosen)
      (hand_off-refused s now i.mission_id w _ refused
        (acquire_writer-refused s i.mission_id w.worker_id none now refused))

dispatch-picked :
    (fuel : ℕ) (seen : List String) (s : Store) (now : ℕ) (i : MissionQueueItem)
    → dequeue s now ≡ some i
    → dispatch (suc fuel) seen s now ≡ (
        if contains seen i.mission_id
        then some s
        else dispatch fuel (i.mission_id ∷ seen) (dispatch_item s now i) now)
unfolding dispatch
dispatch-picked fuel seen s now i picked = rw (dispatch, picked) refl

dispatch_again :
    (fuel : ℕ) (s : Store) (now : ℕ) (i : MissionQueueItem)
    → dequeue s now ≡ some i
    → dispatch (suc fuel) (i.mission_id ∷ []) s now ≡ some s
dispatch_again fuel s now i picked =
    dispatch-picked fuel (i.mission_id ∷ []) s now i picked ∙ (rw (==-refl i.mission_id) refl)

-- A lease conflict ends the dispatch of a cycle: where the first mission in order is free to run and
-- has a worker but its lease is taken, no mission at all is handed out, whatever else is ready.
pub conflict_ends_cycle :
    (fuel : ℕ) (s : Store) (now : ℕ) (i : MissionQueueItem) (w : WorkerDescriptor)
    → dequeue s now ≡ some i
    → is_approval_blocked s i.mission_id ≡ false
    → schedule s now i ≡ some w
    → (acquire_writer s i.mission_id w.worker_id none now).1 ≡ false
    → dispatch (suc (suc fuel)) [] s now ≡ some s
conflict_ends_cycle fuel s now i w picked free chosen refused =
    dispatch-picked (suc fuel) [] s now i picked
    ∙ ap (λ x. dispatch (suc fuel) (i.mission_id ∷ []) x now)
        (conflict-unchanged s now i w free chosen refused)
    ∙ dispatch_again fuel s now i picked
