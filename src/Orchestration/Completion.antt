-- ===== src/Orchestration/Completion.antt =====
-- When a mission completes.
use nexara_prime.Base.{
  ℕ, String, ◌≡◌, Bool, true, ◌&&◌, Option, none, some, if◌then◌else◌, not, ◌||◌, all, ◌==◌,
  string_eq, nat_eq,
}
use nexara_prime.Base.Dict.{get, values}
use nexara_prime.Orchestration.{
  completed, running, active, verified, ClaimId, queue_state_eq, MissionQueueItem, released,
  lease_state_eq, claim_id_eq, Lease, approval_status_eq, recovery_state_eq, verification_status_eq,
  Store, emit,
}
use nexara_prime.Orchestration.Queue.{transition_item}
use nexara_prime.Orchestration.Leases.{release_writer}

-- The store once a mission has completed.
abbrev completed_store : Store → String → String → ℕ → Store
completed_store s id worker now =
    emit (release_writer (transition_item s id completed none now).0 id worker).0
      "mission_completed" id

abbrev pub completed_item : MissionQueueItem → ℕ → MissionQueueItem
completed_item i now = record i { state = completed; updated_at = now }

abbrev pub no_failure : Option Bool → Bool
no_failure none = true
no_failure (some succeeded) = succeeded

-- The mission is running, its newest lease is active and of the worker, each of its evidence jobs is
-- verified, and the worker reports no failure.
abbrev pub may_complete : Store → String → String → Option Bool → MissionQueueItem → Lease → Bool
may_complete s id worker result i l =
    i.state == running
    && ((l.state == active && l.worker_id == worker)
        && (all (λ j. not (j.mission_id == id) || j.verification_status == verified)
              (values s.evidence_queue)
            && no_failure result))

-- What a completion that is granted or not leaves at a mission and at a lease.
abbrev pub Ended :
    Store → String → ℕ → MissionQueueItem → Lease → String → ClaimId → Bool → Store × Bool → Type 0
Ended s id now i l j k ok (s', answer) =
    (answer ≡ ok)
    × (get s'.mission_queue j
        ≡ (if ok && id == j then some (completed_item i now) else get s.mission_queue j))
    × (get s'.writer_leases k ≡ (
        if ok && l.lease_id == k
        then some (record l { state = released })
        else get s.writer_leases k))
