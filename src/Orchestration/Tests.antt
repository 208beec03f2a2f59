-- ===== src/Orchestration/Tests.antt =====
-- Runs of the control plane on small stores.
use nexara_prime.Base.{
  pos, negsuc, ℕ, ◌<◌, String, ◌≡◌, refl, ◌↔◌, Bool, true, false, none, some, List, [], ◌∷◌, arith,
  string_eq, nat_eq, any,
}
use nexara_prime.Base.Dict.{get, put, save, remove, values}
use nexara_prime.Orchestration.{
  missing, instant, instant_before, instant_before_or_equal, QueueItemState, queued, ready,
  queue_state_eq, QueueItemState-discrete, MissionQueueItem, WorkerDescriptor, released,
  lease_state_eq, LeaseState-discrete, claim_id_eq, Lease, ApprovalStatus, approval_status_eq,
  ApprovalStatus-discrete, ApprovalRequest, lease_expired, recovery_state_eq, RecoveryItem,
  unverified, verified, failed, verification_status_eq, EvidenceJob, Store, emit, add_evidence,
}
use nexara_prime.Orchestration.Queue.{
  enqueue_mission, dependencies_met, is_candidate, candidates, first_item, dequeue,
}
use nexara_prime.Orchestration.Workers.{
  is_live_worker, live_workers, list_available, capability_match, risk_compatible, suits, suited,
  first_worker, schedule,
}
use nexara_prime.Orchestration.Leases.{
  expiry, newest, latest_active_lease, blocks, save_lease, new_lease, save_if_absent, check_writer,
  claim_writer, acquire_writer, heartbeat_writer, renew_writer,
}
use nexara_prime.Orchestration.Approvals.{
  put_request, create_request, compare_and_set_status, after_consumption, consume_request,
}
use nexara_prime.Orchestration.Recoveries.{enqueue_recovery}
use nexara_prime.Orchestration.Jobs.{enqueue_job, complete_job}
use nexara_prime.Orchestration.Control.{
  blocked_by, is_approval_blocked, dispatch, resume_mission, execute_control_cycle,
}
use nexara_prime.Orchestration.Calls.{Call, approve, revoke, consume, expire, view, run, run_spec}
use nexara_prime.Orchestration.Keyed.{keyed}
use nexara_prime.Orchestration.Refinement.{run_refines}
use nexara_prime.Orchestration.Consumption.{consumed_once}
use nexara_prime.Orchestration.Strategies.{ask_each, OutOfStrategies, recovery_exhausts}
use nexara_prime.Orchestration.Gate.{complete_job-again, job_status}
use nexara_prime.Orchestration.Resume.{resumed, resume_mission-attempt}
use nexara_prime.Repair.{r3}
use nexara_prime.Orchestration.Order.{Dequeued, dequeue_lem}
use nexara_prime.Orchestration.Placement.{Placed, schedule_lem}
use nexara_prime.Orchestration.Keys.{enqueue_mission-again}
use nexara_prime.Orchestration.Dispatch.{execute_control_cycle-total}
use nexara_prime.Orchestration.Conflicts.{conflict_ends_cycle}
use nexara_prime.Orchestration.Held.{under_ids}
use nexara_prime.Orchestration.Others.{LeaseCall, lease_calls}
use nexara_prime.Orchestration.Others.LeaseCall.{acquire, release, heartbeat}
use nexara_prime.Orchestration.Exclusion.{acquire_writer-exclusive, renew_writer-dead}

abbrev empty_store : Store
empty_store = record {
  mission_queue = [];
  worker_registry = [];
  writer_leases = [];
  approval_requests = [];
  recovery_queue = [];
  evidence_queue = [];
  events = [];
  evidence = [];
}

abbrev item : String → ℕ → QueueItemState → MissionQueueItem
item id priority q = record {
  mission_id = id;
  priority = pos priority;
  state = q;
  risk_level = r3;
  dependencies = [];
  required_capabilities = "shell" ∷ [];
  preferred_worker = none;
  attempt_count = 0;
  max_attempts = 2;
  available_at = missing;
  idempotency_key = some "k";
  lease_owner = none;
  lease_expires_at = missing;
  created_at = 1;
  updated_at = 1;
}

abbrev worker : String → Bool → WorkerDescriptor
worker id writes = record {
  worker_id = id;
  capabilities = "shell" ∷ [];
  available = true;
  health = "healthy";
  writer_capable = writes;
  last_heartbeat = instant 400000000;
}

-- Two missions are ready, and one of two workers may write.
abbrev busy_store : Store
busy_store = record empty_store {
  mission_queue = ("a", item "a" 1 ready) ∷ ("b", item "b" 5 ready) ∷ [];
  worker_registry = ("w", worker "w" false) ∷ ("v", worker "v" true) ∷ [];
}

abbrev clock : ℕ
clock = 500000000

abbrev ids : ℕ → String
ids n = "r"

dequeue_lem_example : Dequeued busy_store clock (dequeue busy_store clock)
dequeue_lem_example = dequeue_lem busy_store clock

schedule_lem_example :
    Placed busy_store clock (item "b" 5 ready) (schedule busy_store clock (item "b" 5 ready))
schedule_lem_example = schedule_lem busy_store clock (item "b" 5 ready)

picks_b : dequeue busy_store clock ≡ some (item "b" 5 ready)
unfolding dequeue candidates is_candidate first_item values string_eq nat_eq QueueItemState-discrete
    dependencies_met
picks_b = refl

enqueue_mission-again_example :
    enqueue_mission (enqueue_mission empty_store (item "a" 1 ready)).0 (item "b" 2 queued) ≡ (
      (enqueue_mission empty_store (item "a" 1 ready)).0,
      (enqueue_mission empty_store (item "a" 1 ready)).1,
    )
unfolding string_eq QueueItemState-discrete
enqueue_mission-again_example =
    enqueue_mission-again empty_store (item "a" 1 ready) (item "b" 2 queued) "k" refl refl refl

execute_control_cycle-total_example :
    (s : Store) × (execute_control_cycle true busy_store ids clock ≡ some s)
execute_control_cycle-total_example = execute_control_cycle-total true busy_store ids clock

granted_v : (acquire_writer busy_store "b" "v" none clock).1 ≡ true
unfolding acquire_writer check_writer claim_writer save_if_absent values get
granted_v = refl

-- What the other worker and a third try while "v" holds the lease.
abbrev tries : List LeaseCall
tries =
    acquire "b" "w" none 500000001
    ∷ release "b" "w"
    ∷ acquire "a" "w" (some (negsuc 0)) 500000002
    ∷ LeaseCall.expire 500000003
    ∷ heartbeat "a" "w" 500000004
    ∷ []

acquire_writer-exclusive_example :
    (any (blocks "b" clock) (values busy_store.writer_leases) ≡ false)
    × (acquire_writer
          (lease_calls (acquire_writer busy_store "b" "v" none clock).0 tries)
          "b"
          "w"
          none
          600000000
        ≡ (lease_calls (acquire_writer busy_store "b" "v" none clock).0 tries, false))
unfolding under_ids string_eq
acquire_writer-exclusive_example =
    acquire_writer-exclusive busy_store "b" "v" "w" none none clock 600000000 tries refl granted_v
      refl refl

-- The lease of "b" is taken.
abbrev leased_store : Store
leased_store = (acquire_writer busy_store "b" "v" none 499000000).0

conflict_ends_cycle_example : dispatch 4 [] leased_store clock ≡ some leased_store
unfolding dequeue candidates is_candidate first_item values get string_eq nat_eq is_approval_blocked
    blocked_by schedule list_available live_workers is_live_worker suited suits first_worker
    acquire_writer check_writer claim_writer save_if_absent emit blocks QueueItemState-discrete
    dependencies_met instant_before_or_equal capability_match risk_compatible new_lease
    LeaseState-discrete instant_before
conflict_ends_cycle_example =
    conflict_ends_cycle 2 leased_store clock (item "b" 5 ready) (worker "v" true) refl refl refl
      refl

abbrev released_lease : Lease
released_lease = record (new_lease "b" "v" none clock) { state = released }

abbrev released_store : Store
released_store = save_lease busy_store released_lease

renew_writer-dead_example :
    ((renew_writer released_store "b" "v" none clock).1 ≡ true)
    × (get (renew_writer released_store "b" "v" none clock).0.writer_leases released_lease.lease_id
        ≡ some (record released_lease { heartbeat_at = clock; expires_at = expiry clock none }))
    × (heartbeat_writer released_store "b" "v" clock ≡ (released_store, false))
unfolding latest_active_lease newest values save save_lease remove string_eq nat_eq new_lease
renew_writer-dead_example =
    renew_writer-dead released_store "b" none clock released_lease refl (λ h. ground arith)

abbrev asked : ApprovalRequest
asked = record {
  approval_id = "q";
  mission_id = "b";
  action = "deploy";
  expires_at = instant 600000000;
  status = ApprovalStatus.approved;
  decided_by = none;
  decided_at = missing;
}

abbrev asked_store : Store
asked_store = create_request empty_store asked

abbrev spent_store : Store
spent_store = (consume_request asked_store "q" clock).0

abbrev answered : ApprovalRequest
answered = record asked { status = ApprovalStatus.consumed; decided_at = instant clock }

abbrev attempts : List Call
attempts = revoke "q" clock ∷ expire 700000000 ∷ approve "q" "me" clock ∷ consume "q" clock ∷ []

run_refines_example : view (run spent_store attempts) ≡ run_spec (view spent_store) attempts
unfolding keyed consume_request create_request put_request emit get save remove string_eq
    ApprovalStatus-discrete after_consumption compare_and_set_status put add_evidence
run_refines_example = run_refines spent_store attempts refl

consumed_once_example :
    consume_request (run spent_store attempts) "q" clock ≡ (run spent_store attempts, none)
unfolding consume_request create_request put_request emit get save remove string_eq
    ApprovalStatus-discrete after_consumption compare_and_set_status put add_evidence keyed
consumed_once_example = consumed_once asked_store "q" clock clock answered attempts refl refl refl

recovery_exhausts_example :
    (j : RecoveryItem) × ((ask_each
        (enqueue_recovery empty_store "r" "b" lease_expired 1)
        "r"
        (("x", none, 2) ∷ ("y", none, 3) ∷ ("z", none, 4) ∷ ("u", none, 5) ∷ [])).1
      ≡ some j)
    × OutOfStrategies "y" j
recovery_exhausts_example =
    recovery_exhausts empty_store "r" "b" lease_expired 1 2 3 4 "x" "y" "z" none none none
      (("u", none, 5) ∷ [])

abbrev job : EvidenceJob
job = record {
  evidence_job_id = "e";
  mission_id = "b";
  evidence_type = "test_output";
  checksum = some "right";
  exit_code = none;
  verification_status = unverified;
  completed_at = missing;
}

abbrev job_store : Store
job_store = enqueue_job empty_store job

complete_job-again_example :
    (job_status (complete_job job_store "e" 0 (some "wrong") 1).1 ≡ some failed)
    × (job_status
          (complete_job (complete_job job_store "e" 0 (some "wrong") 1).0 "e" 0 (some "wrong") 2).1
        ≡ some verified)
unfolding enqueue_job get save remove string_eq
complete_job-again_example =
    complete_job-again job_store "e" "right" "wrong" 1 2 job refl refl refl refl

abbrev running_item : MissionQueueItem
running_item = item "b" 5 QueueItemState.running

abbrev running_store : Store
running_store = record leased_store { mission_queue = ("b", running_item) ∷ [] }

abbrev held_lease : Lease
held_lease = new_lease "b" "v" none 499000000

resume_mission-attempt_example :
    (get (resume_mission running_store "b" "r" clock).mission_queue "b"
      ≡ some (resumed running_item clock))
    × (((resumed running_item clock).state ≡ ready) ↔ (1 < 2))
unfolding get string_eq QueueItemState-discrete
resume_mission-attempt_example =
    resume_mission-attempt running_store "b" "r" clock running_item refl refl
