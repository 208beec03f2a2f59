-- ===== src/Orchestration/Control.antt =====
-- src/nexara_prime/orchestration.py: `RuntimeOrchestrator`. The ids of new recovery items are an
-- argument, numbered by the leases that a cycle recovers.
use nexara_prime.Base.{
  ℕ, zero, suc, ◌+◌, String, Bool, true, false, not, ◌&&◌, ◌||◌, Option, none, some, List, [], ◌∷◌,
  map, ltb, leb, if◌then◌else◌, ◌==◌, contains, string_eq, nat_eq, length, any, is_some,
}
use nexara_prime.Base.Dict.{values}
use nexara_prime.Orchestration.{
  instant, QueueItemState, ready, queued, leased, blocked, waiting_approval, completed,
  queue_state_eq, MissionQueueItem, WorkerDescriptor, Lease, active, lease_state_eq, ApprovalStatus,
  ApprovalRequest, lease_expired, RecoveryItem, RecoveryState, recovery_state_eq, Store, emit,
}
use nexara_prime.Orchestration.Queue.{
  dequeue, dependencies_met, transition_item, bump_attempt, get_item, list_by_state, count_by_state,
}
use nexara_prime.Orchestration.Workers.{schedule, list_available}
use nexara_prime.Orchestration.Leases.{
  latest_active_lease, acquire_writer, release_writer, expire_stale_leases, recover_stale,
}
use nexara_prime.Orchestration.Approvals.{list_pending, expire_stale_requests}
use nexara_prime.Orchestration.Recoveries.{enqueue_recovery}
use nexara_prime.Orchestration.Jobs.{completion_gate_passed}

pub record RuntimeOrchestrator : Type 0 where
  pub store : Store
  pub max_cycles : ℕ
  pub auto_resume : Bool
  pub running : Bool
  pub stop_flag : Bool
  pub cycle_count : ℕ

unfoldable pub start_control : RuntimeOrchestrator → RuntimeOrchestrator
start_control o = if o.running then o else record o {
  running = true;
  stop_flag = false;
  store = emit o.store "orchestrator_started" "orchestrator";
}

unfoldable pub stop_control : RuntimeOrchestrator → RuntimeOrchestrator
stop_control o = record o { running = false; stop_flag = true }

pub record OrchestratorStatus : Type 0 where
  pub is_active : Bool
  pub total_queued : ℕ
  pub total_running : ℕ
  pub total_blocked : ℕ
  pub total_completed : ℕ
  pub pending_approvals : ℕ
  pub active_workers : ℕ

unfoldable pub control_status : RuntimeOrchestrator → ℕ → OrchestratorStatus
control_status o now = record {
  is_active = o.running;
  total_queued = count_by_state o.store queued + count_by_state o.store ready;
  total_running = count_by_state o.store QueueItemState.running + count_by_state o.store leased;
  total_blocked = count_by_state o.store blocked;
  total_completed = count_by_state o.store completed;
  pending_approvals = length (list_pending o.store);
  active_workers = length (list_available o.store now);
}

abbrev pub held_by : String → Option Lease → Bool
held_by worker none = false
held_by worker (some l) = l.state == active && l.worker_id == worker

unfoldable pub lease_held_by : Store → String → String → Bool
lease_held_by s mission worker = held_by worker (latest_active_lease s mission)

unfoldable pub has_pending_approval : Store → String → Bool
has_pending_approval s id = any (λ r. r.mission_id == id) (list_pending s)

-- What the status of a request says of its mission: blocked, free, or nothing.
unfoldable pub status_blocks : ApprovalStatus → Option Bool
status_blocks ApprovalStatus.consumed = some false
status_blocks ApprovalStatus.approved = some false
status_blocks ApprovalStatus.pending = some true
status_blocks ApprovalStatus.rejected = some true
status_blocks ApprovalStatus.expired = some true
status_blocks ApprovalStatus.changes_requested = none
status_blocks ApprovalStatus.paused = none

abbrev pub first_verdict : Option Bool → Bool → Bool
first_verdict none rest = rest
first_verdict (some b) rest = b

unfoldable pub blocked_by : String → List ApprovalRequest → Bool
blocked_by id [] = false
blocked_by id (r ∷ rs) =
    let rest = blocked_by id rs in
    if r.mission_id == id then first_verdict (status_blocks r.status) rest else rest

unfoldable pub is_approval_blocked : Store → String → Bool
is_approval_blocked s id = blocked_by id (values s.approval_requests)

-- QUEUED to READY, over the items as they were listed before the loop.
unfoldable pub promote_queued : Store → ℕ → List MissionQueueItem → Store
promote_queued s now [] = s
promote_queued s now (i ∷ is) =
    promote_queued
      (if dependencies_met s i then (transition_item s i.mission_id ready none now).0 else s) now is

-- WAITING_APPROVAL to READY.
unfoldable pub promote_waiting : Store → ℕ → List MissionQueueItem → Store
promote_waiting s now [] = s
promote_waiting s now (i ∷ is) =
    promote_waiting
      (if has_pending_approval s i.mission_id
        then s
        else (transition_item s i.mission_id ready none now).0)
      now is

unfoldable pub hand_off : Store → ℕ → String → WorkerDescriptor → Store × Bool → Store
hand_off s now id w (s', false) = s'
hand_off s now id w (s', true) =
    emit (transition_item s' id QueueItemState.running (some (w.worker_id, instant now)) now).0
      "mission_dispatched" id

unfoldable pub dispatch_to : Store → ℕ → String → Option WorkerDescriptor → Store
dispatch_to s now id none = emit (transition_item s id blocked none now).0 "no_capable_worker" id
dispatch_to s now id (some w) = hand_off s now id w (acquire_writer s id w.worker_id none now)

-- One turn of the loop that hands READY missions to workers.
unfoldable pub dispatch_item : Store → ℕ → MissionQueueItem → Store
dispatch_item s now i =
    if is_approval_blocked s i.mission_id
    then emit (transition_item s i.mission_id waiting_approval none now).0
        "mission_waiting_approval" i.mission_id
    else dispatch_to s now i.mission_id (schedule s now i)

-- `while True` on fuel; `none` if it runs out.
unfoldable pub dispatch : ℕ → List String → Store → ℕ → Option Store
dispatch zero processed s now = none
dispatch (suc fuel) processed s now = elim (dequeue s now) [
  | none ↦ some s
  | some i ↦
      let rest = dispatch fuel (i.mission_id ∷ processed) (dispatch_item s now i) now in
      if contains processed i.mission_id then some s else rest
]

abbrev pub interrupted : Option MissionQueueItem → Bool
interrupted none = false
interrupted (some i) = i.state == leased || i.state == QueueItemState.running

unfoldable pub retry_or_block : Store → String → String → ℕ → Option MissionQueueItem → Store
retry_or_block s id recovery_id now none = (transition_item s id ready none now).0
retry_or_block s id recovery_id now (some i) =
    if leb i.max_attempts i.attempt_count
    then enqueue_recovery (transition_item s id blocked none now).0 recovery_id id lease_expired now
    else (transition_item s id ready none now).0

unfoldable pub resume_mission : Store → String → String → ℕ → Store
resume_mission s id recovery_id now =
    let s' = emit s "stale_lease_recovered" id in
    let bumped = (bump_attempt s' id now).0 in
    if interrupted (get_item s' id)
    then retry_or_block bumped id recovery_id now (get_item bumped id)
    else s'

-- Over the missions of the leases that expired, with the number recovered so far.
unfoldable pub resume_missions : Store → List String → (ℕ → String) → ℕ → ℕ → Store × ℕ
resume_missions s [] ids n now = (s, n)
resume_missions s (id ∷ rest) ids n now =
    let hit = resume_missions (resume_mission s id (ids n) now) rest ids (suc n) now in
    let miss = resume_missions s rest ids n now in
    if is_some (recover_stale s id) then hit else miss

abbrev pub reconciled : Store × ℕ → Store
reconciled (s, n) = if ltb 0 n then emit s "crash_resume_performed" "orchestrator" else s

unfoldable pub crash_resume : Store → (ℕ → String) → ℕ → Store
crash_resume s ids now =
    let (s', missions) = expire_stale_leases s now in
    reconciled (resume_missions s' missions ids 0 now)

-- A cycle up to the dispatch of READY missions.
unfoldable pub prepare_cycle : Bool → Store → (ℕ → String) → ℕ → Store
prepare_cycle auto_resume s ids now =
    let s1 = if auto_resume then crash_resume s ids now else s in
    let s2 = (expire_stale_requests s1 now).0 in
    let s3 = promote_queued s2 now (list_by_state s2 queued) in
    promote_waiting s3 now (list_by_state s3 waiting_approval)

-- Two turns more than there are missions.
unfoldable pub execute_control_cycle : Bool → Store → (ℕ → String) → ℕ → Option Store
execute_control_cycle auto_resume s ids now =
    let s' = prepare_cycle auto_resume s ids now in
    dispatch (suc (suc (length s'.mission_queue))) [] s' now

unfoldable pub count_cycle : RuntimeOrchestrator → Store → RuntimeOrchestrator
count_cycle o s =
    let n = suc o.cycle_count in
    record o {
      store = s;
      cycle_count = n;
      running = o.running && not (ltb 0 o.max_cycles && leb o.max_cycles n);
    }

-- One turn of the loop; `none` as for the cycle.
unfoldable pub control_turn : RuntimeOrchestrator → (ℕ → String) → ℕ → Option RuntimeOrchestrator
control_turn o ids now =
    if o.running && not o.stop_flag
    then elim (execute_control_cycle o.auto_resume o.store ids now) [
      | none ↦ none
      | some s ↦ some (count_cycle o s)
    ]
    else some o

abbrev pub or_true : Option Bool → Bool
or_true none = true
or_true (some b) = b

-- The result of the worker is whether it succeeded, if there is one.
unfoldable pub complete_checked : Store → String → String → Option Bool → ℕ → Store × Bool
complete_checked s id worker result now =
    if not (lease_held_by s id worker)
    then (emit s "complete_mission_lease_mismatch" id, false)
    else if not (completion_gate_passed s id)
    then (emit s "evidence_gate_blocked" id, false)
    else if not (or_true result)
    then (emit s "worker_result_failed" id, false)
    else (
      emit (release_writer (transition_item s id completed none now).0 id worker).0
          "mission_completed" id,
      true,
    )

abbrev pub is_running : Option MissionQueueItem → Bool
is_running none = false
is_running (some i) = i.state == QueueItemState.running

unfoldable pub complete_mission : Store → String → String → Option Bool → ℕ → Store × Bool
complete_mission s id worker result now =
    if is_running (get_item s id) then complete_checked s id worker result now else (s, false)

unfoldable pub exhausted_in : List RecoveryItem → List RecoveryItem
exhausted_in [] = []
exhausted_in (i ∷ is) =
    let rest = exhausted_in is in if i.state == RecoveryState.exhausted then i ∷ rest else rest

pub record HumanAction : Type 0 where
  pub pending_approvals : ℕ
  pub blocked_missions : ℕ
  pub failed_recoveries : ℕ
  pub approval_actions : List (String × String × String)

unfoldable pub human_action_required : Store → HumanAction
human_action_required s = record {
  pending_approvals = length (list_pending s);
  blocked_missions = count_by_state s blocked;
  failed_recoveries = length (exhausted_in (values s.recovery_queue));
  approval_actions = map (λ r. (r.approval_id, r.action, r.mission_id)) (list_pending s);
}
