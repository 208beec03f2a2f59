-- ===== src/Loop.antt =====
-- src/nexara_prime/program_loop.py: the state of `ProgramLoop` and one orchestration cycle.
-- What the store, the scheduler, the runtime and the callback answer during a cycle is an argument.
-- Durations and the up time, which nothing reads back, are left out.
pub mod Thread
pub mod Leases
pub mod Results
pub mod Counts
pub mod Control
pub mod Tests
use nexara_prime.Base.{
  ℕ, zero, suc, ◌+◌, ◌-◌, ◌*◌, ◌/◌, ◌≤◌, ◌<◌, min, max, String, ◌<>◌, ◌≡◌, refl, sym, ap, ◌∙◌, ◌≢◌,
  ◌↔◌, ◌⊎◌, inl, inr, Bool, true, false, not, ◌&&◌, ◌||◌, Option, none, some, List, [], ◌∷◌, ◌++◌,
  map, arith, ltb, leb, if◌then◌else◌, Bool-cases, Option-cases, Eq, ◌==◌, eq_iff, contains,
  ==-refl, string_eq, nat_eq, length, get_elem?, length-append, all, all-get_elem?, any, All,
  All-append, is_some, or_else,
}
use nexara_prime.Base.Text.{str_lt}

pub data LoopPhase : Type 0 where
  idle loading selecting acquiring executing verifying persisting checkpointing scheduling :
      LoopPhase

pub data LoopStatus : Type 0 where
  stopped starting running pausing paused resuming stopping crashed : LoopStatus

pub record ProgramLoopConfig : Type 0 where
  pub max_cycles : ℕ
  pub backpressure_threshold : ℕ
  pub checkpoint_interval : ℕ

pub record LoopState : Type 0 where
  pub status : LoopStatus
  pub phase : LoopPhase
  pub cycle_count : ℕ
  pub success_count : ℕ
  pub failure_count : ℕ
  pub skipped_count : ℕ
  pub current_mission_id : String
  pub last_heartbeat : String
  pub last_checkpoint : String
  pub last_error : String
  pub backpressure_active : Bool

pub record CycleResult : Type 0 where
  pub cycle_number : ℕ
  pub success : Bool
  pub phase_reached : LoopPhase
  pub mission_id : String
  pub action : String
  pub output : String
  pub error : String
  pub lease_acquired : Bool

-- The fields of a mission record that the loop reads; a missing one is "".
pub record MissionRecord : Type 0 where
  pub mission_id : String
  pub state : String
  pub created_at : String

-- The store behind the runtime: the missions with a lease record, and whether it has a method
-- `delete_record`.
pub record LeaseStore : Type 0 where
  pub held : List String
  pub deletes : Bool

pub record Checkpoint : Type 0 where
  pub cycle_count : ℕ
  pub success_count : ℕ
  pub failure_count : ℕ
  pub status : LoopStatus

-- `instance_id` is an attribute that the class never sets: `none` until somebody else does.
pub record ProgramLoop : Type 0 where
  pub config : ProgramLoopConfig
  pub state : LoopState
  pub stop_event : Bool
  pub pause_event : Bool
  pub active_leases : List String
  pub cycles : List CycleResult
  pub instance_id : Option String
  pub store : Option LeaseStore
  pub checkpoints : List Checkpoint

-- `run_mission`: the state that the mission ends in and its text, or an exception.
pub data RunOutcome : Type 0 where
  returned : String → String → RunOutcome
  raised : String → RunOutcome

pub data Runtime : Type 0 where
  no_runtime : Runtime
  runs : RunOutcome → Runtime

-- `select_next`: absent or raising, or its answer.
pub data Selector : Type 0 where
  fifo : Selector
  answers : Option MissionRecord → Selector

-- What a cycle meets. `listed` is the store's list of missions, `[]` where there is no store or it
-- raises.
pub record CycleEnv : Type 0 where
  pub listed : List MissionRecord
  pub selector : Selector
  pub runtime : Runtime

abbrev is_runnable : MissionRecord → Bool
is_runnable m = m.state == "Scheduled" || (m.state == "Running" || m.state == "AwaitingApproval")

unfoldable pub load_runnable : List MissionRecord → List MissionRecord
load_runnable [] = []
load_runnable (m ∷ ms) = let rest = load_runnable ms in if is_runnable m then m ∷ rest else rest

-- The first of the list after a stable sort by `created_at`.
unfoldable pub earliest : MissionRecord → List MissionRecord → MissionRecord
earliest m [] = m
earliest m (x ∷ xs) = earliest (if str_lt x.created_at m.created_at then x else m) xs

unfoldable pub select_mission : Selector → List MissionRecord → Option MissionRecord
select_mission (answers m) missions = m
select_mission fifo [] = none
select_mission fifo (m ∷ ms) = some (earliest m ms)

-- The store's part of `_acquire_lease`: whether to go on, and the store. Without `instance_id` the
-- record cannot be built, and the exception is swallowed before anything is saved.
unfoldable pub claim_in_store :
    Option LeaseStore → Option String → String → Bool × Option LeaseStore
claim_in_store none instance id = (true, none)
claim_in_store (some s) instance id =
    if contains s.held id then (false, some s) else elim instance [
      | none ↦ (true, some s)
      | some i ↦ (true, some (record s { held = id ∷ s.held }))
    ]

unfoldable pub acquire_lease : ProgramLoop → String → ProgramLoop × Bool
acquire_lease l id =
    if contains l.active_leases id
    then (l, false)
    else let (go, store) = claim_in_store l.store l.instance_id id in
      if go
      then (record l { store = store; active_leases = id ∷ l.active_leases }, true)
      else (record l { store = store }, false)

unfoldable pub drop_id : List String → String → List String
drop_id [] a = []
drop_id (x ∷ xs) a = let rest = drop_id xs a in if x == a then rest else x ∷ rest

-- `delete_record` is called under a swallowed exception.
unfoldable pub release_in_store : Option LeaseStore → String → Option LeaseStore
release_in_store none id = none
release_in_store (some s) id =
    if s.deletes then some (record s { held = drop_id s.held id }) else some s

unfoldable pub release_lease : ProgramLoop → String → ProgramLoop
release_lease l id = record l {
  active_leases = drop_id l.active_leases id;
  store = release_in_store l.store id;
}

-- What `_execute_mission` returns; `error` is in the answer, and the cycle does not read it.
pub record ExecResult : Type 0 where
  pub success : Bool
  pub action : String
  pub output : String
  pub error : String

unfoldable pub execute_mission : Runtime → MissionRecord → ExecResult
execute_mission no_runtime m = record {
  success = true;
  action = "execute:" <> m.mission_id;
  output = "[Mock] Executed mission " <> m.mission_id;
  error = "";
}
execute_mission (runs outcome) m =
    if m.mission_id == ""
    then record {
      success = false;
      action = "execute";
      output = "";
      error = "mission_id_missing_in_record";
    }
    else elim outcome [
      | returned state text ↦ record {
        success = not (state == "Failed") && not (state == "Crashed");
        action = "execute";
        output = text;
        error = "";
      }
      | raised e ↦ record { success = false; action = "execute"; output = ""; error = e }
    ]

abbrev pub fresh_result : ProgramLoop → CycleResult
fresh_result l = record {
  cycle_number = l.state.cycle_count + 1;
  success = false;
  phase_reached = idle;
  mission_id = "";
  action = "";
  output = "";
  error = "";
  lease_acquired = false;
}

unfoldable pub set_phase : ProgramLoop → LoopPhase → ProgramLoop
set_phase l p = record l { state = record l.state { phase = p } }

-- Phases 4 to 7, under the lease. `_verify_mission` returns True.
unfoldable pub run_leased : ProgramLoop → CycleEnv → MissionRecord → ProgramLoop × CycleResult
run_leased l env m =
    let exec = execute_mission env.runtime m in
    (
      set_phase (release_lease l m.mission_id) scheduling,
      record (fresh_result l) {
        mission_id = m.mission_id;
        lease_acquired = true;
        action = exec.action;
        output = exec.output;
        success = exec.success;
        phase_reached = scheduling;
      },
    )

-- Phase 3.
unfoldable pub with_lease :
    CycleEnv → MissionRecord → ProgramLoop × Bool → ProgramLoop × CycleResult
unfolding run_leased set_phase
with_lease env m (l, true) = run_leased l env m
with_lease env m (l, false) = (
  set_phase l acquiring,
  record (fresh_result l) {
    mission_id = m.mission_id;
    phase_reached = acquiring;
    error = "lease_conflict";
  },
)

-- The current mission and the backpressure flag; the cooldown is only a sleep.
unfoldable pub note_mission : ProgramLoop → MissionRecord → ℕ → ProgramLoop
note_mission l m pending = record l {
  state = record l.state {
    phase = acquiring;
    current_mission_id = m.mission_id;
    backpressure_active = ltb l.config.backpressure_threshold pending;
  };
}

unfoldable pub on_selected :
    ProgramLoop → CycleEnv → ℕ → Option MissionRecord → ProgramLoop × CycleResult
unfolding set_phase
on_selected l env pending none =
    (set_phase l selecting, record (fresh_result l) { phase_reached = selecting })
on_selected l env pending (some m) =
    with_lease env m (acquire_lease (note_mission l m pending) m.mission_id)

unfoldable pub on_loaded : ProgramLoop → CycleEnv → List MissionRecord → ProgramLoop × CycleResult
on_loaded l env [] = (
  record l {
    state = record l.state { phase = loading; skipped_count = l.state.skipped_count + 1 };
  },
  record (fresh_result l) { success = true; phase_reached = loading },
)
on_loaded l env (m ∷ ms) =
    on_selected l env (length (m ∷ ms)) (select_mission env.selector (m ∷ ms))

unfoldable pub execute_cycle : ProgramLoop → CycleEnv → ProgramLoop × CycleResult
unfolding on_loaded
execute_cycle l env = on_loaded l env (load_runnable env.listed)
