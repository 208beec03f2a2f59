-- ===== src/Loop/Tests.antt =====
-- Runs of the program loop, and the theorems at them.
use nexara_prime.Base.{
  String, ◌≡◌, refl, ◌↔◌, ◌⊎◌, inl, true, false, none, some, List, [], ◌∷◌, string_eq, nat_eq,
}
use nexara_prime.Base.Text.{str_lt}
use nexara_prime.Loop.{
  paused, running, stopped, ProgramLoopConfig, ProgramLoop, MissionRecord, CycleEnv, runs, raised,
  returned, fifo, acquire_lease, claim_in_store, release_lease, release_in_store, drop_id,
  with_lease, on_selected, execute_cycle, execute_mission, load_runnable, select_mission, earliest,
  note_mission, run_leased,
}
use nexara_prime.Loop.Results.{Works, execute_cycle-success}
use nexara_prime.Loop.Control.{stop_ends, recover-checkpoint}
use nexara_prime.Loop.Thread.{
  looping, waiting, ended, System, TurnEnv, raises, Step, start_step, pause_step, resume_step,
  stop_step, thread_begins, wait_ends, loop_turns, switch, start, pause, resume, tally, notify,
  heartbeat, checkpoint, checkpoint_due, cycle_turn, turn, step, run, new_loop, new_system,
  loop_status_eq, LoopStatus-discrete, recover,
}

abbrev config : ProgramLoopConfig
config = record { max_cycles = 2; backpressure_threshold = 100; checkpoint_interval = 10 }

abbrev mission : String → String → MissionRecord
mission id created = record { mission_id = id; state = "Scheduled"; created_at = created }

abbrev crash_env : CycleEnv
crash_env = record {
  listed = mission "m2" "2" ∷ mission "m1" "1" ∷ [];
  selector = fifo;
  runtime = runs (raised "boom");
}

abbrev good_env : CycleEnv
good_env = record crash_env { runtime = runs (returned "Completed" "done") }

-- The older mission is taken first, its failure is counted, and its message is lost.
cycle_crash :
    let r = (execute_cycle (new_loop config) crash_env).1 in
    (r.mission_id ≡ "m1") × (r.success ≡ false) × (r.lease_acquired ≡ true) × (r.error ≡ "")
unfolding execute_cycle load_runnable select_mission earliest str_lt on_selected note_mission
    acquire_lease claim_in_store with_lease run_leased release_lease release_in_store drop_id
    execute_mission string_eq
cycle_crash = (refl, refl, refl, refl)

execute_cycle-success_example : ((execute_cycle (new_loop config) good_env).1.success ≡ true) ↔ (
    (load_runnable good_env.listed ≡ [])
    ⊎ Works (new_loop config) good_env (load_runnable good_env.listed))
execute_cycle-success_example = execute_cycle-success (new_loop config) good_env

abbrev storing : ProgramLoop
storing = record (new_loop config) {
  instance_id = some "i1";
  store = some (record { held = []; deletes = false });
}

abbrev unnamed : ProgramLoop
unnamed = record storing { instance_id = none }

abbrev turn_env : TurnEnv
turn_env = record { cycle = good_env; callback = raises "late"; heartbeat_due = true; now = "9" }

abbrev steps : List Step
steps =
    start_step
    ∷ thread_begins
    ∷ loop_turns turn_env
    ∷ pause_step
    ∷ loop_turns turn_env
    ∷ wait_ends
    ∷ resume_step
    ∷ []

-- A callback that raises counts its cycle a second time, as a failure.
run-steps :
    let s = run (new_system (new_loop config)) steps in
    (s.loop.state.cycle_count ≡ 2)
    × (s.loop.state.success_count ≡ 1)
    × (s.loop.state.failure_count ≡ 1)
    × (s.loop.state.last_error ≡ "late")
unfolding run step start pause resume turn cycle_turn tally notify heartbeat checkpoint_due
    execute_cycle load_runnable select_mission earliest str_lt on_selected note_mission
    acquire_lease claim_in_store with_lease run_leased release_lease release_in_store drop_id
    execute_mission string_eq nat_eq LoopStatus-discrete
run-steps = (refl, refl, refl, refl)

-- `start` on the paused loop makes a second thread; then both take turns.
abbrev two_threads : List Step
two_threads =
    start_step
    ∷ thread_begins
    ∷ pause_step
    ∷ loop_turns turn_env
    ∷ start_step
    ∷ thread_begins
    ∷ loop_turns turn_env
    ∷ switch 0
    ∷ wait_ends
    ∷ loop_turns turn_env
    ∷ []

abbrev up : System
up = record {
  loop = record (new_loop config) { state = record (new_loop config).state { status = running } };
  thread = looping;
  others = [];
  live = 1;
}

stop_ends_example :
    let s' = run up (stop_step ∷ wait_ends ∷ loop_turns turn_env ∷ []) in
    (s'.thread ≡ ended)
    × (s'.loop.state.status ≡ stopped)
    × (s'.live ≡ 0)
    × (s'.loop.state.cycle_count ≡ 0)
stop_ends_example = stop_ends up turn_env (inl refl) (λ e. cc) (λ e. cc)

abbrev resting : System
resting = record {
  loop = record (new_loop config) { state = record (new_loop config).state { status = paused } };
  thread = waiting;
  others = [];
  live = 1;
}

abbrev worn : ProgramLoop
worn = record (new_loop config) {
  state = record (new_loop config).state { cycle_count = 3; success_count = 2; failure_count = 1 };
}

abbrev restarted : ProgramLoop
restarted = record (new_loop config) { checkpoints = (checkpoint worn "7").checkpoints }

recover-checkpoint_example :
    ((recover restarted).state.cycle_count ≡ 3)
    × ((recover restarted).state.success_count ≡ 2)
    × ((recover restarted).state.failure_count ≡ 1)
recover-checkpoint_example = recover-checkpoint worn restarted "7" refl
