-- ===== src/Loop/Thread.antt =====
-- `ProgramLoop`'s threads: the calls of a controller (`start`, `pause`, `resume`, `stop`) and the
-- turns of `_run_loop`, as steps that may come in any order. A turn of the loop is one step.
use nexara_prime.Base.{
  zero, suc, ℕ, ◌+◌, ◌-◌, ◌%◌, String, Bool, true, false, not, ◌&&◌, ◌||◌, Option, none, some, List,
  [], ◌∷◌, ◌++◌, ltb, leb, if◌then◌else◌, Eq, ◌==◌, string_eq, nat_eq,
}
use nexara_prime.Loop.{
  idle, LoopStatus, stopped, starting, running, pausing, paused, resuming, stopping,
  ProgramLoopConfig, LoopState, CycleResult, ProgramLoop, Checkpoint, CycleEnv, execute_cycle,
}

unfoldable pub LoopStatus-discrete : Discrete LoopStatus
LoopStatus-discrete = hlevel

instance abbrev pub loop_status_eq : Eq LoopStatus
loop_status_eq = record { dec = LoopStatus-discrete }

-- Where a loop thread stands.
pub data LoopThread : Type 0 where
  absent spawned looping waiting ended died : LoopThread

-- `thread` is the loop thread that takes the next step, `others` are the further ones that were
-- started: `start` on a paused loop makes a second. `live` counts those that have not ended.
pub record System : Type 0 where
  pub loop : ProgramLoop
  pub thread : LoopThread
  pub others : List LoopThread
  pub live : ℕ

abbrev pub set_status : ProgramLoop → LoopStatus → ProgramLoop
set_status l s = record l { state = record l.state { status = s } }

unfoldable pub start : System → System
start s = if s.loop.state.status == running || s.loop.state.status == starting then s else record {
  loop = record (set_status s.loop starting) { stop_event = false; pause_event = true };
  thread = spawned;
  others = s.thread ∷ s.others;
  live = s.live + 1;
}

unfoldable pub pause : System → System
pause s =
    if not (s.loop.state.status == running)
    then s
    else record s { loop = record (set_status s.loop pausing) { pause_event = false } }

unfoldable pub resume : System → System
resume s =
    if not (s.loop.state.status == paused)
    then s
    else record s { loop = record (set_status s.loop resuming) { pause_event = true } }

-- `stop` up to the join.
unfoldable pub stop : System → System
stop s = if s.loop.state.status == stopped || s.loop.state.status == stopping then s else record s {
  loop = record (set_status s.loop stopping) { stop_event = true; pause_event = true };
}

-- `stop` after a join that timed out.
unfoldable pub force_stop : System → System
force_stop s = record s { loop = set_status s.loop stopped }

-- `on_cycle`: absent, or it returns, or it raises.
pub data Callback : Type 0 where
  no_callback fine : Callback
  raises : String → Callback

-- What one turn of the loop meets.
pub record TurnEnv : Type 0 where
  pub cycle : CycleEnv
  pub callback : Callback
  pub heartbeat_due : Bool
  pub now : String

-- The counts after a cycle.
unfoldable pub tally : ProgramLoop → CycleResult → ProgramLoop
tally l r = record l {
  cycles = l.cycles ++ r ∷ [];
  state = record l.state {
    cycle_count = l.state.cycle_count + 1;
    success_count = if r.success then l.state.success_count + 1 else l.state.success_count;
    failure_count = if r.success then l.state.failure_count else l.state.failure_count + 1;
    phase = idle;
    last_error = if r.success then "" else r.error;
  };
}

-- The handler of `except Exception` round the cycle and its callback.
unfoldable pub notify : ProgramLoop → Callback → ProgramLoop
notify l no_callback = l
notify l fine = l
notify l (raises e) = record l {
  state = record l.state {
    failure_count = l.state.failure_count + 1;
    last_error = e;
    cycle_count = l.state.cycle_count + 1;
  };
}

unfoldable pub heartbeat : ProgramLoop → Bool → String → ProgramLoop
heartbeat l false now = l
heartbeat l true now = record l { state = record l.state { last_heartbeat = now } }

abbrev pub checkpoint_of : LoopState → Checkpoint
checkpoint_of s = record {
  cycle_count = s.cycle_count;
  success_count = s.success_count;
  failure_count = s.failure_count;
  status = s.status;
}

-- A record is replaced by a later one with the same id, which holds the cycle count.
unfoldable pub save_checkpoint : List Checkpoint → Checkpoint → List Checkpoint
save_checkpoint [] c = c ∷ []
save_checkpoint (d ∷ ds) c =
    let rest = save_checkpoint ds c in if d.cycle_count == c.cycle_count then rest else d ∷ rest

unfoldable pub checkpoint : ProgramLoop → String → ProgramLoop
checkpoint l now = record l {
  state = record l.state { last_checkpoint = now };
  checkpoints = save_checkpoint l.checkpoints (checkpoint_of l.state);
}

-- `cycle_count > 0 and cycle_count % checkpoint_interval == 0`: `none` is the ZeroDivisionError.
unfoldable pub checkpoint_due : ProgramLoop → Option Bool
checkpoint_due l =
    if not (ltb 0 l.state.cycle_count)
    then some false
    else if l.config.checkpoint_interval == 0
    then none
    else some (l.state.cycle_count % l.config.checkpoint_interval == 0)

abbrev pub finish_turn : System → ProgramLoop → String → Option Bool → System
finish_turn s l now none = record s { loop = l; thread = died; live = s.live - 1 }
finish_turn s l now (some false) = record s { loop = l }
finish_turn s l now (some true) = record s { loop = checkpoint l now }

-- One cycle with what follows it.
unfoldable pub cycle_turn : System → TurnEnv → System
cycle_turn s env =
    let (l, r) = execute_cycle s.loop env.cycle in
    let l' = heartbeat (notify (tally l r) env.callback) env.heartbeat_due env.now in
    finish_turn s l' env.now (checkpoint_due l')

-- One turn of `while not self._stop_event.is_set()`.
unfoldable pub turn : System → TurnEnv → System
turn s env =
    if s.loop.stop_event
    then record s { loop = set_status s.loop stopped; thread = ended; live = s.live - 1 }
    else if not s.loop.pause_event
    then record s { loop = set_status s.loop paused; thread = waiting }
    else if ltb 0 s.loop.config.max_cycles && leb s.loop.config.max_cycles s.loop.state.cycle_count
    then record s { loop = set_status s.loop stopped; thread = ended; live = s.live - 1 }
    else cycle_turn s env

pub data Step : Type 0 where
  start_step pause_step resume_step stop_step force_stop_step thread_begins wait_ends : Step
  loop_turns : TurnEnv → Step
  switch : ℕ → Step

-- The thread at a place of the others, in exchange for the one given.
unfoldable pub exchange : ℕ → LoopThread → List LoopThread → LoopThread × List LoopThread
exchange n t [] = (t, [])
exchange zero t (x ∷ xs) = (x, t ∷ xs)
exchange (suc n) t (x ∷ xs) = let rest = exchange n t xs in (rest.0, x ∷ rest.1)

-- Another loop thread takes the next step.
unfoldable pub switch_to : System → ℕ → System
switch_to s n = record s {
  thread = (exchange n s.thread s.others).0;
  others = (exchange n s.thread s.others).1;
}

-- A step of a loop thread happens where that thread stands.
abbrev pub thread_step : LoopThread → System → Step → System
thread_step spawned s thread_begins = record s {
  loop = set_status s.loop running;
  thread = looping;
}
thread_step waiting s wait_ends = record s { loop = set_status s.loop running; thread = looping }
thread_step looping s (loop_turns env) = turn s env
thread_step _ s _ = s

unfoldable pub step : System → Step → System
step s start_step = start s
step s pause_step = pause s
step s resume_step = resume s
step s stop_step = stop s
step s force_stop_step = force_stop s
step s thread_begins = thread_step s.thread s thread_begins
step s wait_ends = thread_step s.thread s wait_ends
step s (loop_turns env) = thread_step s.thread s (loop_turns env)
step s (switch n) = switch_to s n

unfoldable pub run : System → List Step → System
run s [] = s
run s (e ∷ es) = run (step s e) es

abbrev pub new_loop : ProgramLoopConfig → ProgramLoop
new_loop config = record {
  config = config;
  state = record {
    status = stopped;
    phase = idle;
    cycle_count = 0;
    success_count = 0;
    failure_count = 0;
    skipped_count = 0;
    current_mission_id = "";
    last_heartbeat = "";
    last_checkpoint = "";
    last_error = "";
    backpressure_active = false;
  };
  stop_event = false;
  pause_event = true;
  active_leases = [];
  cycles = [];
  instance_id = none;
  store = none;
  checkpoints = [];
}

abbrev pub new_system : ProgramLoop → System
new_system l = record { loop = l; thread = absent; others = []; live = 0 }

abbrev pub last? {ℓ} : {A : Type ℓ} → List A → Option A
last? [] = none
last? (x ∷ []) = some x
last? (x ∷ y ∷ xs) = last? (y ∷ xs)

abbrev pub restore : ProgramLoop → Option Checkpoint → ProgramLoop
restore l none = l
restore l (some c) = record l {
  state = record l.state {
    cycle_count = c.cycle_count;
    success_count = c.success_count;
    failure_count = c.failure_count;
  };
}

-- `recover`, over the checkpoints in the order of their times.
unfoldable pub recover : ProgramLoop → ProgramLoop
recover l = restore l (last? l.checkpoints)
