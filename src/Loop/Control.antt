-- ===== src/Loop/Control.antt =====
-- Stopping, restarting and recovering a loop.
use nexara_prime.Base.{
  ◌+◌, ◌-◌, String, ◌≡◌, refl, ◌≢◌, ◌⊎◌, true, false, some, List, [], ◌∷◌, arith, string_eq, nat_eq,
}
use nexara_prime.Loop.{paused, stopped, stopping, ProgramLoop, Checkpoint}
use nexara_prime.Loop.Thread.{
  looping, waiting, ended, System, TurnEnv, stop_step, wait_ends, loop_turns, start, stop,
  checkpoint, checkpoint_of, turn, step, run, loop_status_eq, save_checkpoint, recover, last?,
}

-- A loop thread that has begun, and is in its loop or waits in a pause, ends at its next turn once
-- `stop` was called on a loop that is neither Stopped nor Stopping, and the status is then Stopped,
-- whatever the turn meets; no cycle is counted.
pub stop_ends :
    (s : System) (env : TurnEnv)
    → (s.thread ≡ looping) ⊎ (s.thread ≡ waiting)
    → s.loop.state.status ≢ stopped
    → s.loop.state.status ≢ stopping
    → let s' = run s (stop_step ∷ wait_ends ∷ loop_turns env ∷ []) in
      (s'.thread ≡ ended)
      × (s'.loop.state.status ≡ stopped)
      × (s'.live ≡ s.live - 1)
      × (s'.loop.state.cycle_count ≡ s.loop.state.cycle_count)
unfolding run step stop turn
stop_ends s env at up not_stopping = ground arith

-- A loop that is paused can be started again without an end of its thread: `start` then makes a
-- second live thread and lets both go on.
pub paused_start_spawns :
    (s : System)
    → s.loop.state.status ≡ paused
    → ((start s).live ≡ s.live + 1)
      × ((start s).loop.pause_event ≡ true)
      × ((start s).loop.stop_event ≡ false)
unfolding start
paused_start_spawns s h = ground arith

last?-cons : (d c : Checkpoint) (ds : List Checkpoint) → last? ds ≡ some c → last? (d ∷ ds) ≡ some c
last?-cons d c [] h = cc
last?-cons d c (e ∷ ds) h = h

last?-save_checkpoint :
    (ds : List Checkpoint) (c : Checkpoint) → last? (save_checkpoint ds c) ≡ some c
unfolding save_checkpoint
last?-save_checkpoint [] c = refl
last?-save_checkpoint (d ∷ ds) c = ground (
  arith,
  last?-save_checkpoint ds c,
  last?-cons d c (save_checkpoint ds c) (last?-save_checkpoint ds c),
)

-- What a loop saves in a checkpoint is what a restarted loop over the same store recovers: its
-- counts of cycles, successes and failures, whatever checkpoints came before.
pub recover-checkpoint :
    (l restarted : ProgramLoop) (now : String)
    → restarted.checkpoints ≡ (checkpoint l now).checkpoints
    → ((recover restarted).state.cycle_count ≡ l.state.cycle_count)
      × ((recover restarted).state.success_count ≡ l.state.success_count)
      × ((recover restarted).state.failure_count ≡ l.state.failure_count)
unfolding recover checkpoint
recover-checkpoint l restarted now h =
    ground (arith, last?-save_checkpoint l.checkpoints (checkpoint_of l.state))
