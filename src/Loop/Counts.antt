-- ===== src/Loop/Counts.antt =====
-- What holds of the loop under any order of controller calls and loop turns.
use nexara_prime.Base.{
  ℕ, ◌+◌, ◌≤◌, ◌<◌, ◌≡◌, Bool, ◌&&◌, [], ltb, leb, if◌then◌else◌, string_eq, nat_eq,
}
use nexara_prime.Loop.{ProgramLoop, CycleResult}
use nexara_prime.Loop.Thread.{System, loop_status_eq}

-- What a cycle leaves alone, and how it counts a cycle with nothing to run.
record Kept (l : ProgramLoop) (c : ProgramLoop × CycleResult) : Type 0 where
  same_config : c.0.config ≡ l.config
  same_cycles : c.0.state.cycle_count ≡ l.state.cycle_count
  same_successes : c.0.state.success_count ≡ l.state.success_count
  same_failures : c.0.state.failure_count ≡ l.state.failure_count
  skips :
      c.0.state.skipped_count
      ≤ (if c.1.success then l.state.skipped_count + 1 else l.state.skipped_count)

-- `limit` is the configured maximum of cycles.
pub record Accounts (limit : ℕ) (l : ProgramLoop) : Type 0 where
  pub balanced : l.state.success_count + l.state.failure_count ≡ l.state.cycle_count
  pub skipped_succeeded : l.state.skipped_count ≤ l.state.success_count
  pub limit_kept : l.config.max_cycles ≡ limit
  pub bounded : 0 < limit → l.state.cycle_count ≤ limit + 1
  pub no_leases : l.active_leases ≡ []

-- The test of the maximum.
abbrev out_of_cycles : System → Bool
out_of_cycles s =
    ltb 0 s.loop.config.max_cycles && leb s.loop.config.max_cycles s.loop.state.cycle_count
