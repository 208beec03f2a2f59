-- ===== src/Loop/Results.antt =====
-- What the result of a cycle says.
use nexara_prime.Base.{
  ℕ, String, ◌≡◌, refl, ◌≢◌, ◌↔◌, ◌⊎◌, inl, inr, Bool, true, false, not, Option, none, some, List,
  [], ◌∷◌, arith, contains, string_eq, nat_eq, length,
}
use mathlib.Core.Option.{some-injective}
use nexara_prime.Loop.{
  ProgramLoop, LeaseStore, MissionRecord, returned, raised, Runtime, no_runtime, runs, CycleEnv,
  claim_in_store, acquire_lease, with_lease, on_selected, on_loaded, execute_cycle, execute_mission,
  load_runnable, select_mission, note_mission,
}

-- A run that counts as a success.
abbrev pub Succeeds : Runtime → MissionRecord → Type 0
Succeeds no_runtime m = Unit
Succeeds (runs (raised e)) m = ⊥
Succeeds (runs (returned state text)) m =
    (m.mission_id ≢ "") × (state ≢ "Failed") × (state ≢ "Crashed")

abbrev pub not_held : Option LeaseStore → String → Bool
not_held none id = true
not_held (some s) id = not (contains s.held id)

execute_mission-Succeeds :
    (r : Runtime) (m : MissionRecord) → ((execute_mission r m).success ≡ true) ↔ Succeeds r m
unfolding execute_mission
execute_mission-Succeeds no_runtime m = (λ h. tt, λ h. refl)
execute_mission-Succeeds (runs (raised e)) m = (λ h. ground arith, λ h. absurd h)
execute_mission-Succeeds (runs (returned state text)) m = ground arith

acquire_lease_iff :
    (l : ProgramLoop) (id : String)
    → ((acquire_lease l id).1 ≡ true)
      ↔ ((contains l.active_leases id ≡ false) × (not_held l.store id ≡ true))
unfolding acquire_lease claim_in_store
acquire_lease_iff l id = ground arith

with_lease-success :
    (env : CycleEnv) (m : MissionRecord) (l : ProgramLoop) (got : Bool)
    → ((with_lease env m (l, got)).1.success ≡ true) ↔ ((got ≡ true) × Succeeds env.runtime m)
unfolding with_lease
with_lease-success env m l true =
    let e = execute_mission-Succeeds env.runtime m in (λ h. (refl, e.0 h), λ h. e.1 h.1)
with_lease-success env m l false = (λ h. absurd (ground arith), λ h. absurd (ground arith))

-- What a cycle needs in order to succeed with work: a mission is selected, its lease is free in
-- memory and in the store, and its run ends well.
abbrev pub Works : ProgramLoop → CycleEnv → List MissionRecord → Type 0
Works l env ms =
    (m : MissionRecord) × ((select_mission env.selector ms ≡ some m)
      × (contains l.active_leases m.mission_id ≡ false)
      × (not_held l.store m.mission_id ≡ true)
      × Succeeds env.runtime m)

on_selected-success :
    (l : ProgramLoop) (env : CycleEnv) (n : ℕ) (o : Option MissionRecord)
    → ((on_selected l env n o).1.success ≡ true) ↔ (
        (m : MissionRecord) × ((o ≡ some m)
          × (contains l.active_leases m.mission_id ≡ false)
          × (not_held l.store m.mission_id ≡ true)
          × Succeeds env.runtime m))
unfolding on_selected note_mission
on_selected-success l env n none = (λ h. absurd (ground arith), λ (m, h). absurd (ground arith))
on_selected-success l env n (some m) =
    let l' = note_mission l m n in
    let lease = acquire_lease l' m.mission_id in
    let w = with_lease-success env m lease.0 lease.1 in
    let a = acquire_lease_iff l' m.mission_id in
    (
      λ h. let (got, ok) = w.0 h in (m, (refl, (a.0 got).0, (a.0 got).1, ok)),
      λ (k, (same, free, unheld, ok)).
          let e = some-injective m k same in w.1 (a.1 (rw e free, rw e unheld), rw e ok),
    )

-- A cycle succeeds exactly if it has nothing to run, or selects a mission whose lease is free in
-- memory and in the store and whose run returns with a state other than Failed and Crashed. Without
-- a runtime every run counts as such.
pub execute_cycle-success :
    (l : ProgramLoop) (env : CycleEnv)
    → ((execute_cycle l env).1.success ≡ true)
      ↔ ((load_runnable env.listed ≡ []) ⊎ Works l env (load_runnable env.listed))
unfolding execute_cycle
execute_cycle-success l env = go (load_runnable env.listed)
  where
    go :
        (ms : List MissionRecord)
        → ((on_loaded l env ms).1.success ≡ true) ↔ (
            (ms ≡ [])
            ⊎ ((m : MissionRecord) × ((select_mission env.selector ms ≡ some m)
                  × (contains l.active_leases m.mission_id ≡ false)
                  × (not_held l.store m.mission_id ≡ true)
                  × Succeeds env.runtime m)))
    go [] = (λ h. inl refl, λ h. refl)
    go (m ∷ ms) =
        let sub =
          on_selected-success l env (length (m ∷ ms)) (select_mission env.selector (m ∷ ms)) in
        (λ h. inr (sub.0 h), elim [ inl e ↦ absurd (ground arith) | inr w ↦ sub.1 w ])

with_lease-error :
    (env : CycleEnv) (m : MissionRecord) (l : ProgramLoop) (got : Bool)
    → (with_lease env m (l, got)).1.lease_acquired ≡ true
    → (with_lease env m (l, got)).1.error ≡ ""
unfolding with_lease
with_lease-error env m l true h = refl
with_lease-error env m l false h = ground arith

on_selected-error :
    (l : ProgramLoop) (env : CycleEnv) (n : ℕ) (o : Option MissionRecord)
    → (on_selected l env n o).1.lease_acquired ≡ true
    → (on_selected l env n o).1.error ≡ ""
unfolding on_selected
on_selected-error l env n none h = refl
on_selected-error l env n (some m) h =
    let lease = acquire_lease (note_mission l m n) m.mission_id in
    with_lease-error env m lease.0 lease.1 h

-- A cycle that executed its mission reports no error, also where the run raised or ended in Failed:
-- the message that `_execute_mission` returns is dropped.
pub executed_error_lost :
    (l : ProgramLoop) (env : CycleEnv)
    → (execute_cycle l env).1.lease_acquired ≡ true
    → (execute_cycle l env).1.error ≡ ""
unfolding execute_cycle
executed_error_lost l env = go (load_runnable env.listed)
  where
    go :
        (ms : List MissionRecord)
        → (on_loaded l env ms).1.lease_acquired ≡ true
        → (on_loaded l env ms).1.error ≡ ""
    go [] h = refl
    go (m ∷ ms) h =
        on_selected-error l env (length (m ∷ ms)) (select_mission env.selector (m ∷ ms)) h
