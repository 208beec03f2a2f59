-- ===== src/Loop/Leases.antt =====
-- The leases of the loop, in memory and in the store.
use nexara_prime.Base.{
  ℕ, String, ◌≡◌, refl, true, false, not, ◌&&◌, Option, none, some, List, [], ◌∷◌, arith,
  if◌then◌else◌, contains, string_eq, nat_eq, length,
}
use nexara_prime.Loop.{
  ProgramLoop, LeaseStore, MissionRecord, CycleEnv, claim_in_store, acquire_lease, drop_id,
  release_in_store, release_lease, with_lease, on_selected, on_loaded, execute_cycle, load_runnable,
  select_mission, note_mission,
}

drop_id-absent : (xs : List String) (a : String) → contains xs a ≡ false → drop_id xs a ≡ xs
unfolding drop_id
drop_id-absent [] a h = refl
drop_id-absent (x ∷ xs) a h = ground (arith, drop_id-absent xs a)

drop_id-cons : (xs : List String) (a : String) → contains xs a ≡ false → drop_id (a ∷ xs) a ≡ xs
unfolding drop_id
drop_id-cons xs a h = ground (arith, drop_id-absent xs a h)

with_lease-active :
    (env : CycleEnv) (m : MissionRecord) (l : ProgramLoop)
    → (with_lease env m (acquire_lease l m.mission_id)).0.active_leases ≡ l.active_leases
unfolding with_lease acquire_lease release_lease
with_lease-active env m l = ground (arith, drop_id-cons l.active_leases m.mission_id)

on_selected-active :
    (l : ProgramLoop) (env : CycleEnv) (n : ℕ) (m : Option MissionRecord)
    → (on_selected l env n m).0.active_leases ≡ l.active_leases
unfolding on_selected note_mission
on_selected-active l env n none = refl
on_selected-active l env n (some m) = with_lease-active env m (note_mission l m n)

-- A cycle gives back every lease that it takes: it leaves the active leases as they were, whether
-- it was idle, met a conflict, succeeded or failed.
pub execute_cycle-active_leases :
    (l : ProgramLoop) (env : CycleEnv) → (execute_cycle l env).0.active_leases ≡ l.active_leases
unfolding execute_cycle
execute_cycle-active_leases l env = go (load_runnable env.listed)
  where
    go : (ms : List MissionRecord) → (on_loaded l env ms).0.active_leases ≡ l.active_leases
    go [] = refl
    go (m ∷ ms) = on_selected-active l env (length (m ∷ ms)) (select_mission env.selector (m ∷ ms))

acquire_lease-granted :
    (l : ProgramLoop) (s : LeaseStore) (i id : String)
    → l.store ≡ some s
    → l.instance_id ≡ some i
    → (acquire_lease l id).1 ≡ true
    → (contains l.active_leases id ≡ false)
      × (contains s.held id ≡ false)
      × ((acquire_lease l id).0.active_leases ≡ id ∷ l.active_leases)
      × ((acquire_lease l id).0.store ≡ some (record s { held = id ∷ s.held }))
      × ((acquire_lease l id).0.instance_id ≡ some i)
unfolding acquire_lease claim_in_store
acquire_lease-granted l s i id hs hi got =
    (ground arith, ground arith, ground arith, ground arith, ground arith)

-- Taking a lease again, by what is left of it in memory and in the store.
acquire_lease-answer :
    (l : ProgramLoop) (s : LeaseStore) (id : String)
    → l.store ≡ some s
    → (acquire_lease l id).1 ≡ not (contains l.active_leases id) && not (contains s.held id)
unfolding acquire_lease claim_in_store
acquire_lease-answer l s id hs = ground arith

release_lease-store :
    (l : ProgramLoop) (s : LeaseStore) (id : String)
    → l.store ≡ some s
    → (release_lease l id).store
      ≡ some (record s { held = if s.deletes then drop_id s.held id else s.held })
unfolding release_lease release_in_store
release_lease-store l s id hs = ground arith

release_lease-active :
    (l : ProgramLoop) (id : String)
    → (release_lease l id).active_leases ≡ drop_id l.active_leases id
unfolding release_lease
release_lease-active l id = refl

-- A loop with an instance id that took the lease of a mission over a store can take it again, after
-- releasing it, exactly if the store has a method to delete records: the lease of a store that has
-- none is never given back.
pub reacquire_iff_deletes :
    (l : ProgramLoop) (s : LeaseStore) (i id : String)
    → l.store ≡ some s
    → l.instance_id ≡ some i
    → (acquire_lease l id).1 ≡ true
    → (acquire_lease (release_lease (acquire_lease l id).0 id) id).1 ≡ s.deletes
reacquire_iff_deletes l s i id hs hi got =
    let (inactive, unheld, active, store, instance_kept) =
      acquire_lease-granted l s i id hs hi got in
    let l' : ProgramLoop = (acquire_lease l id).0 in
    let s' : LeaseStore = record s { held = id ∷ s.held } in
    let answer =
      acquire_lease-answer (release_lease l' id)
        (record s { held = if s.deletes then drop_id (id ∷ s.held) id else id ∷ s.held }) id
        (release_lease-store l' s' id store) in
    ground (
      arith,
      answer,
      release_lease-active l' id,
      drop_id-cons l.active_leases id inactive,
      drop_id-cons s.held id unheld,
    )

acquire_unset-store :
    (l : ProgramLoop) (id : String) → l.instance_id ≡ none → (acquire_lease l id).0.store ≡ l.store
unfolding acquire_lease claim_in_store
acquire_unset-store l id unset = ground arith

-- Without an instance id the store learns nothing of a lease: whatever a loop acquires, another
-- loop over the same store may acquire it exactly as if the first had not.
pub unset_instance_unseen :
    (l other : ProgramLoop) (id j : String)
    → l.instance_id ≡ none
    → other.store ≡ l.store
    → (acquire_lease (record other { store = (acquire_lease l id).0.store }) j).1
      ≡ (acquire_lease other j).1
unset_instance_unseen l other id j unset shared = rw (acquire_unset-store l id unset, ← shared) refl
