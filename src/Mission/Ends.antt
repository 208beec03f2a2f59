-- ===== src/Mission/Ends.antt =====
-- How long a mission of the first kind can go on, and that every mission can be rolled back.
use nexara_prime.Base.{
  ℕ, ◌≤◌, ◌<◌, ◌≡◌, refl, Bool, true, false, ◌&&◌, Option, none, some, List, [], ◌∷◌, arith, ltb,
  if◌then◌else◌, ◌==◌, string_eq, nat_eq, length, all,
}
use nexara_prime.Mission.{
  MissionState, intent, context, contract, plan, simulation, approval, execution, verification,
  evidence, memory_patch, evaluation, completed, blocked, failed, rolled_back, state_eq,
  MissionState-discrete, transitions, can_transition,
}
use nexara_prime.Mission.Paths.{
  all_states, check_states, legal, last_state, edges, edges-can_transition,
}

-- The steps that are left to a mission of the first kind, at most.
steps_left : MissionState → Option ℕ
steps_left intent = some 13
steps_left context = some 12
steps_left contract = some 11
steps_left plan = some 10
steps_left simulation = some 9
steps_left approval = some 8
steps_left execution = some 7
steps_left verification = some 6
steps_left evidence = some 5
steps_left memory_patch = some 4
steps_left evaluation = some 3
steps_left blocked = some 2
steps_left completed = some 1
steps_left failed = some 1
steps_left rolled_back = some 0
steps_left _ = none

abbrev falls : Option ℕ → Option ℕ → Bool
falls none m = true
falls (some n) none = false
falls (some n) (some m) = ltb m n

falling : edges (λ s t. falls (steps_left s) (steps_left t)) ≡ true
unfolding edges transitions steps_left
falling = refl

falls-below : (o : Option ℕ) (n : ℕ) → falls (some n) o ≡ true → (m : ℕ) × (o ≡ some m) × (m < n)
falls-below none n h = cc
falls-below (some m) n h = (m, refl, ground arith)

length-le_steps_left :
    (s : MissionState) (ts : List MissionState) (n : ℕ)
    → steps_left s ≡ some n
    → legal s ts ≡ true
    → length ts ≤ n
length-le_steps_left s [] n h l = omega arith
length-le_steps_left s (t ∷ ts) n h l =
    let edge : falls (steps_left s) (steps_left t) ≡ true =
      edges-can_transition (λ u v. falls (steps_left u) (steps_left v)) s t falling
        (ground arith) in
    let (m, e, lt) = falls-below (steps_left t) n (rw h at edge) in
    omega (arith, length-le_steps_left t ts m e (ground arith))

-- A mission that starts at Intent makes at most thirteen transitions, whatever is asked of it, and
-- never enters an adaptive state.
pub intent_history_bounded : (ts : List MissionState) → legal intent ts ≡ true → length ts ≤ 13
unfolding steps_left
intent_history_bounded ts l = length-le_steps_left intent ts 13 refl l

way_back : MissionState → List MissionState
way_back rolled_back = []
way_back s = if can_transition s rolled_back then rolled_back ∷ [] else failed ∷ rolled_back ∷ []

way_back-legal :
    all (λ s. legal s (way_back s) && last_state s (way_back s) == rolled_back) all_states ≡ true
unfolding way_back can_transition MissionState-discrete
way_back-legal = refl

length-way_back : (s : MissionState) → length (way_back s) ≤ 2
unfolding way_back
length-way_back rolled_back = omega arith
length-way_back _ = ground arith

-- From every state, terminal ones included, at most two allowed transitions roll the mission back,
-- and from RolledBack nothing is allowed.
pub rollback_reachable :
    (s : MissionState)
    → ((ts : List MissionState) × (legal s ts ≡ true)
        × (last_state s ts ≡ rolled_back)
        × (length ts ≤ 2))
      × ((t : MissionState) → can_transition rolled_back t ≡ false)
unfolding can_transition
rollback_reachable s =
    let h =
      check_states (λ u. legal u (way_back u) && last_state u (way_back u) == rolled_back)
        way_back-legal s in
    ((way_back s, ground arith, ground arith, length-way_back s), λ t. refl)
