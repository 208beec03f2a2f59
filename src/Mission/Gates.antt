-- ===== src/Mission/Gates.antt =====
-- The stages that a completed mission has passed.
use nexara_prime.Base.{
  ℕ, ◌≡◌, refl, Bool, true, false, not, ◌||◌, Option, none, some, List, [], ◌∷◌, ltb, ◌==◌,
  string_eq, nat_eq, any, All,
}
use nexara_prime.Mission.{
  MissionState, intent, context, contract, plan, simulation, approval, execution, verification,
  evidence, memory_patch, evaluation, completed, blocked, failed, rolled_back, created, triaged,
  contracted, planned, scheduled, awaiting_approval, running, verifying, degraded, paused,
  cancelled, rolling_back, state_eq, MissionState-discrete, transitions,
}
use nexara_prime.Mission.Paths.{legal, last_state, edges, leaves_through}

-- How far a mission of the first kind has come; what is not on its way has no stage.
stage : MissionState → Option ℕ
stage intent = some 0
stage context = some 1
stage contract = some 2
stage plan = some 3
stage simulation = some 4
stage approval = some 5
stage execution = some 6
stage verification = some 7
stage evidence = some 8
stage memory_patch = some 9
stage evaluation = some 10
stage completed = some 11
stage _ = none

is_off : MissionState → Bool
is_off blocked = true
is_off failed = true
is_off rolled_back = true
is_off _ = false

-- The states before stage `k`, and those of a mission that was stopped.
before : ℕ → MissionState → Bool
unfolding stage is_off
before k s = is_off s || elim (stage s) [ none ↦ false | some n ↦ ltb n k ]

abbrev pub gates : List MissionState
gates =
    context ∷ contract ∷ plan ∷ simulation ∷ execution ∷ verification ∷ evidence ∷ memory_patch
    ∷ evaluation ∷ []

gate_at :
    (k : ℕ) (gate : MissionState) (ts : List MissionState)
    → edges (λ u t. not (before k u) || (before k t || t == gate)) ≡ true
    → before k intent ≡ true
    → before k completed ≡ false
    → legal intent ts ≡ true
    → last_state intent ts ≡ completed
    → any (λ t. t == gate) ts ≡ true
gate_at k gate ts h first last l e =
    leaves_through (before k) (λ t. t == gate) intent ts h first l (rw e last)

-- A mission that starts at Intent and stands at Completed has been in Context, Contract, Plan,
-- Simulation, Execution, Verification, Evidence, MemoryPatch and Evaluation on the way.
pub completed_passes_gates :
    (ts : List MissionState)
    → legal intent ts ≡ true
    → last_state intent ts ≡ completed
    → All (λ gate. any (λ t. t == gate) ts ≡ true) gates
unfolding edges transitions before MissionState-discrete
completed_passes_gates ts l e = (
  gate_at 1 context ts refl refl refl l e,
  (
    gate_at 2 contract ts refl refl refl l e,
    (
      gate_at 3 plan ts refl refl refl l e,
      (
        gate_at 4 simulation ts refl refl refl l e,
        (
          gate_at 6 execution ts refl refl refl l e,
          (
            gate_at 7 verification ts refl refl refl l e,
            (
              gate_at 8 evidence ts refl refl refl l e,
              (
                gate_at 9 memory_patch ts refl refl refl l e,
                (gate_at 10 evaluation ts refl refl refl l e, tt),
              ),
            ),
          ),
        ),
      ),
    ),
  ),
)

-- The adaptive states before a mission has been triaged.
untriaged : MissionState → Bool
untriaged created = true
untriaged s = is_off s || s == cancelled

-- The adaptive states in which nothing was verified yet, short of Degraded.
unverified : MissionState → Bool
unverified created = true
unverified triaged = true
unverified contracted = true
unverified planned = true
unverified scheduled = true
unverified awaiting_approval = true
unverified running = true
unverified paused = true
unverified cancelled = true
unverified rolling_back = true
unverified s = is_off s

-- An adaptive mission that starts at Created and stands at Completed was triaged, and was in
-- Verifying or Degraded on the way.
pub adaptive_completed_checked :
    (ts : List MissionState)
    → legal created ts ≡ true
    → last_state created ts ≡ completed
    → (any (λ t. t == triaged) ts ≡ true) × (any (λ t. t == verifying || t == degraded) ts ≡ true)
unfolding edges transitions untriaged unverified is_off MissionState-discrete
adaptive_completed_checked ts l e = (
  leaves_through untriaged (λ t. t == triaged) created ts refl refl l (rw e refl),
  leaves_through unverified (λ t. t == verifying || t == degraded) created ts refl refl l
      (rw e refl),
)
