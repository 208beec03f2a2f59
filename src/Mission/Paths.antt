-- ===== src/Mission/Paths.antt =====
-- What the table of transitions means for whole histories of a mission.
use nexara_prime.Base.{
  ℕ, ◌≡◌, refl, inl, inr, Bool, true, false, not, ◌&&◌, ◌||◌, some, List, [], ◌∷◌, arith,
  Bool-cases, contains, string_eq, nat_eq, get_elem?, all, all-get_elem?, any,
}
use nexara_prime.Mission.{
  MissionState, intent, context, contract, plan, simulation, approval, execution, verification,
  evidence, memory_patch, evaluation, completed, blocked, failed, rolled_back, created, triaged,
  contracted, planned, scheduled, awaiting_approval, running, verifying, degraded, paused,
  cancelled, rolling_back, state_eq, transitions, can_transition,
}

abbrev pub all_states : List MissionState
all_states =
    intent ∷ context ∷ contract ∷ plan ∷ simulation ∷ approval ∷ execution ∷ verification ∷ evidence
    ∷ memory_patch ∷ evaluation ∷ completed ∷ blocked ∷ failed ∷ rolled_back ∷ created ∷ triaged
    ∷ contracted ∷ planned ∷ scheduled ∷ awaiting_approval ∷ running ∷ verifying ∷ degraded ∷ paused
    ∷ cancelled ∷ rolling_back ∷ []

index : MissionState → ℕ
index intent = 0
index context = 1
index contract = 2
index plan = 3
index simulation = 4
index approval = 5
index execution = 6
index verification = 7
index evidence = 8
index memory_patch = 9
index evaluation = 10
index completed = 11
index blocked = 12
index failed = 13
index rolled_back = 14
index created = 15
index triaged = 16
index contracted = 17
index planned = 18
index scheduled = 19
index awaiting_approval = 20
index running = 21
index verifying = 22
index degraded = 23
index paused = 24
index cancelled = 25
index rolling_back = 26

listed : (s : MissionState) → get_elem? all_states (index s) ≡ some s
unfolding index
listed intent = refl
listed _ = refl

-- A test that passes for each state in the list passes for every state.
pub check_states :
    (p : MissionState → Bool) → all p all_states ≡ true → (s : MissionState) → p s ≡ true
check_states p h s = all-get_elem? p all_states (index s) h (listed s)

-- `ts` are the states that a mission enters after `s`, each step allowed by the table.
abbrev pub legal : MissionState → List MissionState → Bool
legal s [] = true
legal s (t ∷ ts) = can_transition s t && legal t ts

abbrev pub last_state : MissionState → List MissionState → MissionState
last_state s [] = s
last_state s (t ∷ ts) = last_state t ts

all-contains :
    (p : MissionState → Bool) (ts : List MissionState) (t : MissionState)
    → all p ts ≡ true
    → contains ts t ≡ true
    → p t ≡ true
all-contains p [] t h m = cc
all-contains p (x ∷ ts) t h m = ground (arith, all-contains p ts t)

-- A test of all edges of the table.
unfoldable pub edges : (MissionState → MissionState → Bool) → Bool
edges p = all (λ s. all (p s) (transitions s)) all_states

pub edges-can_transition :
    (p : MissionState → MissionState → Bool) (s t : MissionState)
    → edges p ≡ true
    → can_transition s t ≡ true
    → p s t ≡ true
unfolding can_transition edges
edges-can_transition p s t h m =
    all-contains (p s) (transitions s) t (check_states (λ s'. all (p s') (transitions s')) h s) m

-- A set that only states of `gate` lead out of is left through one of them.
pub leaves_through :
    (inside gate : MissionState → Bool) (s : MissionState) (ts : List MissionState)
    → edges (λ u t. not (inside u) || (inside t || gate t)) ≡ true
    → inside s ≡ true
    → legal s ts ≡ true
    → inside (last_state s ts) ≡ false
    → any gate ts ≡ true
leaves_through inside gate s [] h i l o = cc
leaves_through inside gate s (t ∷ ts) h i l o =
    let edge = edges-can_transition (λ u t'. not (inside u) || (inside t' || gate t')) s t h in
    elim (Bool-cases (inside t)) [
      | inl still ↦ ground (arith, leaves_through inside gate t ts h still (legal-tail l) o)
      | inr left ↦ ground (arith, edge (legal-head l))
    ]
  where
    legal-head : legal s (t ∷ ts) ≡ true → can_transition s t ≡ true
    legal-head a = ground arith

    legal-tail : legal s (t ∷ ts) ≡ true → legal t ts ≡ true
    legal-tail a = ground arith
