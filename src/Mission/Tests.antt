-- ===== src/Mission/Tests.antt =====
-- Runs of the mission state machine, and the theorems at concrete histories.
use nexara_prime.Base.{
  ◌≡◌, refl, true, false, List, [], ◌∷◌, if◌then◌else◌, ◌==◌, string_eq, nat_eq, any, All,
}
use nexara_prime.Events.{find_id}
use nexara_prime.Mission.{
  MissionState, state_eq, intent, context, contract, plan, simulation, approval, execution,
  verification, evidence, memory_patch, evaluation, completed, created, triaged, scheduled, running,
  degraded, verifying, EvidenceRequest, EvidenceStore, World, transition, transitioned, failed_with,
  invalid_transition, can_transition, change_event, state_change_request, MissionState-discrete,
  can_escalate, mode_rank, can_de_escalate,
}
use nexara_prime.Mission.Transition.{transition_lem}
use nexara_prime.Mission.Paths.{legal}
use nexara_prime.Mission.Gates.{gates, completed_passes_gates}

-- The happy path, with an approval.
abbrev happy : List MissionState
happy =
    context ∷ contract ∷ plan ∷ simulation ∷ approval ∷ execution ∷ verification ∷ evidence
    ∷ memory_patch ∷ evaluation ∷ completed ∷ []

happy-legal : legal intent happy ≡ true
unfolding can_transition MissionState-discrete
happy-legal = refl

abbrev adaptive : List MissionState
adaptive = triaged ∷ scheduled ∷ running ∷ verifying ∷ completed ∷ []

adaptive-legal : legal created adaptive ≡ true
unfolding can_transition MissionState-discrete
adaptive-legal = refl

-- A mission may be completed with neither a run nor a verification, by way of Degraded.
degraded_shortcut : legal created (triaged ∷ degraded ∷ completed ∷ []) ≡ true
unfolding can_transition MissionState-discrete
degraded_shortcut = refl

completed_passes_gates_example : All (λ gate. any (λ t. t == gate) happy ≡ true) gates
completed_passes_gates_example = completed_passes_gates happy happy-legal refl

abbrev keep_all : EvidenceStore (List EvidenceRequest)
keep_all = record { add = λ log r. r ∷ log }

abbrev new_world : World (List EvidenceRequest)
new_world = record {
  mission = record { mission_id = "m1"; trace_id = "t1"; state = intent; updated_at = "0" };
  bus = record { rows = []; notified = [] };
  log = [];
}

transition_lem_example :
    let event = change_event new_world.mission context "user" "evt_1" "1" in
    transition keep_all new_world context "user" "evt_1" "1" ≡ (
      if can_transition intent context
      then (
        record {
          mission = record {
            mission_id = "m1";
            trace_id = "t1";
            state = context;
            updated_at = "1";
          };
          bus = record { rows = event ∷ []; notified = event ∷ [] };
          log = state_change_request new_world.mission intent context "evt_1" ∷ [];
        },
        transitioned event,
      )
      else (new_world, failed_with (invalid_transition intent context)))
unfolding find_id
transition_lem_example = transition_lem keep_all new_world context "user" "evt_1" "1" refl

context_allowed : can_transition intent context ≡ true
unfolding can_transition MissionState-discrete
context_allowed = refl

skip_refused :
    transition keep_all new_world execution "user" "evt_1" "1"
    ≡ (new_world, failed_with (invalid_transition intent execution))
unfolding transition can_transition MissionState-discrete
skip_refused = refl

S0_below_S3 :
    (can_escalate "S0" "S3" ≡ true)
    × (can_de_escalate "S0" "S3" ≡ false)
    × (can_escalate "S9" "S0" ≡ true)
unfolding can_escalate can_de_escalate mode_rank string_eq
S0_below_S3 = (refl, refl, refl)
