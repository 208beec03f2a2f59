-- ===== src/Mission/Transition.antt =====
-- `MissionStateMachine.transition` on every branch.
use nexara_prime.Base.{
  String, ◌≡◌, refl, inl, inr, none, [], ◌∷◌, ◌++◌, if◌then◌else◌, Bool-cases, string_eq, nat_eq,
}
use nexara_prime.Events.{find_id}
use nexara_prime.Events.Publish.{publish_new}
use nexara_prime.Mission.{
  MissionState, EvidenceStore, World, transitioned, failed_with, invalid_transition, can_transition,
  change_event, state_change_request, transition,
}

module _ {Log : Type 0} (evidence : EvidenceStore Log) where
  -- With a fresh event id a transition succeeds exactly when the table allows it. It then moves the
  -- mission, stamps it with the time of the event, appends that one event to the table, tells the
  -- subscribers once, and hands the evidence store one request that names the event. A refused
  -- transition changes nothing.
  pub transition_lem :
      (w : World Log) (target : MissionState) (actor event_id now : String)
      → find_id w.bus.rows event_id ≡ none
      → let event = change_event w.mission target actor event_id now in
        transition evidence w target actor event_id now ≡ (
          if can_transition w.mission.state target
          then (
            record {
              mission = record w.mission { state = target; updated_at = now };
              bus = record {
                rows = w.bus.rows ++ event ∷ [];
                notified = w.bus.notified ++ event ∷ [];
              };
              log =
                  evidence.add w.log
                    (state_change_request w.mission w.mission.state target event_id);
            },
            transitioned event,
          )
          else (w, failed_with (invalid_transition w.mission.state target)))
  unfolding transition change_event
  transition_lem w target actor event_id now fresh =
      elim (Bool-cases (can_transition w.mission.state target)) [
        | inl allowed ↦ rw (
          allowed,
          publish_new w.bus (change_event w.mission target actor event_id now) fresh refl,
        )
        | inr banned ↦ rw banned
      ]
