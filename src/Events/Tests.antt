-- ===== src/Events/Tests.antt =====
-- Runs of the event bus, and the theorems at them.
use nexara_prime.Base.{
  String, ◌≡◌, refl, Option, some, [], ◌∷◌, arith, if◌then◌else◌, eq_iff, string_eq, nat_eq,
}
use nexara_prime.Events.{
  Event, Bus, published, refused, identity_conflict, find_id, find_key, save_event, publish,
  same_identity,
}
use nexara_prime.Events.Publish.{publish-notifies_once, publish-replay}

abbrev sample : String → String → Option String → Event String
sample id kind key = record {
  event_id = id;
  event_type = kind;
  aggregate_id = "m1";
  aggregate_type = "mission";
  actor = "user";
  trace_id = "t";
  timestamp = "0";
  idempotency_key = key;
  payload = "p";
}

abbrev empty_bus : Bus String
empty_bus = record { rows = []; notified = [] }

abbrev first : Event String
first = sample "evt_1" "created" (some "k")

abbrev one_row : Bus String
one_row = record { rows = first ∷ []; notified = first ∷ [] }

publish-first : publish empty_bus first ≡ (one_row, published first)
unfolding publish save_event find_id find_key string_eq
publish-first = refl

publish-conflict :
    (publish one_row (sample "evt_2" "deleted" (some "k"))).1 ≡ refused identity_conflict
unfolding publish save_event find_id find_key string_eq
publish-conflict = refl

publish-notifies_once_example :
    (publish empty_bus first).0.notified ≡ (publish empty_bus first).0.rows
unfolding find_id
publish-notifies_once_example = publish-notifies_once empty_bus first refl refl

publish-replay_example :
    publish (publish empty_bus first).0 (sample "evt_2" "created" (some "k")) ≡ (
      (publish empty_bus first).0,
      if same_identity first (sample "evt_2" "created" (some "k"))
          then published first
          else refused identity_conflict,
    )
unfolding find_id publish save_event find_key string_eq
publish-replay_example =
    publish-replay empty_bus first (sample "evt_2" "created" (some "k")) first "k"
      (ground (arith, eq_iff "k" "")) refl refl refl refl refl
