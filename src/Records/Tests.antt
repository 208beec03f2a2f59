-- ===== src/Records/Tests.antt =====
-- Writes to a small table, with a digest that joins the id and the type.
use nexara_prime.Base.{
  String, List, ◌<>◌, ◌≡◌, refl, false, none, some, List, [], ◌∷◌, string_eq, nat_eq,
}
use nexara_prime.Base.Dict.{get, put}
use nexara_prime.Records.{
  save_in_turn, insert_or_match, same_record, Digest, Table, Draft, new_row, save_record,
  get_record, get_record_envelope, compare_and_set_record_field, save_records_atomically,
}
use nexara_prime.Records.Atomic.{Committed, save_records_atomically-again}
use nexara_prime.Records.Anchor.{
  Write, save, set_field, save_all, write_each, origin_at, write_each-origin, save_record-envelope,
}
use nexara_prime.Records.Types.{save_record-takes_over}

abbrev joined : Digest
joined id type mission time payload = id <> ":" <> type

abbrev mission_draft : Draft
mission_draft = record {
  record_type = "mission";
  mission_id = some "m";
  payload = ("state", "running") ∷ [];
  created_at = "2026-01-01";
}

abbrev queue_draft : Draft
queue_draft = record mission_draft {
  record_type = "mission_queue";
  payload = ("state", "queued") ∷ [];
}

abbrev one_mission : Table
one_mission = ("m", new_row joined "m" mission_draft) ∷ []

abbrev two_records : List (String × Draft)
two_records = ("m", mission_draft) ∷ ("n", queue_draft) ∷ []

save_records_atomically-again_example :
    Committed joined one_mission two_records
      (save_records_atomically joined one_mission two_records)
    × (save_records_atomically joined
          (save_records_atomically joined one_mission two_records).0
          two_records
        ≡ save_records_atomically joined one_mission two_records)
save_records_atomically-again_example = save_records_atomically-again joined one_mission two_records

abbrev writes : List Write
writes =
    set_field "m" "mission" "state" (some "running") "completed"
    ∷ save "m" queue_draft
    ∷ save_all (("n", queue_draft) ∷ [])
    ∷ []

write_each-origin_example :
    origin_at (write_each joined one_mission writes) "m" ≡ some (some "m:mission")
unfolding origin_at get string_eq new_row
write_each-origin_example = write_each-origin joined one_mission writes "m" (some "m:mission") refl

save_record-envelope_example :
    get_record_envelope joined (save_record joined [] "m" mission_draft) "m"
    ≡ some (new_row joined "m" mission_draft)
unfolding get string_eq
save_record-envelope_example = save_record-envelope joined [] "m" mission_draft refl refl

save_record-takes_over_example :
    (get_record (save_record joined one_mission "m" queue_draft) "m"
      ≡ some (("state", "queued") ∷ []))
    × (compare_and_set_record_field joined
          (save_record joined one_mission "m" queue_draft)
          "m"
          "mission"
          "state"
          (some "running")
          "completed"
        ≡ (save_record joined one_mission "m" queue_draft, none))
unfolding string_eq
save_record-takes_over_example =
    save_record-takes_over joined one_mission "m" "mission" "state" (some "running") "completed"
      queue_draft refl

-- A clash with a record that is there undoes the whole set.
conflict_undone :
    save_records_atomically joined one_mission (("n", queue_draft) ∷ ("m", queue_draft) ∷ [])
    ≡ (one_mission, false)
unfolding save_records_atomically save_in_turn insert_or_match get string_eq put same_record new_row
conflict_undone = refl
