-- ===== src/Records/Types.antt =====
-- An id belongs to one record type at a time.
use nexara_prime.Base.{
  String, ◌≡◌, refl, ap, ◌∙◌, false, Option, none, some, arith, ◌==◌, string_eq, nat_eq,
}
use nexara_prime.Base.Dict.{get}
use nexara_prime.Records.{
  Digest, Row, Table, Draft, new_row, upserted, save_record, payload_of, get_record,
  compare_and_set_on, compare_and_set_record_field, option_string_eq, payload_eq,
}
use nexara_prime.Records.Anchor.{save_record-get}

other_type :
    (digest : Digest) (t : Table) (id type field : String) (expected : Option String) (new : String)
    (r : Draft) (o : Option Row)
    → (r.record_type == type) ≡ false
    → compare_and_set_on digest t id type field expected new
        (some (upserted o (new_row digest id r)))
      ≡ (t, none)
unfolding compare_and_set_on upserted new_row
other_type digest t id type field expected new r none differs = ground arith
other_type digest t id type field expected new r (some old) differs = ground arith

upserted-payload :
    (digest : Digest) (id : String) (r : Draft) (o : Option Row)
    → (upserted o (new_row digest id r)).payload ≡ r.payload
unfolding upserted new_row
upserted-payload digest id r none = refl
upserted-payload digest id r (some old) = refl

-- The id of a record is unique across record types: a save under an id that another type uses takes
-- the record over, so that the id reads as the new payload and an update of a field of the record
-- under its old type fails.
pub save_record-takes_over :
    (digest : Digest) (t : Table) (id type field : String) (expected : Option String) (new : String)
    (r : Draft)
    → (r.record_type == type) ≡ false
    → (get_record (save_record digest t id r) id ≡ some r.payload)
      × (compare_and_set_record_field digest (save_record digest t id r) id type field expected new
          ≡ (save_record digest t id r, none))
unfolding get_record compare_and_set_record_field
save_record-takes_over digest t id type field expected new r differs = (
  ap payload_of (save_record-get digest t id r) ∙ ap some (upserted-payload digest id r (get t id)),
  ap (compare_and_set_on digest (save_record digest t id r) id type field expected new)
        (save_record-get digest t id r)
      ∙ other_type digest (save_record digest t id r) id type field expected new r (get t id)
          differs,
)
