-- ===== src/Records.antt =====
-- src/nexara_prime/db.py: the table `records` of `SQLiteStore` and the operations that write and read a
-- record. A payload is the list of its fields, each value the text of its JSON, and two payloads are
-- one where their canonical texts are. The digest `_record_integrity` is a parameter. The rows that a
-- query gives are in no order here. The lock and the transactions make each operation one step.
pub mod Atomic
pub mod Anchor
pub mod Types
pub mod Tests
use nexara_prime.Base.{
  ℕ, zero, suc, ◌+◌, ◌-◌, ◌*◌, ◌/◌, ◌%◌, ◌≤◌, ◌<◌, min, max, String, ◌<>◌, ◌≡◌, refl, sym, ap, ◌∙◌,
  ◌≢◌, ◌↔◌, ◌⊎◌, inl, inr, Bool, true, false, not, ◌&&◌, ◌||◌, Option, none, some, List, [], ◌∷◌,
  ◌++◌, map, arith, ltb, leb, if◌then◌else◌, Bool-cases, Option-cases, Eq, ◌==◌, eq_iff, contains,
  ==-refl, string_eq, nat_eq, length, get_elem?, length-append, all, all-get_elem?, any, All,
  All-append, In, any-append, is_some, or_else,
}
use nexara_prime.Base.Dict.{Dict, get, put}

abbrev pub Payload : Type 0
Payload = Dict String String

instance abbrev pub option_string_eq : Eq (Option String)
unfolding string_eq
option_string_eq = record { dec = hlevel string_eq.dec }

instance abbrev pub payload_eq : Eq Payload
unfolding string_eq
payload_eq = record { dec = hlevel string_eq.dec }

-- The digest of an id, a type, a mission, a time and a payload
abbrev pub Digest : Type 0
Digest = String → String → Option String → String → Payload → String

pub record Row : Type 0 where
  pub record_type : String
  pub mission_id : Option String
  pub payload : Payload
  pub created_at : String
  pub integrity_sha256 : Option String
  pub origin_sha256 : Option String

abbrev pub Table : Type 0
Table = Dict String Row

-- What a caller wants to be saved, but for its id.
pub record Draft : Type 0 where
  pub record_type : String
  pub mission_id : Option String
  pub payload : Payload
  pub created_at : String

abbrev pub integrity_of : Digest → String → Draft → String
integrity_of digest id r = digest id r.record_type r.mission_id r.created_at r.payload

unfoldable pub new_row : Digest → String → Draft → Row
new_row digest id r = record {
  record_type = r.record_type;
  mission_id = r.mission_id;
  payload = r.payload;
  created_at = r.created_at;
  integrity_sha256 = some (integrity_of digest id r);
  origin_sha256 = some (integrity_of digest id r);
}

-- ON CONFLICT(record_id) DO UPDATE: all but the origin
unfoldable pub upserted : Option Row → Row → Row
upserted none new = new
upserted (some old) new = record new { origin_sha256 = old.origin_sha256 }

unfoldable pub save_record : Digest → Table → String → Draft → Table
save_record digest t id r = put t id (upserted (get t id) (new_row digest id r))

abbrev pub payload_of : Option Row → Option Payload
payload_of none = none
payload_of (some row) = some row.payload

unfoldable pub get_record : Table → String → Option Payload
get_record t id = payload_of (get t id)

unfoldable pub save_record_if_absent : Digest → Table → String → Draft → Table × Bool
save_record_if_absent digest t id r =
    if is_some (get t id) then (t, false) else (put t id (new_row digest id r), true)

-- The digest of a row as it is stored
abbrev pub row_digest : Digest → String → Row → String
row_digest digest id row = digest id row.record_type row.mission_id row.created_at row.payload

-- `not row["integrity_sha256"]` for none and the empty text
abbrev pub is_text : Option String → Bool
is_text none = false
is_text (some t) = not (t == "")

unfoldable pub is_intact : Digest → String → Row → Bool
is_intact digest id row =
    is_text row.integrity_sha256 && row.integrity_sha256 == some (row_digest digest id row)

unfoldable pub envelope_of : Digest → String → Option Row → Option Row
envelope_of digest id none = none
envelope_of digest id (some row) =
    if is_intact digest id row && is_text row.origin_sha256 then some row else none

unfoldable pub get_record_envelope : Digest → Table → String → Option Row
get_record_envelope digest t id = envelope_of digest id (get t id)

unfoldable pub record_origin_matches : Digest → String → Row → Payload → Bool
record_origin_matches digest id row payload =
    is_text row.origin_sha256
    && row.origin_sha256 == some (digest id row.record_type row.mission_id row.created_at payload)

-- The row with a new payload and its digest
unfoldable pub repaid : Digest → String → Row → Payload → Row
repaid digest id row payload = record row {
  payload = payload;
  integrity_sha256 = some (row_digest digest id (record row { payload = payload }));
}

unfoldable pub compare_and_set_on :
    Digest
    → Table
    → String
    → String
    → String
    → Option String
    → String
    → Option Row
    → Table × Option Payload
compare_and_set_on digest t id type field expected new none = (t, none)
compare_and_set_on digest t id type field expected new (some row) =
    if not (row.record_type == type)
    then (t, none)
    else if not (is_intact digest id row)
    then (t, none)
    else if not (get row.payload field == expected)
    then (t, none)
    else (
      put t id (repaid digest id row (put row.payload field new)),
      some (put row.payload field new),
    )

-- `expected` is none for a field that is to be missing.
unfoldable pub compare_and_set_record_field :
    Digest → Table → String → String → String → Option String → String → Table × Option Payload
compare_and_set_record_field digest t id type field expected new =
    compare_and_set_on digest t id type field expected new (get t id)

unfoldable pub replace_on :
    Digest → Table → String → String → String → Payload → Option Row → Table × Bool
replace_on digest t id type expected payload none = (t, false)
replace_on digest t id type expected payload (some row) =
    if not (row.record_type == type)
    then (t, false)
    else if not (row.integrity_sha256 == some expected)
    then (t, false)
    else if not (row_digest digest id row == expected)
    then (t, false)
    else (put t id (repaid digest id row payload), true)

unfoldable pub replace_record_payload_if_integrity_matches :
    Digest → Table → String → String → String → Payload → Table × Bool
replace_record_payload_if_integrity_matches digest t id type expected payload =
    replace_on digest t id type expected payload (get t id)

unfoldable pub same_record : Row → Row → Bool
same_record old new =
    old.record_type == new.record_type
    && (old.mission_id == new.mission_id
        && (old.payload == new.payload
            && (old.created_at == new.created_at && old.integrity_sha256 == new.integrity_sha256)))

-- One record of a set: the table after it, or none for `atomic_record_identity_conflict`.
unfoldable pub insert_or_match : Table → String → Row → Option Row → Option Table
insert_or_match t id new none = some (put t id new)
insert_or_match t id new (some old) = if same_record old new then some t else none

unfoldable pub save_in_turn : Digest → Table → List (String × Draft) → Option Table
save_in_turn digest t [] = some t
save_in_turn digest t ((id, r) ∷ rest) =
    elim (insert_or_match t id (new_row digest id r) (get t id)) [
      | none ↦ none
      | some t' ↦ save_in_turn digest t' rest
    ]

abbrev pub committed : Table → Option Table → Table × Bool
committed t none = (t, false)
committed t (some t') = (t', true)

-- The answer is false where the code raises, after the roll-back.
unfoldable pub save_records_atomically : Digest → Table → List (String × Draft) → Table × Bool
save_records_atomically digest t rs = committed t (save_in_turn digest t rs)

unfoldable pub list_records : Table → String → Option String → List Payload
list_records [] type mission = []
list_records ((id, row) ∷ t) type mission =
    let rest = list_records t type mission in
    if row.record_type == type && (not (is_text mission) || row.mission_id == mission)
    then row.payload ∷ rest
    else rest
