-- ===== src/Records/Anchor.antt =====
-- What stays of a record under the writes to the table, and what a save of its id takes away.
use nexara_prime.Base.{
  String, ◌≡◌, refl, sym, ap, ◌∙◌, ◌≢◌, inl, inr, false, Option, none, some, List, [], ◌∷◌, arith,
  Option-cases, ◌==◌, ==-refl, string_eq, nat_eq,
}
use nexara_prime.Base.Dict.{get, put, get-put}
use nexara_prime.Records.{
  Digest, Payload, Row, Table, Draft, integrity_of, new_row, upserted, save_record,
  save_record_if_absent, is_intact, envelope_of, get_record_envelope, repaid, compare_and_set_on,
  compare_and_set_record_field, replace_on, replace_record_payload_if_integrity_matches,
  save_in_turn, committed, save_records_atomically, option_string_eq, payload_eq,
}
use nexara_prime.Records.Atomic.{save_in_turn-keeps}

pub data Write : Type 0 where
  save save_absent : String → Draft → Write
  set_field : String → String → String → Option String → String → Write
  replace : String → String → String → Payload → Write
  save_all : List (String × Draft) → Write

unfoldable pub write : Digest → Table → Write → Table
write digest t (save id r) = save_record digest t id r
write digest t (save_absent id r) = (save_record_if_absent digest t id r).0
write digest t (set_field id type field expected new) =
    (compare_and_set_record_field digest t id type field expected new).0
write digest t (replace id type expected payload) =
    (replace_record_payload_if_integrity_matches digest t id type expected payload).0
write digest t (save_all rs) = (save_records_atomically digest t rs).0

unfoldable pub write_each : Digest → Table → List Write → Table
write_each digest t [] = t
write_each digest t (w ∷ ws) = write_each digest (write digest t w) ws

-- The origin of the row under an id, if there is one.
abbrev pub origin_of : Option Row → Option (Option String)
origin_of none = none
origin_of (some row) = some row.origin_sha256

unfoldable pub origin_at : Table → String → Option (Option String)
origin_at t id = origin_of (get t id)

put-origin :
    (t : Table) (id j : String) (row : Row) (o : Option String)
    → origin_at t j ≡ some o
    → ((old : Row) → get t id ≡ some old → row.origin_sha256 ≡ old.origin_sha256)
    → origin_at (put t id row) j ≡ some o
unfolding origin_at
put-origin t id j row o there same = elim (Option-cases (get t id)) [
  | inl absent ↦ ground (arith, get-put t id j row)
  | inr (old, found) ↦ ground (arith, get-put t id j row, same old found)
]

save_record-origin :
    (digest : Digest) (t : Table) (id j : String) (r : Draft) (o : Option String)
    → origin_at t j ≡ some o
    → origin_at (save_record digest t id r) j ≡ some o
unfolding save_record upserted
save_record-origin digest t id j r o there =
    put-origin t id j (upserted (get t id) (new_row digest id r)) o there
      (λ old found. ap (λ x. (upserted x (new_row digest id r)).origin_sha256) found)

save_record_if_absent-none :
    (digest : Digest) (t : Table) (id : String) (r : Draft)
    → get t id ≡ none
    → (save_record_if_absent digest t id r).0 ≡ put t id (new_row digest id r)
unfolding save_record_if_absent
save_record_if_absent-none digest t id r absent = rw (save_record_if_absent, absent) refl

save_record_if_absent-some :
    (digest : Digest) (t : Table) (id : String) (r : Draft) (old : Row)
    → get t id ≡ some old
    → (save_record_if_absent digest t id r).0 ≡ t
unfolding save_record_if_absent
save_record_if_absent-some digest t id r old found = rw (save_record_if_absent, found) refl

save_record_if_absent-origin :
    (digest : Digest) (t : Table) (id j : String) (r : Draft) (o : Option String)
    → origin_at t j ≡ some o
    → origin_at (save_record_if_absent digest t id r).0 j ≡ some o
save_record_if_absent-origin digest t id j r o there = elim (Option-cases (get t id)) [
  | inl absent ↦
      ap (λ x. origin_at x j) (save_record_if_absent-none digest t id r absent)
      ∙ put-origin t id j (new_row digest id r) o there
          (λ old found. absurd (lost old absent found))
  | inr (old, found) ↦
      ap (λ x. origin_at x j) (save_record_if_absent-some digest t id r old found) ∙ there
]
  where
    lost : (old : Row) → get t id ≡ none → get t id ≢ some old
    lost old absent found = cc

same_origin :
    (t : Table) (id : String) (row old : Row)
    → some row ≡ get t id
    → get t id ≡ some old
    → row.origin_sha256 ≡ old.origin_sha256
same_origin t id row old same found = let both : row ≡ old = cc in ap (λ x. x.origin_sha256) both

repaid-origin :
    (digest : Digest) (t : Table) (id j : String) (row : Row) (payload : Payload)
    (o : Option String)
    → some row ≡ get t id
    → origin_at t j ≡ some o
    → origin_at (put t id (repaid digest id row payload)) j ≡ some o
unfolding repaid
repaid-origin digest t id j row payload o same there =
    put-origin t id j (repaid digest id row payload) o there
      (λ old found. same_origin t id row old same found)

compare_and_set_on-origin :
    (digest : Digest) (t : Table) (id j type field : String) (expected : Option String)
    (new : String) (found : Option Row) (o : Option String)
    → found ≡ get t id
    → origin_at t j ≡ some o
    → origin_at (compare_and_set_on digest t id type field expected new found).0 j ≡ some o
unfolding compare_and_set_on
compare_and_set_on-origin digest t id j type field expected new none o same there = there
compare_and_set_on-origin digest t id j type field expected new (some row) o same there =
    ground (arith, repaid-origin digest t id j row (put row.payload field new) o same there)

replace_on-origin :
    (digest : Digest) (t : Table) (id j type expected : String) (payload : Payload)
    (found : Option Row) (o : Option String)
    → found ≡ get t id
    → origin_at t j ≡ some o
    → origin_at (replace_on digest t id type expected payload found).0 j ≡ some o
unfolding replace_on
replace_on-origin digest t id j type expected payload none o same there = there
replace_on-origin digest t id j type expected payload (some row) o same there =
    ground (arith, repaid-origin digest t id j row payload o same there)

origin_found :
    (t : Table) (j : String) (o : Option String)
    → origin_at t j ≡ some o
    → (row : Row) × (get t j ≡ some row)
unfolding origin_at
origin_found t j o there = elim (Option-cases (get t j)) [
  | inl absent ↦ absurd (nowhere (sym (ap origin_of absent) ∙ there))
  | inr found ↦ found
]
  where
    nowhere : origin_of none ≢ some o
    nowhere h = cc

save_records_atomically-origin :
    (digest : Digest) (t : Table) (rs : List (String × Draft)) (j : String) (o : Option String)
    → origin_at t j ≡ some o
    → origin_at (save_records_atomically digest t rs).0 j ≡ some o
unfolding save_records_atomically origin_at
save_records_atomically-origin digest t rs j o there =
    elim (Option-cases (save_in_turn digest t rs)) [
      | inl absent ↦ ap (λ x. origin_of (get (committed t x).0 j)) absent ∙ there
      | inr (t', saved) ↦
          let (row, found) = origin_found t j o there in
          ap (λ x. origin_of (get (committed t x).0 j)) saved
          ∙ ap origin_of (save_in_turn-keeps digest t t' rs j row saved found ∙ sym found)
          ∙ there
    ]

write-origin :
    (digest : Digest) (t : Table) (w : Write) (j : String) (o : Option String)
    → origin_at t j ≡ some o
    → origin_at (write digest t w) j ≡ some o
unfolding write compare_and_set_record_field replace_record_payload_if_integrity_matches
write-origin digest t (save id r) j o there = save_record-origin digest t id j r o there
write-origin digest t (save_absent id r) j o there =
    save_record_if_absent-origin digest t id j r o there
write-origin digest t (set_field id type field expected new) j o there =
    compare_and_set_on-origin digest t id j type field expected new (get t id) o refl there
write-origin digest t (replace id type expected payload) j o there =
    replace_on-origin digest t id j type expected payload (get t id) o refl there
write-origin digest t (save_all rs) j o there = save_records_atomically-origin digest t rs j o there

-- A record of the table stays in it, with the origin digest that it has, under any sequence of
-- `save_record`, `save_record_if_absent`, `compare_and_set_record_field`,
-- `replace_record_payload_if_integrity_matches` and `save_records_atomically`.
pub write_each-origin :
    (digest : Digest) (t : Table) (ws : List Write) (j : String) (o : Option String)
    → origin_at t j ≡ some o
    → origin_at (write_each digest t ws) j ≡ some o
unfolding write_each
write_each-origin digest t [] j o there = there
write_each-origin digest t (w ∷ ws) j o there =
    write_each-origin digest (write digest t w) ws j o (write-origin digest t w j o there)

pub save_record-get :
    (digest : Digest) (t : Table) (id : String) (r : Draft)
    → get (save_record digest t id r) id ≡ some (upserted (get t id) (new_row digest id r))
unfolding save_record
save_record-get digest t id r =
    rw (get-put t id id (upserted (get t id) (new_row digest id r)), ==-refl id) refl

-- A record that is saved under a new id is read back with its envelope, if no digest is empty.
pub save_record-envelope :
    (digest : Digest) (t : Table) (id : String) (r : Draft)
    → get t id ≡ none
    → (integrity_of digest id r == "") ≡ false
    → get_record_envelope digest (save_record digest t id r) id ≡ some (new_row digest id r)
unfolding get_record_envelope envelope_of upserted is_intact new_row
save_record-envelope digest t id r absent text =
    ap (envelope_of digest id)
      (save_record-get digest t id r ∙ ap (λ x. some (upserted x (new_row digest id r))) absent)
    ∙ ground (arith, ==-refl (some (integrity_of digest id r)))
