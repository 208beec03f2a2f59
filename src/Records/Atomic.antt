-- ===== src/Records/Atomic.antt =====
-- A set of records saved in one transaction, and saved again.
use nexara_prime.Base.{
  String, ◌≡◌, refl, sym, ap, ◌∙◌, ◌≢◌, inl, inr, Bool, true, false, ◌&&◌, Option, none, some, List,
  [], ◌∷◌, arith, if◌then◌else◌, Option-cases, ==-refl, string_eq, nat_eq, all,
}
use mathlib.Core.Path.{subst}
use nexara_prime.Base.Dict.{get, put, get-put}
use nexara_prime.Records.{
  Digest, Row, Table, Draft, new_row, same_record, insert_or_match, save_in_turn, committed,
  save_records_atomically, option_string_eq, payload_eq,
}

same_record_refl : (r : Row) → same_record r r ≡ true
unfolding same_record
same_record_refl r =
    rw
      (
        ==-refl r.record_type,
        ==-refl r.mission_id,
        ==-refl r.payload,
        ==-refl r.created_at,
        ==-refl r.integrity_sha256,
      )
      refl

-- The record is in the table, as the draft has it.
abbrev pub holds : Row → Option Row → Bool
holds new none = false
holds new (some old) = same_record old new

matched_same :
    (b : Bool) (t t' : Table)
    → ◌≡◌ {A = Option Table} (if b then some t else none) (some t')
    → (b ≡ true) × (t ≡ t')
matched_same true t t' h = (refl, cc)
matched_same false t t' h = cc

insert_or_match-holds :
    (t t' : Table) (id : String) (new : Row) (o : Option Row)
    → insert_or_match t id new o ≡ some t'
    → o ≡ get t id
    → holds new (get t' id) ≡ true
unfolding insert_or_match
insert_or_match-holds t t' id new none h same =
    let put_there : put t id new ≡ t' = cc in
    subst (λ x. holds new (get x id) ≡ true) put_there
      (rw (get-put t id id new, ==-refl id) (same_record_refl new))
insert_or_match-holds t t' id new (some old) h same =
    let (matches, stays) = matched_same (same_record old new) t t' h in
    subst (λ x. holds new (get x id) ≡ true) stays (ap (holds new) (sym same) ∙ matches)

get-put_elsewhere :
    (t : Table) (id j : String) (new row : Row)
    → get t id ≡ none
    → get t j ≡ some row
    → get (put t id new) j ≡ some row
get-put_elsewhere t id j new row absent found = ground (arith, get-put t id j new)

-- A row that is there stays as it is.
insert_or_match-keeps :
    (t t' : Table) (id j : String) (new row : Row) (o : Option Row)
    → insert_or_match t id new o ≡ some t'
    → o ≡ get t id
    → get t j ≡ some row
    → get t' j ≡ some row
unfolding insert_or_match
insert_or_match-keeps t t' id j new row none h same found =
    let put_there : put t id new ≡ t' = cc in
    subst (λ x. get x j ≡ some row) put_there (get-put_elsewhere t id j new row (sym same) found)
insert_or_match-keeps t t' id j new row (some old) h same found =
    subst (λ x. get x j ≡ some row) (matched_same (same_record old new) t t' h).1 found

save_in_turn-none :
    (digest : Digest) (t : Table) (id : String) (r : Draft) (rest : List (String × Draft))
    → insert_or_match t id (new_row digest id r) (get t id) ≡ none
    → save_in_turn digest t ((id, r) ∷ rest) ≡ none
unfolding save_in_turn
save_in_turn-none digest t id r rest h = rw (save_in_turn, h) refl

save_in_turn-some :
    (digest : Digest) (t t1 : Table) (id : String) (r : Draft) (rest : List (String × Draft))
    → insert_or_match t id (new_row digest id r) (get t id) ≡ some t1
    → save_in_turn digest t ((id, r) ∷ rest) ≡ save_in_turn digest t1 rest
unfolding save_in_turn
save_in_turn-some digest t t1 id r rest h = rw (save_in_turn, h) refl

clash : (o : Option Table) (t : Table) → o ≡ none → o ≡ some t → ⊥
clash o t absent there = cc

save_in_turn-cons :
    (digest : Digest) (t t' : Table) (id : String) (r : Draft) (rest : List (String × Draft))
    → save_in_turn digest t ((id, r) ∷ rest) ≡ some t'
    → (t1 : Table) × (insert_or_match t id (new_row digest id r) (get t id) ≡ some t1)
      × (save_in_turn digest t1 rest ≡ some t')
save_in_turn-cons digest t t' id r rest h =
    elim (Option-cases (insert_or_match t id (new_row digest id r) (get t id))) [
      | inl absent ↦ absurd (clash _ t' (save_in_turn-none digest t id r rest absent) h)
      | inr (t1, there) ↦ (t1, there, sym (save_in_turn-some digest t t1 id r rest there) ∙ h)
    ]

pub save_in_turn-keeps :
    (digest : Digest) (t t' : Table) (rs : List (String × Draft)) (j : String) (row : Row)
    → save_in_turn digest t rs ≡ some t'
    → get t j ≡ some row
    → get t' j ≡ some row
unfolding save_in_turn
save_in_turn-keeps digest t t' [] j row h found =
    let same : t ≡ t' = cc in subst (λ x. get x j ≡ some row) same found
save_in_turn-keeps digest t t' ((id, r) ∷ rs) j row h found =
    let (t1, first, others) = save_in_turn-cons digest t t' id r rs h in
    save_in_turn-keeps digest t1 t' rs j row others
      (insert_or_match-keeps t t1 id j (new_row digest id r) row (get t id) first refl found)

not_held : (new : Row) → holds new none ≢ true
not_held new h = cc

holds_later :
    (digest : Digest) (t t' : Table) (rs : List (String × Draft)) (j : String) (new : Row)
    → save_in_turn digest t rs ≡ some t'
    → holds new (get t j) ≡ true
    → holds new (get t' j) ≡ true
holds_later digest t t' rs j new h there = elim (Option-cases (get t j)) [
  | inl absent ↦ absurd (not_held new (sym (ap (holds new) absent) ∙ there))
  | inr (row, found) ↦
      ap (holds new) (save_in_turn-keeps digest t t' rs j row h found ∙ sym found) ∙ there
]

insert_or_match-again :
    (t : Table) (id : String) (new : Row) (o : Option Row)
    → holds new o ≡ true
    → insert_or_match t id new o ≡ some t
unfolding insert_or_match
insert_or_match-again t id new none h = cc
insert_or_match-again t id new (some old) h = rw h refl

-- Every record of the set is in the table.
abbrev pub all_held : Digest → Table → List (String × Draft) → Bool
all_held digest t rs = all (λ e. holds (new_row digest e.0 e.1) (get t e.0)) rs

save_in_turn-held :
    (digest : Digest) (t t' : Table) (rs : List (String × Draft))
    → save_in_turn digest t rs ≡ some t'
    → all_held digest t' rs ≡ true
save_in_turn-held digest t t' [] h = refl
save_in_turn-held digest t t' ((id, r) ∷ rs) h =
    let (t1, first, others) = save_in_turn-cons digest t t' id r rs h in
    let there =
      holds_later digest t1 t' rs id (new_row digest id r) others
        (insert_or_match-holds t t1 id (new_row digest id r) (get t id) first refl) in
    rw there (save_in_turn-held digest t1 t' rs others)

pub and_true : (a b : Bool) → a && b ≡ true → (a ≡ true) × (b ≡ true)
and_true a b h = ground arith

held_again :
    (digest : Digest) (t : Table) (rs : List (String × Draft))
    → all_held digest t rs ≡ true
    → save_in_turn digest t rs ≡ some t
unfolding save_in_turn
held_again digest t [] h = refl
held_again digest t ((id, r) ∷ rs) h =
    let (this, others) = and_true _ _ h in
    save_in_turn-some digest t t id r rs
      (insert_or_match-again t id (new_row digest id r) (get t id) this)
    ∙ held_again digest t rs others

atomic_again :
    (digest : Digest) (t : Table) (rs : List (String × Draft))
    → save_records_atomically digest (save_records_atomically digest t rs).0 rs
      ≡ save_records_atomically digest t rs
unfolding save_records_atomically
atomic_again digest t rs = elim (Option-cases (save_in_turn digest t rs)) [
  | inl absent ↦
      ap (λ o. committed (committed t o).0 (save_in_turn digest (committed t o).0 rs)) absent
  | inr (t', there) ↦
      ap (λ o. committed (committed t o).0 (save_in_turn digest (committed t o).0 rs)) there
      ∙ ap (committed t') (held_again digest t' rs (save_in_turn-held digest t t' rs there))
      ∙ sym (ap (committed t) there)
]

-- What a transaction is to give: a table with every record of the set, or the table as it was.
abbrev pub Committed : Digest → Table → List (String × Draft) → Table × Bool → Type 0
Committed digest t rs (t', true) = all_held digest t' rs ≡ true
Committed digest t rs (t', false) = t' ≡ t

saved_or_undone :
    (digest : Digest) (t : Table) (rs : List (String × Draft))
    → Committed digest t rs (save_records_atomically digest t rs)
unfolding save_records_atomically
saved_or_undone digest t rs = elim (Option-cases (save_in_turn digest t rs)) [
  | inl absent ↦ subst (λ o. Committed digest t rs (committed t o)) (sym absent) refl
  | inr (t', there) ↦
      subst (λ o. Committed digest t rs (committed t o)) (sym there)
        (save_in_turn-held digest t t' rs there)
]

-- A transaction that is committed has put every record of the set into the table, as it was asked for,
-- and one that is not leaves the table as it was; the same transaction run again changes nothing and
-- answers the same.
pub save_records_atomically-again :
    (digest : Digest) (t : Table) (rs : List (String × Draft))
    → Committed digest t rs (save_records_atomically digest t rs)
      × (save_records_atomically digest (save_records_atomically digest t rs).0 rs
          ≡ save_records_atomically digest t rs)
save_records_atomically-again digest t rs = (saved_or_undone digest t rs, atomic_again digest t rs)
