-- ===== src/Events.antt =====
-- src/nexara_prime/events.py (`EventBus`) over the table of events of src/nexara_prime/db.py.
-- The payload is a parameter; a new event's id and time stamp are drawn by the caller.
pub mod Publish
pub mod Tests
use nexara_prime.Base.{
  ℕ, zero, suc, ◌+◌, ◌-◌, ◌*◌, ◌/◌, ◌≤◌, ◌<◌, min, max, String, ◌<>◌, ◌≡◌, refl, sym, ap, ◌∙◌, ◌≢◌,
  ◌↔◌, ◌⊎◌, inl, inr, Bool, true, false, not, ◌&&◌, ◌||◌, Option, none, some, List, [], ◌∷◌, ◌++◌,
  map, arith, ltb, leb, if◌then◌else◌, Bool-cases, Option-cases, Eq, ◌==◌, contains, ==-refl,
  string_eq, nat_eq, length, get_elem?, length-append, all, all-get_elem?, All, All-append, is_some,
  or_else,
}

pub record Event (P : Type 0) : Type 0 where
  pub event_id : String
  pub event_type : String
  pub aggregate_id : String
  pub aggregate_type : String
  pub actor : String
  pub trace_id : String
  pub timestamp : String
  pub idempotency_key : Option String
  pub payload : P

-- `rows` is the table in the order of insertion, `notified` what the subscribers were told.
pub record Bus (P : Type 0) : Type 0 where
  pub rows : List (Event P)
  pub notified : List (Event P)

pub data PublishError : Type 0 where
  persistence_failed identity_conflict : PublishError

pub data Published (P : Type 0) : Type 0 where
  published : Event P → Published P
  refused : PublishError → Published P

abbrev pub key_is : Option String → String → Bool
key_is none k = false
key_is (some j) k = j == k

module _ {P : Type 0} where
  -- SELECT … WHERE event_id=?
  unfoldable pub find_id : List (Event P) → String → Option (Event P)
  find_id [] k = none
  find_id (e ∷ rows) k = if e.event_id == k then some e else find_id rows k

  -- SELECT … WHERE idempotency_key=?
  unfoldable pub find_key : List (Event P) → String → Option (Event P)
  find_key [] k = none
  find_key (e ∷ rows) k = if key_is e.idempotency_key k then some e else find_key rows k

  abbrev pub key_taken : List (Event P) → Option String → Bool
  key_taken rows none = false
  key_taken rows (some k) = is_some (find_key rows k)

  -- INSERT OR IGNORE: the primary key and the UNIQUE column, where NULLs never clash
  unfoldable pub insert_or_ignore : List (Event P) → Event P → List (Event P)
  insert_or_ignore rows e =
      if is_some (find_id rows e.event_id) || key_taken rows e.idempotency_key
      then rows
      else rows ++ e ∷ []

  -- the row that `save_event` reads back; an empty key counts as none
  unfoldable pub select_saved : Option String → List (Event P) → Event P → Option (Event P)
  select_saved none rows e = find_id rows e.event_id
  select_saved (some k) rows e = if k == "" then find_id rows e.event_id else find_key rows k

  unfoldable pub save_event : List (Event P) → Event P → List (Event P) × Option (Event P)
  unfolding insert_or_ignore select_saved
  save_event rows e =
      let rows' = insert_or_ignore rows e in (rows', select_saved e.idempotency_key rows' e)

  unfoldable pub same_identity : Event P → Event P → Bool
  same_identity p e =
      p.event_type == e.event_type
      && (p.aggregate_id == e.aggregate_id
          && (p.aggregate_type == e.aggregate_type && p.actor == e.actor))

  -- the checks that `publish` makes of the row that it got back
  unfoldable pub settle : Bus P → Event P → List (Event P) → Option (Event P) → Bus P × Published P
  unfolding same_identity
  settle b e rows none = (record b { rows = rows }, refused persistence_failed)
  settle b e rows (some p) =
      if not (same_identity p e)
      then (record b { rows = rows }, refused identity_conflict)
      else if p.event_id == e.event_id
      then (record { rows = rows; notified = b.notified ++ p ∷ [] }, published p)
      else (record b { rows = rows }, published p)

  unfoldable pub publish : Bus P → Event P → Bus P × Published P
  unfolding settle
  publish b e = let (rows, row) = save_event b.rows e in settle b e rows row
