-- ===== src/Events/Publish.antt =====
-- What `EventBus.publish` promises: events are durable, keyed, and told to the subscribers once.
use nexara_prime.Base.{
  String, ◌≡◌, refl, ◌≢◌, inl, inr, true, false, Option, none, some, List, [], ◌∷◌, ◌++◌, arith,
  if◌then◌else◌, Bool-cases, Option-cases, ◌==◌, string_eq, nat_eq, or_else,
}
use nexara_prime.Events.{
  Event, Bus, published, refused, identity_conflict, persistence_failed, find_id, find_key, key_is,
  key_taken, save_event, same_identity, publish,
}

module _ {P : Type 0} where
  pub find_id-append :
      (rows : List (Event P)) (e : Event P) (k : String)
      → find_id (rows ++ e ∷ []) k
        ≡ or_else (find_id rows k) (if e.event_id == k then some e else none)
  unfolding find_id
  find_id-append [] e k = ground arith
  find_id-append (r ∷ rows) e k = ground (arith, find_id-append rows e k)

  pub find_key-append :
      (rows : List (Event P)) (e : Event P) (k : String)
      → find_key (rows ++ e ∷ []) k
        ≡ or_else (find_key rows k) (if key_is e.idempotency_key k then some e else none)
  unfolding find_key
  find_key-append [] e k = ground arith
  find_key-append (r ∷ rows) e k = ground (arith, find_key-append rows e k)

  pub find_key-has_key :
      (rows : List (Event P)) (k : String) (p : Event P)
      → find_key rows k ≡ some p
      → p.idempotency_key ≡ some k
  unfolding find_key
  find_key-has_key [] k p h = ground arith
  find_key-has_key (r ∷ rows) k p h = ground (arith, find_key-has_key rows k p)

  pub find_id-find_key :
      (rows : List (Event P)) (k : String) (p : Event P)
      → find_key rows k ≡ some p
      → find_id rows p.event_id ≢ none
  unfolding find_key find_id
  find_id-find_key [] k p h = ground arith
  find_id-find_key (r ∷ rows) k p h = ground (arith, find_id-find_key rows k p)

  same_identity_refl : (e : Event P) → same_identity e e ≡ true
  unfolding same_identity
  same_identity_refl e = ground arith

  -- A fresh row whose key is free is inserted, and is the row that is read back.
  save_event_new :
      (rows : List (Event P)) (e : Event P) (key : Option String)
      → e.idempotency_key ≡ key
      → find_id rows e.event_id ≡ none
      → key_taken rows key ≡ false
      → save_event rows e ≡ (rows ++ e ∷ [], some e)
  unfolding save_event
  save_event_new rows e none h fresh free = ground (arith, find_id-append rows e e.event_id)
  save_event_new rows e (some k) h fresh free =
      ground (arith, find_id-append rows e e.event_id, find_key-append rows e k)

  -- A row whose key is taken is ignored, and the row that holds the key is read back.
  save_event_old :
      (rows : List (Event P)) (e : Event P) (k : String) (p : Event P)
      → e.idempotency_key ≡ some k
      → find_key rows k ≡ some p
      → save_event rows e ≡ (rows, if k == "" then find_id rows e.event_id else some p)
  unfolding save_event
  save_event_old rows e k p h taken = ground arith

  -- An event under a taken key is told to nobody, and changes nothing.
  publish_taken :
      (b : Bus P) (e : Event P) (k : String) (p : Event P)
      → find_id b.rows e.event_id ≡ none
      → e.idempotency_key ≡ some k
      → find_key b.rows k ≡ some p
      → publish b e ≡ (
        b,
        if k == ""
            then refused persistence_failed
            else if same_identity p e
            then published p
            else refused identity_conflict,
      )
  unfolding publish
  publish_taken b e k p fresh h taken =
      rw (save_event_old b.rows e k p h taken) (ground (arith, find_id-find_key b.rows k p taken))

  told_again :
      (b : Bus P) (e : Event P) (key : Option String)
      → e.idempotency_key ≡ key
      → find_id b.rows e.event_id ≡ none
      → b.notified ≡ b.rows
      → key_taken b.rows key ≡ true
      → (publish b e).0.notified ≡ (publish b e).0.rows
  told_again b e none h fresh told taken = cc
  told_again b e (some k) h fresh told taken = elim (Option-cases (find_key b.rows k)) [
    | inl free ↦ ground arith
    | inr (p, found) ↦ rw (publish_taken b e k p fresh h found) told
  ]

  pub publish_new :
      (b : Bus P) (e : Event P)
      → find_id b.rows e.event_id ≡ none
      → key_taken b.rows e.idempotency_key ≡ false
      → publish b e
        ≡ (record { rows = b.rows ++ e ∷ []; notified = b.notified ++ e ∷ [] }, published e)
  unfolding publish
  publish_new b e fresh free =
      rw (save_event_new b.rows e e.idempotency_key refl fresh free)
        (ground (arith, same_identity_refl e))

  -- What was published under a key is the row of that key.
  kept :
      (b : Bus P) (e p : Event P) (k : String)
      → k ≢ ""
      → e.idempotency_key ≡ some k
      → find_id b.rows e.event_id ≡ none
      → (publish b e).1 ≡ published p
      → find_key (publish b e).0.rows k ≡ some p
  kept b e p k nonempty h fresh done = elim (Option-cases (find_key b.rows k)) [
    | inl free ↦
        let new = publish_new b e fresh (rw h (rw free)) in
        rw new (ground (arith, find_key-append b.rows e k))
    | inr (q, found) ↦ let old = publish_taken b e k q fresh h found in rw old (ground arith)
  ]

  -- If the subscribers had been told of exactly the rows of the table, each once and in order,
  -- the same holds after any publication with a fresh event id, refused ones included.
  pub publish-notifies_once :
      (b : Bus P) (e : Event P)
      → find_id b.rows e.event_id ≡ none
      → b.notified ≡ b.rows
      → (publish b e).0.notified ≡ (publish b e).0.rows
  publish-notifies_once b e fresh told = elim (Bool-cases (key_taken b.rows e.idempotency_key)) [
    | inl taken ↦ told_again b e e.idempotency_key refl fresh told taken
    | inr free ↦ rw (publish_new b e fresh free) (rw told)
  ]

  -- Once an event is published under a key that is not empty, a later event under that key with a
  -- fresh id leaves the bus as it is: the first row is returned if it names the same type,
  -- aggregate and actor, and the call is refused as a conflict if not.
  pub publish-replay :
      (b : Bus P) (e e' p : Event P) (k : String)
      → k ≢ ""
      → e.idempotency_key ≡ some k
      → e'.idempotency_key ≡ some k
      → find_id b.rows e.event_id ≡ none
      → find_id (publish b e).0.rows e'.event_id ≡ none
      → (publish b e).1 ≡ published p
      → publish (publish b e).0 e'
        ≡ ((publish b e).0, if same_identity p e' then published p else refused identity_conflict)
  publish-replay b e e' p k nonempty h h' fresh fresh' done =
      rw (publish_taken (publish b e).0 e' k p fresh' h' (kept b e p k nonempty h fresh done))
        (ground arith)
