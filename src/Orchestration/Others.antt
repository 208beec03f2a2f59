-- ===== src/Orchestration/Others.antt =====
-- What keeps a writer lease in place while others use the lease manager.
use nexara_prime.Base.{
  ℕ, String, ◌≡◌, refl, sym, inl, inr, Bool, true, false, not, ◌&&◌, Option, none, some, List, [],
  ◌∷◌, arith, leb, Option-cases, ◌==◌, string_eq, nat_eq, all, ℤ,
}
use mathlib.Core.Path.{subst}
use nexara_prime.Base.Dict.{Dict, values}
use nexara_prime.Orchestration.{
  queue_state_eq, stale, released, lease_state_eq, claim_id_eq, ClaimId, Lease, approval_status_eq,
  recovery_state_eq, verification_status_eq, Store, emit,
}
use nexara_prime.Orchestration.Leases.{
  expiry, latest_active_lease, save_lease, new_lease, save_if_absent, claim_writer, acquire_writer,
  heartbeat_on, heartbeat_writer, renew_on, renew_writer, release_on, release_writer, is_stale,
  expire_rows, expire_stale_leases,
}
use nexara_prime.Orchestration.Held.{
  guarded, held_rows, Held, Held-save, Held-append, guarded-In, lasts-after, latest_active_lease-In,
}

-- A call on the lease manager, which nothing interrupts.
pub data LeaseCall : Type 0 where
  acquire renew : String → String → Option ℤ → ℕ → LeaseCall
  heartbeat : String → String → ℕ → LeaseCall
  release : String → String → LeaseCall
  expire : ℕ → LeaseCall

unfoldable pub lease_call : Store → LeaseCall → Store
lease_call s (acquire m w ttl now) = (acquire_writer s m w ttl now).0
lease_call s (renew m w ttl now) = (renew_writer s m w ttl now).0
lease_call s (heartbeat m w now) = (heartbeat_writer s m w now).0
lease_call s (release m w) = (release_writer s m w).0
lease_call s (expire now) = (expire_stale_leases s now).0

unfoldable pub lease_calls : Store → List LeaseCall → Store
lease_calls s [] = s
lease_calls s (c ∷ cs) = lease_calls (lease_call s c) cs

-- The call is none by `w` for the mission `m` other than an attempt to acquire, and no expiry later
-- than `e`.
abbrev pub by_others : String → String → ℕ → LeaseCall → Bool
by_others m w e (acquire id v ttl now) = true
by_others m w e (renew id v ttl now) = not (id == m && v == w)
by_others m w e (heartbeat id v now) = not (id == m && v == w)
by_others m w e (release id v) = not (id == m && v == w)
by_others m w e (expire now) = leb now e

all-tail :
    {A : Type 0} (f : A → Bool) (x : A) (xs : List A)
    → all f (x ∷ xs) ≡ true
    → (f x ≡ true) × (all f xs ≡ true)
all-tail f x xs h = ground arith

module _ (k : ClaimId) (m w : String) (e : ℕ) where
  guarded-found :
      (s : Store) (id : String) (l : Lease)
      → held_rows k m w e s.writer_leases ≡ true
      → latest_active_lease s id ≡ some l
      → (guarded k m w e l ≡ true) × (l.mission_id ≡ id)
  guarded-found s id l rows found =
      let (l_in, same) = latest_active_lease-In s id l found in
      (guarded-In k m w e s.writer_leases l rows l_in, same)

  renew_on-Held :
      (s : Store) (id v : String) (ttl : Option ℤ) (now : ℕ) (l : Lease)
      → not (id == m && v == w) ≡ true
      → (guarded k m w e l ≡ true) × (l.mission_id ≡ id)
      → Held k m w e s.writer_leases
      → Held k m w e (renew_on s v ttl now (some l)).0.writer_leases
  unfolding renew_on save_lease guarded
  renew_on-Held s id v ttl now l other fit h = ground (
    arith,
    Held-save k m w e s.writer_leases
        (record l { heartbeat_at = now; expires_at = expiry now ttl }),
  )

  heartbeat_on-Held :
      (s : Store) (id v : String) (now : ℕ) (l : Lease)
      → not (id == m && v == w) ≡ true
      → (guarded k m w e l ≡ true) × (l.mission_id ≡ id)
      → Held k m w e s.writer_leases
      → Held k m w e (heartbeat_on s v now (some l)).0.writer_leases
  unfolding heartbeat_on save_lease guarded
  heartbeat_on-Held s id v now l other fit h = ground (
    arith,
    Held-save k m w e s.writer_leases
        (record l { heartbeat_at = now; expires_at = expiry now none }),
  )

  release_on-Held :
      (s : Store) (id v : String) (l : Lease)
      → not (id == m && v == w) ≡ true
      → (guarded k m w e l ≡ true) × (l.mission_id ≡ id)
      → Held k m w e s.writer_leases
      → Held k m w e (release_on s id v (some l)).0.writer_leases
  unfolding release_on save_lease guarded emit
  release_on-Held s id v l other fit h =
      ground (arith, Held-save k m w e s.writer_leases (record l { state = released }))

  -- What is done to the newest lease of a mission.
  newest-Held :
      (s : Store) (id : String) (f : Option Lease → Store × Bool)
      → Held k m w e s.writer_leases
      → Held k m w e (f none).0.writer_leases
      → ((l : Lease)
          → (guarded k m w e l ≡ true) × (l.mission_id ≡ id)
          → Held k m w e (f (some l)).0.writer_leases)
      → Held k m w e (f (latest_active_lease s id)).0.writer_leases
  newest-Held s id f h at_none at_some = elim (Option-cases (latest_active_lease s id)) [
    | inl absent ↦ subst (λ o. Held k m w e (f o).0.writer_leases) (sym absent) at_none
    | inr (l, found) ↦
        subst (λ o. Held k m w e (f o).0.writer_leases) (sym found)
          (at_some l (guarded-found s id l h.0 found))
  ]

  claim_writer-Held :
      (s : Store) (id v : String) (ttl : Option ℤ) (now : ℕ)
      → Held k m w e s.writer_leases
      → Held k m w e (claim_writer s id v ttl now).0.writer_leases
  unfolding claim_writer save_if_absent emit guarded new_lease
  claim_writer-Held s id v ttl now h =
      ground (arith, Held-append k m w e s.writer_leases (new_lease id v ttl now))

  acquire_writer-Held :
      (s : Store) (id v : String) (ttl : Option ℤ) (now : ℕ)
      → Held k m w e s.writer_leases
      → Held k m w e (acquire_writer s id v ttl now).0.writer_leases
  unfolding acquire_writer
  acquire_writer-Held s id v ttl now h = ground (arith, claim_writer-Held s id v ttl now h)

  not_stale :
      (now : ℕ) (l : Lease)
      → leb now e ≡ true
      → is_stale now l ≡ true
      → guarded k m w e l ≡ true
      → (l.lease_id == k) ≡ false
  unfolding is_stale guarded
  not_stale now l early gone fit = ground (arith, lasts-after k m w e now l.expires_at early)

  expire_rows-Held :
      (s : Store) (now : ℕ) (ls : List Lease)
      → leb now e ≡ true
      → all (guarded k m w e) ls ≡ true
      → Held k m w e s.writer_leases
      → Held k m w e (expire_rows s now ls).0.writer_leases
  unfolding expire_rows save_lease emit guarded
  expire_rows-Held s now [] early fit h = h
  expire_rows-Held s now (l ∷ ls) early fit h =
      let l' : Lease = record l { state = stale } in
      let s' : Store = emit (save_lease s l') "lease_expired" l.mission_id in
      ground (
        arith,
        not_stale now l early,
        expire_rows-Held s now ls early,
        expire_rows-Held s' now ls early,
        Held-save k m w e s.writer_leases l',
      )

  guarded-values :
      (d : Dict ClaimId Lease)
      → held_rows k m w e d ≡ true
      → all (guarded k m w e) (values d) ≡ true
  unfolding held_rows values
  guarded-values [] h = refl
  guarded-values ((j, l) ∷ d) h = ground (arith, guarded-values d)

  lease_call-Held :
      (s : Store) (c : LeaseCall)
      → by_others m w e c ≡ true
      → Held k m w e s.writer_leases
      → Held k m w e (lease_call s c).writer_leases
  unfolding lease_call renew_writer heartbeat_writer release_writer expire_stale_leases renew_on
      heartbeat_on release_on
  lease_call-Held s (acquire id v ttl now) other h = acquire_writer-Held s id v ttl now h
  lease_call-Held s (renew id v ttl now) other h =
      newest-Held s id (renew_on s v ttl now) h h
        (λ l fit. renew_on-Held s id v ttl now l other fit h)
  lease_call-Held s (heartbeat id v now) other h =
      newest-Held s id (heartbeat_on s v now) h h
        (λ l fit. heartbeat_on-Held s id v now l other fit h)
  lease_call-Held s (release id v) other h =
      newest-Held s id (release_on s id v) h h (λ l fit. release_on-Held s id v l other fit h)
  lease_call-Held s (expire now) other h =
      expire_rows-Held s now (values s.writer_leases) other (guarded-values s.writer_leases h.0) h

  pub lease_calls-Held :
      (s : Store) (cs : List LeaseCall)
      → all (by_others m w e) cs ≡ true
      → Held k m w e s.writer_leases
      → Held k m w e (lease_calls s cs).writer_leases
  unfolding lease_calls
  lease_calls-Held s [] others h = h
  lease_calls-Held s (c ∷ cs) others h =
      let (now, later) = all-tail (by_others m w e) c cs others in
      lease_calls-Held (lease_call s c) cs later (lease_call-Held s c now h)
