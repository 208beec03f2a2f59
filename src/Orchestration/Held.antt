-- ===== src/Orchestration/Held.antt =====
-- That a writer lease is in the table of leases, active, and lasts to some time.
use nexara_prime.Base.{
  ℕ, String, ◌≡◌, refl, ◌⊎◌, inl, inr, Bool, true, false, not, ◌&&◌, ◌||◌, Option, none, some, List,
  [], ◌∷◌, ◌++◌, arith, ltb, leb, ◌==◌, ==-refl, string_eq, nat_eq, any, In, is_some,
}
use nexara_prime.Base.Dict.{Dict, get, save, remove, values, get-save, get-append}
use nexara_prime.Orchestration.{
  Stamp, missing, unparsed, instant, instant_before, instant_before_or_equal, parse_instant,
  queue_state_eq, active, lease_state_eq, claim_id_eq, ClaimId, Lease, approval_status_eq,
  recovery_state_eq, verification_status_eq, Store,
}
use nexara_prime.Orchestration.Leases.{newer, newest, latest_active_lease, blocks}

-- The rows stand under the ids of their leases.
unfoldable pub under_ids : Dict ClaimId Lease → Bool
under_ids [] = true
under_ids ((k, l) ∷ d) = l.lease_id == k && under_ids d

-- The lease expires at `e` or later.
abbrev pub lasts : ℕ → Stamp → Bool
lasts e missing = false
lasts e unparsed = false
lasts e (instant t) = leb e t

-- One lease: its id, its mission and worker, and a time that it lasts to.
module _ (k : ClaimId) (m w : String) (e : ℕ) where
  unfoldable pub guarded : Lease → Bool
  guarded l =
      not (l.lease_id == k)
      || (l.mission_id == m && (l.worker_id == w && (l.state == active && lasts e l.expires_at)))

  unfoldable pub held_rows : Dict ClaimId Lease → Bool
  held_rows [] = true
  held_rows ((j, l) ∷ d) = l.lease_id == j && (guarded l && held_rows d)

  -- The lease is in the table, and all rows with its id are active and last.
  abbrev pub Held : Dict ClaimId Lease → Type 0
  Held d = (held_rows d ≡ true) × (is_some (get d k) ≡ true)

  held_rows-remove :
      (d : Dict ClaimId Lease) (j : ClaimId) → held_rows d ≡ true → held_rows (remove d j) ≡ true
  unfolding held_rows remove
  held_rows-remove [] j h = refl
  held_rows-remove ((i, l) ∷ d) j h = ground (arith, held_rows-remove d j)

  held_rows-append :
      (d : Dict ClaimId Lease) (j : ClaimId) (l : Lease)
      → l.lease_id ≡ j
      → guarded l ≡ true
      → held_rows d ≡ true
      → held_rows (d ++ (j, l) ∷ []) ≡ true
  unfolding held_rows
  held_rows-append [] j l same fit h = ground (arith, ==-refl j)
  held_rows-append ((i, x) ∷ d) j l same fit h = ground (arith, held_rows-append d j l same fit)

  pub Held-save :
      (d : Dict ClaimId Lease) (l : Lease) → guarded l ≡ true → Held d → Held (save d l.lease_id l)
  unfolding save
  Held-save d l fit (rows, there) = (
    held_rows-append (remove d l.lease_id) l.lease_id l refl fit
        (held_rows-remove d l.lease_id rows),
    rw (get-save d l.lease_id k l) (ground arith),
  )

  pub Held-append :
      (d : Dict ClaimId Lease) (l : Lease)
      → guarded l ≡ true
      → Held d
      → Held (d ++ (l.lease_id, l) ∷ [])
  Held-append d l fit (rows, there) =
      (held_rows-append d l.lease_id l refl fit rows, ground (arith, get-append d l.lease_id k l))

  pub guarded-In :
      (d : Dict ClaimId Lease) (l : Lease) → held_rows d ≡ true → In l (values d) → guarded l ≡ true
  unfolding held_rows values
  guarded-In [] l h l_in = elim l_in [ ]
  guarded-In ((i, x) ∷ d) l h l_in = ground (arith, guarded-In d l)

  pub lasts-before :
      (t : ℕ) (x : Stamp) → ltb t e ≡ true → lasts e x ≡ true → instant_before (instant t) x ≡ true
  unfolding instant_before parse_instant
  lasts-before t missing early h = cc
  lasts-before t unparsed early h = cc
  lasts-before t (instant x) early h = ground arith

  pub lasts-after :
      (t : ℕ) (x : Stamp)
      → leb t e ≡ true
      → lasts e x ≡ true
      → instant_before_or_equal (instant t) x ≡ true
  unfolding instant_before_or_equal parse_instant
  lasts-after t missing early h = cc
  lasts-after t unparsed early h = cc
  lasts-after t (instant x) early h = ground arith

  pub Held-blocks :
      (d : Dict ClaimId Lease) (t : ℕ)
      → ltb t e ≡ true
      → Held d
      → any (blocks m t) (values d) ≡ true
  unfolding held_rows guarded blocks values get
  Held-blocks [] t early (rows, there) = cc
  Held-blocks ((j, l) ∷ d) t early (rows, there) =
      ground (arith, lasts-before t l.expires_at early, Held-blocks d t early)

newer-In :
    (best : Option Lease) (x l : Lease) (ls : List Lease)
    → newer best x ≡ some l
    → (best ≡ some l) ⊎ (x ≡ l)
newer-In none x l ls h = ground arith
newer-In (some b) x l ls h = ground arith

-- The newest lease of a mission is one of its leases.
newest-In :
    (id : String) (best : Option Lease) (ls : List Lease) (l : Lease)
    → newest id best ls ≡ some l
    → (best ≡ some l) ⊎ (In l ls × (l.mission_id ≡ id))
unfolding newest
newest-In id best [] l h = inl h
newest-In id best (x ∷ ls) l h =
    ground (arith, newest-In id best ls l, newest-In id (newer best x) ls l, newer-In best x l ls)

pub latest_active_lease-In :
    (s : Store) (id : String) (l : Lease)
    → latest_active_lease s id ≡ some l
    → In l (values s.writer_leases) × (l.mission_id ≡ id)
unfolding latest_active_lease
latest_active_lease-In s id l h = elim (newest-In id none (values s.writer_leases) l h) [
  | inl absent ↦ ground (arith)
  | inr found ↦ found
]

module _ (k : ClaimId) (m w : String) (e : ℕ) where
  held_rows-absent :
      (d : Dict ClaimId Lease)
      → under_ids d ≡ true
      → is_some (get d k) ≡ false
      → held_rows k m w e d ≡ true
  unfolding under_ids held_rows guarded get
  held_rows-absent [] rows absent = refl
  held_rows-absent ((j, l) ∷ d) rows absent = ground (arith, held_rows-absent d)

  pub Held-claim :
      (d : Dict ClaimId Lease) (l : Lease)
      → under_ids d ≡ true
      → is_some (get d k) ≡ false
      → l.lease_id ≡ k
      → guarded k m w e l ≡ true
      → Held k m w e (d ++ (l.lease_id, l) ∷ [])
  Held-claim d l rows absent same fit = (
    held_rows-append k m w e d l.lease_id l refl fit (held_rows-absent d rows absent),
    ground (arith, get-append d l.lease_id k l, ==-refl k),
  )
