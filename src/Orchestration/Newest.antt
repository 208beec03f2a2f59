-- ===== src/Orchestration/Newest.antt =====
-- What `_latest_active_lease` gives.
use nexara_prime.Base.{
  String, ◌≡◌, Bool, false, ◌&&◌, Option, none, some, List, [], ◌∷◌, arith, ltb, ◌==◌, string_eq,
  nat_eq, any, In,
}
use nexara_prime.Base.Dict.{values}
use nexara_prime.Orchestration.{
  queue_state_eq, lease_state_eq, claim_id_eq, Lease, approval_status_eq, recovery_state_eq,
  verification_status_eq, Store,
}
use nexara_prime.Orchestration.Leases.{newer, newest, latest_active_lease}
use nexara_prime.Orchestration.Held.{latest_active_lease-In}

-- Whether the lease, if there is one, is newer than `l`.
abbrev passes : Lease → Option Lease → Bool
passes l none = false
passes l (some b) = ltb l.acquired_at b.acquired_at

newer-passes :
    (l : Lease) (best : Option Lease) (x : Lease)
    → passes l (newer best x) ≡ false
    → (passes l best ≡ false) × (ltb l.acquired_at x.acquired_at ≡ false)
newer-passes l none x h = ground arith
newer-passes l (some b) x h = ground arith

abbrev pub newer_in : String → Lease → List Lease → Bool
newer_in id l ls = any (λ x. x.mission_id == id && ltb l.acquired_at x.acquired_at) ls

newest-last :
    (id : String) (best : Option Lease) (ls : List Lease) (l : Lease)
    → newest id best ls ≡ some l
    → (passes l best ≡ false) × (newer_in id l ls ≡ false)
unfolding newest
newest-last id best [] l h = rw h (ground arith)
newest-last id best (x ∷ ls) l h =
    ground
      (arith, newest-last id best ls l, newest-last id (newer best x) ls l, newer-passes l best x)

-- The lease is one of the mission, and none of the mission is newer.
abbrev pub IsNewest : Store → String → Lease → Type 0
IsNewest s id l =
    In l (values s.writer_leases)
    × (l.mission_id ≡ id)
    × (newer_in id l (values s.writer_leases) ≡ false)

pub latest_active_lease_lem :
    (s : Store) (id : String) (l : Lease) → latest_active_lease s id ≡ some l → IsNewest s id l
unfolding latest_active_lease
latest_active_lease_lem s id l h =
    let (l_in, same) = latest_active_lease-In s id l h in
    (l_in, same, (newest-last id none (values s.writer_leases) l h).1)
