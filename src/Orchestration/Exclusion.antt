-- ===== src/Orchestration/Exclusion.antt =====
-- Who may acquire the writer lease of a mission, and for how long that keeps others out.
use nexara_prime.Base.{
  ℕ, String, ◌≡◌, refl, sym, ap, ◌∙◌, ◌≢◌, Bool, true, false, not, ◌&&◌, Option, none, some, List,
  [], ◌∷◌, ◌++◌, arith, ltb, leb, ◌==◌, ==-refl, string_eq, nat_eq, all, any, ℤ, is_some,
}
use mathlib.Core.Path.{subst}
use nexara_prime.Base.Dict.{get, values, get-save, get-append}
use nexara_prime.Orchestration.{
  queue_state_eq, active, lease_state_eq, LeaseState-discrete, claim_id_eq, ClaimId, Lease,
  approval_status_eq, recovery_state_eq, verification_status_eq, Store, emit,
}
use nexara_prime.Orchestration.Leases.{
  expiry, expiry_time, latest_active_lease, blocks, save_lease, new_lease, save_if_absent,
  check_writer, claim_writer, after_check, acquire_writer, heartbeat_on, heartbeat_writer, renew_on,
  renew_writer,
}
use nexara_prime.Orchestration.Held.{under_ids, guarded, Held, Held-claim, Held-blocks}
use nexara_prime.Orchestration.Others.{LeaseCall, lease_calls, by_others, lease_calls-Held}

acquire_writer-answer :
    (s : Store) (m w : String) (ttl : Option ℤ) (now : ℕ)
    → (acquire_writer s m w ttl now).1 ≡ (
        not (any (blocks m now) (values s.writer_leases))
        && not (is_some (get s.writer_leases (new_lease m w ttl now).lease_id)))
unfolding acquire_writer check_writer claim_writer save_if_absent
acquire_writer-answer s m w ttl now = ground arith

acquire_writer-granted :
    (s : Store) (m w : String) (ttl : Option ℤ) (now : ℕ)
    → (acquire_writer s m w ttl now).1 ≡ true
    → (acquire_writer s m w ttl now).0.writer_leases
      ≡ s.writer_leases ++ ((new_lease m w ttl now).lease_id, new_lease m w ttl now) ∷ []
unfolding acquire_writer check_writer claim_writer save_if_absent emit
acquire_writer-granted s m w ttl now h = ground arith

blocked_writer :
    (s : Store) (m w : String) (ttl : Option ℤ) (now : ℕ)
    → any (blocks m now) (values s.writer_leases) ≡ true
    → acquire_writer s m w ttl now ≡ (s, false)
unfolding acquire_writer check_writer
blocked_writer s m w ttl now h = rw (acquire_writer, check_writer, h) refl

abbrev pub claim : String → String → ℕ → ClaimId
claim m w now = record { mission = m; worker = w; time = now }

leb_refl : (n : ℕ) → leb n n ≡ true
leb_refl n = ground arith

new_lease-guarded :
    (m w : String) (ttl : Option ℤ) (now : ℕ)
    → guarded (claim m w now) m w (expiry_time now ttl) (new_lease m w ttl now) ≡ true
unfolding guarded new_lease LeaseState-discrete
new_lease-guarded m w ttl now = ground (arith, ==-refl m, ==-refl w, leb_refl (expiry_time now ttl))

other_claim :
    (m w v : String) (now t : ℕ) → (w == v) ≡ false → (claim m w now == claim m v t) ≡ false
other_claim m w v now t differ = ground arith

granted-Held :
    (s : Store) (m w : String) (ttl : Option ℤ) (now : ℕ)
    → under_ids s.writer_leases ≡ true
    → (acquire_writer s m w ttl now).1 ≡ true
    → Held (claim m w now) m w (expiry_time now ttl) (acquire_writer s m w ttl now).0.writer_leases
unfolding new_lease
granted-Held s m w ttl now rows granted =
    subst (Held (claim m w now) m w (expiry_time now ttl))
      (sym (acquire_writer-granted s m w ttl now granted))
      (Held-claim (claim m w now) m w (expiry_time now ttl) s.writer_leases (new_lease m w ttl now)
        rows (ground (arith, acquire_writer-answer s m w ttl now)) refl
        (new_lease-guarded m w ttl now))

-- Calls on the lease manager that do not interrupt one another, where each lease of the table stands
-- under its id: a writer lease is granted only while no lease of the mission is active and unexpired.
-- From then on, whatever leases are acquired, renewed, released or expired, by other workers or on
-- other missions, or asked for again by the holder, every attempt on the mission before the lease
-- expires is refused and changes nothing, as long as the holder itself does not renew, release or
-- give a heartbeat, and stale leases are expired at no time after it.
pub acquire_writer-exclusive :
    (s : Store) (m w v : String) (ttl ttl' : Option ℤ) (now t : ℕ) (cs : List LeaseCall)
    → under_ids s.writer_leases ≡ true
    → (acquire_writer s m w ttl now).1 ≡ true
    → all (by_others m w (expiry_time now ttl)) cs ≡ true
    → ltb t (expiry_time now ttl) ≡ true
    → (any (blocks m now) (values s.writer_leases) ≡ false)
      × (acquire_writer (lease_calls (acquire_writer s m w ttl now).0 cs) m v ttl' t
          ≡ (lease_calls (acquire_writer s m w ttl now).0 cs, false))
acquire_writer-exclusive s m w v ttl ttl' now t cs rows granted others early = (
  ground (arith, acquire_writer-answer s m w ttl now),
  blocked_writer (lease_calls (acquire_writer s m w ttl now).0 cs) m v ttl' t (
      Held-blocks (claim m w now) m w (expiry_time now ttl)
        (lease_calls (acquire_writer s m w ttl now).0 cs).writer_leases t early
        (lease_calls-Held (claim m w now) m w (expiry_time now ttl) (acquire_writer s m w ttl now).0
          cs others (granted-Held s m w ttl now rows granted))),
)

-- `acquire` by two workers of which each checks before the other claims.
abbrev pub race :
    Store → String → String → String → Option ℤ → Option ℤ → ℕ → ℕ → Store × Bool × Bool
race s m w v ttl ttl' now t =
    let first = after_check (check_writer s m now) s m w ttl now in
    let second = after_check (check_writer s m t) first.0 m v ttl' t in
    (second.0, first.1, second.1)

-- The check and the claim of `acquire` are two steps, and the id of a claim holds the worker and the
-- time. So where two workers both check before either claims, and no lease blocks the mission, both
-- are granted it, and both leases stand in the table.
pub acquire_writer-race :
    (s : Store) (m w v : String) (ttl ttl' : Option ℤ) (now t : ℕ)
    → (w == v) ≡ false
    → any (blocks m now) (values s.writer_leases) ≡ false
    → any (blocks m t) (values s.writer_leases) ≡ false
    → get s.writer_leases (claim m w now) ≡ none
    → get s.writer_leases (claim m v t) ≡ none
    → ((race s m w v ttl ttl' now t).1 ≡ true)
      × ((race s m w v ttl ttl' now t).2 ≡ true)
      × ((race s m w v ttl ttl' now t).0.writer_leases ≡ (
          s.writer_leases
          ++ (claim m w now, new_lease m w ttl now) ∷ []
          ++ (claim m v t, new_lease m v ttl' t) ∷ []))
unfolding check_writer claim_writer save_if_absent emit new_lease
acquire_writer-race s m w v ttl ttl' now t differ free free' absent absent' = ground (
  arith,
  get-append s.writer_leases (claim m w now) (claim m v t) (new_lease m w ttl now),
  other_claim m w v now t differ,
)

renew_on-own :
    (s : Store) (ttl : Option ℤ) (now : ℕ) (l : Lease)
    → renew_on s l.worker_id ttl now (some l)
      ≡ (save_lease s (record l { heartbeat_at = now; expires_at = expiry now ttl }), true)
unfolding renew_on
renew_on-own s ttl now l = rw (==-refl l.worker_id) refl

heartbeat_on-dead :
    (s : Store) (now : ℕ) (w : String) (l : Lease)
    → l.state ≢ active
    → heartbeat_on s w now (some l) ≡ (s, false)
unfolding heartbeat_on
heartbeat_on-dead s now w l dead = ground arith

save_lease-get : (s : Store) (l : Lease) → get (save_lease s l).writer_leases l.lease_id ≡ some l
unfolding save_lease
save_lease-get s l = rw (get-save s.writer_leases l.lease_id l.lease_id l, ==-refl l.lease_id) refl

-- `renew` does not look at the state of the lease: for the worker of the newest lease of a mission it
-- answers that it renewed a lease that was released or is stale, which stays so.
pub renew_writer-dead :
    (s : Store) (m : String) (ttl : Option ℤ) (now : ℕ) (l : Lease)
    → latest_active_lease s m ≡ some l
    → l.state ≢ active
    → ((renew_writer s m l.worker_id ttl now).1 ≡ true)
      × (get (renew_writer s m l.worker_id ttl now).0.writer_leases l.lease_id
          ≡ some (record l { heartbeat_at = now; expires_at = expiry now ttl }))
      × ((heartbeat_writer s m l.worker_id now) ≡ (s, false))
unfolding renew_writer heartbeat_writer
renew_writer-dead s m ttl now l latest dead =
    let l' : Lease = record l { heartbeat_at = now; expires_at = expiry now ttl } in
    let renewed = ap (renew_on s l.worker_id ttl now) latest ∙ renew_on-own s ttl now l in
    (
      ap (λ r. r.1) renewed,
      ap (λ r. get r.0.writer_leases l.lease_id) renewed ∙ save_lease-get s l',
      ap (heartbeat_on s l.worker_id now) latest ∙ heartbeat_on-dead s now l.worker_id l dead,
    )
