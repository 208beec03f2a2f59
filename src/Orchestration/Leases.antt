-- ===== src/Orchestration/Leases.antt =====
-- src/nexara_prime/orchestration.py: `WriterLeaseManager`.
use nexara_prime.Base.{
  ℕ, ℤ, pos, negsuc, ◌-◌, ◌+◌, ◌*◌, String, Bool, true, false, not, ◌&&◌, Option, none, some, List,
  [], ◌∷◌, ◌++◌, ltb, if◌then◌else◌, ◌==◌, string_eq, nat_eq, any, is_some,
}
use nexara_prime.Base.Dict.{get, save, values}
use nexara_prime.Orchestration.{
  Stamp, instant, instant_before, instant_before_or_equal, active, stale, released, lease_state_eq,
  claim_id_eq, Lease, Store, emit,
}

-- A time to live in seconds, 120 where none is passed. A negative one ends before it begins; times
-- stop at 0.
abbrev pub expiry_time : ℕ → Option ℤ → ℕ
expiry_time now none = now + 120 * 1000000
expiry_time now (some (pos ttl)) = now + ttl * 1000000
expiry_time now (some (negsuc ttl)) = now - (ttl + 1) * 1000000

abbrev pub expiry : ℕ → Option ℤ → Stamp
expiry now ttl = instant (expiry_time now ttl)

abbrev pub newer : Option Lease → Lease → Option Lease
newer none l = some l
newer (some m) l = if ltb m.acquired_at l.acquired_at then some l else some m

-- The newest lease of the mission, the first of equals: the head after a stable sort, newest first.
unfoldable pub newest : String → Option Lease → List Lease → Option Lease
newest id best [] = best
newest id best (l ∷ ls) = newest id (if l.mission_id == id then newer best l else best) ls

unfoldable pub latest_active_lease : Store → String → Option Lease
latest_active_lease s id = newest id none (values s.writer_leases)

-- An active lease of the mission that has not expired.
unfoldable pub blocks : String → ℕ → Lease → Bool
blocks id now l =
    l.mission_id == id && (l.state == active && instant_before (instant now) l.expires_at)

unfoldable pub save_lease : Store → Lease → Store
save_lease s l = record s { writer_leases = save s.writer_leases l.lease_id l }

unfoldable pub new_lease : String → String → Option ℤ → ℕ → Lease
new_lease mission worker ttl now = record {
  lease_id = record { mission = mission; worker = worker; time = now };
  mission_id = mission;
  worker_id = worker;
  acquired_at = now;
  expires_at = expiry now ttl;
  heartbeat_at = now;
  state = active;
}

unfoldable pub save_if_absent : Store → Lease → Store × Bool
save_if_absent s l =
    if is_some (get s.writer_leases l.lease_id)
    then (s, false)
    else (record s { writer_leases = s.writer_leases ++ (l.lease_id, l) ∷ [] }, true)

abbrev pub announced : String → Store × Bool → Store × Bool
announced id (s, true) = (emit s "lease_acquired" id, true)
announced id (s, false) = (s, false)

-- `acquire` takes no lock: another process may write between its check and its claim.
unfoldable pub check_writer : Store → String → ℕ → Bool
check_writer s mission now = not (any (blocks mission now) (values s.writer_leases))

unfoldable pub claim_writer : Store → String → String → Option ℤ → ℕ → Store × Bool
claim_writer s mission worker ttl now =
    announced mission (save_if_absent s (new_lease mission worker ttl now))

-- `acquire` from the answer of its check on.
abbrev pub after_check : Bool → Store → String → String → Option ℤ → ℕ → Store × Bool
after_check free s mission worker ttl now =
    if free then claim_writer s mission worker ttl now else (s, false)

-- `acquire` with nothing in between.
unfoldable pub acquire_writer : Store → String → String → Option ℤ → ℕ → Store × Bool
acquire_writer s mission worker ttl now =
    after_check (check_writer s mission now) s mission worker ttl now

unfoldable pub heartbeat_on : Store → String → ℕ → Option Lease → Store × Bool
heartbeat_on s worker now none = (s, false)
heartbeat_on s worker now (some l) =
    if not (l.state == active)
    then (s, false)
    else if not (l.worker_id == worker)
    then (s, false)
    else if not (instant_before (instant now) l.expires_at)
    then (s, false)
    else (save_lease s (record l { heartbeat_at = now; expires_at = expiry now none }), true)

unfoldable pub heartbeat_writer : Store → String → String → ℕ → Store × Bool
heartbeat_writer s mission worker now = heartbeat_on s worker now (latest_active_lease s mission)

unfoldable pub renew_on : Store → String → Option ℤ → ℕ → Option Lease → Store × Bool
renew_on s worker ttl now none = (s, false)
renew_on s worker ttl now (some l) =
    if not (l.worker_id == worker)
    then (s, false)
    else (save_lease s (record l { heartbeat_at = now; expires_at = expiry now ttl }), true)

unfoldable pub renew_writer : Store → String → String → Option ℤ → ℕ → Store × Bool
renew_writer s mission worker ttl now = renew_on s worker ttl now (latest_active_lease s mission)

unfoldable pub release_on : Store → String → String → Option Lease → Store × Bool
release_on s mission worker none = (s, false)
release_on s mission worker (some l) =
    if not (l.worker_id == worker)
    then (s, false)
    else (emit (save_lease s (record l { state = released })) "lease_released" mission, true)

unfoldable pub release_writer : Store → String → String → Store × Bool
release_writer s mission worker = release_on s mission worker (latest_active_lease s mission)

unfoldable pub is_stale : ℕ → Lease → Bool
is_stale now l = l.state == active && not (instant_before_or_equal (instant now) l.expires_at)

-- Over the rows as they were listed before the loop.
unfoldable pub expire_rows : Store → ℕ → List Lease → Store × List String
expire_rows s now [] = (s, [])
expire_rows s now (l ∷ ls) =
    let next = emit (save_lease s (record l { state = stale })) "lease_expired" l.mission_id in
    let hit = expire_rows next now ls in
    let miss = expire_rows s now ls in
    if is_stale now l then (hit.0, l.mission_id ∷ hit.1) else miss

unfoldable pub expire_stale_leases : Store → ℕ → Store × List String
expire_stale_leases s now = expire_rows s now (values s.writer_leases)

unfoldable pub find_stale : List Lease → String → Option Lease
find_stale [] id = none
find_stale (l ∷ ls) id = if l.mission_id == id && l.state == stale then some l else find_stale ls id

unfoldable pub recover_stale : Store → String → Option Lease
recover_stale s id = find_stale (values s.writer_leases) id
