-- ===== src/Orchestration/Workers.antt =====
-- src/nexara_prime/orchestration.py: `WorkerScheduler`. `is_writer_active_for_mission`, which compares
-- time stamps as texts and which nothing calls, is left out.
use nexara_prime.Base.{
  ℕ, ◌+◌, ◌-◌, String, Bool, true, false, not, ◌&&◌, Option, none, some, List, [], ◌∷◌, ltb,
  if◌then◌else◌, ◌==◌, contains, string_eq, nat_eq, all, or_else,
}
use nexara_prime.Base.Dict.{get, save, values}
use nexara_prime.Repair.{RiskLevel, r0, r1, r2, r3, r4}
use nexara_prime.Orchestration.{
  instant, instant_before_or_equal, MissionQueueItem, WorkerDescriptor, Store, emit,
}
use nexara_prime.Orchestration.Queue.{own_key}

unfoldable pub put_worker : Store → String → WorkerDescriptor → Store
put_worker s id w = record s { worker_registry = save s.worker_registry id w }

unfoldable pub register_worker : Store → WorkerDescriptor → Store
register_worker s w = emit (put_worker s w.worker_id w) "worker_registered" w.worker_id

unfoldable pub mark_unavailable : Store → String → Store
mark_unavailable s id = elim (get s.worker_registry id) [
  | none ↦ s
  | some w ↦ put_worker s id (record w { available = false })
]

unfoldable pub unregister_worker : Store → String → Store
unregister_worker s id = elim (get s.worker_registry id) [
  | none ↦ s
  | some w ↦ emit (put_worker s id (record w { available = false })) "worker_unregistered" id
]

unfoldable pub heartbeat_worker : Store → String → ℕ → Store × Option WorkerDescriptor
heartbeat_worker s id now = elim (get s.worker_registry id) [
  | none ↦ (s, none)
  | some w ↦
      if not w.available
      then (s, none)
      else let w' = record w { last_heartbeat = instant now } in (put_worker s id w', some w')
]

-- 300 seconds
abbrev pub stale_after : ℕ
stale_after = 300000000

unfoldable pub is_live_worker : ℕ → WorkerDescriptor → Bool
is_live_worker now w =
    w.available && instant_before_or_equal (instant (now - stale_after)) w.last_heartbeat

unfoldable pub live_workers : ℕ → List WorkerDescriptor → List WorkerDescriptor
live_workers now [] = []
live_workers now (w ∷ ws) =
    let rest = live_workers now ws in if is_live_worker now w then w ∷ rest else rest

unfoldable pub list_available : Store → ℕ → List WorkerDescriptor
list_available s now = live_workers now (values s.worker_registry)

unfoldable pub capability_match : WorkerDescriptor → List String → Bool
capability_match w required = all (λ c. contains w.capabilities c) required

unfoldable pub risk_compatible : WorkerDescriptor → RiskLevel → Bool
risk_compatible w r0 = true
risk_compatible w r1 = true
risk_compatible w r2 = true
risk_compatible w r3 = w.health == "healthy" && w.writer_capable
risk_compatible w r4 = w.health == "healthy" && w.writer_capable

unfoldable pub suits : MissionQueueItem → WorkerDescriptor → Bool
suits i w = capability_match w i.required_capabilities && risk_compatible w i.risk_level

unfoldable pub suited : MissionQueueItem → List WorkerDescriptor → List WorkerDescriptor
suited i [] = []
suited i (w ∷ ws) = let rest = suited i ws in if suits i w then w ∷ rest else rest

unfoldable pub find_worker : List WorkerDescriptor → String → Option WorkerDescriptor
find_worker [] id = none
find_worker (w ∷ ws) id = if w.worker_id == id then some w else find_worker ws id

-- The key (not writer_capable, 0 if healthy else 1) as a number.
abbrev pub worker_rank : WorkerDescriptor → ℕ
worker_rank w = (if w.writer_capable then 0 else 2) + (if w.health == "healthy" then 0 else 1)

-- The head of the list after a stable sort.
unfoldable pub first_worker : WorkerDescriptor → List WorkerDescriptor → WorkerDescriptor
first_worker w [] = w
first_worker w (x ∷ xs) = first_worker (if ltb (worker_rank x) (worker_rank w) then x else w) xs

abbrev pub any_worker : List WorkerDescriptor → Option WorkerDescriptor
any_worker [] = none
any_worker (w ∷ ws) = some (first_worker w ws)

abbrev pub preferred : Option String → List WorkerDescriptor → Option WorkerDescriptor
preferred none ws = none
preferred (some id) ws = find_worker ws id

unfoldable pub schedule : Store → ℕ → MissionQueueItem → Option WorkerDescriptor
schedule s now i =
    let ws = suited i (list_available s now) in
    or_else (preferred (own_key i.preferred_worker) ws) (any_worker ws)
