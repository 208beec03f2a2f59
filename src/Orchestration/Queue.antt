-- ===== src/Orchestration/Queue.antt =====
-- src/nexara_prime/orchestration.py: `MissionQueue`.
use nexara_prime.Base.{
  ltz, eqz, ℕ, ◌+◌, String, Bool, false, not, ◌&&◌, ◌||◌, Option, none, some, List, [], ◌∷◌, ltb,
  if◌then◌else◌, ◌==◌, string_eq, nat_eq, length, all,
}
use nexara_prime.Base.Dict.{get, save, values}
use nexara_prime.Orchestration.{
  Stamp, instant, instant_before_or_equal, is_set, QueueItemState, ready, completed, cancelled,
  queue_state_eq, MissionQueueItem, Store, emit,
}

abbrev pub terminal : QueueItemState → Bool
terminal q = q == completed || q == cancelled

-- `item.idempotency_key`, where it is not empty
abbrev pub own_key : Option String → Option String
own_key none = none
own_key (some k) = if k == "" then none else some k

abbrev pub has_key : Option String → String → Bool
has_key none k = false
has_key (some j) k = j == k

unfoldable pub find_live_key : List MissionQueueItem → String → Option MissionQueueItem
find_live_key [] k = none
find_live_key (i ∷ is) k =
    if has_key i.idempotency_key k && not (terminal i.state) then some i else find_live_key is k

unfoldable pub enqueue_new : Store → MissionQueueItem → Store × MissionQueueItem
enqueue_new s i = (
  emit (record s { mission_queue = save s.mission_queue i.mission_id i }) "mission_queued"
      i.mission_id,
  i,
)

unfoldable pub enqueue_under :
    Store → MissionQueueItem → Option MissionQueueItem → Store × MissionQueueItem
enqueue_under s i none = enqueue_new s i
enqueue_under s i (some old) = (s, old)

abbrev pub live_under : List MissionQueueItem → Option String → Option MissionQueueItem
live_under is none = none
live_under is (some k) = find_live_key is k

unfoldable pub enqueue_mission : Store → MissionQueueItem → Store × MissionQueueItem
enqueue_mission s i =
    enqueue_under s i (live_under (values s.mission_queue) (own_key i.idempotency_key))

abbrev pub done : Option MissionQueueItem → Bool
done none = false
done (some i) = i.state == completed

unfoldable pub dependencies_met : Store → MissionQueueItem → Bool
dependencies_met s i = all (λ dep. done (get s.mission_queue dep)) i.dependencies

unfoldable pub is_candidate : Store → ℕ → MissionQueueItem → Bool
is_candidate s now i =
    i.state == ready
    && ((not (is_set i.available_at) || instant_before_or_equal i.available_at (instant now))
        && dependencies_met s i)

unfoldable pub candidates : Store → ℕ → List MissionQueueItem → List MissionQueueItem
candidates s now [] = []
candidates s now (i ∷ is) =
    let rest = candidates s now is in if is_candidate s now i then i ∷ rest else rest

-- (-priority, created_at) of the first is less.
abbrev pub comes_before : MissionQueueItem → MissionQueueItem → Bool
comes_before i j =
    ltz j.priority i.priority || (eqz i.priority j.priority && ltb i.created_at j.created_at)

-- The head of the list after a stable sort.
unfoldable pub first_item : MissionQueueItem → List MissionQueueItem → MissionQueueItem
first_item i [] = i
first_item i (j ∷ js) = first_item (if comes_before j i then j else i) js

abbrev pub head_sorted : List MissionQueueItem → Option MissionQueueItem
head_sorted [] = none
head_sorted (i ∷ is) = some (first_item i is)

unfoldable pub dequeue : Store → ℕ → Option MissionQueueItem
dequeue s now = head_sorted (candidates s now (values s.mission_queue))

-- The lease that `transition` is passed, owner and expiry, if any.
abbrev pub LeaseExtra : Type 0
LeaseExtra = Option (String × Stamp)

unfoldable pub with_extra : MissionQueueItem → LeaseExtra → MissionQueueItem
with_extra i none = i
with_extra i (some (owner, expires)) = record i {
  lease_owner = some owner;
  lease_expires_at = expires;
}

unfoldable pub moved : MissionQueueItem → QueueItemState → LeaseExtra → ℕ → MissionQueueItem
moved i target extra now = with_extra (record i { state = target; updated_at = now }) extra

unfoldable pub put_item : Store → String → MissionQueueItem → Store
put_item s id i = record s { mission_queue = save s.mission_queue id i }

unfoldable pub transition_item :
    Store → String → QueueItemState → LeaseExtra → ℕ → Store × Option MissionQueueItem
transition_item s id target extra now = elim (get s.mission_queue id) [
  | none ↦ (s, none)
  | some i ↦ (
    emit (put_item s id (moved i target extra now)) "mission_state_change" id,
    some (moved i target extra now),
  )
]

unfoldable pub bump_attempt : Store → String → ℕ → Store × Option MissionQueueItem
bump_attempt s id now = elim (get s.mission_queue id) [
  | none ↦ (s, none)
  | some i ↦
      let i' = record i { attempt_count = i.attempt_count + 1; updated_at = now } in
      (put_item s id i', some i')
]

unfoldable pub get_item : Store → String → Option MissionQueueItem
get_item s id = get s.mission_queue id

unfoldable pub in_state : QueueItemState → List MissionQueueItem → List MissionQueueItem
in_state q [] = []
in_state q (i ∷ is) = let rest = in_state q is in if i.state == q then i ∷ rest else rest

unfoldable pub list_by_state : Store → QueueItemState → List MissionQueueItem
list_by_state s q = in_state q (values s.mission_queue)

unfoldable pub count_by_state : Store → QueueItemState → ℕ
count_by_state s q = length (list_by_state s q)
