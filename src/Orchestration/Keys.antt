-- ===== src/Orchestration/Keys.antt =====
-- Enqueuing under an idempotency key.
use nexara_prime.Base.{
  String, ◌≡◌, refl, ap, ◌∙◌, true, false, Option, none, some, List, [], ◌∷◌, ◌++◌, arith,
  string_eq, nat_eq, In,
}
use nexara_prime.Base.Dict.{Dict, save, remove, values, values-append}
use nexara_prime.Orchestration.{
  queue_state_eq, MissionQueueItem, lease_state_eq, claim_id_eq, approval_status_eq,
  recovery_state_eq, verification_status_eq, Store, emit,
}
use nexara_prime.Orchestration.Queue.{
  terminal, own_key, has_key, find_live_key, enqueue_new, enqueue_under, live_under,
  enqueue_mission,
}

find_live_key-some :
    (is : List MissionQueueItem) (k : String) (i : MissionQueueItem)
    → find_live_key is k ≡ some i
    → In i is × (has_key i.idempotency_key k ≡ true) × (terminal i.state ≡ false)
unfolding find_live_key
find_live_key-some [] k i h = cc
find_live_key-some (j ∷ js) k i h = ground (arith, find_live_key-some js k i)

find_live_key-append :
    (is : List MissionQueueItem) (k : String) (i : MissionQueueItem)
    → has_key i.idempotency_key k ≡ true
    → terminal i.state ≡ false
    → find_live_key is k ≡ none
    → find_live_key (is ++ i ∷ []) k ≡ some i
unfolding find_live_key
find_live_key-append [] k i key live h = ground arith
find_live_key-append (j ∷ js) k i key live h = ground (arith, find_live_key-append js k i key live)

find_live_key-remove :
    (d : Dict String MissionQueueItem) (id k : String)
    → find_live_key (values d) k ≡ none
    → find_live_key (values (remove d id)) k ≡ none
unfolding find_live_key values remove
find_live_key-remove [] id k h = refl
find_live_key-remove ((j, i) ∷ d) id k h = ground (arith, find_live_key-remove d id k)

own_key-has : (o : Option String) (k : String) → own_key o ≡ some k → has_key o k ≡ true
own_key-has none k h = cc
own_key-has (some j) k h = ground (arith, h)

enqueue_keyed :
    (s : Store) (i : MissionQueueItem) (k : String)
    → own_key i.idempotency_key ≡ some k
    → enqueue_mission s i ≡ enqueue_under s i (find_live_key (values s.mission_queue) k)
unfolding enqueue_mission
enqueue_keyed s i k key = ap (λ o. enqueue_under s i (live_under (values s.mission_queue) o)) key

enqueued_live :
    (s : Store) (i : MissionQueueItem) (k : String) (o : Option MissionQueueItem)
    → own_key i.idempotency_key ≡ some k
    → terminal i.state ≡ false
    → find_live_key (values s.mission_queue) k ≡ o
    → find_live_key (values (enqueue_under s i o).0.mission_queue) k ≡ some (enqueue_under s i o).1
unfolding enqueue_under enqueue_new emit save
enqueued_live s i k (some old) key live h = h
enqueued_live s i k none key live h =
    rw (values-append (remove s.mission_queue i.mission_id) i.mission_id i) (
      find_live_key-append (values (remove s.mission_queue i.mission_id)) k i
        (own_key-has i.idempotency_key k key) live
        (find_live_key-remove s.mission_queue i.mission_id k h))

enqueue_hit :
    (s : Store) (j : MissionQueueItem) (o : Option MissionQueueItem) (i : MissionQueueItem)
    → o ≡ some i
    → enqueue_under s j o ≡ (s, i)
unfolding enqueue_under
enqueue_hit s j none i h = cc
enqueue_hit s j (some old) i h = ap (λ x. (s, x)) (cc)

-- Enqueuing is idempotent under a key: once an item with a key is enqueued in a state that is not
-- terminal, enqueuing any item with that key changes nothing and gives the one that is queued.
pub enqueue_mission-again :
    (s : Store) (i j : MissionQueueItem) (k : String)
    → own_key i.idempotency_key ≡ some k
    → own_key j.idempotency_key ≡ some k
    → terminal i.state ≡ false
    → enqueue_mission (enqueue_mission s i).0 j ≡ ((enqueue_mission s i).0, (enqueue_mission s i).1)
unfolding enqueue_mission
enqueue_mission-again s i j k ki kj live =
    let found = enqueued_live s i k (find_live_key (values s.mission_queue) k) ki live refl in
    rw (enqueue_keyed s i k ki) (
      enqueue_keyed (enqueue_under s i (find_live_key (values s.mission_queue) k)).0 j k kj
      ∙ enqueue_hit _ j _ _ found)
