-- ===== src/Orchestration/Dispatch.antt =====
-- The loop that hands out READY missions ends.
use nexara_prime.Orchestration.Order.{dequeue_cases}
use nexara_prime.Base.{
  ℤ, ℕ, zero, suc, ◌+◌, ◌≤◌, ◌<◌, String, ◌≡◌, refl, inl, inr, Bool, true, false, not, ◌&&◌, Option,
  none, some, List, [], ◌∷◌, ◌++◌, arith, if◌then◌else◌, Bool-cases, Option-cases, ◌==◌, contains,
  string_eq, nat_eq, length, In,
}
use nexara_prime.Base.Dict.{Dict, get, save, remove, values, values-append, length-values}
use nexara_prime.Orchestration.{
  instant, QueueItemState, ready, waiting_approval, blocked, queue_state_eq,
  QueueItemState-discrete, MissionQueueItem, WorkerDescriptor, lease_state_eq, claim_id_eq,
  approval_status_eq, recovery_state_eq, verification_status_eq, Store, emit,
}
use nexara_prime.Orchestration.Queue.{
  is_candidate, dequeue, LeaseExtra, with_extra, moved, put_item, transition_item,
}
use nexara_prime.Orchestration.Workers.{schedule}
use nexara_prime.Orchestration.Leases.{save_if_absent, check_writer, claim_writer, acquire_writer}
use nexara_prime.Orchestration.Control.{
  is_approval_blocked, hand_off, dispatch_to, dispatch_item, dispatch, prepare_cycle,
  execute_control_cycle,
}

-- The ready items whose mission is not among the processed ones.
open_items : List String → List MissionQueueItem → ℕ
open_items seen [] = 0
open_items seen (i ∷ is) =
    (if i.state == ready && not (contains seen i.mission_id) then 1 else 0) + open_items seen is

open_items-length :
    (seen : List String) (is : List MissionQueueItem) → open_items seen is ≤ length is
unfolding open_items
open_items-length seen [] = omega arith
open_items-length seen (i ∷ is) = ground (arith, open_items-length seen is)

open_items-append :
    (seen : List String) (is : List MissionQueueItem) (i : MissionQueueItem)
    → (i.state == ready) ≡ false
    → open_items seen (is ++ i ∷ []) ≡ open_items seen is
unfolding open_items
open_items-append seen [] i h = ground arith
open_items-append seen (j ∷ js) i h = ground (arith, open_items-append seen js i h)

open_items-remove :
    (seen : List String) (d : Dict String MissionQueueItem) (id : String)
    → open_items seen (values (remove d id)) ≤ open_items seen (values d)
unfolding open_items values remove
open_items-remove seen [] id = omega arith
open_items-remove seen ((k, i) ∷ d) id = ground (arith, open_items-remove seen d id)

-- Saving an item that is not ready opens nothing.
open_items-save :
    (seen : List String) (d : Dict String MissionQueueItem) (id : String) (i : MissionQueueItem)
    → (i.state == ready) ≡ false
    → open_items seen (values (save d id i)) ≤ open_items seen (values d)
unfolding save
open_items-save seen d id i h =
    rw (values-append (remove d id) id i, open_items-append seen (values (remove d id)) i h)
      (open_items-remove seen d id)

open_items_mono :
    (seen : List String) (id : String) (is : List MissionQueueItem)
    → open_items (id ∷ seen) is ≤ open_items seen is
unfolding open_items
open_items_mono seen id [] = omega arith
open_items_mono seen id (i ∷ is) = ground (arith, open_items_mono seen id is)

open_items-processed :
    (seen : List String) (i : MissionQueueItem) (is : List MissionQueueItem)
    → In i is
    → (i.state == ready) ≡ true
    → contains seen i.mission_id ≡ false
    → open_items (i.mission_id ∷ seen) is < open_items seen is
unfolding open_items
open_items-processed seen i [] h r new = elim h [ ]
open_items-processed seen i (j ∷ js) (inl same) r new =
    rw (← same) (ground (arith, open_items_mono seen i.mission_id js))
open_items-processed seen i (j ∷ js) (inr h) r new =
    ground (arith, open_items-processed seen i js h)

with_extra-state :
    (i : MissionQueueItem) (q : QueueItemState) (extra : LeaseExtra) (now : ℕ)
    → (moved i q extra now).state ≡ q
unfolding moved with_extra
with_extra-state i q none now = refl
with_extra-state i q (some e) now = refl

pub transition_item-none :
    (s : Store) (id : String) (q : QueueItemState) (extra : LeaseExtra) (now : ℕ)
    → get s.mission_queue id ≡ none
    → transition_item s id q extra now ≡ (s, none)
unfolding transition_item
transition_item-none s id q extra now absent = rw (transition_item, absent) refl

pub transition_item-some :
    (s : Store) (id : String) (q : QueueItemState) (extra : LeaseExtra) (now : ℕ)
    (i : MissionQueueItem)
    → get s.mission_queue id ≡ some i
    → transition_item s id q extra now ≡ (
      emit (put_item s id (moved i q extra now)) "mission_state_change" id,
      some (moved i q extra now),
    )
unfolding transition_item
transition_item-some s id q extra now i found = rw (transition_item, found) refl

transition_item-open :
    (s : Store) (id : String) (q : QueueItemState) (extra : LeaseExtra) (now : ℕ)
    (seen : List String)
    → (q == ready) ≡ false
    → open_items seen (values (transition_item s id q extra now).0.mission_queue)
      ≤ open_items seen (values s.mission_queue)
unfolding emit put_item
transition_item-open s id q extra now seen other = elim (Option-cases (get s.mission_queue id)) [
  | inl absent ↦ rw (transition_item-none s id q extra now absent) (omega arith)
  | inr (i, found) ↦ rw (transition_item-some s id q extra now i found) (
      open_items-save seen s.mission_queue id (moved i q extra now)
        (rw (with_extra-state i q extra now) other))
]

acquire_writer-queue :
    (s : Store) (m w : String) (ttl : Option ℤ) (now : ℕ)
    → (acquire_writer s m w ttl now).0.mission_queue ≡ s.mission_queue
unfolding acquire_writer check_writer claim_writer save_if_absent emit
acquire_writer-queue s m w ttl now = ground arith

hand_off-open :
    (s : Store) (now : ℕ) (id : String) (w : WorkerDescriptor) (r : Store × Bool)
    (seen : List String)
    → r.0.mission_queue ≡ s.mission_queue
    → open_items seen (values (hand_off s now id w r).mission_queue)
      ≤ open_items seen (values s.mission_queue)
unfolding hand_off emit QueueItemState-discrete
hand_off-open s now id w (s', false) seen same = rw same (omega arith)
hand_off-open s now id w (s', true) seen same = rw (← same) (
    transition_item-open s' id QueueItemState.running (some (w.worker_id, instant now)) now seen
      refl)

dispatch_to-open :
    (s : Store) (now : ℕ) (id : String) (w : Option WorkerDescriptor) (seen : List String)
    → open_items seen (values (dispatch_to s now id w).mission_queue)
      ≤ open_items seen (values s.mission_queue)
unfolding dispatch_to emit QueueItemState-discrete
dispatch_to-open s now id none seen = transition_item-open s id blocked none now seen refl
dispatch_to-open s now id (some w) seen =
    hand_off-open s now id w (acquire_writer s id w.worker_id none now) seen
      (acquire_writer-queue s id w.worker_id none now)

dispatch_item-open :
    (s : Store) (now : ℕ) (i : MissionQueueItem) (seen : List String)
    → open_items seen (values (dispatch_item s now i).mission_queue)
      ≤ open_items seen (values s.mission_queue)
unfolding dispatch_item emit QueueItemState-discrete
dispatch_item-open s now i seen = go (is_approval_blocked s i.mission_id)
  where
    chosen : Bool → Store
    chosen b =
        if b
        then emit (transition_item s i.mission_id waiting_approval none now).0
            "mission_waiting_approval" i.mission_id
        else dispatch_to s now i.mission_id (schedule s now i)

    go :
        (b : Bool)
        → open_items seen (values (chosen b).mission_queue)
          ≤ open_items seen (values s.mission_queue)
    go true = transition_item-open s i.mission_id waiting_approval none now seen refl
    go false = dispatch_to-open s now i.mission_id (schedule s now i) seen

picked_ready :
    (s : Store) (now : ℕ) (i : MissionQueueItem)
    → is_candidate s now i ≡ true
    → (i.state == ready) ≡ true
unfolding is_candidate
picked_ready s now i h = ground arith

-- With more fuel than there are open items the loop ends.
dispatch_ends :
    (fuel : ℕ) (seen : List String) (s : Store) (now : ℕ)
    → open_items seen (values s.mission_queue) < fuel
    → (s' : Store) × (dispatch fuel seen s now ≡ some s')
unfolding dispatch
dispatch_ends zero seen s now enough = absurd (omega arith)
dispatch_ends (suc fuel) seen s now enough = elim (Option-cases (dequeue s now)) [
  | inl empty ↦ (s, rw (dispatch, empty) refl)
  | inr (i, picked) ↦ elim (Bool-cases (contains seen i.mission_id)) [
    | inl again ↦ (s, rw (dispatch, picked, again) refl)
    | inr new ↦
        let (listed, good, first) = (dequeue_cases s now).0 i picked in
        let fewer =
          open_items-processed seen i (values s.mission_queue) listed (picked_ready s now i good)
            new in
        let kept = dispatch_item-open s now i (i.mission_id ∷ seen) in
        let (s', ended) =
          dispatch_ends fuel (i.mission_id ∷ seen) (dispatch_item s now i) now (omega arith) in
        (s', rw (dispatch, picked, new) ended)
  ]
]

-- A cycle always ends: the fuel of its loop, two turns more than there are missions, is enough.
pub execute_control_cycle-total :
    (auto_resume : Bool) (s : Store) (ids : ℕ → String) (now : ℕ)
    → (s' : Store) × (execute_control_cycle auto_resume s ids now ≡ some s')
unfolding execute_control_cycle
execute_control_cycle-total auto_resume s ids now =
    let p = prepare_cycle auto_resume s ids now in
    dispatch_ends (suc (suc (length p.mission_queue))) [] p now
      (omega (arith, open_items-length [] (values p.mission_queue), length-values p.mission_queue))
