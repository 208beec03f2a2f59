-- ===== src/Orchestration/Order.antt =====
-- What `dequeue` picks.
use nexara_prime.Base.{
  ℕ, String, ◌≡◌, refl, sym, ◌∙◌, ◌↔◌, ◌⊎◌, inl, inr, Bool, true, false, not, ◌&&◌, ◌||◌, Option,
  none, some, List, [], ◌∷◌, arith, ltb, leb, if◌then◌else◌, Bool-cases, Option-cases, ◌==◌,
  string_eq, nat_eq, all, any, In, any-false, and_false, ltz, eqz, key_before_irrefl,
  key_before_asym, key_before_trans,
}
use nexara_prime.Base.Dict.{get, values}
use nexara_prime.Orchestration.{
  Stamp, missing, unparsed, instant, parse_instant, instant_before_or_equal, is_set, ready,
  completed, queue_state_eq, MissionQueueItem, lease_state_eq, claim_id_eq, approval_status_eq,
  recovery_state_eq, verification_status_eq, Store,
}
use nexara_prime.Orchestration.Queue.{
  done, dependencies_met, is_candidate, candidates, comes_before, first_item, head_sorted, dequeue,
}
use mathlib.Core.Path.{subst}

In-candidates :
    (s : Store) (now : ℕ) (i : MissionQueueItem) (is : List MissionQueueItem)
    → In i (candidates s now is)
    → In i is × (is_candidate s now i ≡ true)
unfolding candidates
In-candidates s now i [] h = elim h [ ]
In-candidates s now i (j ∷ js) h = ground (arith, In-candidates s now i js)

candidates-In :
    (s : Store) (now : ℕ) (i : MissionQueueItem) (is : List MissionQueueItem)
    → In i is
    → is_candidate s now i ≡ true
    → In i (candidates s now is)
unfolding candidates
candidates-In s now i [] h c = elim h [ ]
candidates-In s now i (j ∷ js) h c = ground (arith, candidates-In s now i js)

first_item-In :
    (i : MissionQueueItem) (is : List MissionQueueItem)
    → (first_item i is ≡ i) ⊎ In (first_item i is) is
unfolding first_item
first_item-In i [] = inl refl
first_item-In i (j ∷ js) = ground (arith, first_item-In (if comes_before j i then j else i) js)

abbrev step : MissionQueueItem → MissionQueueItem → MissionQueueItem
step i j = if comes_before j i then j else i

step_keeps :
    (i j k : MissionQueueItem) → comes_before k i ≡ false → comes_before k (step i j) ≡ false
step_keeps i j k h = elim (Bool-cases (comes_before j i)) [
  | inl before ↦ rw before (
      key_before_trans j.priority i.priority k.priority j.created_at i.created_at k.created_at h
        before)
  | inr after ↦ rw after h
]

-- The first item comes before none that precedes another.
first_item-le :
    (i : MissionQueueItem) (is : List MissionQueueItem) (k : MissionQueueItem)
    → comes_before k i ≡ false
    → comes_before k (first_item i is) ≡ false
unfolding first_item
first_item-le i [] k h = h
first_item-le i (j ∷ js) k h =
    first_item-le (if comes_before j i then j else i) js k (step_keeps i j k h)

candidates-nil :
    (s : Store) (now : ℕ) (is : List MissionQueueItem)
    → ((k : MissionQueueItem) → In k is → is_candidate s now k ≡ false)
    → candidates s now is ≡ []
unfolding candidates
candidates-nil s now [] h = refl
candidates-nil s now (j ∷ js) h =
    rw (h j (inl refl)) (candidates-nil s now js (λ k k_in. h k (inr k_in)))

comes_before_irrefl : (i : MissionQueueItem) → comes_before i i ≡ false
comes_before_irrefl i = key_before_irrefl i.priority i.created_at

step_left : (i j : MissionQueueItem) → comes_before i (step i j) ≡ false
step_left i j = elim (Bool-cases (comes_before j i)) [
  | inl before ↦ rw before (key_before_asym j.priority i.priority j.created_at i.created_at before)
  | inr after ↦ rw after (comes_before_irrefl i)
]

step_right : (i j : MissionQueueItem) → comes_before j (step i j) ≡ false
step_right i j = elim (Bool-cases (comes_before j i)) [
  | inl before ↦ rw before (comes_before_irrefl j)
  | inr after ↦ rw after after
]

first_item-first :
    (i : MissionQueueItem) (is : List MissionQueueItem) (k : MissionQueueItem)
    → (k ≡ i) ⊎ In k is
    → comes_before k (first_item i is) ≡ false
unfolding first_item
first_item-first i [] k (inl same) = rw same (comes_before_irrefl i)
first_item-first i [] k (inr h) = elim h [ ]
first_item-first i (j ∷ js) k (inl same) = rw same (first_item-le (step i j) js i (step_left i j))
first_item-first i (j ∷ js) k (inr (inl same)) =
    rw same (first_item-le (step i j) js j (step_right i j))
first_item-first i (j ∷ js) k (inr (inr h)) = first_item-first (step i j) js k (inr h)

head_sorted-some :
    (is : List MissionQueueItem) (i : MissionQueueItem)
    → head_sorted is ≡ some i
    → In i is × ((k : MissionQueueItem) → In k is → comes_before k i ≡ false)
head_sorted-some [] i h = cc
head_sorted-some (j ∷ js) i h =
    let same : first_item j js ≡ i = cc in
    (
      subst (λ x. In x (j ∷ js)) same (first_item-In j js),
      λ k k_in. subst (λ x. comes_before k x ≡ false) same (first_item-first j js k k_in),
    )

head_sorted-none : (is : List MissionQueueItem) → head_sorted is ≡ none → is ≡ []
head_sorted-none [] h = refl
head_sorted-none (j ∷ js) h = cc

pub dequeue_cases :
    (s : Store) (now : ℕ)
    → ((i : MissionQueueItem)
        → dequeue s now ≡ some i
        → In i (values s.mission_queue)
          × (is_candidate s now i ≡ true)
          × ((k : MissionQueueItem)
              → In k (values s.mission_queue)
              → is_candidate s now k ≡ true
              → comes_before k i ≡ false))
      × ((dequeue s now ≡ none)
          ↔ ((k : MissionQueueItem) → In k (values s.mission_queue) → is_candidate s now k ≡ false))
unfolding dequeue
dequeue_cases s now = (picked, (none_left, nothing))
  where
    rows : List MissionQueueItem
    rows = values s.mission_queue

    picked :
        (i : MissionQueueItem)
        → head_sorted (candidates s now rows) ≡ some i
        → In i rows
          × (is_candidate s now i ≡ true)
          × ((k : MissionQueueItem)
              → In k rows
              → is_candidate s now k ≡ true
              → comes_before k i ≡ false)
    picked i h =
        let (i_in, first) = head_sorted-some (candidates s now rows) i h in
        let (listed, ok) = In-candidates s now i rows i_in in
        (listed, ok, λ k k_in good. first k (candidates-In s now k rows k_in good))

    none_left :
        head_sorted (candidates s now rows) ≡ none
        → (k : MissionQueueItem) → In k rows
        → is_candidate s now k ≡ false
    none_left h k k_in = elim (Bool-cases (is_candidate s now k)) [
      | inl good ↦ absurd (
          rw (head_sorted-none (candidates s now rows) h) at (candidates-In s now k rows k_in good))
      | inr bad ↦ bad
    ]

    nothing :
        ((k : MissionQueueItem) → In k rows → is_candidate s now k ≡ false)
        → head_sorted (candidates s now rows) ≡ none
    nothing h = rw (candidates-nil s now rows h) refl

-- An item that waits for a time is available from then on; one with no time, or none that is read, is.
abbrev pub available : ℕ → Stamp → Bool
available now missing = true
available now unparsed = true
available now (instant t) = leb t now

abbrev pub is_completed : Option MissionQueueItem → Bool
is_completed none = false
is_completed (some i) = i.state == completed

-- The item is ready, available, and all missions that it depends on are completed.
abbrev pub may_run : Store → ℕ → MissionQueueItem → Bool
may_run s now i =
    i.state == ready
    && (available now i.available_at
        && all (λ dep. is_completed (get s.mission_queue dep)) i.dependencies)

-- It has a higher priority, or the same and was created earlier.
abbrev pub ahead : MissionQueueItem → MissionQueueItem → Bool
ahead k i =
    ltz i.priority k.priority || (eqz k.priority i.priority && ltb k.created_at i.created_at)

available_lem :
    (now : ℕ) (t : Stamp)
    → (not (is_set t) || instant_before_or_equal t (instant now)) ≡ available now t
unfolding instant_before_or_equal parse_instant
available_lem now missing = refl
available_lem now unparsed = refl
available_lem now (instant t) = refl

completed_lem : (o : Option MissionQueueItem) → done o ≡ is_completed o
completed_lem none = refl
completed_lem (some i) = refl

dependencies_met_lem :
    (s : Store) (deps : List String)
    → all (λ dep. done (get s.mission_queue dep)) deps
      ≡ all (λ dep. is_completed (get s.mission_queue dep)) deps
dependencies_met_lem s [] = refl
dependencies_met_lem s (d ∷ ds) =
    ground (arith, completed_lem (get s.mission_queue d), dependencies_met_lem s ds)

is_candidate_lem :
    (s : Store) (now : ℕ) (i : MissionQueueItem) → is_candidate s now i ≡ may_run s now i
unfolding is_candidate dependencies_met
is_candidate_lem s now i =
    ground (arith, available_lem now i.available_at, dependencies_met_lem s i.dependencies)

-- What `dequeue` is to give: an item of the queue that may run and that no other such item is ahead
-- of, or none where no item may run.
abbrev pub Dequeued : Store → ℕ → Option MissionQueueItem → Type 0
Dequeued s now none = any (may_run s now) (values s.mission_queue) ≡ false
Dequeued s now (some i) =
    In i (values s.mission_queue)
    × (may_run s now i ≡ true)
    × (any (λ k. may_run s now k && ahead k i) (values s.mission_queue) ≡ false)

-- `dequeue` gives an item of the queue that is ready, available and has its dependencies completed,
-- such that no other such item has a higher priority, or the same and was created earlier; it gives
-- none only if no item is such.
pub dequeue_lem : (s : Store) (now : ℕ) → Dequeued s now (dequeue s now)
dequeue_lem s now = elim (Option-cases (dequeue s now)) [
  | inl nothing ↦ subst (Dequeued s now) (sym nothing) (
      any-false (may_run s now) (values s.mission_queue)
        (λ k k_in. sym (is_candidate_lem s now k) ∙ (dequeue_cases s now).1.0 nothing k k_in))
  | inr (i, picked) ↦
      let (i_in, good, first) = (dequeue_cases s now).0 i picked in
      subst (Dequeued s now) (sym picked) (
        i_in,
        sym (is_candidate_lem s now i) ∙ good,
        any-false (λ k. may_run s now k && ahead k i) (values s.mission_queue)
            (λ k k_in.
              and_false (may_run s now k) (ahead k i)
                (λ runs. first k k_in (is_candidate_lem s now k ∙ runs))),
      )
]
