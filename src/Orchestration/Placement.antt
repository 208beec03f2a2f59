-- ===== src/Orchestration/Placement.antt =====
-- Which worker the scheduler gives a mission.
use nexara_prime.Base.{
  ℕ, String, ◌≡◌, refl, sym, ap, ◌↔◌, ◌⊎◌, inl, inr, true, false, ◌&&◌, Option, none, some, List,
  [], ◌∷◌, Bool, ◌∙◌, ◌+◌, ◌-◌, leb, not, ◌||◌, ◌==◌, contains, all, arith, ltb, if◌then◌else◌,
  Bool-cases, Option-cases, string_eq, nat_eq, any, In, or_else, any-false, and_false,
}
use nexara_prime.Base.Dict.{values}
use nexara_prime.Repair.{RiskLevel, r0, r1, r2, r3, r4}
use nexara_prime.Orchestration.{
  Stamp, missing, unparsed, instant, parse_instant, instant_before_or_equal, queue_state_eq,
  MissionQueueItem, WorkerDescriptor, lease_state_eq, claim_id_eq, approval_status_eq,
  recovery_state_eq, verification_status_eq, Store,
}
use nexara_prime.Orchestration.Queue.{own_key}
use nexara_prime.Orchestration.Workers.{
  stale_after, capability_match, risk_compatible, is_live_worker, live_workers, list_available,
  suits, suited, find_worker, worker_rank, first_worker, any_worker, preferred, schedule,
}
use mathlib.Core.Path.{subst}

live_workers-In :
    (now : ℕ) (ws : List WorkerDescriptor) (w : WorkerDescriptor)
    → In w (live_workers now ws)
    → In w ws × (is_live_worker now w ≡ true)
unfolding live_workers
live_workers-In now [] w h = elim h [ ]
live_workers-In now (x ∷ ws) w h = ground (arith, live_workers-In now ws w)

In-live_workers :
    (now : ℕ) (ws : List WorkerDescriptor) (w : WorkerDescriptor)
    → In w ws
    → is_live_worker now w ≡ true
    → In w (live_workers now ws)
unfolding live_workers
In-live_workers now [] w h c = elim h [ ]
In-live_workers now (x ∷ ws) w h c = ground (arith, In-live_workers now ws w)

suited-In :
    (i : MissionQueueItem) (ws : List WorkerDescriptor) (w : WorkerDescriptor)
    → In w (suited i ws)
    → In w ws × (suits i w ≡ true)
unfolding suited
suited-In i [] w h = elim h [ ]
suited-In i (x ∷ ws) w h = ground (arith, suited-In i ws w)

In-suited :
    (i : MissionQueueItem) (ws : List WorkerDescriptor) (w : WorkerDescriptor)
    → In w ws
    → suits i w ≡ true
    → In w (suited i ws)
unfolding suited
In-suited i [] w h c = elim h [ ]
In-suited i (x ∷ ws) w h c = ground (arith, In-suited i ws w)

find_worker-In :
    (ws : List WorkerDescriptor) (id : String) (w : WorkerDescriptor)
    → find_worker ws id ≡ some w
    → In w ws
unfolding find_worker
find_worker-In [] id w h = cc
find_worker-In (x ∷ ws) id w h = ground (arith, find_worker-In ws id w)

first_worker-In :
    (x : WorkerDescriptor) (ws : List WorkerDescriptor)
    → (first_worker x ws ≡ x) ⊎ In (first_worker x ws) ws
unfolding first_worker
first_worker-In x [] = inl refl
first_worker-In x (y ∷ ws) =
    ground (arith, first_worker-In (if ltb (worker_rank y) (worker_rank x) then y else x) ws)

any_worker-In :
    (ws : List WorkerDescriptor) (w : WorkerDescriptor) → any_worker ws ≡ some w → In w ws
any_worker-In [] w h = cc
any_worker-In (x ∷ ws) w h =
    let same : first_worker x ws ≡ w = cc in subst (λ y. In y (x ∷ ws)) same (first_worker-In x ws)

preferred-In :
    (id : Option String) (ws : List WorkerDescriptor) (w : WorkerDescriptor)
    → preferred id ws ≡ some w
    → In w ws
preferred-In none ws w h = cc
preferred-In (some id) ws w h = find_worker-In ws id w h

or_else-some :
    (a b : Option WorkerDescriptor) (w : WorkerDescriptor)
    → or_else a b ≡ some w
    → (a ≡ some w) ⊎ (b ≡ some w)
or_else-some none b w h = inr h
or_else-some (some x) b w h = inl h

picked-In :
    (id : Option String) (ws : List WorkerDescriptor) (w : WorkerDescriptor)
    → or_else (preferred id ws) (any_worker ws) ≡ some w
    → In w ws
picked-In id ws w h = elim (or_else-some (preferred id ws) (any_worker ws) w h) [
  | inl wanted ↦ preferred-In id ws w wanted
  | inr other ↦ any_worker-In ws w other
]

or_else-none : (a b : Option WorkerDescriptor) → or_else a b ≡ none → b ≡ none
or_else-none none b h = h
or_else-none (some x) b h = cc

any_worker-none : (ws : List WorkerDescriptor) → any_worker ws ≡ none → ws ≡ []
any_worker-none [] h = refl
any_worker-none (w ∷ ws) h = cc

preferred-nil : (id : Option String) → preferred id [] ≡ none
unfolding find_worker
preferred-nil none = refl
preferred-nil (some id) = refl

no_suited :
    (i : MissionQueueItem) (ws : List WorkerDescriptor)
    → ((w : WorkerDescriptor) → In w ws → suits i w ≡ false)
    → suited i ws ≡ []
unfolding suited
no_suited i [] none_suits = refl
no_suited i (w ∷ ws) none_suits =
    rw (none_suits w (inl refl)) (no_suited i ws (λ x x_in. none_suits x (inr x_in)))

both_true : {a b : Bool} → a ≡ true → b ≡ true → (a && b) ≡ true
both_true ha hb = rw (ha, hb) refl

schedule_cases :
    (s : Store) (now : ℕ) (i : MissionQueueItem)
    → ((w : WorkerDescriptor)
        → schedule s now i ≡ some w
        → In w (values s.worker_registry) × (is_live_worker now w ≡ true) × (suits i w ≡ true))
      × ((schedule s now i ≡ none) ↔ (
          (w : WorkerDescriptor)
          → In w (values s.worker_registry)
          → is_live_worker now w ≡ true
          → suits i w ≡ false))
unfolding schedule list_available
schedule_cases s now i = (picked, (none_left, nothing))
  where
    rows : List WorkerDescriptor
    rows = values s.worker_registry

    picked :
        (w : WorkerDescriptor)
        → or_else
            (preferred (own_key i.preferred_worker) (suited i (live_workers now rows)))
            (any_worker (suited i (live_workers now rows)))
          ≡ some w
        → In w rows × (is_live_worker now w ≡ true) × (suits i w ≡ true)
    picked w h =
        let (w_live, fit) =
          suited-In i (live_workers now rows) w
            (picked-In (own_key i.preferred_worker) (suited i (live_workers now rows)) w h) in
        let (w_in, live) = live_workers-In now rows w w_live in (w_in, live, fit)

    none_left :
        or_else
            (preferred (own_key i.preferred_worker) (suited i (live_workers now rows)))
            (any_worker (suited i (live_workers now rows)))
          ≡ none
        → (w : WorkerDescriptor) → In w rows
        → is_live_worker now w ≡ true
        → suits i w ≡ false
    none_left h w w_in live = elim (Bool-cases (suits i w)) [
      | inl fit ↦ absurd (
          rw
            (any_worker-none (suited i (live_workers now rows)) (
              or_else-none
                (preferred (own_key i.preferred_worker) (suited i (live_workers now rows)))
                (any_worker (suited i (live_workers now rows))) h))
            at (In-suited i (live_workers now rows) w (In-live_workers now rows w w_in live) fit))
      | inr bad ↦ bad
    ]

    nothing :
        ((w : WorkerDescriptor) → In w rows → is_live_worker now w ≡ true → suits i w ≡ false)
        → or_else
            (preferred (own_key i.preferred_worker) (suited i (live_workers now rows)))
            (any_worker (suited i (live_workers now rows)))
          ≡ none
    nothing h =
        rw
          (no_suited i (live_workers now rows)
            (λ w w_live. let (w_in, live) = live_workers-In now rows w w_live in h w w_in live))
          (ap (λ a. or_else a none) (preferred-nil (own_key i.preferred_worker)))

-- The worker was heard of at most 300 seconds ago.
abbrev pub heard : ℕ → Stamp → Bool
heard now missing = false
heard now unparsed = false
heard now (instant t) = leb now (t + 300000000)

abbrev pub high_risk : RiskLevel → Bool
high_risk r0 = false
high_risk r1 = false
high_risk r2 = false
high_risk r3 = true
high_risk r4 = true

-- The worker is available and heard of, has every capability that the mission requires and, for a
-- risk of R3 or R4, is healthy and may write.
abbrev pub may_take : ℕ → MissionQueueItem → WorkerDescriptor → Bool
may_take now i w =
    w.available
    && (heard now w.last_heartbeat
        && (all (λ c. contains w.capabilities c) i.required_capabilities
            && (not (high_risk i.risk_level) || (w.health == "healthy" && w.writer_capable))))

heard_lem :
    (now : ℕ) (t : Stamp) → instant_before_or_equal (instant (now - stale_after)) t ≡ heard now t
unfolding instant_before_or_equal parse_instant
heard_lem now missing = refl
heard_lem now unparsed = refl
heard_lem now (instant t) = ground arith

risk_compatible_lem :
    (w : WorkerDescriptor) (r : RiskLevel)
    → risk_compatible w r ≡ (not (high_risk r) || (w.health == "healthy" && w.writer_capable))
unfolding risk_compatible
risk_compatible_lem w r0 = refl
risk_compatible_lem w r1 = refl
risk_compatible_lem w r2 = refl
risk_compatible_lem w r3 = refl
risk_compatible_lem w r4 = refl

may_take_lem :
    (now : ℕ) (i : MissionQueueItem) (w : WorkerDescriptor)
    → (is_live_worker now w && suits i w) ≡ may_take now i w
unfolding is_live_worker suits capability_match
may_take_lem now i w =
    ground (arith, heard_lem now w.last_heartbeat, risk_compatible_lem w i.risk_level)

-- What `schedule` is to give a mission: a registered worker that may take it, or none where no
-- registered worker may.
abbrev pub Placed : Store → ℕ → MissionQueueItem → Option WorkerDescriptor → Type 0
Placed s now i none = any (may_take now i) (values s.worker_registry) ≡ false
Placed s now i (some w) = In w (values s.worker_registry) × (may_take now i w ≡ true)

-- A worker that a mission is given is registered, available, was heard of at most 300 seconds ago,
-- has every capability that the mission requires and, for a risk of R3 or R4, is healthy and may
-- write. None is given only if no registered worker is such.
pub schedule_lem : (s : Store) (now : ℕ) (i : MissionQueueItem) → Placed s now i (schedule s now i)
schedule_lem s now i = elim (Option-cases (schedule s now i)) [
  | inl nothing ↦ subst (Placed s now i) (sym nothing) (
      any-false (may_take now i) (values s.worker_registry) (λ w w_in.
        sym (may_take_lem now i w)
        ∙ and_false (is_live_worker now w) (suits i w)
            ((schedule_cases s now i).1.0 nothing w w_in)))
  | inr (w, picked) ↦
      let (w_in, live, fit) = (schedule_cases s now i).0 w picked in
      subst (Placed s now i) (sym picked) (w_in, sym (may_take_lem now i w) ∙ both_true live fit)
]
