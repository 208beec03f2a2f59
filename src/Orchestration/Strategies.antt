-- ===== src/Orchestration/Strategies.antt =====
-- How far the recovery queue lets the recovery of a failure go.
use nexara_prime.Base.{
  ℕ, String, ◌≡◌, refl, ap, ◌∙◌, Option, none, some, List, [], ◌∷◌, ==-refl, string_eq, nat_eq,
}
use nexara_prime.Base.Dict.{get, get-save}
use nexara_prime.Orchestration.{
  queue_state_eq, lease_state_eq, claim_id_eq, approval_status_eq, FailureClass, RecoveryState,
  recovery_state_eq, RecoveryItem, verification_status_eq, Store, emit,
}
use nexara_prime.Orchestration.Recoveries.{
  put_recovery, new_recovery, enqueue_recovery, next_state, next_strategy,
}

-- The strategies that are asked for in turn, each with its checkpoint and its time.
unfoldable pub ask_each :
    Store → String → List (String × Option String × ℕ) → Store × Option RecoveryItem
ask_each s id [] = (s, get s.recovery_queue id)
ask_each s id ((strategy, checkpoint, now) ∷ rest) =
    ask_each (next_strategy s id strategy checkpoint now).0 id rest

next_strategy-some :
    (s : Store) (id strategy : String) (checkpoint : Option String) (now : ℕ) (i : RecoveryItem)
    → get s.recovery_queue id ≡ some i
    → get (next_strategy s id strategy checkpoint now).0.recovery_queue id
      ≡ some (record (next_state i.state i strategy checkpoint) { updated_at = now })
unfolding next_strategy put_recovery
next_strategy-some s id strategy checkpoint now i found =
    rw
      (
        next_strategy,
        found,
        get-save s.recovery_queue id id
            (record (next_state i.state i strategy checkpoint) { updated_at = now }),
        ==-refl id,
      )
      refl

-- An item that is out of strategies: both were tried, and the last one to fail is `f`.
abbrev pub OutOfStrategies : String → RecoveryItem → Type 0
OutOfStrategies f i =
    (i.state ≡ RecoveryState.exhausted)
    × (i.next_strategy ≡ none)
    × (i.failed_strategy ≡ some f)
    × (i.attempt ≡ 2)

next_state-exhausted :
    (i : RecoveryItem) (strategy : String) (checkpoint : Option String)
    → i.state ≡ RecoveryState.exhausted
    → next_state i.state i strategy checkpoint ≡ i
unfolding next_state
next_state-exhausted i strategy checkpoint out = ap (λ q. next_state q i strategy checkpoint) out

abbrev stamped : ℕ → RecoveryItem → Option RecoveryItem
stamped now i = some (record i { updated_at = now })

exhausted_stays :
    (s : Store) (id f : String) (asks : List (String × Option String × ℕ)) (i : RecoveryItem)
    → get s.recovery_queue id ≡ some i
    → OutOfStrategies f i
    → (j : RecoveryItem) × ((ask_each s id asks).1 ≡ some j) × OutOfStrategies f j
unfolding ask_each
exhausted_stays s id f [] i found out = (i, found, out)
exhausted_stays s id f ((strategy, checkpoint, now) ∷ asks) i found out =
    exhausted_stays (next_strategy s id strategy checkpoint now).0 id f asks
      (record i { updated_at = now })
      (next_strategy-some s id strategy checkpoint now i found
        ∙ ap (stamped now) (next_state-exhausted i strategy checkpoint out.0))
      out

enqueue_recovery-get :
    (s : Store) (id m : String) (c : FailureClass) (t : ℕ)
    → get (enqueue_recovery s id m c t).recovery_queue id ≡ some (new_recovery id m c t)
unfolding enqueue_recovery put_recovery emit
enqueue_recovery-get s id m c t =
    rw (get-save s.recovery_queue id id (new_recovery id m c t), ==-refl id) refl

-- The recovery of a failure has two strategies: the third request for one exhausts it, with the second
-- strategy as the one that failed, and no later request yields a strategy again.
pub recovery_exhausts :
    (s : Store) (id m : String) (c : FailureClass) (t t1 t2 t3 : ℕ) (first second third : String)
    (c1 c2 c3 : Option String) (asks : List (String × Option String × ℕ))
    → (j : RecoveryItem) × ((ask_each
          (enqueue_recovery s id m c t)
          id
          ((first, c1, t1) ∷ (second, c2, t2) ∷ (third, c3, t3) ∷ asks)).1
        ≡ some j)
      × OutOfStrategies second j
unfolding ask_each next_state new_recovery
recovery_exhausts s id m c t t1 t2 t3 first second third c1 c2 c3 asks =
    let s0 = enqueue_recovery s id m c t in
    let s1 = (next_strategy s0 id first c1 t1).0 in
    let s2 = (next_strategy s1 id second c2 t2).0 in
    let g1 = next_strategy-some s0 id first c1 t1 _ (enqueue_recovery-get s id m c t) in
    let g2 = next_strategy-some s1 id second c2 t2 _ g1 in
    let g3 = next_strategy-some s2 id third c3 t3 _ g2 in
    exhausted_stays (next_strategy s2 id third c3 t3).0 id second asks _ g3 (refl, refl, refl, refl)
