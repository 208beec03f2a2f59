-- ===== src/Orchestration/Recoveries.antt =====
-- src/nexara_prime/orchestration.py: `RecoveryQueue`. The id of a new item is an argument.
use nexara_prime.Base.{
  ℕ, String, Option, none, some, List, [], ◌∷◌, if◌then◌else◌, ◌==◌, string_eq, nat_eq,
}
use nexara_prime.Base.Dict.{get, save, values}
use nexara_prime.Orchestration.{
  FailureClass, RecoveryState, recovery_state_eq, RecoveryItem, Store, emit, add_evidence,
}
use nexara_prime.Orchestration.RecoveryState.{
  pending, analyzing, strategy_1, strategy_2, exhausted, rolled_back,
}

unfoldable pub put_recovery : Store → String → RecoveryItem → Store
put_recovery s id i = record s { recovery_queue = save s.recovery_queue id i }

unfoldable pub new_recovery : String → String → FailureClass → ℕ → RecoveryItem
new_recovery id mission failure now = record {
  recovery_id = id;
  mission_id = mission;
  failure_class = failure;
  failed_strategy = none;
  next_strategy = none;
  rollback_checkpoint = none;
  attempt = 1;
  state = pending;
  updated_at = now;
}

unfoldable pub enqueue_recovery : Store → String → String → FailureClass → ℕ → Store
enqueue_recovery s id mission failure now =
    emit (put_recovery s id (new_recovery id mission failure now)) "recovery_enqueued" mission

unfoldable pub next_state : RecoveryState → RecoveryItem → String → Option String → RecoveryItem
next_state pending i strategy checkpoint = record i {
  state = strategy_1;
  next_strategy = some strategy;
  rollback_checkpoint = checkpoint;
}
next_state strategy_1 i strategy checkpoint = record i {
  state = strategy_2;
  failed_strategy = i.next_strategy;
  next_strategy = some strategy;
  attempt = 2;
  rollback_checkpoint = checkpoint;
}
next_state strategy_2 i strategy checkpoint = record i {
  state = exhausted;
  failed_strategy = i.next_strategy;
  next_strategy = none;
}
next_state analyzing i strategy checkpoint = i
next_state exhausted i strategy checkpoint = i
next_state rolled_back i strategy checkpoint = i

unfoldable pub next_strategy :
    Store → String → String → Option String → ℕ → Store × Option RecoveryItem
next_strategy s id strategy checkpoint now = elim (get s.recovery_queue id) [
  | none ↦ (s, none)
  | some i ↦
      let i' = record (next_state i.state i strategy checkpoint) { updated_at = now } in
      (put_recovery s id i', some i')
]

unfoldable pub block_recovery : Store → String → ℕ → Store × Option RecoveryItem
block_recovery s id now = elim (get s.recovery_queue id) [
  | none ↦ (s, none)
  | some i ↦
      let i' = record i { state = exhausted; updated_at = now } in
      (add_evidence (put_recovery s id i') i.mission_id "recovery_report", some i')
]

unfoldable pub recoveries_of : String → List RecoveryItem → List RecoveryItem
recoveries_of id [] = []
recoveries_of id (i ∷ is) =
    let rest = recoveries_of id is in if i.mission_id == id then i ∷ rest else rest

unfoldable pub list_for_mission : Store → String → List RecoveryItem
list_for_mission s id = recoveries_of id (values s.recovery_queue)
