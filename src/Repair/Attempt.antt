-- ===== src/Repair/Attempt.antt =====
-- src/nexara_prime/repair_loop.py: the attempts, the repairs and the statistics of `RepairLoop`. A
-- contract is a shared object in Python, changed after it is listed; here it is listed as it is when
-- the attempt ends.
use nexara_prime.Base.{
  ℕ, zero, suc, ◌+◌, max, String, ◌<>◌, Bool, true, false, ◌&&◌, Option, none, some, List, [], ◌∷◌,
  ◌++◌, leb, if◌then◌else◌, ◌==◌, string_eq, nat_eq, length,
}
use nexara_prime.Base.Dict.{get, put, values}
use nexara_prime.Repair.{
  RepairStatus, pending, reviewing, resolved, failed, escalated, r2, FailureReport, RepairContract,
  RepairResult, generate, review, repair_status_eq,
}
use nexara_prime.Repair.Incidents.{
  RepairLoop, ApplyFn, get_contracts, Incident, detect_failure, analyze_found, repair_step,
  answered, raised,
}

unfoldable pub not_found : String → RepairResult
not_found id = record {
  contract_id = "";
  success = false;
  status = pending;
  attempt_number = 0;
  hypothesis = none;
  patch_applied = false;
  tests_passed = 0;
  tests_failed = 0;
  error = "failure_not_found:" <> id;
  escalation_reason = "";
}

unfoldable pub escalation : ℕ → String → String → RepairResult
escalation attempt error reason = record {
  contract_id = "";
  success = false;
  status = escalated;
  attempt_number = attempt;
  hypothesis = none;
  patch_applied = false;
  tests_passed = 0;
  tests_failed = 0;
  error = error;
  escalation_reason = reason;
}

-- The end of every attempt that made a contract: the contract is listed, the retries of the failure
-- are set and the result is kept.
unfoldable pub close_attempt :
    RepairLoop
    → String
    → FailureReport
    → RepairContract
    → ℕ
    → RepairResult
    → RepairLoop × RepairResult
close_attempt l id failure contract retries result = (
  record l {
    failures = put l.failures id (record failure { retry_count = retries });
    contracts = put l.contracts id (get_contracts l id ++ contract ∷ []);
    results = l.results ++ result ∷ [];
  },
  result,
)

unfoldable pub reject_contract :
    RepairLoop → String → FailureReport → RepairContract → String → RepairLoop × RepairResult
reject_contract l id failure contract reason =
    close_attempt l id failure
      (record contract { reviewer = "independent_reviewer"; review_notes = reason })
      (suc failure.retry_count)
      (record {
        contract_id = contract.contract_id;
        success = false;
        status = reviewing;
        attempt_number = contract.attempt_number;
        hypothesis = some contract.hypothesis;
        patch_applied = false;
        tests_passed = 0;
        tests_failed = 0;
        error = "review_rejected:" <> reason;
        escalation_reason = "";
      })

pub record Applied : Type 0 where
  pub patch_applied : Bool
  pub tests_passed : ℕ
  pub tests_failed : ℕ
  pub error : String

-- The patch function where there is one; three tests are said to pass where there is none.
unfoldable pub run_apply : Option ApplyFn → RepairContract → Applied
run_apply none c = record {
  patch_applied = true;
  tests_passed = 3;
  tests_failed = 0;
  error = c.error;
}
run_apply (some apply) c = elim (apply c) [
  | answered ok good bad ↦ record {
    patch_applied = ok;
    tests_passed = good;
    tests_failed = bad;
    error = c.error;
  }
  | raised e ↦ record {
    patch_applied = false;
    tests_passed = 0;
    tests_failed = 1;
    error = "apply_patch_fn_failed:" <> e;
  }
]

unfoldable pub note_repair :
    String → RepairLoop × RepairResult → RepairContract → RepairLoop × RepairResult
note_repair id (l, result) contract = (
  record l {
    action_history =
        l.action_history
        ++ repair_step id contract.contract_id contract.attempt_number result.success
            contract.hypothesis
          ∷ [];
  },
  result,
)

unfoldable pub conclude :
    RepairLoop → String → FailureReport → RepairContract → Applied → RepairLoop × RepairResult
conclude l id failure contract a =
    let success = a.patch_applied && a.tests_failed == 0 in
    note_repair id
      (close_attempt l id failure
        (record contract { status = if a.patch_applied then resolved else failed; error = a.error })
        (if success then 0 else suc failure.retry_count)
        (record {
          contract_id = contract.contract_id;
          success = success;
          status = if success then resolved else failed;
          attempt_number = contract.attempt_number;
          hypothesis = some contract.hypothesis;
          patch_applied = a.patch_applied;
          tests_passed = a.tests_passed;
          tests_failed = a.tests_failed;
          error = "";
          escalation_reason = "";
        }))
      contract

abbrev pub applying_contract : RepairContract → RepairContract
applying_contract c = record c { status = RepairStatus.applying }

unfoldable pub apply_contract :
    RepairLoop
    → String
    → FailureReport
    → Option ApplyFn
    → RepairContract
    → RepairLoop × RepairResult
apply_contract l id failure apply c =
    conclude l id failure (applying_contract c) (run_apply apply (applying_contract c))

unfoldable pub reviewed :
    RepairLoop
    → String
    → FailureReport
    → Option ApplyFn
    → RepairContract
    → Bool × String
    → RepairLoop × RepairResult
reviewed l id failure apply c (false, reason) = reject_contract l id failure c reason
reviewed l id failure apply c (true, reason) =
    apply_contract l id failure apply
      (record c { reviewer = "independent_reviewer"; review_notes = reason })

-- An attempt from the review on.
unfoldable pub decide :
    RepairLoop
    → String
    → FailureReport
    → Option ApplyFn
    → RepairContract
    → RepairLoop × RepairResult
decide l id failure apply c =
    if l.enable_independent_review
    then reviewed l id failure apply c (review c)
    else apply_contract l id failure apply c

unfoldable pub attempt_found :
    RepairLoop → String → String → Option ApplyFn → FailureReport → RepairLoop × RepairResult
attempt_found l id contract_id apply failure =
    if leb 3 failure.retry_count
    then (
      l,
      escalation failure.retry_count "max_attempts_exceeded"
          "Failed 3 repair attempts — human intervention required",
    )
    else let (l', rca) = analyze_found l id failure in
      decide l' id failure apply (generate contract_id rca failure (get_contracts l id))

unfoldable pub attempt_repair :
    RepairLoop → String → String → Option ApplyFn → RepairLoop × RepairResult
attempt_repair l id contract_id apply = elim (get l.failures id) [
  | none ↦ (l, not_found id)
  | some failure ↦ attempt_found l id contract_id apply failure
]

-- `for _ in range(n)`, with the contract id of each turn.
unfoldable pub repair_turns :
    ℕ → RepairLoop → String → (ℕ → String) → Option ApplyFn → RepairLoop × RepairResult
repair_turns zero l id ids apply = (
  l,
  escalation 3 "all_attempts_exhausted" "All 3 repair attempts failed — human escalation required",
)
repair_turns (suc n) l id ids apply =
    let (l', result) = attempt_repair l id (ids n) apply in
    let rest = repair_turns n l' id ids apply in
    if result.success
    then (l', result)
    else if result.status == escalated
    then (l', result)
    else rest

-- It detects the failure at the default severity.
unfoldable pub repair :
    RepairLoop → String → (ℕ → String) → Incident → Option ApplyFn → RepairLoop × RepairResult
repair l id ids i apply =
    repair_turns 3 (detect_failure l id (record i { severity = r2 })) id ids apply

abbrev pub count_where : (RepairResult → Bool) → List RepairResult → ℕ
count_where p [] = 0
count_where p (r ∷ rs) = (if p r then 1 else 0) + count_where p rs

abbrev total_length : List (List RepairContract) → ℕ
total_length [] = 0
total_length (cs ∷ css) = length cs + total_length css

pub record RepairStats : Type 0 where
  pub total_failures : ℕ
  pub resolved_count : ℕ
  pub escalated_count : ℕ
  pub resolution_rate : ℕ × ℕ
  pub active_contracts : ℕ

-- The rate as a fraction.
unfoldable pub stats : RepairLoop → RepairStats
stats l =
    let total = length l.failures in
    let good = count_where (λ r. r.success) l.results in
    record {
      total_failures = total;
      resolved_count = good;
      escalated_count = count_where (λ r. r.status == escalated) l.results;
      resolution_rate = (good, max total 1);
      active_contracts = total_length (values l.contracts);
    }
