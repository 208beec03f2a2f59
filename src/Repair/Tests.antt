-- ===== src/Repair/Tests.antt =====
-- Runs of the repair loop, and the theorems at them.
use nexara_prime.Base.{
  ℕ, zero, suc, ◌+◌, ◌≤◌, String, ◌≡◌, refl, ◌≢◌, ◌↔◌, ◌⊎◌, true, false, none, some, List, [], ◌∷◌,
  ◌++◌, map, arith, if◌then◌else◌, ◌==◌, string_eq, nat_eq, length,
}
use nexara_prime.Base.Dict.{get, put}
use nexara_prime.Base.Text.{is_blank}
use nexara_prime.Repair.{
  r3, syntax_error, pending, next_variant, base_hypothesis, patch_of, test_plan_of, named_files,
  unique_names, confidence_of, FailureReport, RepairContract, r2, resolved, escalated,
  same_hypothesis, has_hypothesis, analyze, generate, review, review_issues, needs_rollback,
  FailureType, repair_status_eq, RepairStatus-discrete,
}
use nexara_prime.Repair.Hypotheses.{distinct}
use nexara_prime.Repair.Ends.{attempt_repair-contract, repair_ends}
use nexara_prime.Repair.History.{starts, detects, attempts, contracts-distinct}
use nexara_prime.Repair.Review.{review_iff}
use nexara_prime.Repair.Incidents.{
  answered, raised, RepairLoop, Incident, ApplyFn, report, get_contracts, detect_failure,
  analyze_found, new_repair_loop,
}
use nexara_prime.Repair.Attempt.{
  not_found, escalation, close_attempt, reject_contract, note_repair, conclude, apply_contract,
  reviewed, decide, attempt_found, attempt_repair, run_apply, repair_turns, repair,
}

abbrev classify : String → String → FailureType
classify message traceback = syntax_error

abbrev find_files : String → List String
find_files traceback = "a.py" ∷ "b.py" ∷ "a.py" ∷ []

abbrev incident : Incident
incident = record {
  mission_id = "m";
  error_message = "SyntaxError";
  traceback = "File";
  has_context = true;
  severity = r3;
  component = "";
}

abbrev ids : ℕ → String
ids zero = "c3"
ids (suc zero) = "c2"
ids (suc (suc n)) = "c1"

abbrev fresh : RepairLoop
fresh = record {
  classify = classify;
  find_files = find_files;
  enable_independent_review = true;
  failures = [];
  analyses = [];
  contracts = [];
  results = [];
  action_history = [];
}

-- A patch function that succeeds at the second attempt.
abbrev second_try : ApplyFn
second_try c = if c.attempt_number == 2 then answered true 5 0 else raised "no"

abbrev failing : ApplyFn
failing c = answered true 1 2

simulated : (repair fresh "f" ids incident none).1.success ≡ true
unfolding repair repair_turns detect_failure report attempt_repair attempt_found analyze_found
    analyze decide reviewed apply_contract run_apply conclude reject_contract close_attempt
    note_repair escalation not_found get_contracts generate next_variant has_hypothesis
    same_hypothesis base_hypothesis patch_of test_plan_of named_files unique_names confidence_of
    review review_issues needs_rollback is_blank get put string_eq nat_eq RepairStatus-discrete
simulated = refl

second : (repair fresh "f" ids incident (some second_try)).1.attempt_number ≡ 2
unfolding repair repair_turns detect_failure report attempt_repair attempt_found analyze_found
    analyze decide reviewed apply_contract run_apply conclude reject_contract close_attempt
    note_repair escalation not_found get_contracts generate next_variant has_hypothesis
    same_hypothesis base_hypothesis patch_of test_plan_of named_files unique_names confidence_of
    review review_issues needs_rollback is_blank get put string_eq nat_eq RepairStatus-discrete
second = refl

exhausted : (repair fresh "f" ids incident (some failing)).1.error ≡ "all_attempts_exhausted"
unfolding repair repair_turns detect_failure report attempt_repair attempt_found analyze_found
    analyze decide reviewed apply_contract run_apply conclude reject_contract close_attempt
    note_repair escalation not_found get_contracts generate next_variant has_hypothesis
    same_hypothesis base_hypothesis patch_of test_plan_of named_files unique_names confidence_of
    review review_issues needs_rollback is_blank get put string_eq nat_eq RepairStatus-discrete
exhausted = refl

variants :
    map
      (λ c. c.hypothesis.variant)
      (get_contracts (repair fresh "f" ids incident (some failing)).0 "f")
    ≡ 0 ∷ 1 ∷ 2 ∷ []
unfolding repair repair_turns detect_failure report attempt_repair attempt_found analyze_found
    analyze decide reviewed apply_contract run_apply conclude reject_contract close_attempt
    note_repair escalation not_found get_contracts generate next_variant has_hypothesis
    same_hypothesis base_hypothesis patch_of test_plan_of named_files unique_names confidence_of
    review review_issues needs_rollback is_blank get put string_eq nat_eq RepairStatus-discrete
variants = refl

blanks : is_blank " \n" ≡ true
unfolding is_blank nat_eq
blanks = refl

repair_ends_example :
    ((((repair fresh "f" ids incident (some failing)).1.success ≡ true)
        × ((repair fresh "f" ids incident (some failing)).1.status ≡ resolved))
      ⊎ (((repair fresh "f" ids incident (some failing)).1.success ≡ false)
          × ((repair fresh "f" ids incident (some failing)).1.status ≡ escalated)))
    × (length (get_contracts (repair fresh "f" ids incident (some failing)).0 "f")
        ≤ length (get_contracts fresh "f") + 3)
repair_ends_example = repair_ends fresh "f" ids incident (some failing)

abbrev failure : FailureReport
failure = record {
  failure_id = "f";
  mission_id = "m";
  failure_type = syntax_error;
  message = "SyntaxError";
  traceback = "File";
  has_context = true;
  severity = r3;
  component = "";
  retry_count = 0;
}

abbrev known : RepairLoop
known = record fresh { failures = ("f", failure) ∷ [] }

attempt_repair-contract_example :
    (c : RepairContract) × (get_contracts (attempt_repair known "f" "c1" (some failing)).0 "f"
      ≡ get_contracts known "f" ++ c ∷ [])
    × (has_hypothesis (get_contracts known "f") c.hypothesis ≡ false)
    × (c.attempt_number ≡ suc (length (get_contracts known "f")))
    × ((j : String)
        → "f" ≢ j
        → get_contracts (attempt_repair known "f" "c1" (some failing)).0 j ≡ get_contracts known j)
    × (get (attempt_repair known "f" "c1" (some failing)).0.failures "f"
        ≡ some (record failure {
          retry_count =
              if (attempt_repair known "f" "c1" (some failing)).1.success
              then 0
              else suc failure.retry_count;
        }))
unfolding get string_eq
attempt_repair-contract_example =
    attempt_repair-contract known "f" "c1" (some failing) failure refl (omega arith)

abbrev started : RepairLoop
started = new_repair_loop classify find_files true

abbrev attempted : RepairLoop
attempted = (attempt_repair (detect_failure started "f" incident) "f" "c1" (some failing)).0

contracts-distinct_example : distinct (get_contracts attempted "f") ≡ true
contracts-distinct_example =
    contracts-distinct attempted
      (attempts (detect_failure started "f" incident) "f" "c1" (some failing)
        (detects started "f" incident (starts classify find_files true)))
      "f"

abbrev contract : RepairContract
contract = record {
  contract_id = "c";
  failure_id = "f";
  hypothesis = record { base = "h"; variant = 0 };
  proposed_patch = "p";
  affected_files = "a.py" ∷ [];
  test_plan = "t" ∷ [];
  rollback_plan = [];
  risk_level = r2;
  attempt_number = 1;
  status = pending;
  reviewer = "";
  review_notes = "";
  error = "";
}

review_iff_example : ((review contract).0 ≡ true) ↔ (
    (contract.affected_files ≢ [])
    × (contract.test_plan ≢ [])
    × ((needs_rollback contract.risk_level ≡ false) ⊎ (contract.rollback_plan ≢ []))
    × (is_blank contract.proposed_patch ≡ false)
    × (contract.attempt_number ≤ 3))
review_iff_example = review_iff contract

abbrev untraced_incident : Incident
untraced_incident = record incident { traceback = "" }
