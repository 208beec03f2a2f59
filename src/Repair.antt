-- ===== src/Repair.antt =====
-- src/nexara_prime/repair_loop.py: the records of a repair, the analysis of a failure, the contract
-- that is proposed for it and its review. The regular expression that finds file names in a
-- traceback is an argument; confidences are in hundredths. Time stamps, and the digest of a
-- contract, which nothing reads, are left out.
pub mod Incidents
pub mod Attempt
pub mod Hypotheses
pub mod Outcome
pub mod Ends
pub mod History
pub mod Review
pub mod Untraced
pub mod Tests
use nexara_prime.Base.{
  ℕ, zero, suc, ◌+◌, ◌-◌, ◌*◌, ◌/◌, ◌%◌, ◌≤◌, ◌<◌, min, max, String, ◌<>◌, ◌≡◌, refl, sym, ap, ◌∙◌,
  ◌≢◌, ◌↔◌, ◌⊎◌, inl, inr, Bool, true, false, not, ◌&&◌, ◌||◌, Option, none, some, List, [], ◌∷◌,
  ◌++◌, map, arith, ltb, leb, if◌then◌else◌, Bool-cases, Option-cases, Eq, ◌==◌, eq_iff, contains,
  ==-refl, string_eq, nat_eq, length, get_elem?, length-append, all, all-get_elem?, any, All,
  All-append, is_some, or_else,
}
use nexara_prime.Base.Text.{join, is_blank}

pub data FailureType : Type 0 where
  syntax_error runtime_error assertion_failure timeout resource_exhaustion import_error type_error
        attribute_error connection_error permission_error contract_violation unknown :
      FailureType

pub data RepairStatus : Type 0 where
  pending diagnosing contracted patching reviewing applying verifying resolved failed rolled_back
        escalated :
      RepairStatus

pub data RiskLevel : Type 0 where
  r0 r1 r2 r3 r4 : RiskLevel

unfoldable pub RepairStatus-discrete : Discrete RepairStatus
RepairStatus-discrete = hlevel

instance abbrev pub repair_status_eq : Eq RepairStatus
repair_status_eq = record { dec = RepairStatus-discrete }

-- Of the context only whether it is empty is read.
pub record FailureReport : Type 0 where
  pub failure_id : String
  pub mission_id : String
  pub failure_type : FailureType
  pub message : String
  pub traceback : String
  pub has_context : Bool
  pub severity : RiskLevel
  pub component : String
  pub retry_count : ℕ

-- A hypothesis by its parts: variant 0 is the base itself, and variant n the text
-- f"{base} (attempt variant {n})".
pub record Hypothesis : Type 0 where
  pub base : String
  pub variant : ℕ

unfoldable pub same_hypothesis : Hypothesis → Hypothesis → Bool
same_hypothesis g h = g.base == h.base && g.variant == h.variant

pub data RcaEvidence : Type 0 where
  traceback_available context_available : RcaEvidence
  previous_attempts : ℕ → RcaEvidence

pub record RootCauseAnalysis : Type 0 where
  pub failure_id : String
  pub hypothesis : String
  pub confidence : ℕ
  pub evidence : List RcaEvidence
  pub affected_files : List String
  pub risk_impact : RiskLevel

pub record RepairContract : Type 0 where
  pub contract_id : String
  pub failure_id : String
  pub hypothesis : Hypothesis
  pub proposed_patch : String
  pub affected_files : List String
  pub test_plan : List String
  pub rollback_plan : List String
  pub risk_level : RiskLevel
  pub attempt_number : ℕ
  pub status : RepairStatus
  pub reviewer : String
  pub review_notes : String
  pub error : String

pub record RepairResult : Type 0 where
  pub contract_id : String
  pub success : Bool
  pub status : RepairStatus
  pub attempt_number : ℕ
  pub hypothesis : Option Hypothesis
  pub patch_applied : Bool
  pub tests_passed : ℕ
  pub tests_failed : ℕ
  pub error : String
  pub escalation_reason : String

abbrev pub failure_type_value : FailureType → String
failure_type_value syntax_error = "syntax_error"
failure_type_value runtime_error = "runtime_error"
failure_type_value assertion_failure = "assertion_failure"
failure_type_value timeout = "timeout"
failure_type_value resource_exhaustion = "resource_exhaustion"
failure_type_value import_error = "import_error"
failure_type_value type_error = "type_error"
failure_type_value attribute_error = "attribute_error"
failure_type_value connection_error = "connection_error"
failure_type_value permission_error = "permission_error"
failure_type_value contract_violation = "contract_violation"
failure_type_value unknown = "unknown"

abbrev pub type_hypothesis : FailureType → String
type_hypothesis syntax_error = "Code contains syntax error in affected file"
type_hypothesis import_error = "Missing or incorrect module import"
type_hypothesis type_error = "Type mismatch in function arguments or return values"
type_hypothesis attribute_error = "Referenced attribute or method does not exist on object"
type_hypothesis assertion_failure = "Test assertion failed — expected behavior not met"
type_hypothesis timeout = "Operation exceeded time limit — possible infinite loop or network delay"
type_hypothesis resource_exhaustion = "System resource limit reached"
type_hypothesis connection_error = "External service unreachable or network failure"
type_hypothesis permission_error = "Insufficient permissions for the requested operation"
type_hypothesis contract_violation = "Governance or integrity contract was violated"
type_hypothesis runtime_error = "Unexpected runtime exception occurred"
type_hypothesis unknown = "Undiagnosed failure — further investigation needed"

-- `list(dict.fromkeys(names))`: the first of equal names stays.
unfoldable pub unique_names : List String → List String → List String
unique_names seen [] = []
unique_names seen (x ∷ xs) =
    let rest = unique_names (x ∷ seen) xs in if contains seen x then rest else x ∷ rest

-- 0.5, and 0.15 with a traceback, and 0.1 with a context, less 0.1 for each previous contract, kept
-- between 0.1 and 0.95. Where the subtraction stops at 0 the bound of 0.1 holds all the same.
unfoldable pub confidence_of : Bool → Bool → ℕ → ℕ
confidence_of traced contextual attempts =
    max 10
      (min 95 ((50 + (if traced then 15 else 0) + (if contextual then 10 else 0)) - 10 * attempts))

unfoldable pub analyze :
    (String → List String) → FailureReport → List RepairContract → RootCauseAnalysis
analyze find_files failure history =
    let traced = not (failure.traceback == "") in
    let attempts = length history in
    record {
      failure_id = failure.failure_id;
      hypothesis = type_hypothesis failure.failure_type;
      confidence = confidence_of traced failure.has_context attempts;
      evidence =
          (if traced then traceback_available ∷ [] else [])
          ++ (if failure.has_context then context_available ∷ [] else [])
          ++ (if ltb 0 attempts then previous_attempts attempts ∷ [] else []);
      affected_files = if traced then unique_names [] (find_files failure.traceback) else [];
      risk_impact = failure.severity;
    }

abbrev take_names : ℕ → List String → List String
take_names zero xs = []
take_names (suc n) [] = []
take_names (suc n) (x ∷ xs) = x ∷ take_names n xs

-- `', '.join(names) or 'affected file'`
unfoldable pub named_files : List String → String
named_files names = let text = join ", " names in if text == "" then "affected file" else text

unfoldable pub base_hypothesis : RootCauseAnalysis → FailureType → String
base_hypothesis rca syntax_error =
    "Fix syntax error in " <> named_files (take_names 3 rca.affected_files)
base_hypothesis rca import_error = "Add missing import or fix import path"
base_hypothesis rca assertion_failure =
    "Correct implementation logic to match expected behavior — DO NOT weaken test"
base_hypothesis rca timeout = "Add timeout guard or optimize performance"
base_hypothesis rca t = rca.hypothesis

unfoldable pub patch_of : RootCauseAnalysis → FailureType → String
patch_of rca syntax_error =
    "# Patch: correct syntax error\n# Affected: " <> join ", " rca.affected_files
patch_of rca import_error = "# Patch: resolve import error"
patch_of rca assertion_failure = "# Patch: fix implementation to pass assertion"
patch_of rca timeout = "# Patch: add timeout or optimize"
patch_of rca t = "# Patch: address " <> failure_type_value t

unfoldable pub test_plan_of : FailureType → List String
test_plan_of syntax_error = "Run syntax check (py_compile)" ∷ "Run affected test suite" ∷ []
test_plan_of import_error = "Verify imports resolve" ∷ "Run full test suite" ∷ []
test_plan_of assertion_failure =
    "Run the failing test" ∷ "Run full test suite" ∷ "Verify no test weakening" ∷ []
test_plan_of timeout = "Run with reduced timeout" ∷ "Verify operation completes within limit" ∷ []
test_plan_of t = "Run affected tests" ∷ "Run full test suite" ∷ []

unfoldable pub has_hypothesis : List RepairContract → Hypothesis → Bool
has_hypothesis [] h = false
has_hypothesis (c ∷ cs) h = same_hypothesis c.hypothesis h || has_hypothesis cs h

-- `while hypothesis in previous_hypotheses`, with the number of turns it may take.
unfoldable pub next_variant : ℕ → List RepairContract → Hypothesis → Hypothesis
next_variant zero previous h = h
next_variant (suc fuel) previous h =
    let next = next_variant fuel previous (record h { variant = suc h.variant }) in
    if has_hypothesis previous h then next else h

unfoldable pub generate :
    String → RootCauseAnalysis → FailureReport → List RepairContract → RepairContract
generate contract_id rca failure previous = record {
  contract_id = contract_id;
  failure_id = failure.failure_id;
  hypothesis =
      next_variant (suc (length previous)) previous
        (record { base = base_hypothesis rca failure.failure_type; variant = 0 });
  proposed_patch = patch_of rca failure.failure_type;
  affected_files = rca.affected_files;
  test_plan = test_plan_of failure.failure_type;
  rollback_plan = "Revert patch via git checkout" ∷ "Restore previous state" ∷ [];
  risk_level = rca.risk_impact;
  attempt_number = suc (length previous);
  status = pending;
  reviewer = "";
  review_notes = "";
  error = "";
}

abbrev pub none_of : List String → Bool
none_of [] = true
none_of (x ∷ xs) = false

unfoldable pub needs_rollback : RiskLevel → Bool
needs_rollback r0 = false
needs_rollback r1 = false
needs_rollback r2 = true
needs_rollback r3 = true
needs_rollback r4 = true

unfoldable pub review_issues : RepairContract → List String
review_issues c =
    (if none_of c.affected_files then "no_affected_files_identified" ∷ [] else [])
    ++ (if none_of c.test_plan then "no_test_plan" ∷ [] else [])
    ++ (if needs_rollback c.risk_level && none_of c.rollback_plan
        then "no_rollback_plan_for_risk_level" ∷ []
        else [])
    ++ (if is_blank c.proposed_patch then "empty_patch" ∷ [] else [])
    ++ (if ltb 3 c.attempt_number
        then "max_attempts_exceeded_requires_human_escalation" ∷ []
        else [])

abbrev pub verdict : List String → Bool × String
verdict [] = (true, "Review passed — patch is safe to apply")
verdict (i ∷ is) = (false, join "; " (i ∷ is))

unfoldable pub review : RepairContract → Bool × String
review c = verdict (review_issues c)
