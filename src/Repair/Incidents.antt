-- ===== src/Repair/Incidents.antt =====
-- src/nexara_prime/repair_loop.py: the state of `RepairLoop`, failures and their analysis. A new id is
-- an argument of the operation that makes it.
use nexara_prime.Base.{ℕ, String, Bool, Option, none, some, List, [], ◌∷◌, ◌++◌, string_eq, nat_eq}
use nexara_prime.Base.Dict.{Dict, get, put}
use nexara_prime.Repair.{
  FailureType, RiskLevel, FailureReport, Hypothesis, RootCauseAnalysis, RepairContract,
  RepairResult, analyze, repair_status_eq,
}

pub data Action : Type 0 where
  detect : String → FailureType → String → Action
  diagnose : String → String → ℕ → Action
  repair_step : String → String → ℕ → Bool → Hypothesis → Action

-- `classify` stands for the classifier that is passed in, `find_files` for the regular expression
-- of the analyzer. Analyses and results are kept under new ids, hence in lists.
pub record RepairLoop : Type 0 where
  pub classify : String → String → FailureType
  pub find_files : String → List String
  pub enable_independent_review : Bool
  pub failures : Dict String FailureReport
  pub analyses : List RootCauseAnalysis
  pub contracts : Dict String (List RepairContract)
  pub results : List RepairResult
  pub action_history : List Action

-- `apply_patch_fn`: its answer (success, tests passed, tests failed) or an exception.
pub data ApplyOutcome : Type 0 where
  answered : Bool → ℕ → ℕ → ApplyOutcome
  raised : String → ApplyOutcome

abbrev pub ApplyFn : Type 0
ApplyFn = RepairContract → ApplyOutcome

unfoldable pub new_repair_loop :
    (String → String → FailureType) → (String → List String) → Bool → RepairLoop
new_repair_loop classify find_files reviewed = record {
  classify = classify;
  find_files = find_files;
  enable_independent_review = reviewed;
  failures = [];
  analyses = [];
  contracts = [];
  results = [];
  action_history = [];
}

unfoldable pub get_contracts : RepairLoop → String → List RepairContract
get_contracts l id = elim (get l.contracts id) [ none ↦ [] | some cs ↦ cs ]

-- What a caller says of a failure.
pub record Incident : Type 0 where
  pub mission_id : String
  pub error_message : String
  pub traceback : String
  pub has_context : Bool
  pub severity : RiskLevel
  pub component : String

unfoldable pub report : RepairLoop → String → Incident → FailureReport
report l id i = record {
  failure_id = id;
  mission_id = i.mission_id;
  failure_type = l.classify i.error_message i.traceback;
  message = i.error_message;
  traceback = i.traceback;
  has_context = i.has_context;
  severity = i.severity;
  component = i.component;
  retry_count = 0;
}

unfoldable pub detect_failure : RepairLoop → String → Incident → RepairLoop
detect_failure l id i = record l {
  failures = put l.failures id (report l id i);
  action_history =
      l.action_history ++ detect id (l.classify i.error_message i.traceback) i.mission_id ∷ [];
}

unfoldable pub analyze_found : RepairLoop → String → FailureReport → RepairLoop × RootCauseAnalysis
analyze_found l id failure =
    let rca = analyze l.find_files failure (get_contracts l id) in
    (
      record l {
        analyses = l.analyses ++ rca ∷ [];
        action_history = l.action_history ++ diagnose id rca.hypothesis rca.confidence ∷ [];
      },
      rca,
    )

-- `none` for the KeyError.
unfoldable pub analyze_root_cause : RepairLoop → String → Option (RepairLoop × RootCauseAnalysis)
analyze_root_cause l id = elim (get l.failures id) [
  | none ↦ none
  | some failure ↦ some (analyze_found l id failure)
]
