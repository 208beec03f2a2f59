-- ===== src/Adaptive/Escalation.antt =====
-- src/nexara_prime/escalation.py. Uncertainties, severities, complexities and percentages are numbers
-- in hundredths, multipliers in tenths. Of a decision's record the ids, the texts and the metadata that
-- only report are left out.
use nexara_prime.Base.{
  ℕ, suc, String, Bool, true, false, Option, none, some, List, [], ◌∷◌, ◌++◌, ltb, if◌then◌else◌,
  string_eq, nat_eq,
}
use nexara_prime.Adaptive.{AdaptiveMode, s0, s1, s2, s3}

-- An issue by its trigger, with what that trigger reads of it.
pub data Issue : Type 0 where
  uncertainty_high : ℕ → Issue
  validation_failed policy_requires user_requested external_side_effect_detected
        evidence_insufficient :
      Bool → Issue
  tool_failed : String → Bool → Issue
  disagreement_detected : ℕ → Issue
  other_issue : Issue

pub data Trigger : Type 0 where
  uncertainty_over_threshold validation policy user side_effect evidence_short : Trigger
  tool : String → Trigger
  disagreement : ℕ → Trigger
  task_resolved uncertainty_reduced no_longer_parallel budget_pressure reviewer_confirms_simple :
      Trigger

pub record EscalationDecision : Type 0 where
  pub mission_id : String
  pub from_mode : AdaptiveMode
  pub to_mode : AdaptiveMode
  pub trigger : Trigger
  pub active_triggers : List Trigger
  pub approved : Bool
  pub number : ℕ

pub record Mission : Type 0 where
  pub mission_id : String
  pub adaptive_mode : AdaptiveMode

unfoldable pub fires : ℕ → Issue → Option Trigger
fires uncertainty (uncertainty_high threshold) =
    if ltb threshold uncertainty then some uncertainty_over_threshold else none
fires uncertainty (validation_failed value) = if value then some validation else none
fires uncertainty (tool_failed name value) = if value then some (tool name) else none
fires uncertainty (disagreement_detected count) =
    if ltb 0 count then some (disagreement count) else none
fires uncertainty (policy_requires value) = if value then some policy else none
fires uncertainty (user_requested value) = if value then some user else none
fires uncertainty (external_side_effect_detected value) = if value then some side_effect else none
fires uncertainty (evidence_insufficient value) = if value then some evidence_short else none
fires uncertainty other_issue = none

abbrev add_trigger : Option Trigger → List Trigger → List Trigger
add_trigger none ts = ts
add_trigger (some t) ts = t ∷ ts

unfoldable pub active_triggers_of : ℕ → List Issue → List Trigger
active_triggers_of uncertainty [] = []
active_triggers_of uncertainty (i ∷ is) =
    add_trigger (fires uncertainty i) (active_triggers_of uncertainty is)

unfoldable pub mode_escalation : AdaptiveMode → Option AdaptiveMode
mode_escalation s0 = some s1
mode_escalation s1 = some s2
mode_escalation s2 = some s3
mode_escalation s3 = none

unfoldable pub mode_de_escalation : AdaptiveMode → Option AdaptiveMode
mode_de_escalation s3 = some s2
mode_de_escalation s2 = some s1
mode_de_escalation s1 = some s0
mode_de_escalation s0 = none

-- A decision for the next mode, where there is one and a trigger is active.
unfoldable pub decide_mode :
    ℕ → Mission → Option AdaptiveMode → List Trigger → Option EscalationDecision
decide_mode count mission none triggers = none
decide_mode count mission (some target) [] = none
decide_mode count mission (some target) (t ∷ ts) = some (record {
  mission_id = mission.mission_id;
  from_mode = mission.adaptive_mode;
  to_mode = target;
  trigger = t;
  active_triggers = t ∷ ts;
  approved = true;
  number = suc count;
})

unfoldable pub should_escalate : ℕ → Mission → ℕ → List Issue → Option EscalationDecision
should_escalate count mission uncertainty issues =
    decide_mode count mission (mode_escalation mission.adaptive_mode)
      (active_triggers_of uncertainty issues)

-- What de-escalation reads of the current state; a missing entry is its default.
pub record CurrentState : Type 0 where
  pub resolved : Bool
  pub uncertainty : ℕ
  pub complexity_score : ℕ
  pub budget_remaining_pct : ℕ
  pub confirmed_simple : Bool

unfoldable pub easing_triggers : CurrentState → List Trigger
easing_triggers s =
    (if s.resolved then task_resolved ∷ [] else [])
    ++ (if ltb s.uncertainty 30 then uncertainty_reduced ∷ [] else [])
    ++ (if ltb s.complexity_score 30 then no_longer_parallel ∷ [] else [])
    ++ (if ltb s.budget_remaining_pct 1500 then budget_pressure ∷ [] else [])
    ++ (if s.confirmed_simple then reviewer_confirms_simple ∷ [] else [])

unfoldable pub should_de_escalate : ℕ → Mission → CurrentState → Option EscalationDecision
should_de_escalate count mission s =
    decide_mode count mission (mode_de_escalation mission.adaptive_mode) (easing_triggers s)

abbrev pub mode_rank : AdaptiveMode → ℕ
mode_rank s0 = 0
mode_rank s1 = 1
mode_rank s2 = 2
mode_rank s3 = 3

unfoldable pub is_escalation : AdaptiveMode → AdaptiveMode → Bool
is_escalation from to = ltb (mode_rank from) (mode_rank to)

pub data Role : Type 0 where
  reviewer auditor : Role

-- The budget multiplier and what is required, where the decision changes them.
pub record Execution : Type 0 where
  pub new_mode : AdaptiveMode
  pub added_roles : List Role
  pub removed_roles : List Role
  pub multiplier : Option ℕ
  pub verification_required : Option Bool
  pub approval_required : Option Bool
  pub escalation_number : ℕ

unfoldable pub added : AdaptiveMode → List Role
added s0 = []
added s1 = []
added s2 = reviewer ∷ []
added s3 = reviewer ∷ auditor ∷ []

unfoldable pub removed : AdaptiveMode → List Role
removed s0 = []
removed s1 = []
removed s2 = reviewer ∷ []
removed s3 = auditor ∷ reviewer ∷ []

abbrev top : AdaptiveMode → Bool → Option Bool
top s3 b = some b
top m b = none

unfoldable pub raise_budget : AdaptiveMode → Option ℕ
raise_budget s0 = none
raise_budget s1 = none
raise_budget s2 = some 15
raise_budget s3 = some 15

unfoldable pub cut_budget : AdaptiveMode → Option ℕ
cut_budget s0 = none
cut_budget s1 = none
cut_budget s2 = some 8
cut_budget s3 = some 7

-- The count is the engine's only state.
unfoldable pub execute_escalation : ℕ → EscalationDecision → ℕ × Execution
execute_escalation count d =
    let up = is_escalation d.from_mode d.to_mode in
    (
      suc count,
      record {
        new_mode = d.to_mode;
        added_roles = if up then added d.to_mode else [];
        removed_roles = if up then [] else removed d.from_mode;
        multiplier = if up then raise_budget d.to_mode else cut_budget d.from_mode;
        verification_required = if up then top d.to_mode true else top d.from_mode false;
        approval_required = if up then top d.to_mode true else none;
        escalation_number = suc count;
      },
    )
