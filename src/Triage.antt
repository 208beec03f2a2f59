-- ===== src/Triage.antt =====
-- src/nexara_prime/mission_triage.py: `MissionTriageEngine.triage`. Scores and the uncertainty of a
-- request are numbers in ten-thousandths, weights are scaled to whole numbers, and the rounding of a
-- quotient to the nearest number, which Python does on floats, is a parameter. Whether the name of a
-- tool has "search" or "read" in it is a parameter too. The texts that only report are left out.
pub mod Modes
pub mod Tests
use nexara_prime.Base.{
  ℕ, zero, suc, ◌+◌, ◌-◌, ◌*◌, ◌/◌, ◌%◌, ◌≤◌, ◌<◌, min, max, String, ◌<>◌, ◌≡◌, refl, sym, ap, ◌∙◌,
  ◌≢◌, ◌↔◌, ◌⊎◌, inl, inr, Bool, true, false, not, ◌&&◌, ◌||◌, Option, none, some, List, [], ◌∷◌,
  ◌++◌, map, arith, ltb, leb, if◌then◌else◌, Bool-cases, Option-cases, Eq, ◌==◌, eq_iff, contains,
  ==-refl, string_eq, nat_eq, length, get_elem?, length-append, all, all-get_elem?, any, All,
  All-append, In, any-append, is_some, or_else,
}
use nexara_prime.Adaptive.{AdaptiveMode, s0, s1, s2, s3}

pub record Request : Type 0 where
  pub tool_requirements : List String
  pub data_sensitivity : String
  pub external_side_effects : Bool
  pub reversibility : Bool
  pub uncertainty : ℕ
  pub expected_duration : ℕ
  pub expected_token_cost : ℕ
  pub required_evidence_level : String

pub record TriageResult : Type 0 where
  pub data_sensitivity : String
  pub expected_duration_ms : ℕ
  pub required_evidence_level : String
  pub complexity_score : ℕ
  pub risk_score : ℕ
  pub uncertainty_score : ℕ
  pub recommended_mode : AdaptiveMode
  pub escalation_conditions : List String
  pub required_roles : List String
  pub required_model_tier : String
  pub required_governance_level : String
  pub required_evidence_tier : String
  pub expected_cost : ℕ

-- 0.15 times the weight of a sensitivity, in hundred-thousandths
unfoldable pub sensitivity_points : String → ℕ
sensitivity_points s =
    if s == "none"
    then 0
    else if s == "medium"
    then 7500
    else if s == "high"
    then 12000
    else if s == "critical"
    then 15000
    else 3000

-- The weighted sum over the sum of the weights, 0.45, both times 30,000,000
unfoldable pub complexity_points : Request → ℕ
complexity_points r =
    450000 * min 10 (length r.tool_requirements)
    + 450 * min 10000 r.uncertainty
    + 5 * min 600000 r.expected_duration
    + 3 * min 500000 r.expected_token_cost

-- The least of 1 and the quotient, in ten-thousandths
abbrev pub capped : (ℕ → ℕ → ℕ) → ℕ → ℕ → ℕ
capped rounded n d = rounded (10000 * min d n) d

unfoldable pub compute_complexity : (ℕ → ℕ → ℕ) → Request → ℕ
compute_complexity rounded r = capped rounded (complexity_points r) 13500000

abbrev pub points : Bool → ℕ → ℕ
points b n = if b then n else 0

-- In hundred-thousandths; the sum of the weights is 0.6.
unfoldable pub compute_risk : (ℕ → ℕ → ℕ) → Request → ℕ → ℕ
compute_risk rounded r complexity =
    capped rounded
      (points r.external_side_effects 25000
        + points (not r.reversibility) 7000
        + sensitivity_points r.data_sensitivity
        + complexity)
      60000

unfoldable pub compute_uncertainty : Request → ℕ
compute_uncertainty r = min 10000 r.uncertainty

abbrev pub Recommendation : Type 0
Recommendation = AdaptiveMode × List String

unfoldable pub mode_by_scores : ℕ → ℕ → ℕ → Bool → Bool → Recommendation
mode_by_scores complexity risk uncertainty external reversible =
    if external && (not reversible && leb 6000 risk)
    then (s3, "Irreversible external side effects detected" ∷ [])
    else if leb 6500 risk || leb 6500 complexity
    then (s3, "High risk or complexity threshold exceeded" ∷ [])
    else if leb 4500 risk || (leb 4500 complexity || leb 5000 uncertainty)
    then (
      s2,
      if leb 5000 uncertainty then "High uncertainty requires monitored execution" ∷ [] else [],
    )
    else if leb 2500 complexity || (leb 2000 risk || leb 2000 uncertainty)
    then (s1, [])
    else (s0, [])

unfoldable pub override_external : Bool → Recommendation → Recommendation
override_external false m = m
override_external true (s3, reasons) = (s3, reasons)
override_external true (s0, reasons) =
    (s3, reasons ++ "External side effects override — escalated to S3" ∷ [])
override_external true (s1, reasons) =
    (s3, reasons ++ "External side effects override — escalated to S3" ∷ [])
override_external true (s2, reasons) =
    (s3, reasons ++ "External side effects override — escalated to S3" ∷ [])

unfoldable pub override_irreversible : Bool → Recommendation → Recommendation
override_irreversible true m = m
override_irreversible false (s0, reasons) =
    (s2, reasons ++ "Irreversible operation requires at least S2" ∷ [])
override_irreversible false (s1, reasons) =
    (s2, reasons ++ "Irreversible operation requires at least S2" ∷ [])
override_irreversible false (s2, reasons) = (s2, reasons)
override_irreversible false (s3, reasons) = (s3, reasons)

unfoldable pub recommend_mode : ℕ → ℕ → ℕ → Bool → Bool → Recommendation
recommend_mode complexity risk uncertainty external reversible =
    override_irreversible reversible
      (override_external external (mode_by_scores complexity risk uncertainty external reversible))

-- The roles of a mode; no role is named twice.
unfoldable pub derive_roles : (String → Bool) → AdaptiveMode → List String → List String
derive_roles researches s0 tools = "Orchestrator" ∷ "Executor" ∷ []
derive_roles researches s1 tools =
    ("Orchestrator" ∷ "Planner" ∷ "Executor" ∷ "Reviewer" ∷ [])
    ++ (if any researches tools then "Researcher" ∷ [] else [])
derive_roles researches s2 tools =
    ("Orchestrator" ∷ "Planner" ∷ "Executor" ∷ "Reviewer" ∷ "Auditor" ∷ [])
    ++ (if any researches tools then "Researcher" ∷ [] else [])
derive_roles researches s3 tools =
    ("Orchestrator" ∷ "Planner" ∷ "Executor" ∷ "Reviewer" ∷ "Auditor" ∷ "Archivist" ∷ "Analyst"
      ∷ [])
    ++ (if any researches tools then "Researcher" ∷ [] else [])

unfoldable pub derive_model_tier : ℕ → ℕ → String
derive_model_tier complexity risk = if leb 4000 complexity || leb 4000 risk then "pro" else "flash"

unfoldable pub derive_governance : ℕ → String → String
derive_governance risk sensitivity =
    if leb 6000 risk || (sensitivity == "critical" || sensitivity == "high")
    then "strict"
    else if leb 3000 risk || sensitivity == "medium"
    then "standard"
    else "relaxed"

abbrev pub is_s2 : AdaptiveMode → Bool
is_s2 s2 = true
is_s2 s0 = false
is_s2 s1 = false
is_s2 s3 = false

abbrev pub is_s3 : AdaptiveMode → Bool
is_s3 s3 = true
is_s3 s0 = false
is_s3 s1 = false
is_s3 s2 = false

abbrev pub is_s1 : AdaptiveMode → Bool
is_s1 s1 = true
is_s1 s0 = false
is_s1 s2 = false
is_s1 s3 = false

unfoldable pub derive_evidence_tier : AdaptiveMode → ℕ → String
derive_evidence_tier mode risk =
    if is_s3 mode || leb 5000 risk
    then "exhaustive"
    else if is_s2 mode || leb 3000 risk
    then "thorough"
    else if is_s1 mode
    then "standard"
    else "minimal"

-- In tenths
abbrev pub mode_multiplier : AdaptiveMode → ℕ
mode_multiplier s0 = 10
mode_multiplier s1 = 15
mode_multiplier s2 = 25
mode_multiplier s3 = 40

-- In millionths: the overhead of a tool is a twentieth.
unfoldable pub estimate_cost : (ℕ → ℕ → ℕ) → ℕ → AdaptiveMode → List String → ℕ
estimate_cost rounded tokens mode tools =
    rounded (tokens * mode_multiplier mode * (20 + length tools)) 200

unfoldable pub triage : (ℕ → ℕ → ℕ) → (String → Bool) → Request → TriageResult
triage rounded researches r =
    let complexity = compute_complexity rounded r in
    let risk = compute_risk rounded r complexity in
    let uncertainty = compute_uncertainty r in
    let recommended =
      recommend_mode complexity risk uncertainty r.external_side_effects r.reversibility in
    record {
      data_sensitivity = r.data_sensitivity;
      expected_duration_ms = r.expected_duration;
      required_evidence_level = r.required_evidence_level;
      complexity_score = complexity;
      risk_score = risk;
      uncertainty_score = uncertainty;
      recommended_mode = recommended.0;
      escalation_conditions = recommended.1;
      required_roles = derive_roles researches recommended.0 r.tool_requirements;
      required_model_tier = derive_model_tier complexity risk;
      required_governance_level = derive_governance risk r.data_sensitivity;
      required_evidence_tier = derive_evidence_tier recommended.0 risk;
      expected_cost = estimate_cost rounded r.expected_token_cost recommended.0 r.tool_requirements;
    }
