-- ===== src/Triage/Tests.antt =====
-- Triage at two requests, with quotients rounded to the nearest number, half up.
use native.Mathlib.Nat.{le-div_iff_mul-le, mul-div-le, mul_comm}
use nexara_prime.Base.{
  ℕ, zero, suc, ◌+◌, ◌*◌, ◌/◌, ◌≤◌, String, ◌≡◌, refl, Bool, true, false, [], ◌∷◌, arith, ◌==◌,
  string_eq, nat_eq,
}
use nexara_prime.Adaptive.{s0}
use nexara_prime.Adaptive.Escalation.{mode_rank}
use nexara_prime.Triage.{
  Request, sensitivity_points, triage, complexity_points, compute_complexity, compute_risk,
  compute_uncertainty, recommend_mode, mode_by_scores, override_external, override_irreversible,
}
use nexara_prime.Triage.Modes.{Rounding, Demands, triage_mono}

abbrev nearest : ℕ → ℕ → ℕ
nearest n zero = 0
nearest n (suc d) = (2 * n + suc d) / (2 * suc d)

nearest-Rounding : Rounding nearest
nearest-Rounding n m zero h = omega arith
nearest-Rounding n m (suc d) h =
    let below : nearest n (suc d) * (2 * suc d) ≤ 2 * m + suc d =
      omega
        (arith, mul-div-le (2 * n + suc d) (2 * suc d), mul_comm (nearest n (suc d)) (2 * suc d)) in
    (le-div_iff_mul-le {k = 2 * suc d} {x = nearest n (suc d)} {y = 2 * m + suc d} (omega arith)).1
      below

abbrev is_search : String → Bool
is_search t = t == "web_search"

abbrev note : Request
note = record {
  tool_requirements = "calendar" ∷ [];
  data_sensitivity = "low";
  external_side_effects = false;
  reversibility = true;
  uncertainty = 1000;
  expected_duration = 1000;
  expected_token_cost = 2000;
  required_evidence_level = "minimal";
}

abbrev release : Request
release = record {
  tool_requirements = "web_search" ∷ "shell" ∷ [];
  data_sensitivity = "critical";
  external_side_effects = true;
  reversibility = false;
  uncertainty = 5000;
  expected_duration = 700000;
  expected_token_cost = 2000;
  required_evidence_level = "minimal";
}

note_is_s0 : (triage nearest is_search note).recommended_mode ≡ s0
unfolding triage complexity_points compute_complexity compute_risk compute_uncertainty
    recommend_mode mode_by_scores override_external override_irreversible sensitivity_points
    string_eq
note_is_s0 = refl

demands : Demands note release
unfolding sensitivity_points string_eq
demands = record {
  tools = omega arith;
  doubts = omega arith;
  lasts = omega arith;
  spends = omega arith;
  effects = omega arith;
  undoes = omega arith;
  guards = omega arith;
}

triage_mono_example :
    mode_rank (triage nearest is_search note).recommended_mode
    ≤ mode_rank (triage nearest is_search release).recommended_mode
triage_mono_example = triage_mono nearest is_search note release nearest-Rounding demands
