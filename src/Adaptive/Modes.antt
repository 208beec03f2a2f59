-- ===== src/Adaptive/Modes.antt =====
-- How decisions move the mode of a mission.
use nexara_prime.Base.{
  ℕ, suc, ◌≤◌, ◌<◌, ◌≡◌, refl, Option, none, some, List, [], ◌∷◌, arith, string_eq, nat_eq,
}
use nexara_prime.Adaptive.{AdaptiveMode, s0, s1, s2, s3}
use nexara_prime.Adaptive.Escalation.{
  Issue, Trigger, EscalationDecision, Mission, CurrentState, active_triggers_of, mode_escalation,
  mode_de_escalation, decide_mode, should_escalate, easing_triggers, should_de_escalate, mode_rank,
  is_escalation, execute_escalation,
}

decide_mode-made :
    (count : ℕ) (m : Mission) (target : Option AdaptiveMode) (ts : List Trigger)
    (d : EscalationDecision)
    → decide_mode count m target ts ≡ some d
    → (target ≡ some d.to_mode) × (d.from_mode ≡ m.adaptive_mode) × (d.active_triggers ≡ ts)
unfolding decide_mode
decide_mode-made count m none ts d made = ground (arith, made)
decide_mode-made count m (some t) [] d made = ground (arith, made)
decide_mode-made count m (some t) (x ∷ xs) d made =
    (ground (arith, made), ground (arith, made), ground (arith, made))

mode_escalation-rank :
    (m n : AdaptiveMode) → mode_escalation m ≡ some n → mode_rank n ≡ suc (mode_rank m)
unfolding mode_escalation
mode_escalation-rank s0 n h = ground (arith, h)
mode_escalation-rank s1 n h = ground (arith, h)
mode_escalation-rank s2 n h = ground (arith, h)
mode_escalation-rank s3 n h = ground (arith, h)

mode_de_escalation-rank :
    (m n : AdaptiveMode) → mode_de_escalation m ≡ some n → suc (mode_rank n) ≡ mode_rank m
unfolding mode_de_escalation
mode_de_escalation-rank s0 n h = ground (arith, h)
mode_de_escalation-rank s1 n h = ground (arith, h)
mode_de_escalation-rank s2 n h = ground (arith, h)
mode_de_escalation-rank s3 n h = ground (arith, h)

execute-up :
    (k : ℕ) (d : EscalationDecision)
    → mode_rank d.from_mode < mode_rank d.to_mode
    → (execute_escalation k d).1.removed_roles ≡ []
unfolding execute_escalation is_escalation
execute-up k d up = ground arith

execute-down :
    (k : ℕ) (d : EscalationDecision)
    → mode_rank d.to_mode ≤ mode_rank d.from_mode
    → (execute_escalation k d).1.added_roles ≡ []
unfolding execute_escalation is_escalation
execute-down k d down = ground arith

-- An escalation moves a mission exactly one mode up, on an active trigger; carried out, it sets that
-- mode and removes no role.
pub should_escalate-next :
    (count k : ℕ) (m : Mission) (uncertainty : ℕ) (issues : List Issue) (d : EscalationDecision)
    → should_escalate count m uncertainty issues ≡ some d
    → (mode_rank d.to_mode ≡ suc (mode_rank m.adaptive_mode))
      × (d.active_triggers ≡ active_triggers_of uncertainty issues)
      × ((execute_escalation k d).1.new_mode ≡ d.to_mode)
      × ((execute_escalation k d).1.removed_roles ≡ [])
unfolding should_escalate execute_escalation
should_escalate-next count k m uncertainty issues d made =
    let (target, from, triggers) =
      decide_mode-made count m (mode_escalation m.adaptive_mode)
        (active_triggers_of uncertainty issues) d made in
    let up = mode_escalation-rank m.adaptive_mode d.to_mode target in
    (up, triggers, refl, execute-up k d (rw from (omega (arith, up))))

-- A de-escalation moves a mission exactly one mode down, on an active trigger; carried out, it sets
-- that mode and adds no role.
pub should_de_escalate-next :
    (count k : ℕ) (m : Mission) (s : CurrentState) (d : EscalationDecision)
    → should_de_escalate count m s ≡ some d
    → (suc (mode_rank d.to_mode) ≡ mode_rank m.adaptive_mode)
      × (d.active_triggers ≡ easing_triggers s)
      × ((execute_escalation k d).1.new_mode ≡ d.to_mode)
      × ((execute_escalation k d).1.added_roles ≡ [])
unfolding should_de_escalate execute_escalation
should_de_escalate-next count k m s d made =
    let (target, from, triggers) =
      decide_mode-made count m (mode_de_escalation m.adaptive_mode) (easing_triggers s) d made in
    let down = mode_de_escalation-rank m.adaptive_mode d.to_mode target in
    (down, triggers, refl, execute-down k d (rw from (omega (arith, down))))
