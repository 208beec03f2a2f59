-- ===== src/Governance/Enforce.antt =====
-- When `PolicyRuntime.enforce` allows an action.
use nexara_prime.Base.{
  String, ◌≡◌, refl, ap, ◌≢◌, ◌↔◌, ◌⊎◌, inl, inr, true, false, Option, none, some, List, [], ◌∷◌,
  arith, Bool-cases, Option-cases, contains, string_eq, nat_eq,
}
use mathlib.Core.Option.{some-injective}
use nexara_prime.Base.Dict.{get}
use nexara_prime.Base.Text.{str_lt}
use nexara_prime.Governance.{
  confirm, blocked, level_eq, risk_approval, requires_approval, approved, status_eq,
  ApprovalDecision, is_valid, authorize,
}
use nexara_prime.Governance.Orchestrator.{
  Orchestrator, Verdict, denied, granted, Claim, verify, verify_record,
}
use nexara_prime.Governance.Policy.{
  PolicyRuntime, Action, claim_of, allow, is_allowed, enforce, enforce_decision, enforce_verdict,
}

-- What a decision must say to cover a claim.
pub record Covers (d : ApprovalDecision) (c : Claim) (now : String) : Type 0 where
  pub is_approved : d.status ≡ approved
  pub in_time : (d.expires_at ≡ "") ⊎ (str_lt d.expires_at now ≡ false)
  pub same_mission : d.mission_id ≡ c.mission_id
  pub same_project : d.project_id ≡ c.project_id
  pub same_action : d.action ≡ c.action
  pub same_resource : (d.resource ≡ c.resource) ⊎ (d.resource ≡ "*")
  pub not_blocked : d.approval_level ≢ blocked

verify_record_same :
    (e d : ApprovalDecision) (c : Claim) (now : String) → verify_record e c now ≡ granted d → e ≡ d
unfolding verify_record
verify_record_same e d c now h = ground arith

verify_record-Covers :
    (d : ApprovalDecision) (c : Claim) (now : String)
    → verify_record d c now ≡ granted d
    → Covers d c now
unfolding verify_record is_valid
verify_record-Covers d c now h = ground arith

Covers-verify_record :
    (d : ApprovalDecision) (c : Claim) (now : String)
    → Covers d c now
    → verify_record d c now ≡ granted d
unfolding verify_record is_valid
Covers-verify_record d c now h = ground arith

verify_found :
    (o : Orchestrator) (id : String) (c : Claim) (now : String) (e : ApprovalDecision)
    → get o.decisions id ≡ some e
    → verify o id c now ≡ verify_record e c now
unfolding verify
verify_found o id c now e found = rw (found, verify)

verify_missing :
    (o : Orchestrator) (id : String) (c : Claim) (now : String) (d : ApprovalDecision)
    → get o.decisions id ≡ none
    → verify o id c now ≢ granted d
unfolding verify
verify_missing o id c now d missing h = ground arith

-- `verify` grants a decision exactly if it is the one that is stored under the id and it covers the
-- claim: approved, not past its expiry, for the same mission, project and action, for the same
-- resource or any, and not of the blocked level.
pub verify_iff_Covers :
    (o : Orchestrator) (id : String) (c : Claim) (now : String) (d : ApprovalDecision)
    → (verify o id c now ≡ granted d) ↔ ((get o.decisions id ≡ some d) × Covers d c now)
verify_iff_Covers o id c now d = elim (Option-cases (get o.decisions id)) [
  | inl missing ↦ (
    λ h. absurd (verify_missing o id c now d missing h),
    λ (found, covers). absurd (ground arith),
  )
  | inr (e, found) ↦
      rw (verify_found o id c now e found, found)
        (
          λ h.
              let same = verify_record_same e d c now h in
              (ap some same, verify_record-Covers d c now (rw same at h)),
          λ (same, covers). rw (some-injective e d same) (Covers-verify_record d c now covers),
        )
]

-- The decision that an action of the levels R2 and R3 must bring.
abbrev pub Backed : Option String → Option Orchestrator → Claim → String → Type 0
Backed (some id) (some o) c now =
    (d : ApprovalDecision) × ((get o.decisions id ≡ some d) × Covers d c now)
Backed _ _ c now = ⊥

enforce_decision_iff :
    (p : PolicyRuntime) (a : Action) (id : Option String) (o : Option Orchestrator) (now : String)
    → (is_allowed (enforce_decision p a id o now).1 ≡ true) ↔ Backed id o (claim_of a) now
unfolding enforce_decision enforce_verdict
enforce_decision_iff p a none o now = (λ h. absurd (ground arith), λ h. absurd h)
enforce_decision_iff p a (some id) none now = (λ h. absurd (ground arith), λ h. absurd h)
enforce_decision_iff p a (some id) (some o) now = go (verify o id (claim_of a) now) refl
  where
    go :
        (v : Verdict)
        → verify o id (claim_of a) now ≡ v
        → (is_allowed (enforce_verdict p a id now (verify o id (claim_of a) now)).1 ≡ true)
          ↔ Backed (some id) (some o) (claim_of a) now
    go (denied r) e = (
      λ h. absurd (ground arith),
      λ (d, h). absurd (ground (arith, (verify_iff_Covers o id (claim_of a) now d).1 h)),
    )
    go (granted d) e = (λ h. (d, (verify_iff_Covers o id (claim_of a) now d).0 e), λ h. rw e refl)

-- `enforce` allows an action exactly if it is among the allowed ones and not among the forbidden
-- ones, its risk is not of the blocked level, and, where its risk requires approval, the call names
-- a decision that the bound orchestrator stores and that covers the action.
pub enforce_iff :
    (p : PolicyRuntime) (a : Action) (allowed_actions forbidden_actions : List String)
    (id : Option String) (now : String)
    → (is_allowed (enforce p a allowed_actions forbidden_actions id now).1 ≡ true) ↔ (
        (contains forbidden_actions a.action ≡ false)
        × (contains allowed_actions a.action ≡ true)
        × (risk_approval a.risk_level ≢ blocked)
        × (requires_approval a.risk_level ≡ true → Backed id p.orchestrator (claim_of a) now))
unfolding enforce
enforce_iff p a allowed_actions forbidden_actions id now =
    let sub = enforce_decision_iff p a id p.orchestrator now in
    (
      λ h. (ground arith, ground arith, ground arith, λ needs. sub.0 (ground arith)),
      λ (forbidden, listed, level, backed). elim (Bool-cases (requires_approval a.risk_level)) [
        | inl needs ↦ ground (arith, sub.1 (backed needs))
        | inr free ↦ ground arith
      ],
    )

-- A risk level outside R0 to R4 is not blocked and not held back for an approval: the authority
-- engine authorizes it, and `enforce` allows every listed action at it with no decision.
pub unknown_risk_allowed :
    (p : PolicyRuntime) (a : Action) (allowed_actions forbidden_actions : List String)
    (id : Option String) (now : String)
    → contains ("R0" ∷ "R1" ∷ "R2" ∷ "R3" ∷ "R4" ∷ []) a.risk_level ≡ false
    → contains forbidden_actions a.action ≡ false
    → contains allowed_actions a.action ≡ true
    → (enforce p a allowed_actions forbidden_actions id now ≡ (p, allow confirm none))
      × ((authorize a.risk_level).authorized ≡ true)
      × ((authorize a.risk_level).can_execute ≡ true)
unfolding enforce authorize risk_approval requires_approval
unknown_risk_allowed p a allowed_actions forbidden_actions id now unknown forbidden listed =
    ground arith
