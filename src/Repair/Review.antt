-- ===== src/Repair/Review.antt =====
-- The review of the contracts that are generated.
use nexara_prime.Base.{
  ◌≤◌, String, ◌≡◌, refl, ◌≢◌, ◌↔◌, ◌⊎◌, Bool, true, false, not, ◌&&◌, Option, List, [], ◌∷◌, ◌++◌,
  arith, ltb, if◌then◌else◌, string_eq, nat_eq,
}
use nexara_prime.Base.Text.{is_blank}
use nexara_prime.Repair.{
  FailureReport, RepairContract, analyze, generate, review, review_issues, verdict, none_of,
  needs_rollback, repair_status_eq,
}
use nexara_prime.Repair.Ends.{proposal}
use nexara_prime.Repair.Incidents.{RepairLoop, ApplyFn, analyze_found}
use nexara_prime.Repair.Attempt.{close_attempt, reject_contract, apply_contract, reviewed, decide}

none_of_iff : (xs : List String) → (none_of xs ≡ false) ↔ (xs ≢ [])
none_of_iff [] = ground arith
none_of_iff (x ∷ xs) = ground arith

verdict-none_of : (is : List String) → (verdict is).0 ≡ none_of is
verdict-none_of [] = refl
verdict-none_of (i ∷ is) = refl

review-none_of :
    (c : RepairContract)
    → (review c).0 ≡ (
        not (none_of c.affected_files)
        && (not (none_of c.test_plan)
            && (not (needs_rollback c.risk_level && none_of c.rollback_plan)
                && (not (is_blank c.proposed_patch) && not (ltb 3 c.attempt_number)))))
unfolding review review_issues
review-none_of c =
    go (none_of c.affected_files) (none_of c.test_plan)
      (needs_rollback c.risk_level && none_of c.rollback_plan) (is_blank c.proposed_patch)
      (ltb 3 c.attempt_number)
  where
    texts : Bool → String → List String
    texts b text = if b then text ∷ [] else []

    go :
        (f t r p a : Bool)
        → (verdict (
            texts f "no_affected_files_identified"
            ++ texts t "no_test_plan"
            ++ texts r "no_rollback_plan_for_risk_level"
            ++ texts p "empty_patch"
            ++ texts a "max_attempts_exceeded_requires_human_escalation")).0
          ≡ (not f && (not t && (not r && (not p && not a))))
    go true t r p a = refl
    go false true r p a = refl
    go false false true p a = refl
    go false false false true a = refl
    go false false false false true = refl
    go false false false false false = refl

-- A review approves a contract exactly if it names files, has a test plan, has a rollback plan where
-- its risk is R2 or more, has a patch that is not blank and is one of the first three attempts.
pub review_iff :
    (c : RepairContract)
    → ((review c).0 ≡ true) ↔ (
        (c.affected_files ≢ [])
        × (c.test_plan ≢ [])
        × ((needs_rollback c.risk_level ≡ false) ⊎ (c.rollback_plan ≢ []))
        × (is_blank c.proposed_patch ≡ false)
        × (c.attempt_number ≤ 3))
review_iff c = ground (
  arith,
  review-none_of c,
  none_of_iff c.affected_files,
  none_of_iff c.test_plan,
  none_of_iff c.rollback_plan,
)

reviewed-rejected :
    (l : RepairLoop) (id : String) (f : FailureReport) (apply : Option ApplyFn) (c : RepairContract)
    (v : Bool × String)
    → v.0 ≡ false
    → (reviewed l id f apply c v).1.success ≡ false
unfolding reviewed reject_contract close_attempt
reviewed-rejected l id f apply c (true, reason) bad = ground (arith, bad)
reviewed-rejected l id f apply c (false, reason) bad = refl

pub decide-rejected :
    (l : RepairLoop) (id : String) (f : FailureReport) (apply : Option ApplyFn) (c : RepairContract)
    → l.enable_independent_review ≡ true
    → (review c).0 ≡ false
    → (decide l id f apply c).1.success ≡ false
unfolding decide
decide-rejected l id f apply c on bad = go l.enable_independent_review on
  where
    go :
        (b : Bool)
        → b ≡ true
        → (if b
            then reviewed l id f apply c (review c)
            else apply_contract l id f apply c).1.success
          ≡ false
    go true h = reviewed-rejected l id f apply c (review c) bad
    go false h = ground (arith, h)

pub generate-files :
    (l : RepairLoop) (id cid : String) (f : FailureReport)
    → f.traceback ≡ ""
    → (review (proposal l id cid f)).0 ≡ false
unfolding generate analyze_found analyze
generate-files l id cid f untraced = ground (arith, review-none_of (proposal l id cid f))
