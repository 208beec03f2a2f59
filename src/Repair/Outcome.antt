-- ===== src/Repair/Outcome.antt =====
-- What an attempt and a whole repair come to.
use nexara_prime.Base.{
  ℕ, suc, String, ◌≡◌, refl, ◌≢◌, Bool, true, false, ◌&&◌, Option, some, [], ◌∷◌, ◌++◌, arith,
  if◌then◌else◌, ◌==◌, string_eq, nat_eq,
}
use nexara_prime.Base.Dict.{get, get-put}
use nexara_prime.Repair.{
  FailureReport, Hypothesis, RepairContract, RepairResult, resolved, failed, escalated, review,
  repair_status_eq, RepairStatus-discrete,
}
use nexara_prime.Repair.Incidents.{RepairLoop, ApplyFn, get_contracts}
use nexara_prime.Repair.Attempt.{
  Applied, close_attempt, reject_contract, note_repair, conclude, apply_contract, reviewed, decide,
  attempt_found, attempt_repair, applying_contract, run_apply,
}

get_contracts-put :
    (l : RepairLoop) (id : String) (c : RepairContract) (f : FailureReport) (n : ℕ)
    (r : RepairResult)
    → get_contracts (close_attempt l id f c n r).0 id ≡ get_contracts l id ++ c ∷ []
unfolding get_contracts close_attempt
get_contracts-put l id c f n r =
    ground (arith, get-put l.contracts id id (get_contracts l id ++ c ∷ []))

close_attempt-other :
    (l : RepairLoop) (id j : String) (c : RepairContract) (f : FailureReport) (n : ℕ)
    (r : RepairResult)
    → id ≢ j
    → get_contracts (close_attempt l id f c n r).0 j ≡ get_contracts l j
unfolding get_contracts close_attempt
close_attempt-other l id j c f n r differ =
    ground (arith, get-put l.contracts id j (get_contracts l id ++ c ∷ []))

-- What an attempt that made a contract with hypothesis `h` and number `n` does to a loop `l`, its
-- result `r` and the loop `l'` it leaves: the contract is listed; the retries are those of `r`; `r` is
-- kept and is no escalation.
pub record Attempted (l l' : RepairLoop) (id : String) (f : FailureReport) (h : Hypothesis) (n : ℕ)
    (r : RepairResult) : Type 0 where
  pub listed : RepairContract
  pub appended : get_contracts l' id ≡ get_contracts l id ++ listed ∷ []
  pub others : (j : String) → id ≢ j → get_contracts l' j ≡ get_contracts l j
  pub same_hypothesis_listed : listed.hypothesis ≡ h
  pub same_number : listed.attempt_number ≡ n
  pub retries :
      get l'.failures id
      ≡ some (record f { retry_count = if r.success then 0 else suc f.retry_count })
  pub kept : l'.results ≡ l.results ++ r ∷ []
  pub named : r.hypothesis ≡ some h
  pub numbered : r.attempt_number ≡ n
  pub unescalated : (r.status == escalated) ≡ false
  pub resolved_iff : r.success ≡ (r.status == resolved)
  pub still_reviewed : l'.enable_independent_review ≡ l.enable_independent_review

reject_contract-Attempted :
    (l : RepairLoop) (id : String) (f : FailureReport) (c : RepairContract) (reason : String)
    → Attempted l
        (reject_contract l id f c reason).0
        id
        f
        c.hypothesis
        c.attempt_number
        (reject_contract l id f c reason).1
unfolding reject_contract close_attempt RepairStatus-discrete
reject_contract-Attempted l id f c reason = record {
  listed = record c { reviewer = "independent_reviewer"; review_notes = reason };
  appended = get_contracts-put l id _ f _ (reject_contract l id f c reason).1;
  others = λ j differ. close_attempt-other l id j _ f _ (reject_contract l id f c reason).1 differ;
  same_hypothesis_listed = refl;
  same_number = refl;
  retries = rw (get-put l.failures id id) (ground arith);
  kept = refl;
  named = refl;
  numbered = refl;
  unescalated = refl;
  resolved_iff = refl;
  still_reviewed = refl;
}

conclude-Attempted :
    (l : RepairLoop) (id : String) (f : FailureReport) (c : RepairContract) (a : Applied)
    → Attempted l (conclude l id f c a).0 id f c.hypothesis c.attempt_number (conclude l id f c a).1
unfolding conclude note_repair close_attempt RepairStatus-discrete get_contracts
conclude-Attempted l id f c a = record {
  listed = record c { status = if a.patch_applied then resolved else failed; error = a.error };
  appended = get_contracts-put l id _ f 0 (conclude l id f c a).1;
  others = λ j differ. close_attempt-other l id j _ f 0 (conclude l id f c a).1 differ;
  same_hypothesis_listed = refl;
  same_number = refl;
  retries = rw (get-put l.failures id id) (ground arith);
  kept = refl;
  named = refl;
  numbered = refl;
  unescalated = go (a.patch_applied && a.tests_failed == 0);
  resolved_iff = back (a.patch_applied && a.tests_failed == 0);
  still_reviewed = refl;
}
  where
    go : (b : Bool) → ((if b then resolved else failed) == escalated) ≡ false
    go true = refl
    go false = refl

    back : (b : Bool) → b ≡ ((if b then resolved else failed) == resolved)
    back true = refl
    back false = refl

apply_contract-Attempted :
    (l : RepairLoop) (id : String) (f : FailureReport) (apply : Option ApplyFn) (c : RepairContract)
    → Attempted l
        (apply_contract l id f apply c).0
        id
        f
        c.hypothesis
        c.attempt_number
        (apply_contract l id f apply c).1
unfolding apply_contract
apply_contract-Attempted l id f apply c =
    conclude-Attempted l id f (applying_contract c) (run_apply apply (applying_contract c))

reviewed-Attempted :
    (l : RepairLoop) (id : String) (f : FailureReport) (apply : Option ApplyFn) (c : RepairContract)
    (v : Bool × String)
    → Attempted l
        (reviewed l id f apply c v).0
        id
        f
        c.hypothesis
        c.attempt_number
        (reviewed l id f apply c v).1
unfolding reviewed
reviewed-Attempted l id f apply c (true, reason) =
    apply_contract-Attempted l id f apply
      (record c { reviewer = "independent_reviewer"; review_notes = reason })
reviewed-Attempted l id f apply c (false, reason) = reject_contract-Attempted l id f c reason

pub decide-Attempted :
    (l : RepairLoop) (id : String) (f : FailureReport) (apply : Option ApplyFn) (c : RepairContract)
    → Attempted l
        (decide l id f apply c).0
        id
        f
        c.hypothesis
        c.attempt_number
        (decide l id f apply c).1
unfolding decide
decide-Attempted l id f apply c = go l.enable_independent_review
  where
    on_review : Bool → RepairLoop × RepairResult
    on_review b = if b then reviewed l id f apply c (review c) else apply_contract l id f apply c

    go : (b : Bool) → Attempted l (on_review b).0 id f c.hypothesis c.attempt_number (on_review b).1
    go true = reviewed-Attempted l id f apply c (review c)
    go false = apply_contract-Attempted l id f apply c

pub attempt_repair-found :
    (l : RepairLoop) (id cid : String) (apply : Option ApplyFn) (f : FailureReport)
    → get l.failures id ≡ some f
    → attempt_repair l id cid apply ≡ attempt_found l id cid apply f
unfolding attempt_repair
attempt_repair-found l id cid apply f found = ground arith
