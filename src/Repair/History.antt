-- ===== src/Repair/History.antt =====
-- What holds of a repair loop after any sequence of its operations.
use nexara_prime.Base.{
  ℕ, String, ◌≡◌, refl, ◌∙◌, inl, inr, Bool, true, false, Option, some, List, [], ◌∷◌, ◌++◌, arith,
  ◌==◌, string_eq, nat_eq,
}
use mathlib.Core.Path.{subst}
use nexara_prime.Base.Dict.{get}
use nexara_prime.Repair.{FailureReport, RepairResult, escalated, FailureType, repair_status_eq}
use nexara_prime.Repair.Hypotheses.{distinct, distinct-append}
use nexara_prime.Repair.Ends.{attempt_repair-cases, attempt_repair-contract}
use nexara_prime.Repair.Incidents.{
  RepairLoop, Incident, ApplyFn, get_contracts, detect_failure, analyze_found, new_repair_loop,
}
use nexara_prime.Repair.Attempt.{attempt_repair, count_where, stats}

-- The loops that a new loop comes to.
pub data Reached : RepairLoop → Type 0 where
  starts :
      (classify : String → String → FailureType) (find_files : String → List String) (b : Bool)
      → Reached (new_repair_loop classify find_files b)
  detects :
      (l : RepairLoop) (id : String) (i : Incident) → Reached l → Reached (detect_failure l id i)
  analyzes :
      (l : RepairLoop) (id : String) (f : FailureReport)
      → get l.failures id ≡ some f
      → Reached l
      → Reached (analyze_found l id f).0
  attempts :
      (l : RepairLoop) (id cid : String) (apply : Option ApplyFn)
      → Reached l
      → Reached (attempt_repair l id cid apply).0

escalations : RepairLoop → ℕ
escalations l = count_where (λ r. r.status == escalated) l.results

escalations_append :
    (rs : List RepairResult) (r : RepairResult)
    → (r.status == escalated) ≡ false
    → count_where (λ x. x.status == escalated) (rs ++ r ∷ [])
      ≡ count_where (λ x. x.status == escalated) rs
escalations_append [] r h = ground (arith, h)
escalations_append (x ∷ rs) r h = rw (escalations_append rs r h) refl

attempt-escalations :
    (l : RepairLoop) (id cid : String) (apply : Option ApplyFn)
    → escalations (attempt_repair l id cid apply).0 ≡ escalations l
unfolding escalations
attempt-escalations l id cid apply = elim (attempt_repair-cases l id cid apply) [
  | inl (same, bad, other) ↦ rw same refl
  | inr (f, found, few, a) ↦ rw a.kept (escalations_append l.results _ a.unescalated)
]

-- The statistics never show an escalation: however many repairs were escalated, the count of
-- escalated results is 0.
pub stats-never_escalated : (l : RepairLoop) → Reached l → (stats l).escalated_count ≡ 0
unfolding stats escalations new_repair_loop detect_failure analyze_found
stats-never_escalated _ (starts classify find_files b) = refl
stats-never_escalated _ (detects l id i r) = stats-never_escalated l r
stats-never_escalated _ (analyzes l id f found r) = stats-never_escalated l r
stats-never_escalated _ (attempts l id cid apply r) =
    attempt-escalations l id cid apply ∙ stats-never_escalated l r

attempt-distinct :
    (l : RepairLoop) (id cid j : String) (apply : Option ApplyFn)
    → distinct (get_contracts l j) ≡ true
    → distinct (get_contracts (attempt_repair l id cid apply).0 j) ≡ true
attempt-distinct l id cid j apply d = elim (attempt_repair-cases l id cid apply) [
  | inl (same, bad, other) ↦ rw same d
  | inr (f, found, few, a) ↦
      let (c, appended, new, number, others, retries) =
        attempt_repair-contract l id cid apply f found few in
      elim (string_eq.dec id j) [
        | yes same ↦
            subst
              (λ k.
                distinct (get_contracts l k) ≡ true
                → distinct (get_contracts (attempt_repair l id cid apply).0 k) ≡ true)
              same (λ d'. rw appended (distinct-append (get_contracts l id) c d' new)) d
        | no differ ↦ rw (others j differ) d
      ]
]

-- No two contracts of one failure have the same hypothesis.
pub contracts-distinct :
    (l : RepairLoop) → Reached l → (j : String) → distinct (get_contracts l j) ≡ true
unfolding new_repair_loop detect_failure analyze_found get_contracts distinct get
contracts-distinct _ (starts classify find_files b) j = refl
contracts-distinct _ (detects l id i r) j = contracts-distinct l r j
contracts-distinct _ (analyzes l id f found r) j = contracts-distinct l r j
contracts-distinct _ (attempts l id cid apply r) j =
    attempt-distinct l id cid j apply (contracts-distinct l r j)
