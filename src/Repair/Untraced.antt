-- ===== src/Repair/Untraced.antt =====
-- Repairs of failures that are reported without a traceback.
use nexara_prime.Base.{
  ℕ, zero, suc, String, ◌≡◌, refl, sym, ap, ◌∙◌, ◌⊎◌, inl, inr, true, false, Option, some, arith,
  if◌then◌else◌, string_eq, nat_eq,
}
use nexara_prime.Base.Dict.{get, get-put}
use nexara_prime.Repair.{FailureReport, RepairResult, r2, resolved, escalated, repair_status_eq}
use nexara_prime.Repair.Outcome.{attempt_repair-found}
use nexara_prime.Repair.Review.{decide-rejected, generate-files}
use nexara_prime.Repair.Ends.{
  proposal, attempt_found-few, attempt_found-many, few_or_many, pick, attempt_repair-cases,
  repair_ends,
}
use nexara_prime.Repair.Incidents.{
  RepairLoop, Incident, ApplyFn, report, detect_failure, analyze_found,
}
use nexara_prime.Repair.Attempt.{escalation, attempt_repair, repair_turns, repair}

some_inj : {a b : FailureReport} → some a ≡ some b → a ≡ b
some_inj p = ground (arith, p)

pick-fails :
    (a rest : RepairLoop × RepairResult)
    → a.1.success ≡ false
    → rest.1.success ≡ false
    → (pick a rest).1.success ≡ false
pick-fails a rest now later = ground arith

detected :
    (l : RepairLoop) (id : String) (i : Incident)
    → get (detect_failure l id i).failures id ≡ some (report l id i)
unfolding detect_failure
detected l id i = rw (get-put l.failures id id (report l id i)) (ground arith)

-- The loop reviews, and knows a failure of this id without a traceback.
Untraced : RepairLoop → String → Type 0
Untraced l id =
    (l.enable_independent_review ≡ true)
    × (f : FailureReport) × (get l.failures id ≡ some f)
    × (f.traceback ≡ "")

attempt_repair-fails :
    (l : RepairLoop) (id cid : String) (apply : Option ApplyFn)
    → Untraced l id
    → (attempt_repair l id cid apply).1.success ≡ false
unfolding Untraced analyze_found
attempt_repair-fails l id cid apply (on, f, found, untraced) =
    rw (attempt_repair-found l id cid apply f found) (elim (few_or_many f.retry_count) [
      | inl many ↦ (attempt_found-many l id cid apply f many).1
      | inr few ↦ rw (attempt_found-few l id cid apply f few) (
          decide-rejected (analyze_found l id f).0 id f apply (proposal l id cid f) on
            (generate-files l id cid f untraced))
    ])

attempt_repair-Untraced :
    (l : RepairLoop) (id cid : String) (apply : Option ApplyFn)
    → Untraced l id
    → Untraced (attempt_repair l id cid apply).0 id
unfolding Untraced
attempt_repair-Untraced l id cid apply (on, f, found, untraced) =
    elim (attempt_repair-cases l id cid apply) [
      | inl (same, bad, other) ↦ rw same (on, f, found, untraced)
      | inr (g, found', few, a) ↦ (
        a.still_reviewed ∙ on,
        record g {
          retry_count = if (attempt_repair l id cid apply).1.success then 0 else suc g.retry_count;
        },
        a.retries,
        ap FailureReport.traceback (some_inj (sym found' ∙ found)) ∙ untraced,
      )
    ]

repair_turns-fails :
    (n : ℕ) (l : RepairLoop) (id : String) (ids : ℕ → String) (apply : Option ApplyFn)
    → Untraced l id
    → (repair_turns n l id ids apply).1.success ≡ false
unfolding repair_turns escalation
repair_turns-fails zero l id ids apply u = refl
repair_turns-fails (suc n) l id ids apply u =
    let a = attempt_repair l id (ids n) apply in
    let now = attempt_repair-fails l id (ids n) apply u in
    let later =
      repair_turns-fails n a.0 id ids apply (attempt_repair-Untraced l id (ids n) apply u) in
    pick-fails a (repair_turns n a.0 id ids apply) now later

-- With review on, the repair of a failure that is reported without a traceback is always escalated,
-- whatever the patch function would do: no file is named, so every contract is rejected.
pub untraced_escalates :
    (l : RepairLoop) (id : String) (ids : ℕ → String) (i : Incident) (apply : Option ApplyFn)
    → l.enable_independent_review ≡ true
    → i.traceback ≡ ""
    → ((repair l id ids i apply).1.success ≡ false)
      × ((repair l id ids i apply).1.status ≡ escalated)
unfolding repair detect_failure report Untraced
untraced_escalates l id ids i apply on untraced =
    (bad, only_failed (repair_ends l id ids i apply).0)
  where
    i' : Incident
    i' = record i { severity = r2 }

    bad : (repair l id ids i apply).1.success ≡ false
    bad =
        repair_turns-fails 3 (detect_failure l id i') id ids apply
          (on, report l id i', detected l id i', untraced)

    only_failed :
        (((repair l id ids i apply).1.success ≡ true)
            × ((repair l id ids i apply).1.status ≡ resolved))
          ⊎ (((repair l id ids i apply).1.success ≡ false)
              × ((repair l id ids i apply).1.status ≡ escalated))
        → (repair l id ids i apply).1.status ≡ escalated
    only_failed (inl (good, status)) = ground (arith, good, bad)
    only_failed (inr (worse, status)) = status
