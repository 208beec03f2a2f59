-- ===== src/Repair/Ends.antt =====
-- How repairs end, over all attempts.
use nexara_prime.Base.{
  ℕ, zero, suc, ◌+◌, ◌≤◌, ◌<◌, String, ◌≡◌, refl, sym, ap, ◌∙◌, ◌≢◌, ◌⊎◌, inl, inr, true, false,
  Option, none, some, [], ◌∷◌, ◌++◌, arith, if◌then◌else◌, Option-cases, ◌==◌, string_eq, nat_eq,
  length, length-append,
}
use nexara_prime.Base.Dict.{get}
use nexara_prime.Repair.{
  FailureReport, Hypothesis, RepairContract, RepairResult, RepairStatus, r2, resolved, escalated,
  has_hypothesis, generate, repair_status_eq, RepairStatus-discrete,
}
use nexara_prime.Repair.Hypotheses.{generate-new}
use nexara_prime.Repair.Outcome.{Attempted, decide-Attempted, attempt_repair-found}
use nexara_prime.Repair.Incidents.{
  RepairLoop, Incident, ApplyFn, get_contracts, detect_failure, analyze_found,
}
use nexara_prime.Repair.Attempt.{
  not_found, escalation, decide, attempt_found, attempt_repair, repair_turns, repair,
}

-- An analysis leaves what attempts change.
before_analysis :
    (l l' : RepairLoop) (id : String) (f : FailureReport) (h : Hypothesis) (n : ℕ)
    (r : RepairResult)
    → Attempted (analyze_found l id f).0 l' id f h n r
    → Attempted l l' id f h n r
unfolding analyze_found get_contracts
before_analysis l l' id f h n r a = record {
  listed = a.listed;
  appended = a.appended;
  others = a.others;
  same_hypothesis_listed = a.same_hypothesis_listed;
  same_number = a.same_number;
  retries = a.retries;
  kept = a.kept;
  named = a.named;
  numbered = a.numbered;
  unescalated = a.unescalated;
  resolved_iff = a.resolved_iff;
  still_reviewed = a.still_reviewed;
}

abbrev pub proposal : RepairLoop → String → String → FailureReport → RepairContract
proposal l id cid f = generate cid (analyze_found l id f).1 f (get_contracts l id)

pub attempt_found-few :
    (l : RepairLoop) (id cid : String) (apply : Option ApplyFn) (f : FailureReport)
    → f.retry_count < 3
    → attempt_found l id cid apply f
      ≡ decide (analyze_found l id f).0 id f apply (proposal l id cid f)
unfolding attempt_found
attempt_found-few l id cid apply f few = ground arith

attempt_found-Attempted :
    (l : RepairLoop) (id cid : String) (apply : Option ApplyFn) (f : FailureReport)
    → f.retry_count < 3
    → Attempted l
        (attempt_found l id cid apply f).0
        id
        f
        (proposal l id cid f).hypothesis
        (proposal l id cid f).attempt_number
        (attempt_found l id cid apply f).1
attempt_found-Attempted l id cid apply f few = rw (attempt_found-few l id cid apply f few) (
    before_analysis l _ id f _ _ _
      (decide-Attempted (analyze_found l id f).0 id f apply (proposal l id cid f)))

pub attempt_found-many :
    (l : RepairLoop) (id cid : String) (apply : Option ApplyFn) (f : FailureReport)
    → 3 ≤ f.retry_count
    → ((attempt_found l id cid apply f).0 ≡ l)
      × ((attempt_found l id cid apply f).1.success ≡ false)
      × (((attempt_found l id cid apply f).1.status == resolved) ≡ false)
unfolding attempt_found escalation RepairStatus-discrete
attempt_found-many l id cid apply f many = (ground arith, ground arith, ground arith)

attempt_repair-missing :
    (l : RepairLoop) (id cid : String) (apply : Option ApplyFn)
    → get l.failures id ≡ none
    → ((attempt_repair l id cid apply).0 ≡ l)
      × ((attempt_repair l id cid apply).1.success ≡ false)
      × (((attempt_repair l id cid apply).1.status == resolved) ≡ false)
unfolding attempt_repair not_found RepairStatus-discrete
attempt_repair-missing l id cid apply missing = (ground arith, ground arith, ground arith)

-- An attempt at a known failure with fewer than three retries lists one new contract for it, whose
-- hypothesis none of its contracts had and whose number is the next; it leaves the contracts of other
-- failures, and it sets the retries to 0 if it succeeds and else to one more.
pub attempt_repair-contract :
    (l : RepairLoop) (id cid : String) (apply : Option ApplyFn) (f : FailureReport)
    → get l.failures id ≡ some f
    → f.retry_count < 3
    → (c : RepairContract) × (get_contracts (attempt_repair l id cid apply).0 id
        ≡ get_contracts l id ++ c ∷ [])
      × (has_hypothesis (get_contracts l id) c.hypothesis ≡ false)
      × (c.attempt_number ≡ suc (length (get_contracts l id)))
      × ((j : String)
          → id ≢ j
          → get_contracts (attempt_repair l id cid apply).0 j ≡ get_contracts l j)
      × (get (attempt_repair l id cid apply).0.failures id
          ≡ some (record f {
            retry_count =
                if (attempt_repair l id cid apply).1.success then 0 else suc f.retry_count;
          }))
attempt_repair-contract l id cid apply f found few =
    rw (attempt_repair-found l id cid apply f found) (
      let a = attempt_found-Attempted l id cid apply f few in
      let (new, number) = generate-new cid (analyze_found l id f).1 f (get_contracts l id) in
      (
        a.listed,
        a.appended,
        ap (has_hypothesis (get_contracts l id)) a.same_hypothesis_listed ∙ new,
        a.same_number ∙ number,
        a.others,
        a.retries,
      ))

pub few_or_many : (n : ℕ) → (3 ≤ n) ⊎ (n < 3)
few_or_many n = ground arith

-- An attempt changes nothing and fails, unresolved, or it makes a contract.
pub attempt_repair-cases :
    (l : RepairLoop) (id cid : String) (apply : Option ApplyFn)
    → (((attempt_repair l id cid apply).0 ≡ l)
        × ((attempt_repair l id cid apply).1.success ≡ false)
        × (((attempt_repair l id cid apply).1.status == resolved) ≡ false))
      ⊎ ((f : FailureReport) × (get l.failures id ≡ some f)
          × (f.retry_count < 3)
          × Attempted l
              (attempt_repair l id cid apply).0
              id
              f
              (proposal l id cid f).hypothesis
              (proposal l id cid f).attempt_number
              (attempt_repair l id cid apply).1)
attempt_repair-cases l id cid apply = elim (Option-cases (get l.failures id)) [
  | inl missing ↦ inl (attempt_repair-missing l id cid apply missing)
  | inr (f, found) ↦
      rw (attempt_repair-found l id cid apply f found) (elim (few_or_many f.retry_count) [
        | inl many ↦ inl (attempt_found-many l id cid apply f many)
        | inr few ↦ inr (f, found, few, attempt_found-Attempted l id cid apply f few)
      ])
]

Settled : RepairResult → Type 0
Settled r =
    ((r.success ≡ true) × (r.status ≡ resolved)) ⊎ ((r.success ≡ false) × (r.status ≡ escalated))

status_resolved : (s : RepairStatus) → (s == resolved) ≡ true → s ≡ resolved
status_resolved s same = ground arith

attempt_repair-resolved :
    (l : RepairLoop) (id cid : String) (apply : Option ApplyFn)
    → (attempt_repair l id cid apply).1.success ≡ true
    → (attempt_repair l id cid apply).1.status ≡ resolved
attempt_repair-resolved l id cid apply good = elim (attempt_repair-cases l id cid apply) [
  | inl (same, bad, other) ↦ ground (arith, bad)
  | inr (f, found, few, a) ↦ status_resolved _ (sym a.resolved_iff ∙ good)
]

attempt_repair-length :
    (l : RepairLoop) (id cid : String) (apply : Option ApplyFn)
    → length (get_contracts (attempt_repair l id cid apply).0 id)
      ≤ suc (length (get_contracts l id))
attempt_repair-length l id cid apply = elim (attempt_repair-cases l id cid apply) [
  | inl (same, bad, other) ↦ rw same (omega arith)
  | inr (f, found, few, a) ↦
      rw (a.appended, length-append (get_contracts l id) (a.listed ∷ [])) (omega arith)
]

-- The first of two results where it ends a repair.
abbrev pub pick : RepairLoop × RepairResult → RepairLoop × RepairResult → RepairLoop × RepairResult
pick a rest = if a.1.success then a else if a.1.status == escalated then a else rest

pick-Settled :
    (a rest : RepairLoop × RepairResult)
    → (a.1.success ≡ true → a.1.status ≡ resolved)
    → Settled rest.1
    → Settled (pick a rest).1
unfolding Settled
pick-Settled a rest good later = ground arith

pick-length :
    (a rest : RepairLoop × RepairResult) (id : String) (k : ℕ)
    → length (get_contracts a.0 id) ≤ k
    → length (get_contracts rest.0 id) ≤ k
    → length (get_contracts (pick a rest).0 id) ≤ k
pick-length a rest id k now later = ground arith

repair_turns-Settled :
    (n : ℕ) (l : RepairLoop) (id : String) (ids : ℕ → String) (apply : Option ApplyFn)
    → Settled (repair_turns n l id ids apply).1
unfolding repair_turns Settled escalation
repair_turns-Settled zero l id ids apply = inr (refl, refl)
repair_turns-Settled (suc n) l id ids apply =
    let a = attempt_repair l id (ids n) apply in
    pick-Settled a (repair_turns n a.0 id ids apply) (attempt_repair-resolved l id (ids n) apply)
      (repair_turns-Settled n a.0 id ids apply)

repair_turns-length :
    (n : ℕ) (l : RepairLoop) (id : String) (ids : ℕ → String) (apply : Option ApplyFn)
    → length (get_contracts (repair_turns n l id ids apply).0 id) ≤ length (get_contracts l id) + n
unfolding repair_turns
repair_turns-length zero l id ids apply = omega arith
repair_turns-length (suc n) l id ids apply =
    let a = attempt_repair l id (ids n) apply in
    let now = attempt_repair-length l id (ids n) apply in
    pick-length a (repair_turns n a.0 id ids apply) id (length (get_contracts l id) + suc n)
      (omega (arith, now)) (omega (arith, now, repair_turns-length n a.0 id ids apply))

-- A repair ends, whatever its patch function does, with a success whose status is resolved or with a
-- failure that is escalated; it adds at most three contracts to those of its failure.
pub repair_ends :
    (l : RepairLoop) (id : String) (ids : ℕ → String) (i : Incident) (apply : Option ApplyFn)
    → ((((repair l id ids i apply).1.success ≡ true)
          × ((repair l id ids i apply).1.status ≡ resolved))
        ⊎ (((repair l id ids i apply).1.success ≡ false)
            × ((repair l id ids i apply).1.status ≡ escalated)))
      × (length (get_contracts (repair l id ids i apply).0 id) ≤ length (get_contracts l id) + 3)
unfolding repair Settled detect_failure get_contracts
repair_ends l id ids i apply =
    let l' = detect_failure l id (record i { severity = r2 }) in
    (repair_turns-Settled 3 l' id ids apply, repair_turns-length 3 l' id ids apply)
