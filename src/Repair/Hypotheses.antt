-- ===== src/Repair/Hypotheses.antt =====
-- The hypotheses of the contracts of one failure.
use nexara_prime.Base.{
  ℕ, zero, suc, ◌+◌, ◌≤◌, ◌<◌, String, ◌≡◌, refl, Bool, true, false, not, ◌&&◌, ◌||◌, List, [], ◌∷◌,
  ◌++◌, arith, leb, if◌then◌else◌, ◌==◌, string_eq, nat_eq, length,
}
use nexara_prime.Repair.{
  base_hypothesis, FailureReport, Hypothesis, RootCauseAnalysis, RepairContract, same_hypothesis,
  has_hypothesis, next_variant, generate,
}

-- The contracts with this base and at least this variant.
variants_from : List RepairContract → String → ℕ → ℕ
variants_from [] b n = 0
variants_from (c ∷ cs) b n =
    (if c.hypothesis.base == b && leb n c.hypothesis.variant then 1 else 0) + variants_from cs b n

variants_from-length :
    (cs : List RepairContract) (b : String) (n : ℕ) → variants_from cs b n ≤ length cs
unfolding variants_from
variants_from-length [] b n = omega arith
variants_from-length (c ∷ cs) b n = ground (arith, variants_from-length cs b n)

variants_from-suc :
    (cs : List RepairContract) (b : String) (n : ℕ)
    → variants_from cs b (suc n) ≤ variants_from cs b n
unfolding variants_from
variants_from-suc [] b n = omega arith
variants_from-suc (c ∷ cs) b n = ground (arith, variants_from-suc cs b n)

variants_from-has :
    (cs : List RepairContract) (h : Hypothesis)
    → has_hypothesis cs h ≡ true
    → variants_from cs h.base (suc h.variant) < variants_from cs h.base h.variant
unfolding variants_from has_hypothesis same_hypothesis
variants_from-has [] h found = ground arith
variants_from-has (c ∷ cs) h found =
    ground (arith, variants_from-suc cs h.base h.variant, variants_from-has cs h)

next_variant-new :
    (fuel : ℕ) (cs : List RepairContract) (h : Hypothesis)
    → variants_from cs h.base h.variant < fuel
    → has_hypothesis cs (next_variant fuel cs h) ≡ false
unfolding next_variant
next_variant-new zero cs h enough = ground arith
next_variant-new (suc fuel) cs h enough =
    ground (
      arith,
      variants_from-has cs h,
      next_variant-new fuel cs (record h { variant = suc h.variant }),
    )

-- The search for a new hypothesis ends: the contract that is generated has a hypothesis that no
-- previous contract has, and the next attempt number.
pub generate-new :
    (id : String) (rca : RootCauseAnalysis) (f : FailureReport) (cs : List RepairContract)
    → (has_hypothesis cs (generate id rca f cs).hypothesis ≡ false)
      × ((generate id rca f cs).attempt_number ≡ suc (length cs))
unfolding generate
generate-new id rca f cs = (
  next_variant-new (suc (length cs)) cs _
      (omega (arith, variants_from-length cs (base_hypothesis rca f.failure_type) 0)),
  refl,
)

unfoldable pub distinct : List RepairContract → Bool
distinct [] = true
distinct (c ∷ cs) = not (has_hypothesis cs c.hypothesis) && distinct cs

has_hypothesis-append :
    (cs : List RepairContract) (c : RepairContract) (h : Hypothesis)
    → has_hypothesis (cs ++ c ∷ []) h ≡ has_hypothesis cs h || same_hypothesis c.hypothesis h
unfolding has_hypothesis
has_hypothesis-append [] c h = ground arith
has_hypothesis-append (d ∷ cs) c h = ground (arith, has_hypothesis-append cs c h)

same_hypothesis_comm : (g h : Hypothesis) → same_hypothesis g h ≡ same_hypothesis h g
unfolding same_hypothesis
same_hypothesis_comm g h = ground arith

pub distinct-append :
    (cs : List RepairContract) (c : RepairContract)
    → distinct cs ≡ true
    → has_hypothesis cs c.hypothesis ≡ false
    → distinct (cs ++ c ∷ []) ≡ true
unfolding distinct has_hypothesis
distinct-append [] c d new = refl
distinct-append (e ∷ cs) c d new = ground (
  arith,
  distinct-append cs c,
  has_hypothesis-append cs c e.hypothesis,
  same_hypothesis_comm e.hypothesis c.hypothesis,
)
