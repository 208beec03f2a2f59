-- ===== src/Triage/Modes.antt =====
-- How the mode that triage recommends depends on a request.
use nexara_prime.Base.{
  ℕ, ◌*◌, ◌≤◌, min, max, String, ◌≡◌, refl, ap, ◌∙◌, Bool, true, false, not, ◌&&◌, ◌||◌, arith, leb,
  if◌then◌else◌, contains, string_eq, nat_eq, length,
}
use nexara_prime.Adaptive.{AdaptiveMode, s0, s1, s2, s3}
use nexara_prime.Adaptive.Escalation.{mode_rank}
use nexara_prime.Triage.{
  Request, sensitivity_points, complexity_points, capped, compute_complexity, points, compute_risk,
  compute_uncertainty, Recommendation, mode_by_scores, override_external, override_irreversible,
  recommend_mode, derive_roles, derive_evidence_tier, triage,
}

-- What rounding to the nearest number respects.
abbrev pub Rounding : (ℕ → ℕ → ℕ) → Type 0
Rounding rounded = (n m d : ℕ) → n ≤ m → rounded n d ≤ rounded m d

abbrev pub flag : Bool → ℕ
flag b = if b then 1 else 0

-- One request asks for at least as much as another, in every respect that is scored.
pub record Demands (r q : Request) : Type 0 where
  pub tools : length r.tool_requirements ≤ length q.tool_requirements
  pub doubts : r.uncertainty ≤ q.uncertainty
  pub lasts : r.expected_duration ≤ q.expected_duration
  pub spends : r.expected_token_cost ≤ q.expected_token_cost
  pub effects : flag r.external_side_effects ≤ flag q.external_side_effects
  pub undoes : flag q.reversibility ≤ flag r.reversibility
  pub guards : sensitivity_points r.data_sensitivity ≤ sensitivity_points q.data_sensitivity

min_mono : (d a b : ℕ) → a ≤ b → min d a ≤ min d b
min_mono d a b h = ground arith

complexity_mono : (r q : Request) → Demands r q → complexity_points r ≤ complexity_points q
unfolding complexity_points
complexity_mono r q h = omega (
  arith,
  min_mono 10 (length r.tool_requirements) (length q.tool_requirements) h.tools,
  min_mono 10000 r.uncertainty q.uncertainty h.doubts,
  min_mono 600000 r.expected_duration q.expected_duration h.lasts,
  min_mono 500000 r.expected_token_cost q.expected_token_cost h.spends,
)

capped_mono :
    (rounded : ℕ → ℕ → ℕ) (n m d : ℕ)
    → Rounding rounded
    → n ≤ m
    → capped rounded n d ≤ capped rounded m d
capped_mono rounded n m d rounds h =
    rounds (10000 * min d n) (10000 * min d m) d (omega (arith, min_mono d n m h))

points_mono : (n : ℕ) (a b : Bool) → flag a ≤ flag b → points a n ≤ points b n
points_mono n a b h = ground arith

irreversible_mono : (n : ℕ) (a b : Bool) → flag b ≤ flag a → points (not a) n ≤ points (not b) n
irreversible_mono n a b h = ground arith

risk_mono :
    (rounded : ℕ → ℕ → ℕ) (r q : Request) (c d : ℕ)
    → Rounding rounded
    → Demands r q
    → c ≤ d
    → compute_risk rounded r c ≤ compute_risk rounded q d
unfolding compute_risk
risk_mono rounded r q c d rounds h le = capped_mono rounded _ _ 60000 rounds (
    omega (
      arith,
      points_mono 25000 r.external_side_effects q.external_side_effects h.effects,
      irreversible_mono 7000 r.reversibility q.reversibility h.undoes,
      h.guards,
    ))

-- The override by external effects, and that by irreversibility, in ranks.
external_rank :
    (e : Bool) (m : Recommendation)
    → mode_rank (override_external e m).0 ≡ (if e then 3 else mode_rank m.0)
unfolding override_external
external_rank false m = refl
external_rank true (s0, reasons) = refl
external_rank true (s1, reasons) = refl
external_rank true (s2, reasons) = refl
external_rank true (s3, reasons) = refl

irreversible_rank :
    (v : Bool) (m : Recommendation)
    → mode_rank (override_irreversible v m).0 ≡ (if v then mode_rank m.0 else max 2 (mode_rank m.0))
unfolding override_irreversible
irreversible_rank true m = refl
irreversible_rank false (s0, reasons) = refl
irreversible_rank false (s1, reasons) = refl
irreversible_rank false (s2, reasons) = refl
irreversible_rank false (s3, reasons) = refl

-- The rank by the four tests, the first that holds deciding.
abbrev rank_by : Bool → Bool → Bool → Bool → ℕ
rank_by a b c d = if a then 3 else if b then 3 else if c then 2 else if d then 1 else 0

rank_by_mono :
    (a b c d a' b' c' d' : Bool)
    → flag a ≤ flag a'
    → flag b ≤ flag b'
    → flag c ≤ flag c'
    → flag d ≤ flag d'
    → rank_by a b c d ≤ rank_by a' b' c' d'
rank_by_mono a b c d a' b' c' d' ha hb hc hd = ground arith

or_mono : (a b a' b' : Bool) → flag a ≤ flag a' → flag b ≤ flag b' → flag (a || b) ≤ flag (a' || b')
or_mono a b a' b' ha hb = ground arith

leb_mono : (t x y : ℕ) → x ≤ y → flag (leb t x) ≤ flag (leb t y)
leb_mono t x y h = ground arith

moot_mono :
    (e e' v v' : Bool) (k k' : ℕ)
    → k ≤ k'
    → flag e ≤ flag e'
    → flag v' ≤ flag v
    → flag (e && (not v && leb 6000 k)) ≤ flag (e' && (not v' && leb 6000 k'))
moot_mono e e' v v' k k' hk he hv = ground arith

scores_tests :
    (c k u : ℕ) (e v : Bool)
    → mode_rank (mode_by_scores c k u e v).0
      ≡ rank_by
          (e && (not v && leb 6000 k))
          (leb 6500 k || leb 6500 c)
          (leb 4500 k || (leb 4500 c || leb 5000 u))
          (leb 2500 c || (leb 2000 k || leb 2000 u))
unfolding mode_by_scores
scores_tests c k u e v = ground arith

scores_rank :
    (c c' k k' u u' : ℕ) (e e' v v' : Bool)
    → c ≤ c'
    → k ≤ k'
    → u ≤ u'
    → flag e ≤ flag e'
    → flag v' ≤ flag v
    → mode_rank (mode_by_scores c k u e v).0 ≤ mode_rank (mode_by_scores c' k' u' e' v').0
scores_rank c c' k k' u u' e e' v v' hc hk hu he hv =
    rw (scores_tests c k u e v, scores_tests c' k' u' e' v')
      (rank_by_mono _ _ _ _ _ _ _ _ (moot_mono e e' v v' k k' hk he hv)
        (or_mono _ _ _ _ (leb_mono 6500 k k' hk) (leb_mono 6500 c c' hc))
        (or_mono _ _ _ _ (leb_mono 4500 k k' hk)
          (or_mono _ _ _ _ (leb_mono 4500 c c' hc) (leb_mono 5000 u u' hu)))
        (or_mono _ _ _ _ (leb_mono 2500 c c' hc)
          (or_mono _ _ _ _ (leb_mono 2000 k k' hk) (leb_mono 2000 u u' hu))))

recommended_rank :
    (c k u : ℕ) (e v : Bool)
    → mode_rank (recommend_mode c k u e v).0 ≡ (
        if v
        then (if e then 3 else mode_rank (mode_by_scores c k u e v).0)
        else max 2 (if e then 3 else mode_rank (mode_by_scores c k u e v).0))
unfolding recommend_mode
recommended_rank c k u e v =
    rw
      (
        irreversible_rank v (override_external e (mode_by_scores c k u e v)),
        external_rank e (mode_by_scores c k u e v),
      )
      refl

rank_le : (m : AdaptiveMode) → mode_rank m ≤ 3
rank_le m = ground arith

rank_overrides :
    (m m' : AdaptiveMode) (e e' v v' : Bool)
    → mode_rank m ≤ mode_rank m'
    → flag e ≤ flag e'
    → flag v' ≤ flag v
    → (if v then (if e then 3 else mode_rank m) else max 2 (if e then 3 else mode_rank m))
      ≤ (if v' then (if e' then 3 else mode_rank m') else max 2 (if e' then 3 else mode_rank m'))
rank_overrides m m' e e' v v' h he hv = ground (arith, rank_le m, rank_le m')

recommend_mono :
    (c c' k k' u u' : ℕ) (e e' v v' : Bool)
    → c ≤ c'
    → k ≤ k'
    → u ≤ u'
    → flag e ≤ flag e'
    → flag v' ≤ flag v
    → mode_rank (recommend_mode c k u e v).0 ≤ mode_rank (recommend_mode c' k' u' e' v').0
recommend_mono c c' k k' u u' e e' v v' hc hk hu he hv =
    rw (recommended_rank c k u e v, recommended_rank c' k' u' e' v')
      (rank_overrides (mode_by_scores c k u e v).0 (mode_by_scores c' k' u' e' v').0 e e' v v'
        (scores_rank c c' k k' u u' e e' v v' hc hk hu he hv) he hv)

-- A request that asks for at least as much as another, in tools, uncertainty, duration, tokens, side
-- effects, irreversibility and sensitivity, is given a mode that is at least as high, however
-- quotients are rounded so that the order is kept.
pub triage_mono :
    (rounded : ℕ → ℕ → ℕ) (researches : String → Bool) (r q : Request)
    → Rounding rounded
    → Demands r q
    → mode_rank (triage rounded researches r).recommended_mode
      ≤ mode_rank (triage rounded researches q).recommended_mode
unfolding triage compute_complexity compute_uncertainty
triage_mono rounded researches r q rounds h =
    let c_le = capped_mono rounded _ _ 13500000 rounds (complexity_mono r q h) in
    recommend_mono _ _ _ _ _ _ r.external_side_effects q.external_side_effects r.reversibility
      q.reversibility c_le (risk_mono rounded r q _ _ rounds h c_le)
      (min_mono 10000 r.uncertainty q.uncertainty h.doubts) h.effects h.undoes

external_s3 : (c k u : ℕ) (v : Bool) → (recommend_mode c k u true v).0 ≡ s3
unfolding recommend_mode override_irreversible override_external
external_s3 c k u v = go (mode_by_scores c k u true v) v
  where
    go :
        (m : Recommendation) (w : Bool)
        → (override_irreversible w (override_external true m)).0 ≡ s3
    go (s0, reasons) true = refl
    go (s1, reasons) true = refl
    go (s2, reasons) true = refl
    go (s3, reasons) true = refl
    go (s0, reasons) false = refl
    go (s1, reasons) false = refl
    go (s2, reasons) false = refl
    go (s3, reasons) false = refl

-- A request with external side effects is given S3 whatever its scores, all evidence, and a reviewer
-- and an auditor among its roles.
pub side_effects_governed :
    (rounded : ℕ → ℕ → ℕ) (researches : String → Bool) (r : Request)
    → r.external_side_effects ≡ true
    → ((triage rounded researches r).recommended_mode ≡ s3)
      × ((triage rounded researches r).required_evidence_tier ≡ "exhaustive")
      × (contains (triage rounded researches r).required_roles "Reviewer" ≡ true)
      × (contains (triage rounded researches r).required_roles "Auditor" ≡ true)
unfolding triage derive_evidence_tier derive_roles string_eq
side_effects_governed rounded researches r external =
    let c = compute_complexity rounded r in
    let k = compute_risk rounded r c in
    let governed : (triage rounded researches r).recommended_mode ≡ s3 =
      ap (λ e. (recommend_mode c k (compute_uncertainty r) e r.reversibility).0) external
      ∙ external_s3 c k (compute_uncertainty r) r.reversibility in
    (
      governed,
      ap (λ m. derive_evidence_tier m k) governed,
      ap (λ m. contains (derive_roles researches m r.tool_requirements) "Reviewer") governed,
      ap (λ m. contains (derive_roles researches m r.tool_requirements) "Auditor") governed,
    )
