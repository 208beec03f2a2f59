-- ===== src/Base/Dict.antt =====
-- A Python dict in insertion order. Proofs elsewhere go by the laws; only tests unfold it.
use mathlib.Core.Path.{◌≡◌, refl, ap}
use mathlib.Core.Option.{Option, none, some}
use mathlib.Core.List.{List, [], ◌∷◌, ◌++◌}
use native.Mathlib.Omega.{arith}
use nexara_prime.Base.Tests.{if◌then◌else◌}
use nexara_prime.Base.Equality.{Eq, ◌==◌}
use nexara_prime.Base.Lists.{or_else, length}

abbrev pub Dict {ℓ κ} : Type ℓ → Type κ → Type (ℓ ⊔ κ)
Dict K V = List (K × V)

module _ {ℓ κ} {K : Type ℓ} {V : Type κ} where
  unfoldable pub values : Dict K V → List V
  values [] = []
  values ((k, v) ∷ d) = v ∷ values d

module _ {ℓ κ} {K : Type ℓ} {V : Type κ} ⦃e : Eq K⦄ where
  -- d.get(k)
  unfoldable pub get : Dict K V → K → Option V
  get [] k = none
  get ((j, v) ∷ d) k = if j == k then some v else get d k

  -- d[k] = v: an old key keeps its place
  unfoldable pub put : Dict K V → K → V → Dict K V
  put [] k v = (k, v) ∷ []
  put ((j, w) ∷ d) k v = if j == k then (j, v) ∷ d else (j, w) ∷ put d k v

  -- d.pop(k, None)
  unfoldable pub remove : Dict K V → K → Dict K V
  remove [] k = []
  remove ((j, v) ∷ d) k = let rest = remove d k in if j == k then rest else (j, v) ∷ rest

  pub get-nil : (k : K) → get [] k ≡ none
  unfolding get
  get-nil k = refl

  pub get-put :
      (d : Dict K V) (k j : K) (v : V) → get (put d k v) j ≡ (if k == j then some v else get d j)
  unfolding get put
  get-put [] k j v = refl
  get-put ((i, w) ∷ d) k j v = ground (arith, get-put d k j v)

  pub get-remove :
      (d : Dict K V) (k j : K) → get (remove d k) j ≡ (if k == j then none else get d j)
  unfolding get remove
  get-remove [] k j = ground arith
  get-remove ((i, w) ∷ d) k j = ground (arith, get-remove d k j)

module _ {ℓ κ} {K : Type ℓ} {V : Type κ} ⦃e : Eq K⦄ where
  -- The table with `v` saved under `k`, now the last of its rows.
  unfoldable pub save : Dict K V → K → V → Dict K V
  save d k v = remove d k ++ (k, v) ∷ []

  pub get-append :
      (d : Dict K V) (k j : K) (v : V)
      → get (d ++ (k, v) ∷ []) j ≡ or_else (get d j) (if k == j then some v else none)
  unfolding get
  get-append [] k j v = ground arith
  get-append ((i, w) ∷ d) k j v = ground (arith, get-append d k j v)

  pub get-save :
      (d : Dict K V) (k j : K) (v : V) → get (save d k v) j ≡ (if k == j then some v else get d j)
  unfolding save
  get-save d k j v = ground (arith, get-append (remove d k) k j v, get-remove d k j)

module _ {ℓ κ} {K : Type ℓ} {V : Type κ} where
  pub values-append :
      (d : Dict K V) (k : K) (v : V) → values (d ++ (k, v) ∷ []) ≡ values d ++ v ∷ []
  unfolding values
  values-append [] k v = refl
  values-append ((j, w) ∷ d) k v = ap (λ vs. w ∷ vs) (values-append d k v)

  pub length-values : (d : Dict K V) → length (values d) ≡ length d
  unfolding values
  length-values [] = refl
  length-values ((j, w) ∷ d) = omega (arith, length-values d)

pub ruleset dict_laws = (get-nil, get-put, get-remove, get-save)
