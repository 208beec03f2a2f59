-- ===== src/Base/Text.antt =====
-- Python's order on texts, by code points, the shorter text first where one begins the other; and
-- `join` and `strip`.
use Prim.Native.Nat.{ℕ, compare, Ordering}
use Prim.Native.Char.{code}
use Prim.Native.String.{String, ◌++◌ as ◌<>◌}
use mathlib.Core.Bool.{Bool, true, false, ◌&&◌, ◌||◌}
use mathlib.Core.List.{List, [], ◌∷◌}
use nexara_prime.Base.Tests.{leb}
use nexara_prime.Base.Equality.{◌==◌, nat_eq}
use nexara_prime.Base.Lists.{all}

abbrev pub codes : String → List ℕ
codes String.[] = []
codes (String.◌∷◌ c s) = code c ∷ codes s

codes_lt : List ℕ → List ℕ → Bool
codes_lt [] [] = false
codes_lt [] (y ∷ ys) = true
codes_lt (x ∷ xs) [] = false
codes_lt (x ∷ xs) (y ∷ ys) =
    let rest = codes_lt xs ys in
    elim (compare x y) [ Ordering.lt ↦ true | Ordering.eq ↦ rest | Ordering.gt ↦ false ]

unfoldable pub str_lt : String → String → Bool
unfolding codes_lt
str_lt s t = codes_lt (codes s) (codes t)

-- `sep.join(texts)`
abbrev pub join : String → List String → String
join sep [] = ""
join sep (t ∷ []) = t
join sep (t ∷ u ∷ ts) = t <> sep <> join sep (u ∷ ts)

-- `str.isspace` at one code point
abbrev white : ℕ → Bool
white c =
    leb 9 c && leb c 13
    || leb 28 c && leb c 32
    || c == 133
    || c == 160
    || c == 5760
    || leb 8192 c && leb c 8202
    || c == 8232
    || c == 8233
    || c == 8239
    || c == 8287
    || c == 12288

-- `not text.strip()`
unfoldable pub is_blank : String → Bool
is_blank s = all white (codes s)
