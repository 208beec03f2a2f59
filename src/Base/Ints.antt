-- ===== src/Base/Ints.antt =====
-- Integers over the native numbers, with their order as Boolean tests.
use Prim.Native.Nat.{ℕ}
use mathlib.Core.Path.{◌≡◌}
use mathlib.Core.Bool.{Bool, true, false, ◌&&◌, ◌||◌}
use native.Mathlib.Omega.{arith}
use nexara_prime.Base.Tests.{ltb}
use nexara_prime.Base.Equality.{◌==◌, nat_eq}

-- `negsuc n` is -(n + 1).
pub data ℤ : Type 0 where
  pos negsuc : ℕ → ℤ

abbrev pub ltz : ℤ → ℤ → Bool
ltz (pos m) (pos n) = ltb m n
ltz (pos m) (negsuc n) = false
ltz (negsuc m) (pos n) = true
ltz (negsuc m) (negsuc n) = ltb n m

abbrev pub eqz : ℤ → ℤ → Bool
eqz (pos m) (pos n) = m == n
eqz (pos m) (negsuc n) = false
eqz (negsuc m) (pos n) = false
eqz (negsuc m) (negsuc n) = m == n

-- The pair of the first is less: a greater first component, or the same and a smaller second.
abbrev pub key_before : ℤ → ℕ → ℤ → ℕ → Bool
key_before p a q b = ltz q p || (eqz p q && ltb a b)

pub key_before_irrefl : (p : ℤ) (a : ℕ) → key_before p a p a ≡ false
key_before_irrefl (pos n) a = ground arith
key_before_irrefl (negsuc n) a = ground arith

pub key_before_asym : (p q : ℤ) (a b : ℕ) → key_before p a q b ≡ true → key_before q b p a ≡ false
key_before_asym (pos m) (pos n) a b h = ground arith
key_before_asym (pos m) (negsuc n) a b h = ground arith
key_before_asym (negsuc m) (pos n) a b h = ground arith
key_before_asym (negsuc m) (negsuc n) a b h = ground arith

pub key_before_trans :
    (p q r : ℤ) (a b c : ℕ)
    → key_before r c q b ≡ false
    → key_before p a q b ≡ true
    → key_before r c p a ≡ false
key_before_trans (pos l) (pos m) (pos n) a b c h g = ground arith
key_before_trans (pos l) (pos m) (negsuc n) a b c h g = ground arith
key_before_trans (pos l) (negsuc m) (pos n) a b c h g = ground arith
key_before_trans (pos l) (negsuc m) (negsuc n) a b c h g = ground arith
key_before_trans (negsuc l) (pos m) (pos n) a b c h g = ground arith
key_before_trans (negsuc l) (pos m) (negsuc n) a b c h g = ground arith
key_before_trans (negsuc l) (negsuc m) (pos n) a b c h g = ground arith
key_before_trans (negsuc l) (negsuc m) (negsuc n) a b c h g = ground arith
