-- ===== src/Prelude/Int.antt =====
-- Signed integers over the native numbers, for Go's `int` where the sign matters.
use Prim.Native.Nat.{ℕ}
use mathlib.Core.Bool.{Bool, true, false}
use notes_microservices.Prelude.Tests.{ltb, leb}

-- `negsuc n` is -(n + 1).
pub data ℤ : Type 0 where
  pos : ℕ → ℤ
  negsuc : ℕ → ℤ

-- a > n, for a numeral n
abbrev pub gtb_ℤ : ℤ → ℕ → Bool
gtb_ℤ (pos a) n = ltb n a
gtb_ℤ (negsuc a) n = false

-- a < 0
abbrev pub is_neg : ℤ → Bool
is_neg (pos a) = false
is_neg (negsuc a) = true

-- a <= 0
abbrev pub is_nonpos : ℤ → Bool
is_nonpos (pos a) = leb a 0
is_nonpos (negsuc a) = true

-- a <= b
abbrev pub leb_ℤ : ℤ → ℤ → Bool
leb_ℤ (pos a) (pos b) = leb a b
leb_ℤ (pos a) (negsuc b) = false
leb_ℤ (negsuc a) (pos b) = true
leb_ℤ (negsuc a) (negsuc b) = leb b a
