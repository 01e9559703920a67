-- ===== src/Base/Integers.antt =====
-- The integers over the native numbers, as JSON numbers without a fraction are read.
use Prim.Native.Nat.{ℕ}

pub data ℤ : Type 0 where
  pos : ℕ → ℤ
  negsuc : ℕ → ℤ

-- The value of a positive integer, and 0 for the others.
abbrev pub positive_part : ℤ → ℕ
positive_part (pos n) = n
positive_part (negsuc n) = 0
