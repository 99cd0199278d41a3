-- ===== src/Prelude/Int.antt =====
-- Signed integers over the native numbers, under the library's names: the return codes of
-- libfabric.
use Prim.Native.Nat.{ℕ, ◌+◌}
use mathlib.Core.Bool.{Bool, false}
use vdma.Prelude.Tests.{◌==◌, ltb}

-- `negsuc n` is -(n + 1).
pub data ℤ : Type 0 where
  pos : ℕ → ℤ
  negsuc : ℕ → ℤ

abbrev pub is_zero : ℤ → Bool
is_zero (pos n) = n == 0
is_zero (negsuc n) = false

-- Whether the code is -n, for an error number n above 0.
abbrev pub is_negative : ℕ → ℤ → Bool
is_negative n (pos m) = false
is_negative n (negsuc m) = m + 1 == n

abbrev pub is_positive : ℤ → Bool
is_positive (pos n) = ltb 0 n
is_positive (negsuc n) = false

-- `as usize` of a code that is not negative.
abbrev pub magnitude : ℤ → ℕ
magnitude (pos n) = n
magnitude (negsuc n) = 0
