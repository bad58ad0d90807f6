-- ===== src/Common/Int.antt =====
-- Signed integers over the native numbers: a `zend_long` or a `long` is one of them.
use Prim.Native.Nat.{ℕ, ◌+◌, ◌-◌, ◌%◌, ◌^◌, ◌<◌}
use mathlib.Core.Path.{◌≡◌}
use native.Mathlib.Omega.{arith}
use pht.Common.Tests.{ltb, if◌then◌else◌}

-- `negsuc n` is -(n + 1).
pub data ℤ : Type 0 where
  pos : ℕ → ℤ
  negsuc : ℕ → ℤ

-- The bit pattern of an integer at a width, and the signed number that a pattern stands for.
abbrev pub to_bits : ℕ → ℤ → ℕ
to_bits modulus (pos n) = n % modulus
to_bits modulus (negsuc n) = modulus - 1 - n % modulus

abbrev pub signed : ℕ → ℕ → ℤ
signed half w = if ltb w half then pos w else negsuc (half + half - 1 - w)

-- The range of a signed type whose largest value is `half - 1`.
abbrev pub InRange : ℕ → ℤ → Type 0
InRange half (pos n) = n < half
InRange half (negsuc n) = n < half

-- `(int) n` for a wider integer `n`.
unfoldable pub to_int32 : ℤ → ℤ
to_int32 z = signed (2 ^ 31) (to_bits (2 ^ 32) z)

pub to_int32_id : (z : ℤ) → InRange (2 ^ 31) z → to_int32 z ≡ z
unfolding to_int32
to_int32_id (pos n) h = ground arith
to_int32_id (negsuc n) h = ground arith
