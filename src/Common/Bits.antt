-- ===== src/Common/Bits.antt =====
-- `bit_and`, by which the hash table finds the home of a hash.
use Prim.Native.Nat.{ℕ, zero, suc, ◌/◌, ◌≤◌, min, bit_and, digits, bit_and-bitwise}
use native.Mathlib.Omega.{arith}

abbrev and_digits : ℕ → ℕ → ℕ → ℕ
and_digits fuel a b = digits (λ _. zero) min fuel a b

-- The digit recursion stays below the mask at every fuel.
and_digits-le : (fuel a b : ℕ) → and_digits fuel a b ≤ b
and_digits-le zero zero b = omega arith
and_digits-le zero (suc a) b = omega arith
and_digits-le (suc fuel) zero b = omega arith
and_digits-le (suc fuel) (suc a) b = omega (arith, and_digits-le fuel (suc a / 2) (b / 2))

pub bit_and-le : (a b : ℕ) → bit_and a b ≤ b
bit_and-le a b = omega (arith, bit_and-bitwise a b, and_digits-le a a b)
