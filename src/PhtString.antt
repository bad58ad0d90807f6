-- ===== src/PhtString.antt =====
-- src/pht_string.c: byte strings with a length. A `pht_string_t` stands for its bytes: `val` holds
-- them and a NUL after them (pht_str_set_len, pht_str_new, pht_str_update), so `len` is the
-- number of bytes.
pub mod Laws
use pht.Common.{
  ℕ, zero, suc, Bool, true, false, ◌&&◌, ◌==◌, List, [], ◌∷◌, length, if◌then◌else◌, take,
}

abbrev pub Bytes : Type 0
Bytes = List ℕ

-- pht_str_new and pht_str_update copy `len` bytes of the source text.
unfoldable pub copy : Bytes → ℕ → Bytes
copy s len = take len s

-- Whether `strncmp` of the C library returns 0: it compares at most `n` bytes, and stops at a NUL.
-- Behind the bytes of a string stands its terminating NUL.
unfoldable pub strncmp_zero : ℕ → Bytes → Bytes → Bool
strncmp_zero zero s t = true
strncmp_zero (suc n) [] [] = true
strncmp_zero (suc n) [] (b ∷ t) = b == 0
strncmp_zero (suc n) (a ∷ s) [] = a == 0
strncmp_zero (suc n) (a ∷ s) (b ∷ t) =
    let rest = strncmp_zero n s t in if a == b then (if a == 0 then true else rest) else false

unfoldable pub str_eq : Bytes → Bytes → Bool
unfolding strncmp_zero
str_eq s t = length s == length t && strncmp_zero (length t) s t
