-- ===== src/PhtString/Laws.antt =====
-- pht_string.c: pht_str_eq as a relation on byte strings.
use pht.Common.{
  ℕ, zero, suc, ◌≡◌, ◌≢◌, ◌↔◌, refl, true, [], ◌∷◌, ◌++◌, length, length-append, arith,
}
use pht.PhtString.{Bytes, strncmp_zero, str_eq}

strncmp_zero_refl : (s : Bytes) → strncmp_zero (length s) s s ≡ true
unfolding strncmp_zero
strncmp_zero_refl [] = refl
strncmp_zero_refl (a ∷ s) = ground (arith, strncmp_zero_refl s)

pub str_eq_refl : (s : Bytes) → str_eq s s ≡ true
unfolding str_eq
str_eq_refl s = ground (arith, strncmp_zero_refl s)

strncmp_zero_symm : (n : ℕ) (s t : Bytes) → strncmp_zero n s t ≡ strncmp_zero n t s
unfolding strncmp_zero
strncmp_zero_symm zero s t = refl
strncmp_zero_symm (suc n) [] [] = refl
strncmp_zero_symm (suc n) [] (b ∷ t) = refl
strncmp_zero_symm (suc n) (a ∷ s) [] = refl
strncmp_zero_symm (suc n) (a ∷ s) (b ∷ t) = ground (arith, strncmp_zero_symm n s t)

strncmp_zero_trans :
    (n : ℕ) (s t u : Bytes)
    → strncmp_zero n s t ≡ true
    → strncmp_zero n t u ≡ true
    → strncmp_zero n s u ≡ true
unfolding strncmp_zero
strncmp_zero_trans zero s t u h k = refl
strncmp_zero_trans (suc n) [] [] u h k = k
strncmp_zero_trans (suc n) (a ∷ s) [] [] h k = h
strncmp_zero_trans (suc n) (a ∷ s) [] (c ∷ u) h k = ground arith
strncmp_zero_trans (suc n) [] (b ∷ t) [] h k = refl
strncmp_zero_trans (suc n) [] (b ∷ t) (c ∷ u) h k = ground arith
strncmp_zero_trans (suc n) (a ∷ s) (b ∷ t) [] h k = ground arith
strncmp_zero_trans (suc n) (a ∷ s) (b ∷ t) (c ∷ u) h k = ground (arith, strncmp_zero_trans n s t u)

pub str_eq_symm : (s t : Bytes) → str_eq s t ≡ str_eq t s
unfolding str_eq
str_eq_symm s t = ground (arith, strncmp_zero_symm (length t) s t)

pub str_eq_trans : (s t u : Bytes) → str_eq s t ≡ true → str_eq t u ≡ true → str_eq s u ≡ true
unfolding str_eq
str_eq_trans s t u h k = ground (arith, strncmp_zero_trans (length u) s t u)

abbrev pub NoNul : Bytes → Type 0
NoNul [] = Unit
NoNul (a ∷ s) = (a ≢ 0) × NoNul s

strncmp_zero-eq :
    (s t : Bytes) → NoNul s → length s ≡ length t → strncmp_zero (length t) s t ≡ true → s ≡ t
unfolding strncmp_zero
strncmp_zero-eq [] [] n e h = refl
strncmp_zero-eq [] (b ∷ t) n e h = absurd (omega arith)
strncmp_zero-eq (a ∷ s) [] n e h = absurd (omega arith)
strncmp_zero-eq (a ∷ s) (b ∷ t) (nz, n) e h = ground (arith, strncmp_zero-eq s t n)

-- For a first string without NUL bytes, pht_str_eq holds exactly where the two strings are the
-- same.
pub str_eq_iff : (s t : Bytes) → NoNul s → (str_eq s t ≡ true) ↔ (s ≡ t)
str_eq_iff s t n = (to, λ e. rw e (str_eq_refl t))
  where
    to : str_eq s t ≡ true → s ≡ t
    to h = unfold str_eq in strncmp_zero-eq s t n (ground arith) (ground arith)

strncmp_zero-nul :
    (p s t : Bytes) (n : ℕ) → NoNul p → strncmp_zero n (p ++ (0 ∷ s)) (p ++ (0 ∷ t)) ≡ true
unfolding strncmp_zero
strncmp_zero-nul p s t zero n = refl
strncmp_zero-nul [] s t (suc k) n = refl
strncmp_zero-nul (a ∷ p) s t (suc k) (nz, n) = ground (arith, strncmp_zero-nul p s t k n)

-- Two strings that agree up to a NUL byte, with no NUL before it, and go on in any way for one
-- length are taken for equal.
pub str_eq-nul :
    (p s t : Bytes) → NoNul p → length s ≡ length t → str_eq (p ++ (0 ∷ s)) (p ++ (0 ∷ t)) ≡ true
unfolding str_eq
str_eq-nul p s t n e = ground (
  arith,
  length-append p (0 ∷ s),
  length-append p (0 ∷ t),
  strncmp_zero-nul p s t (length (p ++ (0 ∷ t))) n,
)
