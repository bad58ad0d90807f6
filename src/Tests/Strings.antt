-- ===== src/Tests/Strings.antt =====
-- src/pht_string.c on short strings.
use pht.Common.{arith, ◌↔◌, ◌≡◌, refl, true, false, [], ◌∷◌, ◌++◌}
use pht.PhtString.{Bytes, str_eq}
use pht.PhtString.Laws.{str_eq_iff, NoNul}

abbrev foo : Bytes
foo = 102 ∷ 111 ∷ 111 ∷ []

abbrev bar : Bytes
bar = 98 ∷ 97 ∷ 114 ∷ []

foo-bar : str_eq foo bar ≡ false
unfolding str_eq
foo-bar = refl

foo-foo : str_eq foo foo ≡ true
unfolding str_eq
foo-foo = refl

foo-NoNul : NoNul foo
foo-NoNul = ((λ e. omega (arith, e)), ((λ e. omega (arith, e)), ((λ e. omega (arith, e)), tt)))

str_eq_iff_example : (str_eq foo bar ≡ true) ↔ (foo ≡ bar)
str_eq_iff_example = str_eq_iff foo bar foo-NoNul

-- The strings differ behind a NUL byte.
nul_hides : str_eq (foo ++ (0 ∷ foo)) (foo ++ (0 ∷ bar)) ≡ true
unfolding str_eq
nul_hides = refl
