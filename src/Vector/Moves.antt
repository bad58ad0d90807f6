-- ===== src/Vector/Moves.antt =====
-- The two loops that move a block of slots by one place.
use pht.Common.{
  ℕ, zero, suc, ◌+◌, ◌-◌, ◌≤◌, ◌≡◌, refl, ap, ◌∙◌, sym, List, [], ◌∷◌, ◌++◌, length, Run, ok, ◌>>=◌,
  load, store, prepend, Ptr, arith, fault, blocked, prepend-bind_load, >>=_assoc,
}
use mathlib.Core.Path.{fun_ext}
use pht.Vector.{shift_down, shift_up}

module _ {A : Type 0} where
  -- The last of a non-empty row, and the first of a row that ends in `x`.
  abbrev pub last_of : Ptr A → List (Ptr A) → Ptr A
  last_of x [] = x
  last_of x (y ∷ ys) = last_of y ys

  abbrev pub first_of_row : List (Ptr A) → Ptr A → Ptr A
  first_of_row [] x = x
  first_of_row (y ∷ ys) x = y

  abbrev pub prepend_all : List (Ptr A) → Run (List (Ptr A)) → Run (List (Ptr A))
  prepend_all [] r = r
  prepend_all (x ∷ xs) r = prepend x (prepend_all xs r)

  pub prepend_all-ok : (xs ys : List (Ptr A)) → prepend_all xs (ok ys) ≡ ok (xs ++ ys)
  prepend_all-ok [] ys = refl
  prepend_all-ok (x ∷ xs) ys = rw (prepend_all-ok xs ys)

  -- A loop that starts above the first slot leaves that slot alone.
  shift_down-prepend :
      (rounds i : ℕ) (x : Ptr A) (xs : List (Ptr A))
      → shift_down rounds (suc (suc i)) (x ∷ xs) ≡ prepend x (shift_down rounds (suc i) xs)
  unfolding shift_down
  shift_down-prepend zero i x xs = refl
  shift_down-prepend (suc rounds) i x xs =
      let e1 : suc (suc i) - 1 ≡ suc i = omega arith in
      let e2 : suc i - 1 ≡ i = omega arith in
      let e3 : suc (suc i) + 1 ≡ suc (suc (suc i)) = omega arith in
      let e4 : suc i + 1 ≡ suc (suc i) = omega arith in
      rw (e1, e2, e3, e4)
        (prepend-bind_load x _ _ (λ ys. shift_down-prepend rounds (suc i) x ys) (load xs (suc i))
          (store xs i))

  -- Moving a row down over the slot below it repeats the row's last element.
  shift_down_row :
      (mid post : List (Ptr A)) (x : Ptr A)
      → shift_down (length mid) 1 (x ∷ (mid ++ post)) ≡ ok (mid ++ (last_of x mid ∷ post))
  unfolding shift_down
  shift_down_row [] post x = refl
  shift_down_row (y ∷ mid) post x =
      shift_down-prepend (length mid) 0 y (y ∷ (mid ++ post))
      ∙ ap (prepend y) (shift_down_row mid post y)

  shift_down-prepend_all :
      (rounds : ℕ) (pre xs : List (Ptr A))
      → shift_down rounds (length pre + 1) (pre ++ xs) ≡ prepend_all pre (shift_down rounds 1 xs)
  shift_down-prepend_all rounds [] xs = refl
  shift_down-prepend_all rounds (x ∷ pre) xs =
      let e : suc (length pre) + 1 ≡ suc (suc (length pre)) = omega arith in
      let e' : length pre + 1 ≡ suc (length pre) = omega arith in
      rw e (
        shift_down-prepend rounds (length pre) x (pre ++ xs)
        ∙ ap (prepend x) (rw (← e') (shift_down-prepend_all rounds pre xs)))

  pub shift_down_lem :
      (pre mid post : List (Ptr A)) (x : Ptr A)
      → shift_down (length mid) (length pre + 1) (pre ++ (x ∷ (mid ++ post)))
        ≡ ok (pre ++ (mid ++ (last_of x mid ∷ post)))
  shift_down_lem pre mid post x =
      shift_down-prepend_all (length mid) pre (x ∷ (mid ++ post))
      ∙ ap (prepend_all pre) (shift_down_row mid post x)
      ∙ prepend_all-ok pre _

  shift_up-prepend :
      (rounds i : ℕ) (x : Ptr A) (xs : List (Ptr A))
      → rounds ≤ i
      → shift_up rounds (suc i) (x ∷ xs) ≡ prepend x (shift_up rounds i xs)
  unfolding shift_up
  shift_up-prepend zero i x xs h = refl
  shift_up-prepend (suc rounds) zero x xs h = absurd (omega arith)
  shift_up-prepend (suc rounds) (suc i) x xs h =
      let e1 : suc (suc i) - 1 ≡ suc i = omega arith in
      let e2 : suc i - 1 ≡ i = omega arith in
      rw (e1, e2)
        (prepend-bind_load x _ _ (λ ys. shift_up-prepend rounds i x ys (omega arith)) (load xs i)
          (store xs (suc i)))

  abbrev move_up : ℕ → List (Ptr A) → Run (List (Ptr A))
  move_up i xs = load xs (i - 1) >>= store xs i

  shift_up_first :
      (rounds i : ℕ) (xs : List (Ptr A))
      → shift_up (suc rounds) i xs ≡ (move_up i xs >>= shift_up rounds (i - 1))
  unfolding shift_up
  shift_up_first rounds i xs =
      sym (>>=_assoc (load xs (i - 1)) (store xs i) (shift_up rounds (i - 1)))

  -- The last round of the loop, split off.
  shift_up_last :
      (rounds i : ℕ) (xs : List (Ptr A))
      → shift_up (suc rounds) i xs ≡ (shift_up rounds i xs >>= move_up (i - rounds))
  shift_up_last zero i xs =
      let e : i - 0 ≡ i = omega arith in
      let two : shift_up 0 i xs ≡ ok xs = unfold shift_up in refl in
      let one : shift_up 1 i xs ≡ move_up i xs = shift_up_first 0 i xs ∙ only (move_up i xs) in
      rw (two, e) one
    where
      only : (r : Run (List (Ptr A))) → (r >>= shift_up 0 (i - 1)) ≡ r
      only fault = refl
      only blocked = refl
      only (ok ys) = unfold shift_up in refl
  shift_up_last (suc rounds) i xs =
      let e : i - 1 - rounds ≡ i - suc rounds = omega arith in
      let step : (ys : List (Ptr A))
          → shift_up (suc rounds) (i - 1) ys
            ≡ (shift_up rounds (i - 1) ys >>= move_up (i - suc rounds)) =
        λ ys. rw (← e) (shift_up_last rounds (i - 1) ys) in
      shift_up_first (suc rounds) i xs
      ∙ ap (λ k. move_up i xs >>= k) (fun_ext step)
      ∙ sym (>>=_assoc (move_up i xs) (shift_up rounds (i - 1)) (move_up (i - suc rounds)))
      ∙ ap (λ r. r >>= move_up (i - suc rounds)) (sym (shift_up_first rounds i xs))

  -- Moving a row up over the slot above it repeats the row's first element.
  shift_up_row :
      (mid post : List (Ptr A)) (x : Ptr A)
      → shift_up (length mid) (length mid) (mid ++ (x ∷ post))
        ≡ ok (first_of_row mid x ∷ (mid ++ post))
  shift_up_row [] post x = unfold shift_up in refl
  shift_up_row (m ∷ mid) post x =
      let n = length mid in
      let e : suc n - n ≡ 1 = omega arith in
      let first : shift_up n (suc n) (m ∷ (mid ++ (x ∷ post)))
          ≡ ok (m ∷ first_of_row mid x ∷ (mid ++ post)) =
        shift_up-prepend n n m (mid ++ (x ∷ post)) (omega arith)
        ∙ ap (prepend m) (shift_up_row mid post x) in
      shift_up_last n (suc n) (m ∷ (mid ++ (x ∷ post))) ∙ rw (first, e)

  pub shift_up_lem :
      (pre mid post : List (Ptr A)) (x : Ptr A)
      → shift_up (length mid) (length pre + length mid) (pre ++ (mid ++ (x ∷ post)))
        ≡ ok (pre ++ (first_of_row mid x ∷ (mid ++ post)))
  shift_up_lem [] mid post x =
      let e : 0 + length mid ≡ length mid = omega arith in rw e (shift_up_row mid post x)
  shift_up_lem (p ∷ pre) mid post x =
      let e : suc (length pre) + length mid ≡ suc (length pre + length mid) = omega arith in
      rw e (
        shift_up-prepend (length mid) (length pre + length mid) p _ (omega arith)
        ∙ ap (prepend p) (shift_up_lem pre mid post x))
