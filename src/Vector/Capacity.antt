-- ===== src/Vector/Capacity.antt =====
-- pht_vector.c: how far the block of a vector grows.
use pht.Common.{
  ℕ, ◌+◌, ◌*◌, ◌^◌, ◌<◌, ◌≤◌, ◌≡◌, refl, List, [], ◌∷◌, ◌++◌, append_assoc, append-nil, length,
  length-append, Run, ok, ◌>>=◌, Returns, bind-ok, store, int_max, Ptr, arith, ◌==◌, leb, as_int,
  Bool-cases, ◌⊎◌, inl, inr, if◌then◌else◌,
}
use pht.Vector.{Vector, space_check, push, init, realloc}
use pht.Vector.Laws.{Models, init-Models, push-Models}

grown_size : (k size : ℕ) → (if k == 0 then ok 1 else as_int (k * 2)) ≡ ok size → size ≤ 2 * (k + 1)
grown_size k size h = elim (Bool-cases (k == 0)) [
  | inl zero' ↦ let e = rw zero' at h in let same : 1 ≡ size = cc in omega (arith, same)
  | inr more ↦
      let e = rw more at h in
      elim (Bool-cases (leb (k * 2) int_max)) [
        | inl fits ↦ let e' = rw fits at e in let same : k * 2 ≡ size = cc in omega (arith, same)
        | inr over ↦ let e' = rw over at e in absurd cc
      ]
]

module _ {A : Type 0} where
  -- pht_vector_push for each value in turn.
  unfoldable pub push_all : Vector A → List (Ptr A) → Run (Vector A)
  push_all v [] = ok v
  push_all v (x ∷ xs) = push v x >>= λ w. push_all w xs

  -- The block is the first one or at most twice as large as what is in use.
  abbrev pub IsBounded : ℕ → Vector A → Type 0
  IsBounded n v = (v.size ≤ n) ⊎ (v.size ≤ 2 * v.used)

  -- The block after space_check, for the vector that has one more value.
  space_check-size :
      (n : ℕ) (v w : Vector A)
      → IsBounded n v
      → space_check v ≡ ok w
      → (w.used ≡ v.used) × ((w.size ≤ n) ⊎ (w.size ≤ 2 * (v.used + 1)))
  unfolding space_check
  space_check-size n v w b run = elim (Bool-cases (v.used == v.size)) [
    | inl full ↦
        let run' = rw full at run in
        let (size, sized, e) = bind-ok (if v.size == 0 then ok 1 else as_int (v.size * 2)) _ run' in
        let same : record v { values = realloc v.values size; size = size } ≡ w = cc in
        let all : v.used ≡ v.size = ground (arith, full) in
        rw (← same) (refl, inr (omega (arith, grown_size v.size size sized, all)))
    | inr free ↦
        let run' = rw free at run in
        let same : v ≡ w = cc in
        rw (← same) (refl, elim b [ inl k ↦ inl k | inr k ↦ inr (omega (arith, k)) ])
  ]

  push-IsBounded :
      (n : ℕ) (v w : Vector A) (x : Ptr A) → IsBounded n v → push v x ≡ ok w → IsBounded n w
  unfolding push
  push-IsBounded n v w x b run =
      let (u, checked, e) = bind-ok (space_check v) _ run in
      let (values, stored, e') = bind-ok (store u.values u.used x) _ e in
      let (used, size) = space_check-size n v u b checked in
      let same : record u { values = values; used = u.used + 1 } ≡ w = cc in
      rw (← same) (elim size [ inl k ↦ inl k | inr k ↦ inr (omega (arith, k, used)) ])

  pub push_all-IsBounded :
      (n : ℕ) (v : Vector A) (ys xs : List (Ptr A))
      → Models v ys
      → IsBounded n v
      → length ys + length xs ≤ 2 ^ 30
      → Returns (push_all v xs) (λ w. Models w (ys ++ xs) × IsBounded n w)
  unfolding push_all
  push_all-IsBounded n v ys [] m b small = (v, refl, (rw (append-nil ys) m, b))
  push_all-IsBounded n v ys (x ∷ xs) m b small =
      let (w, run, m') = push-Models v ys x m (omega arith) in
      let size = length-append ys (x ∷ []) in
      let (w', run', (m'', b')) =
        push_all-IsBounded n w (ys ++ (x ∷ [])) xs m' (push-IsBounded n v w x b run)
          (omega (arith, size)) in
      (w', rw run run', (rw (← append_assoc ys (x ∷ []) xs) m'', b'))

  -- Pushing fewer than 2 ^ 30 values one after the other onto a new vector of any size that an
  -- `int` holds returns; the vector stands for the values in order, and its block is the first one
  -- or at most twice as large as the number of values, and in every case its size fits an `int`.
  pub push_all-init :
      (n : ℕ) (xs : List (Ptr A))
      → n ≤ int_max
      → length xs < 2 ^ 30
      → Returns
          (push_all (init n) xs)
          (λ v. Models v xs × ((v.size ≤ n) ⊎ (v.size ≤ 2 * length xs)) × (v.size ≤ int_max))
  unfolding init
  push_all-init n xs fits small =
      let (v, run, (m, b)) =
        push_all-IsBounded n (init n) [] xs (init-Models n) (inl (omega arith)) (omega arith) in
      let used : v.used ≡ length xs = m.1.used in
      (
        v,
        run,
        (
          m,
          elim b [ inl k ↦ inl k | inr k ↦ inr (omega (arith, k, used)) ],
          elim b [ inl k ↦ omega (arith, k) | inr k ↦ omega (arith, k, used) ],
        ),
      )
