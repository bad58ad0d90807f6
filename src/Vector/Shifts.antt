-- ===== src/Vector/Shifts.antt =====
-- pht_vector.c against the sequence of pointers: the operations that move elements.
use pht.Common.{
  ℕ, zero, suc, ◌+◌, ◌-◌, ◌^◌, ◌≤◌, ◌<◌, ◌≡◌, refl, sym, ap, ◌∙◌, true, false, List, [], ◌∷◌, ◌++◌,
  append_assoc, append-nil, length, length-append, length-set, Run, ok, fault, ◌>>=◌, Returns, load,
  load-append, store-append, load-get, store-set, load-fault, Ptr, null, wild, ref, target, arith,
  ◌==◌, leb, ltb, leb-false, Bool-cases, inl, inr, get_elem?-bound, set,
}
use pht.Common.Int.{pos}
use pht.Vector.{Vector, Change, shift_down, shift_up, shift, unshift, insert_at, delete_at}
use pht.Vector.Laws.{Holds, Models, space_check-HasRoom}
use pht.Vector.Moves.{last_of, first_of_row, shift_down_lem, shift_up_lem}

module _ {A : Type 0} where
  pub shift-empty : (v : Vector A) → Models v [] → shift v ≡ ok (null, v)
  unfolding shift
  shift-empty v (rest, h) = let e : (v.used == 0) ≡ true = ground (arith, h.used) in rw e

  -- `shift` on a vector that stands for a sequence with a first pointer returns this pointer, and
  -- the vector stands for the rest, in order.
  pub shift-Models :
      (v : Vector A) (p : Ptr A) (xs : List (Ptr A))
      → Models v (p ∷ xs)
      → Returns (shift v) (λ r. (r.0 ≡ p) × Models r.1 xs)
  unfolding shift
  shift-Models v p xs (rest, h) =
      let e : (v.used == 0) ≡ false = ground (arith, h.used) in
      let rounds : v.used - 1 ≡ length xs = omega (arith, h.used) in
      let read : load v.values 0 ≡ ok p = rw h.values in
      let moved : shift_down (v.used - 1) 1 v.values ≡ ok (xs ++ (last_of p xs ∷ rest)) =
        rw (h.values, rounds) (shift_down_lem [] xs rest p) in
      (
        (p, record v { values = xs ++ (last_of p xs ∷ rest); used = v.used - 1 }),
        rw (e, read, moved),
        (
          refl,
          (
            last_of p xs ∷ rest,
            record { values = refl; size = omega (arith, h.size); used = rounds },
          ),
        ),
      )

  -- Room for one more element in the middle of a sequence.
  open_gap :
      (w : Vector A) (pre post rest : List (Ptr A)) (slot : Ptr A)
      → Holds w (pre ++ post) (slot ∷ rest)
      → shift_up (w.used - length pre) w.used w.values
        ≡ ok (pre ++ (first_of_row post slot ∷ (post ++ rest)))
  open_gap w pre post rest slot h =
      let n : w.used ≡ length pre + length post = omega (arith, h.used, length-append pre post) in
      let rounds : length pre + length post - length pre ≡ length post = omega arith in
      let vals : w.values ≡ pre ++ (post ++ (slot ∷ rest)) =
        h.values ∙ append_assoc pre post (slot ∷ rest) in
      rw (vals, n, rounds) (shift_up_lem pre post rest slot)

  gap-Holds :
      (w : Vector A) (pre post rest : List (Ptr A)) (slot p : Ptr A)
      → Holds w (pre ++ post) (slot ∷ rest)
      → Holds
          (record w { values = pre ++ (p ∷ (post ++ rest)); used = w.used + 1 })
          (pre ++ (p ∷ post))
          rest
  gap-Holds w pre post rest slot p h = record {
    values = sym (append_assoc pre (p ∷ post) rest);
    size = omega (arith, h.size, length-append pre post, length-append pre (p ∷ post));
    used = omega (arith, h.used, length-append pre post, length-append pre (p ∷ post));
  }

  -- `unshift` on a vector that stands for a sequence of fewer than 2 ^ 30 pointers ends in a
  -- vector that stands for the sequence with the pointer before all others.
  pub unshift-Models :
      (v : Vector A) (xs : List (Ptr A)) (p : Ptr A)
      → Models v xs
      → length xs < 2 ^ 30
      → Returns (unshift v p) (λ w. Models w (p ∷ xs))
  unfolding unshift
  unshift-Models v xs p (rest, h) small =
      let (w, run, (slot, spare, k)) = space_check-HasRoom v xs rest h small in
      let zero_less : w.used - 0 ≡ w.used = omega arith in
      let moved = rw zero_less at (open_gap w [] xs spare slot k) in
      (
        record w { values = p ∷ (xs ++ spare); used = w.used + 1 },
        rw (run, moved),
        (spare, gap-Holds w [] xs spare slot p k),
      )

  -- `insert_at` at an index inside or at the end of a sequence of fewer than 2 ^ 30 pointers
  -- succeeds, and the vector stands for the sequence with the pointer put in at this index.
  pub insert_at-Models :
      (v : Vector A) (pre post : List (Ptr A)) (p : Ptr A)
      → Models v (pre ++ post)
      → length (pre ++ post) < 2 ^ 30
      → Returns
          (insert_at v p (pos (length pre)))
          (λ r. (r.0 ≡ true) × Models r.1 (pre ++ (p ∷ post)))
  unfolding insert_at
  insert_at-Models v pre post p (rest, h) small =
      let e : ltb v.used (length pre) ≡ false = ground (arith, h.used, length-append pre post) in
      let (w, run, (slot, spare, k)) = space_check-HasRoom v (pre ++ post) rest h small in
      let moved = open_gap w pre post spare slot k in
      let stored = store-append pre (post ++ spare) (first_of_row post slot) p in
      (
        (true, record w { values = pre ++ (p ∷ (post ++ spare)); used = w.used + 1 }),
        rw (e, run, moved, stored),
        (refl, (spare, gap-Holds w pre post spare slot p k)),
      )

  -- `delete_at` at an index inside the sequence, where the pointer is to an entry and the block
  -- has a spare slot, succeeds, deletes exactly this entry, and the vector stands for the sequence
  -- without it.
  pub delete_at-Models :
      (v : Vector A) (pre post : List (Ptr A)) (a : A)
      → Models v (pre ++ (ref a ∷ post))
      → v.used < v.size
      → Returns
          (delete_at v (pos (length pre)))
          (λ r. (r.0 ≡ true) × (r.1 ≡ a ∷ []) × Models r.2 (pre ++ post))
  unfolding delete_at
  delete_at-Models v pre post a ([], h) spare = absurd (omega (arith, h.size, h.used))
  delete_at-Models v pre post a (slot ∷ rest, h) spare =
      let i = length pre in
      let n : v.used ≡ i + suc (length post) =
        omega (arith, h.used, length-append pre (ref a ∷ post)) in
      let e : leb v.used i ≡ false = leb-false _ _ (omega (arith, n)) in
      let vals : v.values ≡ pre ++ (ref a ∷ (post ++ (slot ∷ rest))) =
        h.values ∙ append_assoc pre (ref a ∷ post) (slot ∷ rest) in
      let read : load v.values i ≡ ok (ref a) = rw vals (load-append pre _ (ref a)) in
      let row = post ++ (slot ∷ []) in
      let rounds : v.used - i ≡ length row = omega (arith, n, length-append post (slot ∷ [])) in
      let last = last_of (ref a) row in
      let vals' : v.values ≡ pre ++ (ref a ∷ (row ++ rest)) =
        vals ∙ ap (λ t. pre ++ (ref a ∷ t)) (sym (append_assoc post (slot ∷ []) rest)) in
      let moved : shift_down (v.used - i) (i + 1) v.values ≡ ok (pre ++ (row ++ (last ∷ rest))) =
        rw (vals', rounds) (shift_down_lem pre row rest (ref a)) in
      let left : pre ++ (row ++ (last ∷ rest)) ≡ (pre ++ post) ++ (slot ∷ last ∷ rest) =
        ap (λ t. pre ++ t) (append_assoc post (slot ∷ []) (last ∷ rest))
        ∙ sym (append_assoc pre post (slot ∷ last ∷ rest)) in
      (
        (true, a ∷ [], record v { values = pre ++ (row ++ (last ∷ rest)); used = v.used - 1 }),
        rw (e, read, moved),
        (
          refl,
          refl,
          (
            slot ∷ last ∷ rest,
            record {
              values = left;
              size =
                  omega (arith, h.size, length-append pre post, length-append pre (ref a ∷ post));
              used = omega (arith, n, length-append pre post);
            },
          ),
        ),
      )

  -- A loop that runs past the block ends in undefined behaviour.
  shift_down_overrun :
      (rounds i : ℕ) (xs : List (Ptr A))
      → 0 < i
      → i ≤ length xs
      → length xs < i + rounds
      → shift_down rounds i xs ≡ fault
  unfolding shift_down
  shift_down_overrun zero i xs low inside over = absurd (omega arith)
  shift_down_overrun (suc rounds) i xs low inside over = elim (Bool-cases (i == length xs)) [
    | inl e ↦ rw (load-fault xs i (ground arith))
    | inr e ↦
        let (x, got) = get_elem?-bound xs i (ground arith) in
        rw (load-get xs i got, store-set xs (i - 1) x (omega arith))
          (shift_down_overrun rounds (i + 1) (set xs (i - 1) x) (omega arith)
            (ground (arith, length-set xs (i - 1) x)) (omega (arith, length-set xs (i - 1) x)))
  ]

  -- In a vector whose block has no spare slot, `delete_at` at every index inside the sequence
  -- reads past the end of the block.
  pub delete_at-full :
      (v : Vector A) (xs : List (Ptr A)) (i : ℕ)
      → Holds v xs []
      → i < length xs
      → delete_at v (pos i) ≡ fault
  unfolding delete_at
  delete_at-full v xs i h inside =
      let e : leb v.used i ≡ false = leb-false _ _ (omega (arith, h.used)) in
      let n : length v.values ≡ length xs = ap length (h.values ∙ append-nil xs) in
      let over : shift_down (v.used - i) (i + 1) v.values ≡ fault =
        shift_down_overrun (v.used - i) (i + 1) v.values (omega arith) (omega (arith, n))
          (omega (arith, n, h.used)) in
      let (old, got) = get_elem?-bound v.values i (omega (arith, n)) in
      rw (e, load-get v.values i got, over) (stuck old)
    where
      stuck : (old : Ptr A) → (target old >>= λ _. (let r : Run (Change A) = fault in r)) ≡ fault
      stuck null = refl
      stuck wild = refl
      stuck (ref a) = refl
