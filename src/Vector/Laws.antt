-- ===== src/Vector/Laws.antt =====
-- pht_vector.c against the sequence of pointers that a vector stands for: the operations that
-- work at the end of the array or at one index.
use mathlib.Core.Path.{ap₂}
use pht.Common.{
  ℕ, suc, ◌+◌, ◌-◌, ◌*◌, ◌^◌, ◌<◌, ◌≡◌, refl, sym, ap, ◌∙◌, true, false, List, [], ◌∷◌, ◌++◌,
  append_assoc, append-nil, length, length-append, take, replicate, length-replicate, ok, Returns,
  load, store, load-append, store-append, int_max, Ptr, null, wild, ref, arith, ◌==◌, eq_false, leb,
  leb-true, leb-false, take_long,
}
use pht.Common.Int.{pos}
use pht.Vector.{Vector, space_check, push, pop, fetch_at, update_at, init, realloc}

module _ {A : Type 0} where
  -- `v` stands for `xs`: they fill its first slots, and `rest` are the spare ones.
  pub record Holds (v : Vector A) (xs rest : List (Ptr A)) : Type 0 where
    pub values : v.values ≡ xs ++ rest
    pub size : v.size ≡ length xs + length rest
    pub used : v.used ≡ length xs

  abbrev pub Models : Vector A → List (Ptr A) → Type 0
  Models v xs = (rest : List (Ptr A)) × Holds v xs rest

  -- The same with a spare slot at hand.
  abbrev pub HasRoom : Vector A → List (Ptr A) → Type 0
  HasRoom v xs = (slot : Ptr A) × (rest : List (Ptr A)) × Holds v xs (slot ∷ rest)

  pub init-Models : (n : ℕ) → Models (init {A = A} n) []
  unfolding init
  init-Models n = (
    replicate n null,
    record {
      values = refl;
      size = omega (arith, length-replicate {A = Ptr A} n null);
      used = refl;
    },
  )

  -- A full vector grows by a block of uninitialised slots.
  grown-Holds :
      (v : Vector A) (xs : List (Ptr A)) (more : ℕ)
      → Holds v xs []
      → Holds
          (record v { values = realloc v.values (v.size + more); size = v.size + more })
          xs
          (replicate more wild)
  grown-Holds v xs more h =
      let n = v.size + more in
      let whole : v.values ≡ xs = h.values ∙ append-nil xs in
      let kept : take n v.values ≡ xs = rw whole (take_long n xs (omega (arith, h.size))) in
      let count : n - length v.values ≡ more = omega (arith, ap length whole, h.size) in
      record {
        values = ap₂ (λ l k. l ++ replicate k wild) kept count;
        size = omega (arith, h.size, length-replicate {A = Ptr A} more wild);
        used = h.used;
      }

  pub space_check-HasRoom :
      (v : Vector A) (xs rest : List (Ptr A))
      → Holds v xs rest
      → length xs < 2 ^ 30
      → Returns (space_check v) (λ w. HasRoom w xs)
  unfolding space_check
  space_check-HasRoom v xs (slot ∷ rest) h small =
      let free : (v.used == v.size) ≡ false = eq_false _ _ (omega (arith, h.size, h.used)) in
      (v, rw free, (slot, rest, h))
  space_check-HasRoom v [] [] h small =
      let full : (v.used == v.size) ≡ true = ground (arith, h.size, h.used) in
      let empty : (v.size == 0) ≡ true = ground (arith, h.size) in
      let g = grown-Holds v [] 1 h in
      let e : v.size + 1 ≡ 1 = omega (arith, h.size) in (_, rw (full, empty), (wild, [], rw e at g))
  space_check-HasRoom v (x ∷ xs) [] h small =
      let full : (v.used == v.size) ≡ true = ground (arith, h.size, h.used) in
      let some_slots : (v.size == 0) ≡ false = ground (arith, h.size) in
      let fits : leb (v.size * 2) int_max ≡ true = leb-true _ _ (omega (arith, h.size)) in
      let g = grown-Holds v (x ∷ xs) (suc (length xs)) h in
      let e : v.size + suc (length xs) ≡ v.size * 2 = omega (arith, h.size) in
      (_, rw (full, some_slots, fits), (wild, replicate (length xs) wild, rw e at g))

  -- Writing the first spare slot and counting it appends an element.
  append-Holds :
      (w : Vector A) (xs rest : List (Ptr A)) (slot p : Ptr A)
      → Holds w xs (slot ∷ rest)
      → Holds (record w { values = xs ++ (p ∷ rest); used = w.used + 1 }) (xs ++ (p ∷ [])) rest
  append-Holds w xs rest slot p h = record {
    values = sym (append_assoc xs (p ∷ []) rest);
    size = omega (arith, h.size, length-append xs (p ∷ []));
    used = omega (arith, h.used, length-append xs (p ∷ []));
  }

  -- `push` on a vector that stands for a sequence of fewer than 2 ^ 30 pointers ends in a vector
  -- that stands for the sequence with the pointer at the end, whether or not the block grows.
  pub push-Models :
      (v : Vector A) (xs : List (Ptr A)) (p : Ptr A)
      → Models v xs
      → length xs < 2 ^ 30
      → Returns (push v p) (λ w. Models w (xs ++ (p ∷ [])))
  unfolding push
  push-Models v xs p (rest, h) small =
      let (w, run, (slot, spare, k)) = space_check-HasRoom v xs rest h small in
      let stored : store w.values w.used p ≡ ok (xs ++ (p ∷ spare)) =
        rw (k.values, k.used) (store-append xs spare slot p) in
      (_, rw (run, stored), (spare, append-Holds w xs spare slot p k))

  pub pop-empty : (v : Vector A) → Models v [] → pop v ≡ ok (null, v)
  unfolding pop
  pop-empty v (rest, h) = let e : (v.used == 0) ≡ true = ground (arith, h.used) in rw e

  -- `pop` on a vector that stands for a sequence with a last pointer returns this pointer, and the
  -- vector stands for the sequence before it.
  pub pop-Models :
      (v : Vector A) (xs : List (Ptr A)) (p : Ptr A)
      → Models v (xs ++ (p ∷ []))
      → Returns (pop v) (λ r. (r.0 ≡ p) × Models r.1 xs)
  unfolding pop
  pop-Models v xs p (rest, h) =
      let n : v.used ≡ suc (length xs) = omega (arith, h.used, length-append xs (p ∷ [])) in
      let e : (v.used == 0) ≡ false = ground (arith, n) in
      let i : v.used - 1 ≡ length xs = omega (arith, n) in
      let vals : v.values ≡ xs ++ (p ∷ rest) = h.values ∙ append_assoc xs (p ∷ []) rest in
      let read : load v.values (v.used - 1) ≡ ok p = rw (vals, i) (load-append xs rest p) in
      (
        (p, record v { used = v.used - 1 }),
        rw (e, read),
        (
          refl,
          (
            p ∷ rest,
            record {
              values = vals;
              size = omega (arith, h.size, length-append xs (p ∷ []));
              used = i;
            },
          ),
        ),
      )

  -- The index behind `pre`.
  module _ (v : Vector A) (pre post : List (Ptr A)) where
    inside : (p : Ptr A) → Models v (pre ++ (p ∷ post)) → length pre < v.used
    inside p (rest, h) = omega (arith, h.used, length-append pre (p ∷ post))

    split_values :
        (p : Ptr A) (m : Models v (pre ++ (p ∷ post))) → v.values ≡ pre ++ (p ∷ (post ++ m.0))
    split_values p (rest, h) = h.values ∙ append_assoc pre (p ∷ post) rest

    -- `fetch_at` at an index inside the sequence that a vector stands for returns the pointer
    -- there.
    pub fetch_at-Models :
        (p : Ptr A) → Models v (pre ++ (p ∷ post)) → fetch_at v (pos (length pre)) ≡ ok p
    unfolding fetch_at
    fetch_at-Models p m =
        let e : leb v.used (length pre) ≡ false = leb-false _ _ (inside p m) in
        rw (e, split_values p m) (load-append pre _ p)

    -- `update_at` at an index inside the sequence, where the pointer is to an entry, succeeds,
    -- deletes exactly this entry, and the vector stands for the sequence with the new pointer in
    -- its place.
    pub update_at-Models :
        (a : A) (p : Ptr A)
        → Models v (pre ++ (ref a ∷ post))
        → Returns
            (update_at v p (pos (length pre)))
            (λ r. (r.0 ≡ true) × (r.1 ≡ a ∷ []) × Models r.2 (pre ++ (p ∷ post)))
    unfolding update_at
    update_at-Models a p m =
        let e : leb v.used (length pre) ≡ false = leb-false _ _ (inside (ref a) m) in
        let vals = split_values (ref a) m in
        let read : load v.values (length pre) ≡ ok (ref a) = rw vals (load-append pre _ (ref a)) in
        let written : store v.values (length pre) p ≡ ok (pre ++ (p ∷ (post ++ m.0))) =
          rw vals (store-append pre _ (ref a) p) in
        (
          (true, a ∷ [], record v { values = pre ++ (p ∷ (post ++ m.0)) }),
          rw (e, read, written),
          (
            refl,
            refl,
            (
              m.0,
              record {
                values = sym (append_assoc pre (p ∷ post) m.0);
                size = omega (
                  arith,
                  m.1.size,
                  length-append pre (p ∷ post),
                  length-append pre (ref a ∷ post),
                );
                used = omega (
                  arith,
                  m.1.used,
                  length-append pre (p ∷ post),
                  length-append pre (ref a ∷ post),
                );
              },
            ),
          ),
        )
