-- ===== src/Classes/VectorSizing/Filling.antt =====
-- classes/vector.c: the constructor against the sequence that a shared vector stands for.
use pht.Common.{
  ℕ, zero, suc, ◌+◌, ◌-◌, ◌^◌, ◌≤◌, ◌<◌, ◌≡◌, refl, ap, true, false, List, [], ◌∷◌, ◌++◌,
  append_assoc, append-nil, Option, none, some, ◌==◌, arith, length, length-append, replicate,
  on_value, ok, Returns, Ptr, ref,
}
use pht.Common.Int.{pos, to_int32, to_int32_id}
use pht.Vector
use pht.Vector.Laws
use pht.Vector.{Vector}
use pht.Entry.{
  Entry, Zval, Shared, Object, Heap, Zend, object_at, put_object, create_entry_from_zval,
}
use pht.Entry.Conversion.{object_at-put_object}
use pht.Classes.{returned, voi, next_version}
use pht.Classes.VectorObject.{count_version, put_content}
use pht.Classes.VectorSizing.{push_copy, push_copies, push_checked, construct}

module _ {F : Type 0} where
  -- The object at the address is a vector that stands for `xs`, at the version `vn`.
  abbrev pub Stores : ℕ → Heap F → List (Ptr (Entry F)) → ℕ → Type 0
  Stores a h xs vn =
      (s : Shared (Vector (Entry F))) × (object_at a h ≡ some (Object.vector s))
      × Laws.Models s.content xs
      × (s.vn ≡ vn)

  pub voi-at :
      (a : ℕ) (h : Heap F) (s : Shared (Vector (Entry F)))
      → object_at a h ≡ some (Object.vector s)
      → voi a h ≡ ok s
  unfolding voi
  voi-at a h s at = rw at

  put_content-Stores :
      (a : ℕ) (h : Heap F) (xs ys : List (Ptr (Entry F))) (vn : ℕ) (v : Vector (Entry F))
      → Stores a h xs vn
      → Laws.Models v ys
      → Returns (put_content a v h) (λ h'. Stores a h' ys vn)
  unfolding put_content
  put_content-Stores a h xs ys vn v (s, at, _, e) m =
      let s' : Shared (Vector (Entry F)) = record s { content = v } in
      (
        put_object a (Object.vector s') h,
        rw (voi-at a h s at),
        (s', object_at-put_object a (Object.vector s) (Object.vector s') h at, m, e),
      )

  pub count_version-Stores :
      (a : ℕ) (h : Heap F) (xs : List (Ptr (Entry F))) (vn : ℕ)
      → Stores a h xs vn
      → Returns (count_version a h) (λ h'. Stores a h' xs (next_version vn))
  unfolding count_version
  count_version-Stores a h xs vn (s, at, m, e) =
      let s' : Shared (Vector (Entry F)) = record s { vn = next_version s.vn } in
      (
        put_object a (Object.vector s') h,
        rw (voi-at a h s at),
        (
          s',
          object_at-put_object a (Object.vector s) (Object.vector s') h at,
          m,
          ap next_version e,
        ),
      )

module _ {A F : Type 0} (zend : Zend A F) (self a : ℕ) (value : Zval A F) (e : Entry F)
    (creates : (k : Heap F) → create_entry_from_zval zend self value k ≡ ok (some e, k)) where
  push_copy-Stores :
      (h : Heap F) (xs : List (Ptr (Entry F))) (vn : ℕ)
      → Stores a h xs vn
      → length xs < 2 ^ 30
      → Returns (push_copy zend self a value h) (λ h'. Stores a h' (xs ++ (ref e ∷ [])) vn)
  unfolding push_copy
  push_copy-Stores h xs vn st small =
      let (s, at, m, v) = st in
      let (w, run, m') = Laws.push-Models s.content xs (ref e) m small in
      let s' : Shared (Vector (Entry F)) = record s { content = w } in
      (
        put_object a (Object.vector s') h,
        rw (creates h, voi-at a h s at, run),
        (s', object_at-put_object a (Object.vector s) (Object.vector s') h at, m', v),
      )

  pub push_copies-Stores :
      (n : ℕ) (h : Heap F) (xs : List (Ptr (Entry F))) (vn : ℕ)
      → Stores a h xs vn
      → length xs + n ≤ 2 ^ 30
      → Returns
          (push_copies zend self a n value h)
          (λ h'. Stores a h' (xs ++ replicate n (ref e)) vn)
  unfolding push_copies
  push_copies-Stores zero h xs vn st small = (h, refl, rw (append-nil xs) st)
  push_copies-Stores (suc n) h xs vn st small =
      let (h1, one, st1) = push_copy-Stores h xs vn st (omega (arith, small)) in
      let (h2, rest, st2) =
        push_copies-Stores n h1 (xs ++ (ref e ∷ [])) vn st1
          (omega (arith, small, length-append xs (ref e ∷ []))) in
      (h2, rw one rest, rw (append_assoc xs (ref e ∷ []) (replicate n (ref e))) at st2)

  push_checked-Stores :
      (n : ℕ) (h : Heap F) (vn : ℕ)
      → Stores a h [] vn
      → suc n ≤ 2 ^ 30
      → Returns
          (push_checked zend self a n value h)
          (λ r. (r.0 ≡ returned tt) × Stores a r.1 (replicate (suc n) (ref e)) (next_version vn))
  unfolding push_checked
  push_checked-Stores n h vn st small =
      let (s, at, m, v) = st in
      let (w, run, m') = Laws.push-Models s.content [] (ref e) m (omega arith) in
      let s' : Shared (Vector (Entry F)) = record s { content = w } in
      let h1 = put_object a (Object.vector s') h in
      let st1 : Stores a h1 (ref e ∷ []) vn =
        (s', object_at-put_object a (Object.vector s) (Object.vector s') h at, m', v) in
      let (h2, fill, st2) = push_copies-Stores n h1 (ref e ∷ []) vn st1 (omega (arith, small)) in
      let (h3, count, st3) = count_version-Stores a h2 (replicate (suc n) (ref e)) vn st2 in
      ((returned tt, h3), rw (creates h, voi-at a h s at, run, fill, count), (refl, st3))

-- With `n` of at most 2 ^ 30 and memory at hand, the constructor leaves a vector of `n` copies of the
-- entry of its second argument, of the integer 0 without one, and counts the version once.
module _ {A F : Type 0} (zend : Zend A F) (self a : ℕ) where
  int32-small : (n : ℕ) → n ≤ 2 ^ 30 → to_int32 (pos n) ≡ pos n
  int32-small n small = to_int32_id (pos n) (omega (arith, small))

  positive : (n : ℕ) → (suc n == 0) ≡ false
  positive n = ground arith

  -- With memory at hand, the constructor for a size of at most 2 ^ 30 returns and leaves a vector
  -- of that many pointers to the entry of its second argument, or of the integer 0 without one, at
  -- the next version. Making the entry is to leave the heap alone.
  pub construct-Stores :
      (n : ℕ) (initial : Option (Zval A F)) (e : Entry F) (h : Heap F) (xs : List (Ptr (Entry F)))
      (vn : ℕ)
      → ((k : Heap F)
          → create_entry_from_zval zend self (on_value initial (Zval.long (pos 0)) (λ z. z)) k
            ≡ ok (some e, k))
      → n ≤ 2 ^ 30
      → Stores a h xs vn
      → Returns
          (construct zend self a true (pos n) initial h)
          (λ r. (r.0 ≡ returned tt) × Stores a r.1 (replicate n (ref e)) (next_version vn))
  unfolding construct
  construct-Stores zero initial e h xs vn creates small st =
      let (h1, put, st1) =
        put_content-Stores a h xs [] vn (Vector.init 0) st (Laws.init-Models 0) in
      let (h2, count, st2) = count_version-Stores a h1 [] vn st1 in
      ((returned tt, h2), rw (int32-small 0 small, construct, put, count), (refl, st2))
  construct-Stores (suc n) none e h xs vn creates small st =
      let (h1, put, st1) =
        put_content-Stores a h xs [] vn (Vector.init (suc n)) st (Laws.init-Models (suc n)) in
      let (h2, fill, st2) =
        push_copies-Stores zend self a (Zval.long (pos 0)) e creates (suc n) h1 [] vn st1
          (omega (arith, small)) in
      let (h3, count, st3) = count_version-Stores a h2 (replicate (suc n) (ref e)) vn st2 in
      (
        (returned tt, h3),
        rw (int32-small (suc n) small, construct, put, positive n, fill, count),
        (refl, st3),
      )
  construct-Stores (suc n) (some value) e h xs vn creates small st =
      let (h1, put, st1) =
        put_content-Stores a h xs [] vn (Vector.init (suc n)) st (Laws.init-Models (suc n)) in
      let (r, fill, st2) = push_checked-Stores zend self a value e creates n h1 vn st1 small in
      let less : suc n - 1 ≡ n = omega arith in
      (r, rw (int32-small (suc n) small, construct, put, positive n, less) fill, st2)
