-- ===== src/Classes/VectorSizing/Growing.antt =====
-- classes/vector.c: `resize` to more elements than the vector has.
use pht.Common.{
  ℕ, suc, ◌-◌, ◌^◌, ◌≤◌, ◌<◌, ◌≡◌, ◌≢◌, refl, sym, ap, ◌∙◌, true, false, List, [], ◌∷◌, ◌++◌,
  append_assoc, Option, none, some, ltb, ◌==◌, eq_false, arith, length, length-append, take,
  take-append, replicate, length-replicate, on_value, ok, Returns, Ptr, wild, ref,
}
use pht.Common.Int.{pos}
use pht.Vector.Laws as Laws
use pht.Vector.{Vector}
use pht.Entry.{
  Entry, Zval, Shared, Object, Heap, Zend, object_at, put_object, create_entry_from_zval,
}
use pht.Entry.Conversion.{object_at-put_object}
use pht.Classes.{returned, next_version}
use pht.Classes.VectorObject.{put_content}
use pht.Classes.VectorSizing.{grown, resize}
use pht.Classes.VectorSizing.Filling.{Stores, voi-at, count_version-Stores, push_copies-Stores}

module _ {F : Type 0} where
  -- The new block behind the elements.
  grown-Models :
      (v : Vector (Entry F)) (xs : List (Ptr (Entry F))) (size : ℕ)
      → Laws.Models v xs
      → length xs < size
      → Laws.Models (grown v size) xs
  grown-Models v xs size (rest, m) more =
      let kept : take v.used v.values ≡ xs = rw (m.used, m.values) (take-append xs rest) in
      (
        replicate (size - v.used) wild,
        record {
          values = ap (λ l. l ++ replicate (size - v.used) wild) kept;
          size =
              omega
                (arith, more, m.used, length-replicate {A = Ptr (Entry F)} (size - v.used) wild);
          used = m.used;
        },
      )

  Stores-same :
      (a : ℕ) (h : Heap F) (xs ys : List (Ptr (Entry F))) (vn : ℕ)
      → xs ≡ ys
      → Stores a h xs vn
      → Stores a h ys vn
  Stores-same a h xs ys vn e st = rw e at st

module _ {A F : Type 0} (zend : Zend A F) (self a : ℕ) where
  -- With memory at hand, `resize` of a vector to more elements than it has, at most 2 ^ 30 and not
  -- as many as its block has slots, returns; the vector keeps its elements, followed by copies of
  -- the entry of the second argument, or of the integer 0 without one, up to the new size, at the
  -- next version. Making the entry is to leave the heap alone.
  pub resize-Stores :
      (size : ℕ) (initial : Option (Zval A F)) (e : Entry F) (h : Heap F)
      (s : Shared (Vector (Entry F))) (xs : List (Ptr (Entry F)))
      → ((k : Heap F)
          → create_entry_from_zval zend self (on_value initial (Zval.long (pos 0)) (λ z. z)) k
            ≡ ok (some e, k))
      → object_at a h ≡ some (Object.vector s)
      → Laws.Models s.content xs
      → size ≢ s.content.size
      → length xs < size
      → size ≤ 2 ^ 30
      → Returns (resize zend self a true (pos size) initial h) (λ r.
        (r.0 ≡ returned tt)
        × Stores a r.1 (xs ++ replicate (size - length xs) (ref e)) (next_version s.vn))
  unfolding resize put_content
  resize-Stores size none e h s xs creates at m apart more small =
      let differ : (size == s.content.size) ≡ false = eq_false size s.content.size apart in
      let below : ltb s.content.used size ≡ true = ground (arith, more, m.1.used) in
      let s1 : Shared (Vector (Entry F)) = record s { content = grown s.content size } in
      let h1 = put_object a (Object.vector s1) h in
      let st1 : Stores a h1 xs s.vn = (
        s1,
        object_at-put_object a (Object.vector s) (Object.vector s1) h at,
        grown-Models s.content xs size m more,
        refl,
      ) in
      let n = size - s.content.used in
      let count : n ≡ size - length xs = omega (arith, m.1.used) in
      let (h2, fill, st2) =
        push_copies-Stores zend self a (Zval.long (pos 0)) e creates n h1 xs s.vn st1
          (omega (arith, more, small, m.1.used)) in
      let (h3, version, st3) = count_version-Stores a h2 (xs ++ replicate n (ref e)) s.vn st2 in
      (
        (returned tt, h3),
        rw (voi-at a h s at, differ, below, fill, version),
        (
          refl,
          Stores-same a h3 _ _ (next_version s.vn) (ap (λ k. xs ++ replicate k (ref e)) count) st3,
        ),
      )
  resize-Stores size (some value) e h s xs creates at m apart more small =
      let differ : (size == s.content.size) ≡ false = eq_false size s.content.size apart in
      let below : ltb s.content.used size ≡ true = ground (arith, more, m.1.used) in
      let (w, run, m') =
        Laws.push-Models (grown s.content size) xs (ref e) (grown-Models s.content xs size m more)
          (omega (arith, more, small)) in
      let s1 : Shared (Vector (Entry F)) = record s { content = w } in
      let h1 = put_object a (Object.vector s1) h in
      let ys = xs ++ (ref e ∷ []) in
      let st1 : Stores a h1 ys s.vn =
        (s1, object_at-put_object a (Object.vector s) (Object.vector s1) h at, m', refl) in
      let used : w.used ≡ suc (length xs) =
        omega (arith, m'.1.used, length-append xs (ref e ∷ [])) in
      let n = size - w.used in
      let (h2, fill, st2) =
        push_copies-Stores zend self a value e creates n h1 ys s.vn st1
          (omega (arith, more, small, used, length-append xs (ref e ∷ []))) in
      let (h3, version, st3) = count_version-Stores a h2 (ys ++ replicate n (ref e)) s.vn st2 in
      let total : size - length xs ≡ suc n = omega (arith, more, used) in
      let whole : ys ++ replicate n (ref e) ≡ xs ++ replicate (size - length xs) (ref e) =
        append_assoc xs (ref e ∷ []) (replicate n (ref e))
        ∙ ap (λ k. xs ++ replicate k (ref e)) (sym total) in
      (
        (returned tt, h3),
        rw (voi-at a h s at, differ, below, creates h, run, voi-at a h s at, fill, version),
        (refl, Stores-same a h3 _ _ (next_version s.vn) whole st3),
      )
