-- ===== src/Copy/Tables.antt =====
-- The engine's hash tables with string keys, as src/pht_copy.c uses them.
use pht.Common.{
  ◌≡◌, refl, sym, ap, Bool, true, false, ◌&&◌, List, [], ◌∷◌, Option, none, some, if◌then◌else◌,
  ◌==◌, Bool-cases, Option-cases, on_value, inl, inr, ◌⊎◌, arith,
}
use mathlib.Core.Option
use pht.PhtString.{Bytes}
use pht.Engine.{Str}

abbrev pub Table {ℓ} : Type ℓ → Type ℓ
Table A = List (Str × A)

unfoldable pub bytes_eq : Bytes → Bytes → Bool
bytes_eq [] [] = true
bytes_eq [] (b ∷ t) = false
bytes_eq (a ∷ s) [] = false
bytes_eq (a ∷ s) (b ∷ t) = (a == b) && bytes_eq s t

pub bytes_eq_refl : (s : Bytes) → bytes_eq s s ≡ true
unfolding bytes_eq
bytes_eq_refl [] = refl
bytes_eq_refl (a ∷ s) = ground (arith, bytes_eq_refl s)

pub bytes_eq-eq : (s t : Bytes) → bytes_eq s t ≡ true → s ≡ t
unfolding bytes_eq
bytes_eq-eq [] [] h = refl
bytes_eq-eq [] (b ∷ t) h = absurd (cc h)
bytes_eq-eq (a ∷ s) [] h = absurd (cc h)
bytes_eq-eq (a ∷ s) (b ∷ t) h = ground (arith, bytes_eq-eq s t)

module _ {ℓ} {A : Type ℓ} where
  -- zend_hash_find_ptr
  unfoldable pub zend_hash_find : Table A → Bytes → Option A
  zend_hash_find [] b = none
  zend_hash_find ((k, v) ∷ t) b =
      let rest = zend_hash_find t b in if bytes_eq k.bytes b then some v else rest

  -- zend_hash_add and its variants: an element whose key is there already stays as it is.
  unfoldable pub zend_hash_add : Table A → Str → A → Table A
  zend_hash_add [] key v = (key, v) ∷ []
  zend_hash_add ((k, w) ∷ t) key v =
      let rest = zend_hash_add t key v in
      if bytes_eq k.bytes key.bytes then (k, w) ∷ t else (k, w) ∷ rest

  unfoldable pub zend_hash_exists : Table A → Bytes → Bool
  zend_hash_exists t b = on_value (zend_hash_find t b) false λ v. true

  -- The table has an element at `b`.
  abbrev pub Present : Table A → Bytes → Type ℓ
  Present t b = (v : A) × (zend_hash_find t b ≡ some v)

  pub exists-Present : (t : Table A) (b : Bytes) → zend_hash_exists t b ≡ true → Present t b
  unfolding zend_hash_exists
  exists-Present t b h = elim (Option-cases (zend_hash_find t b)) [
    | inl e ↦ absurd (let h' = rw e at h in cc h')
    | inr p ↦ p
  ]

  -- What a table has at `b` after an addition.
  abbrev pub found_or : Option A → Option A → Option A
  found_or none o = o
  found_or (some a) o = some a

  pub found_or-none : (o : Option A) → found_or o none ≡ o
  found_or-none none = refl
  found_or-none (some a) = refl

  first-same :
      (b c : Bool) (v w : A) (o : Option A)
      → b ≡ c
      → (if b then some w else o) ≡ found_or (if b then some w else o) (if c then some v else none)
  first-same true c v w o e = refl
  first-same false true v w o e = absurd (cc e)
  first-same false false v w o e = sym (found_or-none o)

  first-other :
      (b : Bool) (w : A) (o p : Option A)
      → (if b then some w else found_or o p) ≡ found_or (if b then some w else o) p
  first-other true w o p = refl
  first-other false w o p = refl

  pub find-add :
      (t : Table A) (key : Str) (v : A) (b : Bytes)
      → zend_hash_find (zend_hash_add t key v) b
        ≡ found_or (zend_hash_find t b) (if bytes_eq key.bytes b then some v else none)
  unfolding zend_hash_find zend_hash_add
  find-add [] key v b = refl
  find-add ((k, w) ∷ t) key v b = elim (Bool-cases (bytes_eq k.bytes key.bytes)) [
    | inl same ↦ rw same (
        first-same (bytes_eq k.bytes b) (bytes_eq key.bytes b) v w (zend_hash_find t b)
          (ap (λ x. bytes_eq x b) (bytes_eq-eq k.bytes key.bytes same)))
    | inr other ↦ rw (other, find-add t key v b) (first-other (bytes_eq k.bytes b) w _ _)
  ]

  pub find-add_self :
      (t : Table A) (key : Str) (v : A)
      → zend_hash_find t key.bytes ≡ none
      → zend_hash_find (zend_hash_add t key v) key.bytes ≡ some v
  find-add_self t key v h = rw (find-add t key v key.bytes, h, bytes_eq_refl key.bytes)

  pub find-add_kept :
      (t : Table A) (key : Str) (v : A) (b : Bytes) (w : A)
      → zend_hash_find t b ≡ some w
      → zend_hash_find (zend_hash_add t key v) b ≡ some w
  find-add_kept t key v b w h = rw (find-add t key v b, h)

  -- What is found after an addition was there, or is what was added.
  pub found_or-inverse :
      (o : Option A) (c : Bool) (v a : A)
      → found_or o (if c then some v else none) ≡ some a
      → (o ≡ some a) ⊎ ((c ≡ true) × (v ≡ a))
  found_or-inverse (some w) c v a h = inl h
  found_or-inverse none true v a h = inr (refl, cc)
  found_or-inverse none false v a h = absurd (cc h)

  -- A table that has what another has, and may have more.
  abbrev pub Extends : Table A → Table A → Type ℓ
  Extends t u = (b : Bytes) (w : A) → zend_hash_find t b ≡ some w → zend_hash_find u b ≡ some w

module _ {A B : Type 0} (f : A → B) where
  map-found_or :
      (o p : Option A) → Option.map f (found_or o p) ≡ found_or (Option.map f o) (Option.map f p)
  map-found_or none p = refl
  map-found_or (some a) p = refl

  map-if :
      (c : Bool) (a : A)
      → Option.map f (if c then some a else none) ≡ (if c then some (f a) else none)
  map-if true a = refl
  map-if false a = refl

found_or-if :
    {B : Type 0} (o p : Option B) (c : Bool) (b : B)
    → found_or (found_or o (if c then some b else none)) p ≡ found_or o (if c then some b else p)
found_or-if none p true b = refl
found_or-if none p false b = refl
found_or-if (some a) p c b = refl

module _ {A B C : Type 0} (f : A → C) (g : B → C) where
  map-first :
      (c : Bool) (w : B) (o : Option B)
      → Option.map g (if c then some w else o) ≡ (if c then some (g w) else Option.map g o)
  map-first true w o = refl
  map-first false w o = refl

  -- One step of a loop that adds a copy of each element of a table to another: what the result has
  -- beside what `new` had is the first element and what the rest has.
  pub map-add :
      (new : Table A) (key key' : Str) (v : A) (w : B) (old : Table B) (b : Bytes)
      → key'.bytes ≡ key.bytes
      → f v ≡ g w
      → found_or
          (Option.map f (zend_hash_find (zend_hash_add new key' v) b))
          (Option.map g (zend_hash_find old b))
        ≡ found_or
            (Option.map f (zend_hash_find new b))
            (Option.map g (zend_hash_find ((key, w) ∷ old) b))
  unfolding zend_hash_find
  map-add new key key' v w old b same like = rw (
    find-add new key' v b,
    map-found_or f (zend_hash_find new b) (if bytes_eq key'.bytes b then some v else none),
    map-if f (bytes_eq key'.bytes b) v,
    like,
    same,
    found_or-if (Option.map f (zend_hash_find new b)) (Option.map g (zend_hash_find old b))
        (bytes_eq key.bytes b) (g w),
    map-first (bytes_eq key.bytes b) w (zend_hash_find old b),
  )
