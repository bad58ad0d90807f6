-- ===== src/Queue/Chain.antt =====
-- The nodes of a queue in order, each with its address.
use pht.Common.{
  ℕ, ◌≡◌, ◌≢◌, refl, ap, Bool, true, false, ◌||◌, List, [], ◌∷◌, ◌++◌, Option, none, some, ◌==◌,
  arith, eq_false,
}
use pht.Queue.{Cell, Cells, write}

abbrev pub Nodes : Type 0 → Type 0
Nodes A = List (ℕ × A)

left_false : (b c : Bool) → (b || c) ≡ false → b ≡ false
left_false true c h = h
left_false false c h = refl

right_false : (b c : Bool) → (b || c) ≡ false → c ≡ false
right_false true c h = cc
right_false false c h = h

swap_ne : (a b : ℕ) → (a == b) ≡ false → (b == a) ≡ false
swap_ne a b h = ground arith

module _ {A : Type 0} where
  abbrev pub first : Nodes A → ℕ
  first [] = 0
  first ((a, x) ∷ r) = a

  abbrev pub final : Nodes A → ℕ
  final [] = 0
  final ((a, x) ∷ []) = a
  final ((a, x) ∷ y ∷ r) = final (y ∷ r)

  abbrev pub has : ℕ → Nodes A → Bool
  has p [] = false
  has p ((a, x) ∷ r) = (p == a) || has p r

  abbrev pub elements_of : Nodes A → List A
  elements_of [] = []
  elements_of ((a, x) ∷ r) = x ∷ elements_of r

  -- The `next` pointers lead through the nodes, which lie at distinct addresses, to NULL.
  abbrev pub Linked : Cells A → Nodes A → Type 0
  Linked cells [] = Unit {0}
  Linked cells ((a, x) ∷ r) =
      (a ≢ 0)
      × (has a r ≡ false)
      × (cells a ≡ some (record { element = x; next = first r }))
      × Linked cells r

  -- A write to another address leaves a chain alone.
  pub Linked-write :
      (cells : Cells A) (p : ℕ) (c : Option (Cell A)) (r : Nodes A)
      → has p r ≡ false
      → Linked cells r
      → Linked (write cells p c) r
  Linked-write cells p c [] out l = tt
  Linked-write cells p c ((a, x) ∷ r) out (nz, fresh, at, l) =
      (nz, fresh, ground arith, Linked-write cells p c r (ground arith) l)

  -- An address that the heap does not use is none of a chain's.
  pub has_unused :
      (cells : Cells A) (p : ℕ) (r : Nodes A) → cells p ≡ none → Linked cells r → has p r ≡ false
  has_unused cells p [] free l = refl
  has_unused cells p ((a, x) ∷ r) free (nz, fresh, at, l) =
      ground (arith, has_unused cells p r free l)

  pub first-ne-zero :
      (cells : Cells A) (a : ℕ) (x : A) (r : Nodes A) → Linked cells ((a, x) ∷ r) → (a == 0) ≡ false
  first-ne-zero cells a x r l = ground (arith, l.0)

  pub final-append : (xs : Nodes A) (a : ℕ) (x : A) → final (xs ++ ((a, x) ∷ [])) ≡ a
  final-append [] a x = refl
  final-append ((b, y) ∷ []) a x = refl
  final-append ((b, y) ∷ z ∷ r) a x = final-append (z ∷ r) a x

  pub has-append :
      (xs : Nodes A) (p a : ℕ) (x : A) → has p (xs ++ ((a, x) ∷ [])) ≡ (has p xs || (p == a))
  has-append [] p a x = ground arith
  has-append ((b, y) ∷ r) p a x = ground (arith, has-append r p a x)

  -- What `push` does to the heap: a new last cell, to which the old last cell is linked.
  abbrev pub link : Cells A → (last address : ℕ) → (y x : A) → Cells A
  link cells last address y x =
      write (write cells address (some (record { element = x; next = 0 }))) last
        (some (record { element = y; next = address }))

  abbrev pub final_element : A → Nodes A → A
  final_element x [] = x
  final_element x ((b, y) ∷ r) = final_element y r

  has-final : (a : ℕ) (x : A) (r : Nodes A) → has (final ((a, x) ∷ r)) ((a, x) ∷ r) ≡ true
  has-final a x [] = ground arith
  has-final a x ((b, y) ∷ r) = ground (arith, has-final b y r)

  pub final-cell :
      (cells : Cells A) (a : ℕ) (x : A) (r : Nodes A)
      → Linked cells ((a, x) ∷ r)
      → cells (final ((a, x) ∷ r)) ≡ some (record { element = final_element x r; next = 0 })
  final-cell cells a x [] l = l.2
  final-cell cells a x ((b, y) ∷ r) l = final-cell cells b y r l.3

  ne_of_has : (a b : ℕ) (r : Nodes A) → has a r ≡ false → has b r ≡ true → (a == b) ≡ false
  ne_of_has a b r out inside = eq_false a b λ e. cc (ap (λ t. has t r) e)

  pub Linked-append :
      (cells : Cells A) (p : ℕ) (z : A) (a : ℕ) (x : A) (r : Nodes A)
      → Linked cells ((a, x) ∷ r)
      → p ≢ 0
      → has p ((a, x) ∷ r) ≡ false
      → Linked
          (link cells (final ((a, x) ∷ r)) p (final_element x r) z)
          (((a, x) ∷ r) ++ ((p, z) ∷ []))
  Linked-append cells p z a x [] l nz out =
      (l.0, ground arith, ground arith, (nz, refl, ground arith, tt))
  Linked-append cells p z a x ((b, y) ∷ r) (nza, fresh, at, l) nz out =
      let last = final ((b, y) ∷ r) in
      let apart : (a == last) ≡ false = ne_of_has a last ((b, y) ∷ r) fresh (has-final b y r) in
      let other : (a == p) ≡ false = swap_ne p a (left_false (p == a) _ out) in
      (
        nza,
        rw (has-append ((b, y) ∷ r) a p z, fresh, other),
        rw (apart, other) at,
        Linked-append cells p z b y r l nz (right_false (p == a) _ out),
      )
