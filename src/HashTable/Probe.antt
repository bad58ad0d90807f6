-- ===== src/HashTable/Probe.antt =====
-- The probe sequence: the indices from the home of a hash on, round the end of the array.
use native.Mathlib.Nat.{mod-add-mod, add-mod-mod, add-mod_right, mod_self, mod-eq_of_lt, mod-le}
use pht.Common.{
  ℕ, zero, suc, ◌+◌, ◌-◌, ◌%◌, ◌<◌, ◌≡◌, refl, sym, ap, ◌∙◌, true, false, ◌==◌, ==_iff, List,
  Option, none, some, arith, length, get_elem?, set, Option-cases, Bool-cases, inl, inr,
  get_elem?-set_self, get_elem?-set_ne, get_elem?-bound, ok, load-get, Returns,
}
use pht.Common.Bits.{bit_and-le}
use pht.HashTable.{Bucket, Query, on_value, matches, next, home, search_loop}
use pht.HashTable.Slots.{has_key}

pub home-lt : (size hash : ℕ) → 0 < size → home size hash < size
unfolding home
home-lt size hash h = omega (arith, bit_and-le hash (size - 1))

pub next-lt : (size i : ℕ) → i < size → next size i < size
unfolding next
next-lt size i h = ground arith

-- The index after a number of steps.
unfoldable pub walk : (size i : ℕ) → ℕ → ℕ
walk size i zero = i
walk size i (suc steps) = next size (walk size i steps)

pub walk_next : (size i steps : ℕ) → walk size (next size i) steps ≡ walk size i (suc steps)
unfolding walk
walk_next size i zero = refl
walk_next size i (suc steps) = ap (next size) (walk_next size i steps)

next-mod : (size m : ℕ) → 0 < size → next size (m % size) ≡ (m + 1) % size
unfolding next
next-mod size m h =
    let low : m % size < size = omega arith in
    rw (← mod-add-mod m size 1) (elim (Bool-cases (m % size + 1 == size)) [
      | inl e ↦
          let whole : m % size + 1 ≡ size = (==_iff _ _).0 e in rw (e, whole) (sym (mod_self size))
      | inr e ↦ rw e (sym (mod-eq_of_lt (ground arith)))
    ])

walk-mod : (size i steps : ℕ) → i < size → walk size i steps ≡ (i + steps) % size
unfolding walk
walk-mod size i zero h = let e : i + 0 ≡ i = omega arith in rw e (sym (mod-eq_of_lt h))
walk-mod size i (suc steps) h =
    rw (walk-mod size i steps h)
      (next-mod size (i + steps) (omega arith) ∙ ap (λ t. t % size) (omega arith))

-- Every index of the array is met within one round.
pub walk_total :
    (size i j : ℕ) → i < size → j < size → (steps : ℕ) × (steps < size) × (walk size i steps ≡ j)
walk_total size i j hi hj =
    let d = (j + size - i) % size in
    let e : i + (j + size - i) ≡ j + size = omega arith in
    (
      d,
      omega arith,
      walk-mod size i d hi
          ∙ add-mod-mod i (j + size - i) size
          ∙ rw e (add-mod_right j size ∙ mod-eq_of_lt hj),
    )

walk_round : (size i steps : ℕ) → i < size → walk size i (steps % size) ≡ walk size i steps
walk_round size i steps h =
    rw (walk-mod size i (steps % size) h, walk-mod size i steps h) (add-mod-mod i steps size)

module _ {V : Type 0} where
  -- A search goes on behind a bucket that is in use or a tombstone.
  abbrev pub Passable : Bucket V → Type 0
  Passable b = on_value b.value (b.hash == 0) (λ _. false) ≡ false

  pub data PassableAt (xs : List (Bucket V)) (i : ℕ) : Type 0 where
    passable : {b : Bucket V} → get_elem? xs i ≡ some b → Passable b → PassableAt xs i

  -- From the home `h` a search comes to `i`.
  pub data Reach (size : ℕ) (xs : List (Bucket V)) (h : ℕ) : ℕ → Type 0 where
    here : Reach size xs h h
    step : {i j : ℕ} → Reach size xs h i → PassableAt xs i → next size i ≡ j → Reach size xs h j

  pub Reach-mono :
      {size : ℕ} {xs ys : List (Bucket V)} {h i : ℕ}
      → ((j : ℕ) → PassableAt xs j → PassableAt ys j)
      → Reach size xs h i
      → Reach size ys h i
  Reach-mono keep here = here
  Reach-mono keep (step r p e) = step (Reach-mono keep r) (keep _ p) e

  -- A write of a passable bucket.
  pub PassableAt-set :
      (xs : List (Bucket V)) (i : ℕ) (c : Bucket V)
      → i < length xs
      → Passable c
      → (j : ℕ) → PassableAt xs j
      → PassableAt (set xs i c) j
  PassableAt-set xs i c inside p j (passable at q) = elim (Bool-cases (i == j)) [
    | inl e ↦
        let same : i ≡ j = (==_iff i j).0 e in
        passable {b = c} (rw (← same) (get_elem?-set_self xs i c inside)) p
    | inr e ↦ passable (get_elem?-set_ne xs c (λ same. cc ((==_iff i j).1 same, e)) ∙ at) q
  ]

  -- The same by the number of steps.
  abbrev pub Steps : ℕ → List (Bucket V) → (h i n : ℕ) → Type 0
  Steps size xs h i n = (walk size h n ≡ i) × ((m : ℕ) → m < n → PassableAt xs (walk size h m))

  Steps-of :
      {size : ℕ} {xs : List (Bucket V)} {h i : ℕ}
      → Reach size xs h i
      → (n : ℕ) × Steps size xs h i n
  unfolding walk
  Steps-of here = (0, (refl, λ m lt. elim lt [ ]))
  Steps-of {size} {xs} {h} (step r p e) =
      let (n, (w, ps)) = Steps-of r in
      (
        suc n,
        (
          rw w e,
          λ m lt. elim (Bool-cases (m == n)) [
            | inl same ↦ rw ((==_iff m n).0 same, w) p
            | inr other ↦ ps m (ground arith)
          ],
        ),
      )

  -- A search meets a bucket that it can reach within one round.
  pub short-Steps :
      {size h i : ℕ} {xs : List (Bucket V)}
      → h < size
      → Reach size xs h i
      → (n : ℕ) × (n < size) × Steps size xs h i n
  short-Steps {size} {h} hs r =
      let (n, (w, ps)) = Steps-of r in
      (
        n % size,
        omega arith,
        (walk_round size h n hs ∙ w, λ m lt. ps m (omega (arith, mod-le n size))),
      )

  -- What a search may answer: nothing, or a bucket that is in use for the key.
  abbrev pub Found : Query → List (Bucket V) → Option (Bucket V) → Type 0
  Found q xs none = Unit
  Found q xs (some b) =
      (j : ℕ) × (v : V) × (get_elem? xs j ≡ some b)
      × (b.value ≡ some v)
      × (has_key q b.key b.hash ≡ true)

  module _ (size : ℕ) (q : Query) (xs : List (Bucket V)) (width : length xs ≡ size) where
    -- The search ends without undefined behaviour, and what it finds is in use for the key.
    pub search_loop-Found :
        (rounds i : ℕ) → i < size → Returns (search_loop size rounds i q xs) (Found q xs)
    unfolding search_loop matches
    search_loop-Found zero i h = (none, refl, tt)
    search_loop-Found (suc rounds) i h =
        let (b, at) = get_elem?-bound xs i (omega (arith, width)) in
        let (o, run, found) = search_loop-Found rounds (next size i) (next-lt size i h) in
        elim (Option-cases b.value) [
          | inl e ↦ elim (Bool-cases (b.hash == 0)) [
            | inl z ↦ (none, rw (load-get xs i at, e, z), tt)
            | inr z ↦ (o, rw (load-get xs i at, e, z) run, found)
          ]
          | inr (v, e) ↦ elim (Bool-cases (has_key q b.key b.hash)) [
            | inl m ↦ (some b, rw (load-get xs i at, e, m), (i, v, at, e, m))
            | inr m ↦ (o, rw (load-get xs i at, e, m) run, found)
          ]
        ]

    -- It does find a bucket where it can reach one.
    pub search_loop-some :
        (rounds i n : ℕ) {j : ℕ} {b : Bucket V} {v : V}
        → Steps size xs i j n
        → n < rounds
        → get_elem? xs j ≡ some b
        → b.value ≡ some v
        → has_key q b.key b.hash ≡ true
        → (c : Bucket V) × (search_loop size rounds i q xs ≡ ok (some c))
    unfolding search_loop matches walk
    search_loop-some zero i n s lt at e m = elim lt [ ]
    search_loop-some (suc rounds) i zero {b} s lt at e m =
        let got : get_elem? xs i ≡ some b = rw s.0 at in (b, rw (load-get xs i got, e, m))
    search_loop-some (suc rounds) i (suc n) {j} (w, ps) lt at e m =
        let (c, rest) =
          search_loop-some rounds (next size i) n
            (walk_next size i n ∙ w, λ k low. rw (walk_next size i k) (ps (suc k) (omega arith)))
            (omega arith) at e m in
        past c rest (ps 0 (omega arith))
      where
        past :
            (c : Bucket V)
            → search_loop size rounds (next size i) q xs ≡ ok (some c)
            → PassableAt xs i
            → (d : Bucket V) × (search_loop size (suc rounds) i q xs ≡ ok (some d))
        past c rest (passable {b} got p) = elim (Option-cases b.value) [
          | inl none_eq ↦
              let z : (b.hash == 0) ≡ false = rw none_eq at p in
              (c, rw (load-get xs i got, none_eq, z) rest)
          | inr (v', some_eq) ↦ elim (Bool-cases (has_key q b.key b.hash)) [
            | inl hit ↦ (b, rw (load-get xs i got, some_eq, hit))
            | inr miss ↦ (c, rw (load-get xs i got, some_eq, miss) rest)
          ]
        ]
