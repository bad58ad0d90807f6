-- ===== src/HashTable/Insert.antt =====
-- The insertion loop: the bucket that it places and those that it moves along.
use pht.Common.{
  ℕ, zero, suc, ◌+◌, ◌<◌, ◌≡◌, refl, sym, ap, ◌∙◌, List, [], ◌∷◌, Option, none, some, arith, ltb,
  length, length-set, get_elem?, set, Option-cases, Bool-cases, inl, inr, get_elem?-set_self,
  get_elem?-set_ne, get_elem?-bound, load-get, store-set, Returns,
}
use pht.PhtString.{Bytes}
use pht.HashTable.{Bucket, next, home, insert_loop}
use pht.HashTable.Slots.{Test, any_test, weight, tally, tally-set, Held, Held-cast}
use pht.HashTable.Probe.{
  next-lt, walk, walk_next, PassableAt, passable, Reach, step, Reach-mono, PassableAt-set,
}
use pht.HashTable.Writes.{Reachable, Passable-of_value, Reachable-set, Held-set, idle-set, Held-new}

module _ {V : Type 0} where
  -- What an insertion of `c` changes, when its value is `v`.
  pub record Inserted (size : ℕ) (c : Bucket V) (v : V) (xs ys : List (Bucket V)) : Type 0 where
    pub width : length ys ≡ size
    pub counts : (p : Test) → tally p ys ≡ tally p xs + weight p c
    pub keeps : {key : Option Bytes} {hash : ℕ} {w : V} → Held key hash w xs → Held key hash w ys
    pub adds : Held c.key c.hash v ys
    pub reachable : Reachable size ys
    pub idle :
        (i : ℕ) (b : Bucket V) → get_elem? ys i ≡ some b → b.value ≡ none → get_elem? xs i ≡ some b

  -- The loop ends at an empty bucket.
  placed :
      (size i : ℕ) (c b : Bucket V) (v : V) (xs : List (Bucket V))
      → length xs ≡ size
      → i < size
      → get_elem? xs i ≡ some b
      → b.value ≡ none
      → c.value ≡ some v
      → Reach size xs (home size c.hash) i
      → Reachable size xs
      → Inserted size c v xs (set xs i c)
  placed size i c b v xs width lt at empty e r all =
      let inside : i < length xs = omega (arith, width) in
      record {
        width = length-set xs i c ∙ width;
        counts =
            λ p. let w : weight p b ≡ 0 = rw empty in omega (arith, w, tally-set p xs i b c at);
        keeps = λ held. elim (Held-set xs i b c at held) [
          | inl kept ↦ kept
          | inr lost ↦ absurd (cc (lost.2, empty))
        ];
        adds = Held-new xs i c inside e;
        reachable = Reachable-set size xs i c v inside e r all;
        idle = idle-set xs i c inside e;
      }

  -- One more round after the carried bucket changed places with `b`.
  swapped :
      (size i : ℕ) (c b : Bucket V) (v w : V) (n : ℕ) (xs ys : List (Bucket V))
      → length xs ≡ size
      → i < size
      → get_elem? xs i ≡ some b
      → b.value ≡ some w
      → c.value ≡ some v
      → Inserted size (record b { variance = n }) w (set xs i c) ys
      → Inserted size c v xs ys
  swapped size i c b v w n xs ys width lt at used e rest =
      let inside : i < length xs = omega (arith, width) in
      record {
        width = rest.width;
        counts = λ p. omega (arith, rest.counts p, tally-set p xs i b c at);
        keeps = λ held. elim (Held-set xs i b c at held) [
          | inl kept ↦ rest.keeps kept
          | inr (k, h, u) ↦ Held-cast k h (sym used ∙ u) rest.adds
        ];
        adds = rest.keeps (Held-new xs i c inside e);
        reachable = rest.reachable;
        idle = λ j d got unused. idle-set xs i c inside e j d (rest.idle j d got unused) unused;
      }

  passed :
      (size : ℕ) (c : Bucket V) (v : V) (n : ℕ) (xs ys : List (Bucket V))
      → Inserted size (record c { variance = n }) v xs ys
      → Inserted size c v xs ys
  passed size c v n xs ys rest = record {
    width = rest.width;
    counts = rest.counts;
    keeps = rest.keeps;
    adds = rest.adds;
    reachable = rest.reachable;
    idle = rest.idle;
  }

  -- An empty bucket.
  abbrev pub FreeAt : List (Bucket V) → ℕ → Type 0
  FreeAt xs f = (b : Bucket V) × (get_elem? xs f ≡ some b) × (b.value ≡ none)

  FreeAt-set :
      (xs : List (Bucket V)) (i f : ℕ) (b c : Bucket V) (w : V)
      → get_elem? xs i ≡ some b
      → b.value ≡ some w
      → FreeAt xs f
      → FreeAt (set xs i c) f
  FreeAt-set xs i f b c w at used (e, free, empty) =
      (e, get_elem?-set_ne xs c (λ same. apart same) ∙ free, empty)
    where
      apart : i ≡ f → ⊥
      apart same =
          let be : b ≡ e = cc (at, free, ap (get_elem? xs) same) in cc (ap (λ t. t.value) be)

  -- With an empty bucket ahead the loop ends there, and has inserted the carried bucket.
  pub insert_loop-Inserted :
      (size rounds i steps f : ℕ) (c : Bucket V) (v : V) (xs : List (Bucket V))
      → length xs ≡ size
      → i < size
      → steps < rounds
      → walk size i steps ≡ f
      → FreeAt xs f
      → c.value ≡ some v
      → Reach size xs (home size c.hash) i
      → Reachable size xs
      → Returns (insert_loop size rounds i c xs) (Inserted size c v xs)
  unfolding insert_loop walk
  insert_loop-Inserted size zero i steps f c v xs width lt more w free e r all = elim more [ ]
  insert_loop-Inserted size (suc rounds) i zero f c v xs width lt more w (b, at, empty) e r all =
      let inside : i < length xs = omega (arith, width) in
      let here_at : get_elem? xs i ≡ some b = rw w at in
      (
        set xs i c,
        rw (load-get xs i here_at, empty) (store-set xs i c inside),
        placed size i c b v xs width lt here_at empty e r all,
      )
  insert_loop-Inserted size (suc rounds) i (suc n) f c v xs width lt more w free e r all =
      let inside : i < length xs = omega (arith, width) in
      let (b, at) = get_elem?-bound xs i inside in
      let load_b = load-get xs i at in
      let lt' = next-lt size i lt in
      let w' : walk size (next size i) n ≡ f = walk_next size i n ∙ w in
      elim (Option-cases b.value) [
        | inl empty ↦ (
          set xs i c,
          rw (load_b, empty) (store-set xs i c inside),
          placed size i c b v xs width lt at empty e r all,
        )
        | inr (u, used) ↦ elim (Bool-cases (ltb b.variance c.variance)) [
          | inl nearer ↦
              let pass : PassableAt (set xs i c) i =
                passable {b = c} (get_elem?-set_self xs i c inside) (Passable-of_value c e) in
              let keep = PassableAt-set xs i c inside (Passable-of_value c e) in
              let (ys, run, rest) =
                insert_loop-Inserted size rounds (next size i) n f
                  (record b { variance = b.variance + 1 }) u (set xs i c)
                  (length-set xs i c ∙ width) lt' (omega arith) w'
                  (FreeAt-set xs i f b c u at used free) used
                  (step (Reach-mono keep (all i b u at used)) pass refl)
                  (Reachable-set size xs i c v inside e r all) in
              (
                ys,
                rw (load_b, used, nearer, store-set xs i c inside) run,
                swapped size i c b v u _ xs ys width lt at used e rest,
              )
          | inr farther ↦
              let pass : PassableAt xs i = passable {b = b} at (Passable-of_value b used) in
              let (ys, run, rest) =
                insert_loop-Inserted size rounds (next size i) n f
                  (record c { variance = c.variance + 1 }) v xs width lt' (omega arith) w' free e
                  (step r pass refl) all in
              (ys, rw (load_b, used, farther) run, passed size c v _ xs ys rest)
        ]
      ]

  -- A table that is not full has an empty bucket.
  pub free_bucket :
      (xs : List (Bucket V))
      → tally any_test xs < length xs
      → (f : ℕ) × (f < length xs) × FreeAt xs f
  unfolding tally
  free_bucket [] h = absurd (omega arith)
  free_bucket (x ∷ xs) h = elim (Option-cases x.value) [
    | inl empty ↦ (0, omega arith, (x, refl, empty))
    | inr (v, used) ↦
        let one : weight any_test x ≡ 1 = rw used in
        let (f, lt, free) = free_bucket xs (omega (arith, one)) in (suc f, omega arith, free)
  ]
