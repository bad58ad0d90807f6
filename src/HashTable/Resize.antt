-- ===== src/HashTable/Resize.antt =====
-- Growing a table: repopulation and `resize`.
use pht.Common.{
  ℕ, zero, suc, ◌+◌, ◌*◌, ◌≤◌, ◌<◌, ◌≡◌, ◌⊎◌, refl, sym, ap, ◌∙◌, true, List, [], ◌∷◌, Option, none,
  some, if◌then◌else◌, arith, leb, leb-true, int_max, length, length-replicate, get_elem?,
  Option-cases, inl, inr, ok, fault, replicate, ◌>>=◌, Returns,
}
use pht.PhtString.{Bytes}
use pht.HashTable.{Bucket, Table, Query, blank, init, repopulate, resize, insert_direct}
use pht.HashTable.Slots.{
  Test, any_test, weight, tally, tally-blank, Held, Held-cast, has_key, Keeps,
}
use pht.HashTable.Keys.{has_key_self}
use pht.HashTable.Laws.{IsTable, insert_direct-Added}

module _ {V : Type 0} where
  blank_at : (n i : ℕ) (b : Bucket V) → get_elem? (replicate n blank) i ≡ some b → b ≡ blank
  blank_at zero i b h = cc
  blank_at (suc n) zero b h = cc
  blank_at (suc n) (suc i) b h = blank_at n i b h

  pub init-IsTable : (n : ℕ) → 0 < n → IsTable (init {V = V} n)
  unfolding init
  init-IsTable n pos = record {
    positive = pos;
    width = length-replicate n (blank {V = V});
    counted = tally-blank V any_test n;
    unique = λ q. omega (arith, tally-blank V (has_key q) n);
    reachable = λ i b v at used. absurd (cc (used, ap (λ t. t.value) (blank_at n i b at)));
    idle = λ i b at empty. let e = blank_at n i b at in rw e (refl, omega arith);
  }

  -- An entry of a longer array is the first one or one of the rest.
  Held-cons :
      (b : Bucket V) (bs : List (Bucket V)) {key : Option Bytes} {hash : ℕ} {w : V}
      → Held key hash w (b ∷ bs)
      → ((b.key ≡ key) × (b.hash ≡ hash) × (b.value ≡ some w)) ⊎ Held key hash w bs
  Held-cons b bs {key} {hash} {w} held =
      go held.index held.bucket held.at held.key_eq held.hash_eq held.value_eq
    where
      go :
          (i : ℕ) (c : Bucket V)
          → get_elem? (b ∷ bs) i ≡ some c
          → c.key ≡ key
          → c.hash ≡ hash
          → c.value ≡ some w
          → ((b.key ≡ key) × (b.hash ≡ hash) × (b.value ≡ some w)) ⊎ Held key hash w bs
      go zero c at k h v =
          let same : b ≡ c = cc in
          inl (ap (λ t. t.key) same ∙ k, ap (λ t. t.hash) same ∙ h, ap (λ t. t.value) same ∙ v)
      go (suc i) c at k h v =
          inr (record { index = i; bucket = c; at = at; key_eq = k; hash_eq = h; value_eq = v })

  tally-le-length : (p : Test) (xs : List (Bucket V)) → tally p xs ≤ length xs
  unfolding tally
  tally-le-length p [] = omega arith
  tally-le-length p (b ∷ bs) = ground (arith, tally-le-length p bs)

  pub record Filled (t : Table V) (old : List (Bucket V)) (u : Table V) : Type 0 where
    pub table : IsTable u
    pub size : u.size ≡ t.size
    pub used : u.used ≡ t.used + tally any_test old
    pub counts : (p : Test) → tally p u.values ≡ tally p t.values + tally p old
    pub keeps : Keeps t.values u.values
    pub moves : Keeps old u.values

  repopulate_skip :
      (t : Table V) (b : Bucket V) (old : List (Bucket V))
      → b.value ≡ none
      → repopulate t (b ∷ old) ≡ repopulate t old
  unfolding repopulate
  repopulate_skip t b old e = rw e

  repopulate_take :
      (t t' : Table V) (b : Bucket V) (old : List (Bucket V)) (v : V)
      → b.value ≡ some v
      → insert_direct t (record { key = b.key; hash = b.hash }) v ≡ ok t'
      → repopulate t (b ∷ old) ≡ repopulate t' old
  unfolding repopulate
  repopulate_take t t' b old v e step = rw (e, step)

  -- Repopulation inserts every old entry, where there is room and no key occurs twice.
  pub repopulate-Filled :
      (t : Table V) (old : List (Bucket V))
      → IsTable t
      → t.used + tally any_test old ≤ t.size
      → ((q : Query) → tally (has_key q) t.values + tally (has_key q) old ≤ 1)
      → Returns (repopulate t old) (Filled t old)
  unfolding repopulate tally
  repopulate-Filled t [] valid room unique = (
    t,
    refl,
    record {
      table = valid;
      size = refl;
      used = omega arith;
      counts = λ p. omega arith;
      keeps = λ key hash w held. held;
      moves = λ key hash w held. absurd (cc held.at);
    },
  )
  repopulate-Filled t (b ∷ old) valid room unique = elim (Option-cases b.value) [
    | inl empty ↦
        let zero_weight : (p : Test) → weight p b ≡ 0 = λ p. rw empty in
        let (u, run, f) =
          repopulate-Filled t old valid (omega (arith, zero_weight any_test))
            (λ q. omega (arith, unique q, zero_weight (has_key q))) in
        (
          u,
          repopulate_skip t b old empty ∙ run,
          record {
            table = f.table;
            size = f.size;
            used = omega (arith, f.used, zero_weight any_test);
            counts = λ p. omega (arith, f.counts p, zero_weight p);
            keeps = f.keeps;
            moves = λ key hash w held. elim (Held-cons b old held) [
              | inl first ↦ absurd (cc (first.2, empty))
              | inr later ↦ f.moves key hash w later
            ];
          },
        )
    | inr (v, full) ↦
        let q : Query = record { key = b.key; hash = b.hash } in
        let weight_of : (p : Test) → weight p b ≡ (if p b.key b.hash then 1 else 0) =
          λ p. rw full in
        let one : weight any_test b ≡ 1 = rw full in
        let mine : weight (has_key q) b ≡ 1 = rw (full, has_key_self q) in
        let (t', step, a) =
          insert_direct-Added t q v valid (omega (arith, one)) (omega (arith, unique q, mine)) in
        let (u, run, f) =
          repopulate-Filled t' old a.table (omega (arith, one, a.used, a.size))
            (λ p. omega (arith, unique p, a.counts (has_key p), weight_of (has_key p))) in
        (
          u,
          repopulate_take t t' b old v full step ∙ run,
          record {
            table = f.table;
            size = f.size ∙ a.size;
            used = omega (arith, f.used, a.used, one);
            counts = λ p. omega (arith, f.counts p, a.counts p, weight_of p);
            keeps = λ key hash w held. f.keeps key hash w (a.keeps key hash w held);
            moves = λ key hash w held. elim (Held-cons b old held) [
              | inl first ↦
                  Held-cast first.0 first.1 (sym full ∙ first.2) (f.keeps b.key b.hash v a.adds)
              | inr later ↦ f.moves key hash w later
            ];
          },
        )
  ]

  pub record Resized (t u : Table V) : Type 0 where
    pub table : IsTable u
    pub size : u.size ≡ t.size * 2
    pub used : u.used ≡ t.used
    pub counts : (p : Test) → tally p u.values ≡ tally p t.values
    pub moves : Keeps t.values u.values

  -- `resize` of a well-formed table whose double size fits in an `int` gives a well-formed table
  -- of twice the size with the same number of entries: the count of the buckets under any test on
  -- keys is the same, and every entry of the old table is in the new one.
  pub resize-Resized :
      (t : Table V) → IsTable t → t.size * 2 ≤ int_max → Returns (resize t) (Resized t)
  unfolding resize init
  resize-Resized t valid fits =
      let n = t.size * 2 in
      let e : leb n int_max ≡ true = leb-true _ _ fits in
      let pos : 0 < n = omega (arith, valid.positive) in
      let few = tally-le-length any_test t.values in
      let (u, run, f) =
        repopulate-Filled (init n) t.values (init-IsTable n pos) (omega (arith, few, valid.width))
          (λ q. omega (arith, valid.unique q, tally-blank V (has_key q) n)) in
      (
        u,
        doubled t n e ∙ run,
        record {
          table = f.table;
          size = f.size;
          used = omega (arith, f.used, valid.counted);
          counts = λ p. omega (arith, f.counts p, tally-blank V p n);
          moves = f.moves;
        },
      )
    where
      doubled :
          (t : Table V) (n : ℕ)
          → leb n int_max ≡ true
          → ((if leb n int_max then ok n else fault) >>= λ size.
              repopulate (record { values = replicate size blank; size = size; used = 0 }) t.values)
            ≡ repopulate (record { values = replicate n blank; size = n; used = 0 }) t.values
      doubled t n e = rw e
