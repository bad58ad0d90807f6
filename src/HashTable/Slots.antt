-- ===== src/HashTable/Slots.antt =====
-- The buckets of a table as an array: what a write to one bucket changes.
use pht.Common.{
  ℕ, zero, suc, ◌+◌, ◌≤◌, ◌<◌, ◌≡◌, refl, sym, ap, ◌∙◌, Bool, true, ◌&&◌, ◌==◌, List, [], ◌∷◌,
  Option, none, some, if◌then◌else◌, arith, get_elem?, set, replicate, Option-cases, Bool-cases,
  inl, inr,
}
use pht.PhtString.{Bytes}
use pht.HashTable.{Bucket, Query, on_value, matches, same_key, blank}

-- A property of the key and the hash of a bucket.
abbrev pub Test : Type 0
Test = Option Bytes → ℕ → Bool

abbrev pub any_test : Test
any_test key hash = true

-- What a search compares.
abbrev pub has_key : Query → Test
has_key q key hash = hash == q.hash && same_key key q.key

module _ {V : Type 0} where
  -- 1 for a bucket in use that passes the test.
  abbrev pub weight : Test → Bucket V → ℕ
  weight p b = on_value b.value 0 λ v. if p b.key b.hash then 1 else 0

  -- The number of buckets in use that pass a test.
  unfoldable pub tally : Test → List (Bucket V) → ℕ
  tally p [] = 0
  tally p (b ∷ bs) = weight p b + tally p bs

  pub tally-set :
      (p : Test) (xs : List (Bucket V)) (i : ℕ) (b c : Bucket V)
      → get_elem? xs i ≡ some b
      → tally p (set xs i c) + weight p b ≡ tally p xs + weight p c
  unfolding tally
  tally-set p [] i b c h = cc
  tally-set p (x ∷ xs) zero b c h =
      let same : x ≡ b = cc in let e = ap (weight p) same in omega (arith, e)
  tally-set p (x ∷ xs) (suc i) b c h = omega (arith, tally-set p xs i b c h)

  -- Some bucket is in use for this key, hash and value.
  pub record Held (key : Option Bytes) (hash : ℕ) (v : V) (xs : List (Bucket V)) : Type 0 where
    pub index : ℕ
    pub bucket : Bucket V
    pub at : get_elem? xs index ≡ some bucket
    pub key_eq : bucket.key ≡ key
    pub hash_eq : bucket.hash ≡ hash
    pub value_eq : bucket.value ≡ some v

  pub Held-cast :
      {key key' : Option Bytes} {hash hash' : ℕ} {v w : V} {xs : List (Bucket V)}
      → key ≡ key'
      → hash ≡ hash'
      → some v ≡ some w
      → Held key hash v xs
      → Held key' hash' w xs
  Held-cast k h e held = record {
    index = held.index;
    bucket = held.bucket;
    at = held.at;
    key_eq = held.key_eq ∙ k;
    hash_eq = held.hash_eq ∙ h;
    value_eq = held.value_eq ∙ e;
  }

  -- The abstract map: the value of the first bucket in use for a key.
  unfoldable pub find : Query → List (Bucket V) → Option V
  find q [] = none
  find q (b ∷ bs) = on_value b.value (find q bs) λ v. if matches b q then some v else find q bs

  pub find-none : (q : Query) (xs : List (Bucket V)) → tally (has_key q) xs ≡ 0 → find q xs ≡ none
  unfolding find tally matches
  find-none q [] h = refl
  find-none q (b ∷ bs) h = ground (arith, find-none q bs)

  pub tally_of_find-none :
      (q : Query) (xs : List (Bucket V)) → find q xs ≡ none → tally (has_key q) xs ≡ 0
  unfolding find tally matches
  tally_of_find-none q [] h = refl
  tally_of_find-none q (b ∷ bs) h = ground (arith, tally_of_find-none q bs)

  pub find-some :
      (q : Query) (xs : List (Bucket V)) (v : V)
      → find q xs ≡ some v
      → (key : Option Bytes) × (hash : ℕ) × Held key hash v xs × (has_key q key hash ≡ true)
  unfolding find matches
  find-some q [] v h = cc
  find-some q (b ∷ bs) v h = elim (Option-cases b.value) [
    | inl e ↦ let (key, hash, held, m) = find-some q bs v (rw e at h) in (key, hash, later held, m)
    | inr (w, e) ↦ elim (Bool-cases (has_key q b.key b.hash)) [
      | inl m ↦ (
        b.key,
        b.hash,
        record {
          index = 0;
          bucket = b;
          at = refl;
          key_eq = refl;
          hash_eq = refl;
          value_eq = e ∙ rw (e, m) at h;
        },
        m,
      )
      | inr m ↦
          let (key, hash, held, m) = find-some q bs v (rw (e, m) at h) in (key, hash, later held, m)
    ]
  ]
    where
      later : {key : Option Bytes} {hash : ℕ} → Held key hash v bs → Held key hash v (b ∷ bs)
      later held = record {
        index = suc held.index;
        bucket = held.bucket;
        at = held.at;
        key_eq = held.key_eq;
        hash_eq = held.hash_eq;
        value_eq = held.value_eq;
      }

  weight-le-tally :
      (p : Test) (xs : List (Bucket V)) (i : ℕ) (b : Bucket V)
      → get_elem? xs i ≡ some b
      → weight p b ≤ tally p xs
  unfolding tally
  weight-le-tally p [] i b h = cc
  weight-le-tally p (x ∷ xs) zero b h =
      let same : x ≡ b = cc in let e = ap (weight p) same in omega (arith, e)
  weight-le-tally p (x ∷ xs) (suc i) b h = omega (arith, weight-le-tally p xs i b h)

  pub tally-Held :
      (p : Test) {key : Option Bytes} {hash : ℕ} {v : V} {xs : List (Bucket V)}
      → Held key hash v xs
      → p key hash ≡ true
      → 0 < tally p xs
  tally-Held p {xs = xs} held m =
      let w : weight p held.bucket ≡ 1 = rw (held.value_eq, held.key_eq, held.hash_eq, m) in
      omega (arith, w, weight-le-tally p xs held.index held.bucket held.at)

  -- Under a key that at most one bucket has, a search by any route finds the same value.
  find_at :
      (q : Query) (xs : List (Bucket V)) (i : ℕ) (b : Bucket V) (v : V)
      → tally (has_key q) xs ≤ 1
      → get_elem? xs i ≡ some b
      → b.value ≡ some v
      → has_key q b.key b.hash ≡ true
      → find q xs ≡ some v
  unfolding find tally matches
  find_at q [] i b v few at value m = cc
  find_at q (x ∷ xs) zero b v few at value m = let same : x ≡ b = cc in rw (same, value, m)
  find_at q (x ∷ xs) (suc i) b v few at value m =
      let w : weight (has_key q) b ≡ 1 = rw (value, m) in
      ground (arith, find_at q xs i b v, w, weight-le-tally (has_key q) xs i b)

  -- Every entry of one array is also in another.
  abbrev pub Keeps : List (Bucket V) → List (Bucket V) → Type 0
  Keeps xs ys = (key : Option Bytes) (hash : ℕ) (w : V) → Held key hash w xs → Held key hash w ys

  pub find-Held :
      (q : Query) {key : Option Bytes} {hash : ℕ} {v : V} {xs : List (Bucket V)}
      → tally (has_key q) xs ≤ 1
      → Held key hash v xs
      → has_key q key hash ≡ true
      → find q xs ≡ some v
  find-Held q {v = v} {xs} few held m =
      find_at q xs held.index held.bucket v few held.at held.value_eq
        (rw (held.key_eq, held.hash_eq, m))

  -- With as many entries, none of them lost, a key has the same value.
  pub find-Keeps :
      (q : Query) (xs ys : List (Bucket V))
      → tally (has_key q) xs ≤ 1
      → tally (has_key q) ys ≡ tally (has_key q) xs
      → Keeps xs ys
      → find q ys ≡ find q xs
  find-Keeps q xs ys few same keeps = elim (Option-cases (find q xs)) [
    | inl e ↦ find-none q ys (same ∙ tally_of_find-none q xs e) ∙ sym e
    | inr (v, e) ↦
        let (key, hash, held, m) = find-some q xs v e in
        find-Held q (rw same few) (keeps key hash v held) m ∙ sym e
  ]

  -- A write that does not concern a key.
  pub find-set_other :
      (q : Query) (xs : List (Bucket V)) (i : ℕ) (b c : Bucket V)
      → get_elem? xs i ≡ some b
      → weight (has_key q) b ≡ 0
      → weight (has_key q) c ≡ 0
      → find q (set xs i c) ≡ find q xs
  unfolding find matches
  find-set_other q [] i b c at wb wc = refl
  find-set_other q (x ∷ xs) zero b c at wb wc = let same : x ≡ b = cc in rw same (ground arith)
  find-set_other q (x ∷ xs) (suc i) b c at wb wc =
      ground (arith, find-set_other q xs i b c at wb wc)

pub tally-blank : (V : Type 0) (p : Test) (n : ℕ) → tally p (replicate n (blank {V = V})) ≡ 0
unfolding tally
tally-blank V p zero = refl
tally-blank V p (suc n) = omega (arith, tally-blank V p n)
