-- ===== src/HashTable/Writes.antt =====
-- Writes of one bucket of the array: other buckets in use, and those without a value.
use pht.Common.{
  ℕ, ◌<◌, ◌≡◌, ◌⊎◌, refl, sym, ap, ◌∙◌, ◌==◌, ==_iff, List, Option, none, some, length, get_elem?,
  set, Bool-cases, inl, inr, get_elem?-set_self, get_elem?-set_ne,
}
use pht.PhtString.{Bytes}
use pht.HashTable.{Bucket, home}
use pht.HashTable.Slots.{Held}
use pht.HashTable.Probe.{Passable, Reach, Reach-mono, PassableAt-set}

module _ {V : Type 0} where
  -- Every bucket in use can be reached from the home of its hash.
  abbrev pub Reachable : ℕ → List (Bucket V) → Type 0
  Reachable size xs =
      (i : ℕ) (b : Bucket V) (v : V)
      → get_elem? xs i ≡ some b
      → b.value ≡ some v
      → Reach size xs (home size b.hash) i

  pub Passable-of_value : (b : Bucket V) {v : V} → b.value ≡ some v → Passable b
  Passable-of_value b e = rw e

  -- Writing a bucket in use at an index that its home reaches.
  pub Reachable-set :
      (size : ℕ) (xs : List (Bucket V)) (i : ℕ) (c : Bucket V) (v : V)
      → i < length xs
      → c.value ≡ some v
      → Reach size xs (home size c.hash) i
      → Reachable size xs
      → Reachable size (set xs i c)
  Reachable-set size xs i c v inside e r all j b w at used =
      let keep = PassableAt-set xs i c inside (Passable-of_value c e) in
      elim (Bool-cases (i == j)) [
        | inl same ↦
            let ij = (==_iff i j).0 same in
            let cb : b ≡ c =
              cc (get_elem?-set_self xs i c inside, ap (get_elem? (set xs i c)) ij) in
            rw (cb, ← ij) (Reach-mono keep r)
        | inr other ↦ Reach-mono keep (
            all j b w (sym (get_elem?-set_ne xs c (λ ij. cc ((==_iff i j).1 ij, other))) ∙ at) used)
      ]

  -- A write to an empty bucket, or to one whose entry goes on with the loop, keeps the others.
  pub Held-set :
      (xs : List (Bucket V)) (i : ℕ) (b c : Bucket V) {key : Option Bytes} {hash : ℕ} {w : V}
      → get_elem? xs i ≡ some b
      → Held key hash w xs
      → Held key hash w (set xs i c) ⊎ ((b.key ≡ key) × (b.hash ≡ hash) × (b.value ≡ some w))
  Held-set xs i b c at held = elim (Bool-cases (i == held.index)) [
    | inl same ↦
        let ij = (==_iff i held.index).0 same in
        let cb : b ≡ held.bucket = cc (at, held.at, ap (get_elem? xs) ij) in
        inr (
          ap (λ t. t.key) cb ∙ held.key_eq,
          ap (λ t. t.hash) cb ∙ held.hash_eq,
          ap (λ t. t.value) cb ∙ held.value_eq,
        )
    | inr other ↦ inl (record {
      index = held.index;
      bucket = held.bucket;
      at = get_elem?-set_ne xs c (λ ij. cc ((==_iff i held.index).1 ij, other)) ∙ held.at;
      key_eq = held.key_eq;
      hash_eq = held.hash_eq;
      value_eq = held.value_eq;
    })
  ]

  -- A bucket that is not in use after the write was there before it.
  pub idle-set :
      (xs : List (Bucket V)) (i : ℕ) (c : Bucket V) {v : V}
      → i < length xs
      → c.value ≡ some v
      → (j : ℕ) (b : Bucket V) → get_elem? (set xs i c) j ≡ some b
      → b.value ≡ none
      → get_elem? xs j ≡ some b
  idle-set xs i c inside e j b at empty = elim (Bool-cases (i == j)) [
    | inl same ↦
        let ij = (==_iff i j).0 same in
        let cb : b ≡ c = cc (get_elem?-set_self xs i c inside, ap (get_elem? (set xs i c)) ij) in
        absurd (cc (ap (λ t. t.value) cb))
    | inr other ↦ sym (get_elem?-set_ne xs c (λ ij. cc ((==_iff i j).1 ij, other))) ∙ at
  ]

  pub Held-new :
      (xs : List (Bucket V)) (i : ℕ) (c : Bucket V) {v : V}
      → i < length xs
      → c.value ≡ some v
      → Held c.key c.hash v (set xs i c)
  Held-new xs i c inside e = record {
    index = i;
    bucket = c;
    at = get_elem?-set_self xs i c inside;
    key_eq = refl;
    hash_eq = refl;
    value_eq = e;
  }
