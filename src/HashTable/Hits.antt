-- ===== src/HashTable/Hits.antt =====
-- The bucket that a search, an update or a deletion stops at.
use pht.Common.{ℕ, ◌≤◌, ◌<◌, ◌≡◌, refl, ap, true, List, some, get_elem?}
use pht.HashTable.{Bucket, Table, Query, home}
use pht.HashTable.Slots.{tally, has_key, find, find-some, find-Held}
use pht.HashTable.Probe.{home-lt, Steps, short-Steps}
use pht.HashTable.Laws.{IsTable, hash_of}

module _ {V : Type 0} where
  -- A bucket in use for the query, at an index.
  pub record Hit (q : Query) (xs : List (Bucket V)) (k : ℕ) (b : Bucket V) (v : V) : Type 0 where
    pub at : get_elem? xs k ≡ some b
    pub value : b.value ≡ some v
    pub key : has_key q b.key b.hash ≡ true

  abbrev pub Hits : Query → List (Bucket V) → (ℕ → Bucket V → V → Type 0) → Type 0
  Hits q xs P = (k : ℕ) × (b : Bucket V) × (v : V) × Hit q xs k b v × P k b v

  -- What a search can find lies at the end of a short walk from home.
  pub reachable-Hit :
      (t : Table V) (q : Query) (v : V)
      → IsTable t
      → find q t.values ≡ some v
      → (n : ℕ) × (j : ℕ) × (b : Bucket V) × (n < t.size)
        × Steps t.size t.values (home t.size q.hash) j n
        × Hit q t.values j b v
  reachable-Hit t q v valid e =
      let (key, hash, held, m) = find-some q t.values v e in
      let m' : has_key q held.bucket.key held.bucket.hash ≡ true =
        rw (held.key_eq, held.hash_eq) m in
      let same_home : home t.size held.bucket.hash ≡ home t.size q.hash =
        ap (home t.size) (hash_of q held.bucket.key held.bucket.hash m') in
      let reach =
        rw same_home at (valid.reachable held.index held.bucket v held.at held.value_eq) in
      let (n, lt, steps) = short-Steps (home-lt t.size q.hash valid.positive) reach in
      (
        n,
        held.index,
        held.bucket,
        lt,
        steps,
        record { at = held.at; value = held.value_eq; key = m' },
      )

  -- Under a key of which there is one bucket, a hit is what `find` finds.
  pub Hit-find :
      (q : Query) (xs : List (Bucket V)) {k : ℕ} {b : Bucket V} {v : V}
      → tally (has_key q) xs ≤ 1
      → Hit q xs k b v
      → find q xs ≡ some v
  Hit-find q xs {k} {b} few hit =
      find-Held q few
        (record {
          index = k;
          bucket = b;
          at = hit.at;
          key_eq = refl;
          hash_eq = refl;
          value_eq = hit.value;
        })
        hit.key
