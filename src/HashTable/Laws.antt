-- ===== src/HashTable/Laws.antt =====
-- The map that a table stands for, under `search` and one insertion.
use pht.Common.{
  ℕ, ◌+◌, ◌≤◌, ◌<◌, ◌≡◌, refl, sym, ap, ◌∙◌, true, List, Option, none, some, if◌then◌else◌, arith,
  length, get_elem?, Option-cases, Bool-cases, inl, inr, ok, Returns,
}
use mathlib.Core.Path.{fun_ext}
use pht.PhtString.{Bytes}
use pht.HashTable.{Bucket, Table, Query, on_value, home, insert_direct, search, search_loop}
use pht.HashTable.Slots.{
  Test, any_test, tally, Held, has_key, find, find-some, find-Held, Keeps, find-Keeps,
}
use pht.HashTable.Probe.{
  home-lt, walk_total, here, short-Steps, Found, search_loop-Found, search_loop-some,
}
use pht.HashTable.Writes.{Reachable}
use pht.HashTable.Insert.{free_bucket, insert_loop-Inserted}
use pht.HashTable.Keys.{has_key_same}

pub hash_of :
    (q : Query) (key : Option Bytes) (hash : ℕ) → has_key q key hash ≡ true → hash ≡ q.hash
hash_of q key hash m = ground arith

module _ {V : Type 0} where
  -- A bucket that is not in use was never used or is a tombstone.
  abbrev pub IsIdle : Bucket V → Type 0
  IsIdle b = (b.key ≡ none) × (b.hash ≤ 1)

  -- The invariant of a table, whatever its load.
  pub record IsTable (t : Table V) : Type 0 where
    pub positive : 0 < t.size
    pub width : length t.values ≡ t.size
    pub counted : tally any_test t.values ≡ t.used
    pub unique : (q : Query) → tally (has_key q) t.values ≤ 1
    pub reachable : Reachable t.size t.values
    pub idle : (i : ℕ) (b : Bucket V) → get_elem? t.values i ≡ some b → b.value ≡ none → IsIdle b

  -- In a well-formed table `search` neither faults nor reads outside the array, and returns for
  -- every key what the abstract map `find` has: the value of the bucket in use for the key, or
  -- nothing.
  pub search-find : (t : Table V) → IsTable t → (q : Query) → search t q ≡ ok (find q t.values)
  unfolding search
  search-find t valid q =
      let h = home t.size q.hash in
      let hs = home-lt t.size q.hash valid.positive in
      let (o, run, found) = search_loop-Found t.size q t.values valid.width t.size h hs in
      rw run (ap ok (agree o run found))
    where
      agree :
          (o : Option (Bucket V))
          → search_loop t.size t.size (home t.size q.hash) q t.values ≡ ok o
          → Found q t.values o
          → on_value o none (λ b. b.value) ≡ find q t.values
      agree (some b) run (j, v, at, value, m) =
          let held : Held b.key b.hash v t.values = record {
            index = j;
            bucket = b;
            at = at;
            key_eq = refl;
            hash_eq = refl;
            value_eq = value;
          } in
          value ∙ sym (find-Held q (valid.unique q) held m)
      agree none run tt' = elim (Option-cases (find q t.values)) [
        | inl e ↦ sym e
        | inr (v, e) ↦
            let (key, hash, held, m) = find-some q t.values v e in
            let m' : has_key q held.bucket.key held.bucket.hash ≡ true =
              rw (held.key_eq, held.hash_eq) m in
            let same_home : home t.size held.bucket.hash ≡ home t.size q.hash =
              ap (home t.size) (hash_of q held.bucket.key held.bucket.hash m') in
            let reach =
              rw same_home at (valid.reachable held.index held.bucket v held.at held.value_eq) in
            let (n, lt, steps) = short-Steps (home-lt t.size q.hash valid.positive) reach in
            let (c, hit) =
              search_loop-some t.size q t.values valid.width t.size (home t.size q.hash) n steps lt
                held.at held.value_eq m' in
            absurd (cc (run, hit))
      ]

  -- A table that holds the entries of `xs` and one more under a new key.
  pub find-insert :
      (q : Query) (v : V) (xs ys : List (Bucket V))
      → ((p : Query) → tally (has_key p) xs ≤ 1)
      → tally (has_key q) xs ≡ 0
      → ((p : Test) → tally p ys ≡ tally p xs + (if p q.key q.hash then 1 else 0))
      → Keeps xs ys
      → Held q.key q.hash v ys
      → (p : Query) → find p ys ≡ (if has_key p q.key q.hash then some v else find p xs)
  find-insert q v xs ys unique fresh counts keeps adds p =
      elim (Bool-cases (has_key p q.key q.hash)) [
        | inl m ↦
            let alike : has_key p ≡ has_key q =
              fun_ext λ key. fun_ext λ hash. has_key_same q p m key hash in
            let one : tally (has_key p) ys ≡ 1 = counts (has_key p) ∙ rw (m, alike, fresh) in
            rw m (find-Held p (omega (arith, one)) adds m)
        | inr m ↦
            let same : tally (has_key p) ys ≡ tally (has_key p) xs =
              counts (has_key p) ∙ rw m (omega arith) in
            rw m (find-Keeps p xs ys (unique p) same keeps)
      ]

  -- The bucket that `insert_direct` starts to carry.
  abbrev pub fresh_bucket : Query → V → Bucket V
  fresh_bucket q v = record { key = q.key; value = some v; hash = q.hash; variance = 0 }

  pub record Added (t : Table V) (q : Query) (v : V) (u : Table V) : Type 0 where
    pub table : IsTable u
    pub size : u.size ≡ t.size
    pub used : u.used ≡ t.used + 1
    pub counts :
        (p : Test) → tally p u.values ≡ tally p t.values + (if p q.key q.hash then 1 else 0)
    pub keeps : Keeps t.values u.values
    pub adds : Held q.key q.hash v u.values

  one_at_most :
      (q p : Query) (xs : List (Bucket V)) (n : ℕ)
      → tally (has_key q) xs ≡ 0
      → n ≡ tally (has_key p) xs + (if has_key p q.key q.hash then 1 else 0)
      → tally (has_key p) xs ≤ 1
      → n ≤ 1
  one_at_most q p xs n fresh count few = elim (Bool-cases (has_key p q.key q.hash)) [
    | inl m ↦
        let alike : has_key p ≡ has_key q =
          fun_ext λ key. fun_ext λ hash. has_key_same q p m key hash in
        let none_before : tally (has_key p) xs ≡ 0 = rw alike fresh in ground (arith, none_before)
    | inr m ↦ ground arith
  ]

  -- Below its full load a table takes one more key.
  pub insert_direct-Added :
      (t : Table V) (q : Query) (v : V)
      → IsTable t
      → t.used < t.size
      → tally (has_key q) t.values ≡ 0
      → Returns (insert_direct t q v) (Added t q v)
  unfolding insert_direct
  insert_direct-Added t q v valid room fresh =
      let h = home t.size q.hash in
      let hs = home-lt t.size q.hash valid.positive in
      let (f, lt, free) = free_bucket t.values (omega (arith, valid.counted, valid.width)) in
      let (n, more, w) = walk_total t.size h f hs (omega (arith, valid.width)) in
      let (ys, run, ins) =
        insert_loop-Inserted t.size t.size h n f (fresh_bucket q v) v t.values valid.width hs more w
          free refl here valid.reachable in
      (
        record t { values = ys; used = t.used + 1 },
        rw run,
        record {
          table = record {
            positive = valid.positive;
            width = ins.width;
            counted = omega (arith, ins.counts any_test, valid.counted);
            unique =
                λ p. one_at_most q p t.values _ fresh (ins.counts (has_key p)) (valid.unique p);
            reachable = ins.reachable;
            idle = λ i b at empty. valid.idle i b (ins.idle i b at empty) empty;
          };
          size = refl;
          used = refl;
          counts = ins.counts;
          keeps = λ key hash w held. ins.keeps held;
          adds = ins.adds;
        },
      )
