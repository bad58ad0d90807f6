-- ===== src/HashTable/Delete.antt =====
-- `delete` against the map that a table stands for.
use pht.Common.{
  ℕ, zero, suc, ◌+◌, ◌-◌, ◌≤◌, ◌<◌, ◌≡◌, ◌≢◌, refl, sym, ap, ◌∙◌, true, false, ◌==◌, ==_iff, List,
  [], ◌∷◌, none, some, if◌then◌else◌, arith, length, length-set, get_elem?, set, get_elem?-set_self,
  get_elem?-set_ne, get_elem?-bound, get_elem?-lt, Option-cases, Bool-cases, inl, inr, ok, load-get,
  store-set, Returns,
}
use pht.HashTable.{
  Bucket, Table, Query, on_value, tombstone, matches, next, home, delete, delete_loop,
}
use pht.HashTable.Slots.{
  any_test, weight, tally, tally-set, has_key, find, find-none, find-some, find-Held,
  find-set_other,
}
use pht.HashTable.Probe.{
  home-lt, next-lt, walk, walk_next, Steps, PassableAt, passable, Reach-mono, PassableAt-set,
}
use pht.HashTable.Keys.{has_key_congr, has_key_same}
use pht.HashTable.Laws.{IsTable}
use pht.HashTable.Load.{IsValid}
use pht.HashTable.Hits.{Hit, Hits, reachable-Hit, Hit-find}

module _ {V : Type 0} where
  module _ (size : ℕ) (q : Query) (xs : List (Bucket V)) (width : length xs ≡ size) where
    delete_loop-Hits :
        (rounds i n : ℕ) (j : ℕ) (b : Bucket V) (v : V)
        → Steps size xs i j n
        → n < rounds
        → Hit q xs j b v
        → Hits q xs (λ k c w. delete_loop size rounds i q xs ≡ ok (w ∷ [], set xs k tombstone))
    unfolding delete_loop matches walk
    delete_loop-Hits zero i n j b v s lt hit = elim lt [ ]
    delete_loop-Hits (suc rounds) i zero j b v s lt hit =
        let got : get_elem? xs i ≡ some b = rw s.0 hit.at in
        let inside : i < length xs = get_elem?-lt xs i b got in
        (
          i,
          b,
          v,
          record { at = got; value = hit.value; key = hit.key },
          rw (load-get xs i got, hit.value, hit.key, store-set xs i tombstone inside),
        )
    delete_loop-Hits (suc rounds) i (suc n) j b v (w, ps) lt hit =
        past
          (delete_loop-Hits rounds (next size i) n j b v
            (walk_next size i n ∙ w, λ k low. rw (walk_next size i k) (ps (suc k) (omega arith)))
            (omega arith) hit)
          (ps 0 (omega arith))
      where
        past :
            Hits q xs (λ k c w.
              delete_loop size rounds (next size i) q xs ≡ ok (w ∷ [], set xs k tombstone))
            → PassableAt xs i
            → Hits q xs
                (λ k c w. delete_loop size (suc rounds) i q xs ≡ ok (w ∷ [], set xs k tombstone))
        past (k, c, w, hit', rest) (passable {b = d} got p) = elim (Option-cases d.value) [
          | inl empty ↦
              let z : (d.hash == 0) ≡ false = rw empty at p in
              (k, c, w, hit', rw (load-get xs i got, empty, z) rest)
          | inr (u, used) ↦ elim (Bool-cases (has_key q d.key d.hash)) [
            | inl m ↦ (
              i,
              d,
              u,
              record { at = got; value = used; key = m },
              rw (load-get xs i got, used, m, store-set xs i tombstone (get_elem?-lt xs i d got)),
            )
            | inr m ↦ (k, c, w, hit', rw (load-get xs i got, used, m) rest)
          ]
        ]

    delete_loop-miss :
        (rounds i : ℕ)
        → i < size
        → ((j : ℕ) (b : Bucket V) (v : V)
            → get_elem? xs j ≡ some b
            → b.value ≡ some v
            → has_key q b.key b.hash ≡ false)
        → delete_loop size rounds i q xs ≡ ok ([], xs)
    unfolding delete_loop matches
    delete_loop-miss zero i lt out = refl
    delete_loop-miss (suc rounds) i lt out =
        let (b, at) = get_elem?-bound xs i (omega (arith, width)) in
        let rest = delete_loop-miss rounds (next size i) (next-lt size i lt) out in
        elim (Option-cases b.value) [
          | inl e ↦ elim (Bool-cases (b.hash == 0)) [
            | inl z ↦ rw (load-get xs i at, e, z)
            | inr z ↦ rw (load-get xs i at, e, z) rest
          ]
          | inr (v, e) ↦ rw (load-get xs i at, e, out i b v at e) rest
        ]

  -- What is no tombstone was there before the clearing.
  cleared :
      (xs : List (Bucket V)) (k i : ℕ) (d : Bucket V)
      → get_elem? (set xs k tombstone) i ≡ some d
      → k < length xs
      → d ≢ tombstone
      → get_elem? xs i ≡ some d
  cleared xs k i d got inside other = elim (Bool-cases (k == i)) [
    | inl e ↦
        let ki = (==_iff k i).0 e in
        absurd (
          other (
            cc (
              get_elem?-set_self xs k (tombstone {V = V}) inside,
              ap (get_elem? (set xs k tombstone)) ki,
            )))
    | inr e ↦ sym (get_elem?-set_ne xs tombstone (λ ki. cc ((==_iff k i).1 ki, e))) ∙ got
  ]

  -- Clearing a bucket in use.
  clear-IsTable :
      (t : Table V) (k : ℕ) (b : Bucket V) (v : V)
      → IsTable t
      → get_elem? t.values k ≡ some b
      → b.value ≡ some v
      → IsTable (record t { values = set t.values k tombstone; used = t.used - 1 })
  clear-IsTable t k b v valid at used =
      let xs = t.values in
      let inside = get_elem?-lt xs k b at in
      let tomb = tombstone {V = V} in
      let one : weight any_test b ≡ 1 = rw used in
      record {
        positive = valid.positive;
        width = length-set xs k tomb ∙ valid.width;
        counted = omega (arith, valid.counted, one, tally-set any_test xs k b tomb at);
        unique = λ q. omega (arith, valid.unique q, tally-set (has_key q) xs k b tomb at);
        reachable = λ i d w got live. Reach-mono (PassableAt-set xs k tomb inside refl) (
            valid.reachable i d w
              (cleared xs k i d got inside (λ same. cc (live, ap (λ u. u.value) same))) live);
        idle = λ i d got empty. elim (Bool-cases (k == i)) [
          | inl here_eq ↦
              let ki = (==_iff k i).0 here_eq in
              let same : d ≡ tomb =
                cc (get_elem?-set_self xs k tomb inside, ap (get_elem? (set xs k tomb)) ki) in
              rw same (refl, omega arith)
          | inr other ↦
              valid.idle i d
                (sym (get_elem?-set_ne xs tomb (λ ki. cc ((==_iff k i).1 ki, other))) ∙ got) empty
        ];
      }

  -- What a deletion does to a table, as a change of its map.
  pub record Deleted (t : Table V) (q : Query) (r : List V × Table V) : Type 0 where
    pub deleted : r.0 ≡ on_value (find q t.values) [] (λ v. v ∷ [])
    pub valid : IsValid r.1
    pub used : r.1.used + length r.0 ≡ t.used
    pub map :
        (p : Query) → find p r.1.values ≡ (if has_key p q.key q.hash then none else find p t.values)

  delete_present :
      (t : Table V) (q : Query) (old : V)
      → IsValid t
      → find q t.values ≡ some old
      → Returns (delete t q) (Deleted t q)
  unfolding delete
  delete_present t q old valid found =
      let table = valid.table in
      let xs = t.values in
      let tomb = tombstone {V = V} in
      let (n, j, b, lt, steps, hit) = reachable-Hit t q old table found in
      let (k, c, w, hit', run) =
        delete_loop-Hits t.size q xs table.width t.size (home t.size q.hash) n j b old steps lt
          hit in
      let table' = clear-IsTable t k c w table hit'.at hit'.value in
      let one : weight any_test c ≡ 1 = rw hit'.value in
      let some_used : 0 < t.used =
        omega (arith, one, table.counted, tally-set any_test xs k c tomb hit'.at) in
      (
        (w ∷ [], record t { values = set xs k tomb; used = t.used - 1 }),
        rw run,
        record {
          deleted = rw (Hit-find q xs (table.unique q) hit');
          valid = record { table = table'; load = omega (arith, valid.load) };
          used = omega (arith, some_used);
          map = λ p. elim (Bool-cases (has_key p q.key q.hash)) [
            | inl m ↦
                let mc : has_key p c.key c.hash ≡ true =
                  sym (has_key_congr q p c.key c.hash hit'.key) ∙ m in
                let wc : weight (has_key p) c ≡ 1 = rw (hit'.value, mc) in
                let gone : tally (has_key p) (set xs k tomb) ≡ 0 =
                  omega (arith, table.unique p, wc, tally-set (has_key p) xs k c tomb hit'.at) in
                rw m (find-none p (set xs k tomb) gone)
            | inr m ↦
                let mc : has_key p c.key c.hash ≡ false =
                  sym (has_key_congr q p c.key c.hash hit'.key) ∙ m in
                let wc : weight (has_key p) c ≡ 0 = rw (hit'.value, mc) in
                rw m (find-set_other p xs k c tomb hit'.at wc refl)
          ];
        },
      )

  absent_bucket :
      (q : Query) (xs : List (Bucket V))
      → find q xs ≡ none
      → tally (has_key q) xs ≤ 1
      → (j : ℕ) (b : Bucket V) (v : V) → get_elem? xs j ≡ some b
      → b.value ≡ some v
      → has_key q b.key b.hash ≡ false
  absent_bucket q xs e few j b v at used = elim (Bool-cases (has_key q b.key b.hash)) [
    | inr m ↦ m
    | inl m ↦ absurd (cc (Hit-find q xs few (record { at = at; value = used; key = m }), e))
  ]

  delete_absent :
      (t : Table V) (q : Query)
      → IsValid t
      → find q t.values ≡ none
      → Returns (delete t q) (Deleted t q)
  unfolding delete
  delete_absent t q valid e =
      let table = valid.table in
      let run =
        delete_loop-miss t.size q t.values table.width t.size (home t.size q.hash)
          (home-lt t.size q.hash table.positive) (absent_bucket q t.values e (table.unique q)) in
      let zero_less : t.used - 0 ≡ t.used = omega arith in
      (
        ([], t),
        rw (run, zero_less),
        record {
          deleted = rw e;
          valid = valid;
          used = omega arith;
          map = λ p. elim (Bool-cases (has_key p q.key q.hash)) [
            | inr m ↦ rw m
            | inl m ↦ rw m (missing p m)
          ];
        },
      )
    where
      missing : (p : Query) → has_key p q.key q.hash ≡ true → find p t.values ≡ none
      missing p m = elim (Option-cases (find p t.values)) [
        | inl gone ↦ gone
        | inr (v, there) ↦
            let (key, hash, held, hits) = find-some p t.values v there in
            let hit : has_key q key hash ≡ true = sym (has_key_same q p m key hash) ∙ hits in
            absurd (cc (find-Held q (valid.table.unique q) held hit, e))
      ]

  -- `delete` on a valid table hands the value of the key to the destructor if the table has the
  -- key and nothing otherwise; the table that is left is valid, counts one entry less for each
  -- value handed over, and maps the key to nothing and every other key as before.
  pub delete-find : (t : Table V) (q : Query) → IsValid t → Returns (delete t q) (Deleted t q)
  delete-find t q valid = elim (Option-cases (find q t.values)) [
    | inl e ↦ delete_absent t q valid e
    | inr (old, e) ↦ delete_present t q old valid e
  ]
