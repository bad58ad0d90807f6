-- ===== src/HashTable/Update.antt =====
-- `update` against the map that a table stands for.
use pht.Common.{
  ℕ, zero, suc, ◌<◌, ◌≡◌, refl, sym, ap, ◌∙◌, true, false, ◌==◌, List, [], ◌∷◌, none, some,
  if◌then◌else◌, arith, length, length-set, get_elem?, set, get_elem?-lt, Option-cases, Bool-cases,
  inl, inr, Run, ok, fault, load-get, store-set, Returns,
}
use mathlib.Core.Option.{some-injective}
use pht.HashTable.{
  Bucket, Table, Query, tombstone, matches, same_key, next, home, update, update_loop,
}
use pht.HashTable.Slots.{
  Test, any_test, weight, tally, tally-set, has_key, find, find-Held, find-set_other,
}
use pht.HashTable.Probe.{walk, walk_next, Steps, PassableAt, passable}
use pht.HashTable.Writes.{Reachable-set, Held-new, idle-set}
use pht.HashTable.Keys.{has_key_congr}
use pht.HashTable.Laws.{IsTable, IsIdle}
use pht.HashTable.Load.{IsValid}
use pht.HashTable.Hits.{Hit, Hits, reachable-Hit, Hit-find}

-- A tombstone compares equal to the integer key 1 alone.
abbrev pub NoTombstone : Query → Type 0
NoTombstone q = has_key q none 1 ≡ false

module _ {V : Type 0} where
  module _ (size : ℕ) (q : Query) (xs : List (Bucket V)) (width : length xs ≡ size) where
    module _ (new : V) (no : NoTombstone q)
        (idle : (i : ℕ) (b : Bucket V) → get_elem? xs i ≡ some b → b.value ≡ none → IsIdle b) where
      abbrev Written : ℕ → Bucket V → V → Run (List V × List (Bucket V)) → Type 0
      Written k c w r = r ≡ ok (w ∷ [], set xs k (record c { value = some new }))

      update_loop-Hits :
          (rounds i n : ℕ) (j : ℕ) (b : Bucket V) (v : V)
          → Steps size xs i j n
          → n < rounds
          → Hit q xs j b v
          → Hits q xs (λ k c w. Written k c w (update_loop size rounds i q new xs))
      unfolding update_loop matches walk
      update_loop-Hits zero i n j b v s lt hit = elim lt [ ]
      update_loop-Hits (suc rounds) i zero j b v s lt hit =
          let got : get_elem? xs i ≡ some b = rw s.0 hit.at in
          let inside : i < length xs = get_elem?-lt xs i b got in
          (
            i,
            b,
            v,
            record { at = got; value = hit.value; key = hit.key },
            rw (
              load-get xs i got,
              hit.key,
              hit.value,
              store-set xs i (record b { value = some new }) inside,
            ),
          )
      update_loop-Hits (suc rounds) i (suc n) j b v (w, ps) lt hit =
          past
            (update_loop-Hits rounds (next size i) n j b v
              (walk_next size i n ∙ w, λ k low. rw (walk_next size i k) (ps (suc k) (omega arith)))
              (omega arith) hit)
            (ps 0 (omega arith))
        where
          past :
              Hits q xs (λ k c w. Written k c w (update_loop size rounds (next size i) q new xs))
              → PassableAt xs i
              → Hits q xs (λ k c w. Written k c w (update_loop size (suc rounds) i q new xs))
          past (k, c, w, hit', rest) (passable {b = d} got p) = elim (Option-cases d.value) [
            | inl empty ↦
                let z : (d.hash == 0) ≡ false = rw empty at p in
                let (no_key, low) = idle i d got empty in
                let one : d.hash ≡ 1 = ground arith in
                let m : has_key q d.key d.hash ≡ false = rw (no_key, one) no in
                (k, c, w, hit', rw (load-get xs i got, m) rest)
            | inr (u, used) ↦ elim (Bool-cases (has_key q d.key d.hash)) [
              | inl m ↦ (
                i,
                d,
                u,
                record { at = got; value = used; key = m },
                rw (
                  load-get xs i got,
                  m,
                  used,
                  store-set xs i (record d { value = some new }) (get_elem?-lt xs i d got),
                ),
              )
              | inr m ↦ (k, c, w, hit', rw (load-get xs i got, m) rest)
            ]
          ]

  -- A write of a new value into a bucket in use.
  overwrite-IsTable :
      (t : Table V) (k : ℕ) (b : Bucket V) (v new : V)
      → IsTable t
      → get_elem? t.values k ≡ some b
      → b.value ≡ some v
      → IsTable (record t { values = set t.values k (record b { value = some new }) })
  overwrite-IsTable t k b v new valid at used =
      let c = record b { value = some new } in
      let inside = get_elem?-lt t.values k b at in
      let same : (p : Test) → tally p (set t.values k c) ≡ tally p t.values = λ p.
        let w : weight p b ≡ weight p c = rw used in
        omega (arith, w, tally-set p t.values k b c at) in
      record {
        positive = valid.positive;
        width = length-set t.values k c ∙ valid.width;
        counted = same any_test ∙ valid.counted;
        unique = λ q. rw (same (has_key q)) (valid.unique q);
        reachable =
            Reachable-set t.size t.values k c new inside refl (valid.reachable k b v at used)
              valid.reachable;
        idle =
            λ i d got empty. valid.idle i d (idle-set t.values k c inside refl i d got empty) empty;
      }

  -- `update` of a key that a valid table has, other than the integer key 1, hands exactly the old
  -- value to the destructor and leaves a valid table with as many entries, which maps the key to
  -- the new value and every other key as before.
  pub update-find :
      (t : Table V) (q : Query) (old new : V)
      → IsValid t
      → NoTombstone q
      → find q t.values ≡ some old
      → Returns (update t q new) (λ r.
        (r.0 ≡ old ∷ [])
        × IsValid r.1
        × (r.1.used ≡ t.used)
        × ((p : Query)
            → find p r.1.values ≡ (if has_key p q.key q.hash then some new else find p t.values)))
  unfolding update
  update-find t q old new valid ne found =
      let table = valid.table in
      let xs = t.values in
      let (n, j, b, lt, steps, hit) = reachable-Hit t q old table found in
      let (k, c, w, hit', run) =
        update_loop-Hits t.size q xs table.width new ne table.idle t.size (home t.size q.hash) n j b
          old steps lt hit in
      let c' = record c { value = some new } in
      let w_old : w ≡ old =
        some-injective w old (sym (Hit-find q xs (table.unique q) hit') ∙ found) in
      let table' = overwrite-IsTable t k c w new table hit'.at hit'.value in
      (
        (w ∷ [], record t { values = set xs k c' }),
        rw run,
        (
          ap (λ v. v ∷ []) w_old,
          record { table = table'; load = valid.load },
          refl,
          λ p. elim (Bool-cases (has_key p q.key q.hash)) [
            | inl m ↦
                let mc : has_key p c.key c.hash ≡ true =
                  sym (has_key_congr q p c.key c.hash hit'.key) ∙ m in
                rw m (
                  find-Held p (table'.unique p)
                    (Held-new xs k c' (get_elem?-lt xs k c hit'.at) refl) mc)
            | inr m ↦
                let mc : has_key p c.key c.hash ≡ false =
                  sym (has_key_congr q p c.key c.hash hit'.key) ∙ m in
                let wc : weight (has_key p) c ≡ 0 = rw (hit'.value, mc) in
                let wc' : weight (has_key p) c' ≡ 0 = rw mc in
                rw m (find-set_other p xs k c c' hit'.at wc wc')
          ],
        ),
      )

  update_loop-tombstone :
      (size rounds i : ℕ) (new : V) (xs : List (Bucket V))
      → 0 < rounds
      → get_elem? xs i ≡ some tombstone
      → update_loop size rounds i (record { key = none; hash = 1 }) new xs ≡ fault
  unfolding update_loop matches same_key
  update_loop-tombstone size zero i new xs pos at = elim pos [ ]
  update_loop-tombstone size (suc rounds) i new xs pos at = rw (load-get xs i at)

  -- `update` of the integer key 1 in a table that has a tombstone at the home of this key passes
  -- NULL to the destructor, whatever the rest of the table holds.
  pub update-tombstone :
      (t : Table V) (new : V)
      → 0 < t.size
      → get_elem? t.values (home t.size 1) ≡ some tombstone
      → update t (record { key = none; hash = 1 }) new ≡ fault
  unfolding update
  update-tombstone t new pos at =
      rw (update_loop-tombstone t.size t.size (home t.size 1) new t.values pos at)
