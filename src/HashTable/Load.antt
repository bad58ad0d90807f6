-- ===== src/HashTable/Load.antt =====
-- The load of a table: `insert`, which resizes at three quarters of the capacity.
use pht.Common.{
  ℕ, ◌+◌, ◌-◌, ◌*◌, ◌/◌, ◌≤◌, ◌<◌, ◌≡◌, ap, ◌∙◌, true, false, ◌==◌, ==_iff, none, some,
  if◌then◌else◌, arith, int_max, Bool-cases, inl, inr, ok, Returns,
}
use pht.HashTable.{Table, Query, resize, insert, insert_direct}
use pht.HashTable.Slots.{tally, has_key, find, tally_of_find-none, find-Keeps}
use pht.HashTable.Laws.{IsTable, insert_direct-Added, find-insert}
use pht.HashTable.Resize.{resize-Resized}

-- `size - (size >> 2)`
abbrev pub load_limit : ℕ → ℕ
load_limit size = size - size / 4

module _ {V : Type 0} where
  -- The invariant between operations: also, three quarters of the buckets are in use at most.
  pub record IsValid (t : Table V) : Type 0 where
    pub table : IsTable t
    pub load : t.used ≤ load_limit t.size

  insert_below :
      (t : Table V) (q : Query) (v : V)
      → (t.used == load_limit t.size) ≡ false
      → insert t q v ≡ insert_direct t q v
  unfolding insert
  insert_below t q v e = rw e

  insert_full :
      (t t' : Table V) (q : Query) (v : V)
      → (t.used == load_limit t.size) ≡ true
      → resize t ≡ ok t'
      → insert t q v ≡ insert_direct t' q v
  unfolding insert
  insert_full t t' q v e grow = rw (e, grow)

  -- `insert` of a key that a valid table does not have, where twice the size fits in an `int`,
  -- ends in a valid table with one more entry, which maps the key to the value and every other key
  -- as before, whether or not the table is resized first.
  pub insert-find :
      (t : Table V) (q : Query) (v : V)
      → IsValid t
      → t.size * 2 ≤ int_max
      → find q t.values ≡ none
      → Returns (insert t q v) (λ u.
        IsValid u
        × (u.used ≡ t.used + 1)
        × ((p : Query)
            → find p u.values ≡ (if has_key p q.key q.hash then some v else find p t.values)))
  insert-find t q v valid fits absent =
      let fresh = tally_of_find-none q t.values absent in
      let positive = valid.table.positive in
      elim (Bool-cases (t.used == load_limit t.size)) [
        | inr below ↦
            let room : t.used < load_limit t.size = ground (arith, valid.load) in
            let (u, run, a) = insert_direct-Added t q v valid.table (omega arith) fresh in
            (
              u,
              insert_below t q v below ∙ run,
              (
                record { table = a.table; load = omega (arith, a.used, a.size) },
                a.used,
                find-insert q v t.values u.values valid.table.unique fresh a.counts a.keeps a.adds,
              ),
            )
        | inl full ↦
            let at_limit : t.used ≡ load_limit t.size = (==_iff _ _).0 full in
            let (t', grow, r) = resize-Resized t valid.table fits in
            let fresh' : tally (has_key q) t'.values ≡ 0 = r.counts (has_key q) ∙ fresh in
            let (u, run, a) =
              insert_direct-Added t' q v r.table (omega (arith, r.used, r.size)) fresh' in
            (
              u,
              insert_full t t' q v full grow ∙ run,
              (
                record { table = a.table; load = omega (arith, a.used, a.size, r.used, r.size) },
                a.used ∙ ap (λ n. n + 1) r.used,
                λ p.
                    find-insert q v t'.values u.values r.table.unique fresh' a.counts a.keeps a.adds
                      p
                    ∙ ap (λ o. if has_key p q.key q.hash then some v else o)
                        (find-Keeps p t.values t'.values (valid.table.unique p)
                          (r.counts (has_key p)) r.moves),
              ),
            )
      ]
