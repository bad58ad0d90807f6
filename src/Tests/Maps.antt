-- ===== src/Tests/Maps.antt =====
-- src/ds/pht_hashtable.c on a table of four buckets with the keys "a" (hash 6) and 2, which collide.
use pht.Common.{
  length, on_value, ◌+◌, ℕ, ◌*◌, ◌≡◌, ◌≤◌, refl, [], ◌∷◌, List, none, some, ok, fault, Returns,
  arith, if◌then◌else◌, int_max, get_elem?,
}
use pht.HashTable.Listing.{lookup, to_zend_hashtable-find}
use pht.HashTable.{
  to_zend_hashtable, destroy, Table, Query, blank, tombstone, init, insert, search, update, delete,
  resize, string_query, index_query, matches, home,
}
use pht.HashTable.Slots.{find, has_key}
use pht.HashTable.Laws.{search-find}
use pht.HashTable.Resize.{init-IsTable, Resized, resize-Resized}
use pht.HashTable.Load.{IsValid, insert-find}
use pht.HashTable.Update.{NoTombstone, update-find, update-tombstone}
use pht.HashTable.Delete.{Deleted, delete-find}

abbrev zend_hash_func : List ℕ → ℕ
zend_hash_func s = 6

abbrev a : Query
a = string_query zend_hash_func (97 ∷ [])

abbrev empty : Table ℕ
empty = init 4

abbrev one : Table ℕ
one = record {
  values =
      blank
      ∷ blank
      ∷ record { key = some (97 ∷ []); value = some 100; hash = 6; variance = 0 }
      ∷ blank
      ∷ [];
  size = 4;
  used = 1;
}

abbrev two : Table ℕ
two = record {
  values =
      blank
      ∷ blank
      ∷ record { key = some (97 ∷ []); value = some 100; hash = 6; variance = 0 }
      ∷ record { key = none; value = some 200; hash = 2; variance = 1 }
      ∷ [];
  size = 4;
  used = 2;
}

insert-one : insert empty a 100 ≡ ok one
unfolding insert init string_query
insert-one = refl

insert-two : insert one (index_query 2) 200 ≡ ok two
unfolding insert
insert-two = refl

search-two : search two (index_query 2) ≡ ok (some 200)
unfolding search
search-two = refl

empty-IsValid : IsValid empty
unfolding init
empty-IsValid = record { table = init-IsTable 4 (omega arith); load = omega arith }

empty-none : find a empty.values ≡ none
unfolding init find
empty-none = refl

one-none : find (index_query 2) one.values ≡ none
unfolding find matches
one-none = refl

fits_empty : empty.size * 2 ≤ int_max
unfolding init
fits_empty = omega arith

one-IsValid : IsValid one
one-IsValid =
    let (u, run, (valid, _, _)) = insert-find empty a 100 empty-IsValid fits_empty empty-none in
    let same : u ≡ one = cc (run, insert-one) in rw same at valid

two-IsValid : IsValid two
two-IsValid =
    let (u, run, (valid, _, _)) =
      insert-find one (index_query 2) 200 one-IsValid (omega arith) one-none in
    let same : u ≡ two = cc (run, insert-two) in rw same at valid

search-find_example : search two (index_query 2) ≡ ok (find (index_query 2) two.values)
search-find_example = search-find two two-IsValid.table (index_query 2)

insert-find_example : Returns (insert one (index_query 2) 200) (λ u.
    IsValid u
    × (u.used ≡ 2)
    × ((p : Query) → find p u.values ≡ (if has_key p none 2 then some 200 else find p one.values)))
insert-find_example = insert-find one (index_query 2) 200 one-IsValid (omega arith) one-none

two-NoTombstone : NoTombstone (index_query 2)
two-NoTombstone = refl

two-some : find (index_query 2) two.values ≡ some 200
unfolding find matches
two-some = refl

update-find_example : Returns (update two (index_query 2) 300) (λ r.
    (r.0 ≡ 200 ∷ [])
    × IsValid r.1
    × (r.1.used ≡ 2)
    × ((p : Query)
        → find p r.1.values ≡ (if has_key p none 2 then some 300 else find p two.values)))
update-find_example = update-find two (index_query 2) 200 300 two-IsValid two-NoTombstone two-some

delete-find_example : Returns (delete two a) (Deleted two a)
delete-find_example = delete-find two a two-IsValid

resize-Resized_example : Returns (resize two) (Resized two)
resize-Resized_example = resize-Resized two two-IsValid.table (omega arith)

to_zend_hashtable-find_example :
    (length (to_zend_hashtable (λ n. n + 1) two) ≡ 2)
    × (length (destroy two) ≡ 2)
    × ((q : Query)
        → lookup q (to_zend_hashtable (λ n. n + 1) two)
          ≡ on_value (find q two.values) none (λ v. some (v + 1)))
to_zend_hashtable-find_example = to_zend_hashtable-find (λ n. n + 1) two two-IsValid.table

-- The table after `insert(3, _)`, `insert(1, _)` and `delete(3)` on two buckets.
abbrev one_deleted : Table ℕ
one_deleted = record {
  values = record { key = none; value = some 100; hash = 1; variance = 1 } ∷ tombstone ∷ [];
  size = 2;
  used = 1;
}

home_one : get_elem? one_deleted.values (home one_deleted.size 1) ≡ some tombstone
unfolding home
home_one = refl

update-tombstone_example : update one_deleted (index_query 1) 300 ≡ fault
update-tombstone_example = update-tombstone one_deleted 300 (omega arith) home_one
