-- ===== src/Tests/Shared.antt =====
-- src/classes on shared objects: the array syntax of a hash table, the growth of a vector, the locks.
use pht.Common.{
  ℕ, ◌*◌, ◌≡◌, ◌≤◌, refl, Bool, true, false, [], ◌∷◌, none, some, int_max, on_value, ok, Returns,
  arith, ref, replicate,
}
use pht.Common.Int.{pos}
use pht.PhtString.{Bytes}
use pht.HashTable
use pht.HashTable.{Table, Query, blank, index_query}
use pht.HashTable.Slots.{find}
use pht.HashTable.Resize.{init-IsTable}
use pht.HashTable.Load.{IsValid, insert-find}
use pht.HashTable.Update.{NoTombstone}
use pht.Vector
use pht.Vector.Laws as VectorLaws
use pht.Entry.{
  Entry, Zval, Zend, Heap, Object, Shared, object_at, entry_delete, entry_delete_value,
  create_entry_from_zval, convert_entry_to_zval,
}
use pht.Entry.Deletion.{entry_delete-plain}
use pht.Classes.{returned}
use pht.Classes.VectorObject.{delete_all}
use pht.Classes.VectorSizing
use pht.Classes.VectorSizing.Filling.{Stores}
use pht.Classes.VectorSizing.Growing.{resize-Stores}
use pht.Classes.HashTableObject.{
  query_of, read_dimension, write_dimension, has_dimension, unset_dimension,
}
use pht.Classes.HashTableObject.Map.{
  Maps, Inert, changed, write_dimension-Maps, unset_dimension-Maps,
}

abbrev zend : Zend ℕ ℕ
zend = record {
  serialize = λ a. none;
  unserialize = λ s. none;
  copy_user_function = λ f. f;
  is_true = λ z. true;
}

abbrev zend_hash_func : Bytes → ℕ
zend_hash_func s = 6

abbrev two : Query
two = index_query 2

-- A table of two buckets that has `null` under the integer key 2.
abbrev small : Table (Entry ℕ)
small = record {
  values = record { key = none; value = some Entry.null; hash = 2; variance = 0 } ∷ blank ∷ [];
  size = 2;
  used = 1;
}

abbrev table : Shared (Table (Entry ℕ))
table = record { content = small; lock = none; refcount = 1; vn = 4 }

abbrev vector : Shared (Vector.Vector (Entry ℕ))
vector = record {
  content = record { values = ref Entry.null ∷ []; size = 1; used = 1 };
  lock = none;
  refcount = 1;
  vn = 0;
}

abbrev heap : Heap ℕ
heap = (400, Object.hash_table table) ∷ (500, Object.vector vector) ∷ []

abbrev empty : Table (Entry ℕ)
empty = HashTable.init 2

insert-empty : HashTable.insert empty two Entry.null ≡ ok small
unfolding HashTable.insert HashTable.init
insert-empty = refl

empty-none : find two empty.values ≡ none
unfolding find HashTable.init
empty-none = refl

empty-IsValid : IsValid empty
unfolding HashTable.init
empty-IsValid = record { table = init-IsTable 2 (omega arith); load = omega arith }

empty-fits : empty.size * 2 ≤ int_max
unfolding HashTable.init
empty-fits = omega arith

small-IsValid : IsValid small
small-IsValid =
    let (u, run, (valid, _, _)) =
      insert-find empty two Entry.null empty-IsValid empty-fits empty-none in
    let same : u ≡ small = cc (run, insert-empty) in rw same at valid

table-at : object_at 400 heap ≡ some (Object.hash_table table)
unfolding object_at
table-at = refl

vector-at : object_at 500 heap ≡ some (Object.vector vector)
unfolding object_at
vector-at = refl

query-two : query_of {A = ℕ} {F = ℕ} zend_hash_func (Zval.long (pos 2)) ≡ some two
unfolding query_of
query-two = refl

two-NoTombstone : NoTombstone two
two-NoTombstone = refl

creates-true :
    (k : Heap ℕ) → create_entry_from_zval zend 1 Zval.true_value k ≡ ok (some Entry.true_entry, k)
unfolding create_entry_from_zval
creates-true k = refl

converts-true :
    (k : Heap ℕ) → convert_entry_to_zval zend 1 Entry.true_entry k ≡ ok (Zval.true_value, k)
unfolding convert_entry_to_zval
converts-true k = refl

deletes-null : (k : Heap ℕ) → entry_delete 1 Entry.null k ≡ ok k
unfolding entry_delete_value
deletes-null k = entry_delete-plain 1 Entry.null k refl

small-Inert : Inert 1 (on_value (find two small.values) [] (λ old. old ∷ []))
unfolding find HashTable.matches delete_all
small-Inert k = rw (deletes-null k)

write_dimension-Maps_example :
    Returns
      (write_dimension zend zend_hash_func 1 400 (some (Zval.long (pos 2))) Zval.true_value heap)
      (λ r.
        (r.0 ≡ returned tt)
        × Maps 400 r.1 (changed two (some Entry.true_entry) (λ p. find p small.values)) 5
        × ((quiet : Bool)
            → read_dimension zend zend_hash_func 1 400 (some (Zval.long (pos 2))) quiet r.1
              ≡ ok (returned (some Zval.true_value), r.1)))
write_dimension-Maps_example =
    write_dimension-Maps zend zend_hash_func 1 400 (Zval.long (pos 2)) Zval.true_value two
      Entry.true_entry Zval.true_value heap table query-two (creates-true heap) converts-true
      table-at small-IsValid (omega arith) two-NoTombstone small-Inert

unset_dimension-Maps_example :
    Returns (unset_dimension zend zend_hash_func 1 400 (Zval.long (pos 2)) heap) (λ r.
      (r.0 ≡ returned tt)
      × Maps 400 r.1 (changed two none (λ p. find p small.values)) 5
      × ((check_empty : Bool)
          → has_dimension zend zend_hash_func 1 400 (Zval.long (pos 2)) check_empty r.1
            ≡ ok (returned false, r.1)))
unset_dimension-Maps_example =
    unset_dimension-Maps zend zend_hash_func 1 400 (Zval.long (pos 2)) two heap table query-two
      table-at small-IsValid small-Inert

vector-Models : VectorLaws.Models vector.content (ref Entry.null ∷ [])
vector-Models = ([], record { values = refl; size = refl; used = refl })

resize-Stores_example :
    Returns (VectorSizing.resize zend 1 500 true (pos 3) (some Zval.true_value) heap) (λ r.
      (r.0 ≡ returned tt) × Stores 500 r.1 (ref Entry.null ∷ replicate 2 (ref Entry.true_entry)) 1)
resize-Stores_example =
    resize-Stores zend 1 500 3 (some Zval.true_value) Entry.true_entry heap vector
      (ref Entry.null ∷ []) creates-true vector-at vector-Models (λ e. omega (arith, e))
      (omega arith) (omega arith)
