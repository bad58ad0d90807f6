-- ===== src/Classes/VectorSizing.antt =====
-- src/classes/vector.c: the constructor and `resize` of pht\Vector, which fill the array.
pub mod Filling
pub mod Growing
use pht.Common.{
  ℕ, zero, suc, ◌+◌, ◌-◌, ◌%◌, ◌^◌, Bool, true, false, List, [], ◌∷◌, ◌++◌, Option, none, some,
  ◌==◌, ◌&&◌, not, ltb, leb, take, replicate, if◌then◌else◌, on_value, Run, ok, fault, ◌>>=◌, Ptr,
  null, wild, ref, target,
}
use pht.Common.Int.{ℤ, pos, negsuc, to_int32}
use pht.Vector
use pht.Vector.{Vector}
use pht.Entry.{Entry, Zval, Heap, Zend, entry_delete, create_entry_from_zval}
use pht.Classes.{
  failed_to_serialise, invalid_size, failed_to_create, failed_to_resize, Reply, returned, thrown,
  Method, voi,
}
use pht.Classes.VectorObject.{count_version, put_content, entry_pointer}

module _ {F : Type 0} where
  -- The new block behind the elements that the old one had.
  abbrev pub grown : Vector (Entry F) → ℕ → Vector (Entry F)
  grown v size = record {
    values = take v.used v.values ++ replicate (size - v.used) wild;
    size = size;
    used = v.used;
  }

  -- A vector whose block could not be had.
  abbrev pub without_block : ℕ → Vector (Entry F)
  without_block size = record { values = []; size = size; used = 0 }

module _ {A F : Type 0} (zend : Zend A F) (self a : ℕ) where
  -- `pht_vector_push(&vo->voi->vector, pht_create_entry_from_zval(value))`: a NULL entry is pushed.
  unfoldable pub push_copy : Zval A F → Heap F → Run (Heap F)
  unfolding create_entry_from_zval voi put_content
  push_copy value h = do
    (created, h1) ← create_entry_from_zval zend self value h
    s ← voi a h1
    v ← Vector.push s.content (entry_pointer created)
    put_content a v h1

  unfoldable pub push_copies : ℕ → Zval A F → Heap F → Run (Heap F)
  unfolding push_copy
  push_copies zero value h = ok h
  push_copies (suc n) value h = push_copy value h >>= λ h'. push_copies n value h'

  -- The first copy is checked, the others are not.
  unfoldable pub push_checked : ℕ → Zval A F → Method F (Unit {0})
  unfolding create_entry_from_zval voi put_content push_copies count_version
  push_checked n value h = do
    (created, h1) ← create_entry_from_zval zend self value h
    on_value created (ok (thrown failed_to_serialise, h1)) λ entry. do
      s ← voi a h1
      v ← Vector.push s.content (ref entry)
      h2 ← put_content a v h1
      h3 ← push_copies n value h2
      h4 ← count_version a h3
      ok (returned tt, h4)

  -- __construct. The size of the block is the argument cast to `int`: a negative one asks for more
  -- than `calloc` can give, and `calloc_ok` is its answer otherwise. Where it fails, the vector keeps the
  -- size, a negative one here as its bits, and NULL for its block.
  unfoldable pub construct : (calloc_ok : Bool) → ℤ → Option (Zval A F) → Method F (Unit {0})
  unfolding put_content push_copies push_checked count_version
  construct calloc_ok (negsuc n) initial h = ok (thrown invalid_size, h)
  construct calloc_ok (pos n) initial h = elim (to_int32 (pos n)) [
    | negsuc k ↦ put_content a (without_block (2 ^ 32 - (k + 1))) h >>= λ h1.
        ok (thrown failed_to_create, h1)
    | pos size ↦
        if calloc_ok
        then (do
          h1 ← put_content a (Vector.init size) h
          if n == 0
              then (do h2 ← count_version a h1; ok (returned tt, h2))
              else (on_value initial
                  (do
                    h2 ← push_copies n (Zval.long (pos 0)) h1
                    h3 ← count_version a h2
                    ok (returned tt, h3))
                  λ value. push_checked (n - 1) value h1))
        else put_content a (without_block size) h >>= λ h1. ok (thrown failed_to_create, h1)
  ]

  -- `while (used > size) pht_entry_delete(pht_vector_pop(...))`
  unfoldable pub pop_surplus : ℕ → Heap F → Run (Heap F)
  unfolding voi put_content entry_delete
  pop_surplus zero h = ok h
  pop_surplus (suc n) h = do
    s ← voi a h
    (p, v) ← Vector.pop s.content
    h1 ← put_content a v h
    entry ← target p
    h2 ← entry_delete self entry h1
    pop_surplus n h2

  -- resize, for sizes in the range of an `int`. The size is compared with the capacity of the array.
  unfoldable pub resize : (malloc_ok : Bool) → ℤ → Option (Zval A F) → Method F (Unit {0})
  unfolding voi create_entry_from_zval put_content push_copies pop_surplus count_version
  resize malloc_ok (negsuc n) initial h = ok (thrown invalid_size, h)
  resize malloc_ok (pos size) initial h = do
    s ← voi a h
    let v = s.content
    if size == v.size
        then ok (returned tt, h)
        else if not malloc_ok
        then ok (thrown failed_to_resize, h)
        else if ltb v.used size
        then on_value initial
            (do
              h1 ← put_content a (grown v size) h
              h2 ← push_copies (size - v.used) (Zval.long (pos 0)) h1
              h3 ← count_version a h2
              ok (returned tt, h3))
            (λ value. do
              (created, h1) ← create_entry_from_zval zend self value h
              on_value created (ok (thrown failed_to_serialise, h1)) λ entry. do
                w ← Vector.push (grown v size) (ref entry)
                h2 ← put_content a w h1
                h3 ← push_copies (size - w.used) value h2
                h4 ← count_version a h3
                ok (returned tt, h4))
        else (do
          h1 ← put_content a (record v { size = size }) h
          h2 ← pop_surplus (v.used - size) h1
          s2 ← voi a h2
          h3 ← put_content a (record s2.content { values = take size v.values }) h2
          h4 ← count_version a h3
          ok (returned tt, h4))
