-- ===== src/Classes.antt =====
-- What the PHP classes of src/classes have in common: replies, the version counter of an internal
-- object, and access to internal objects through the heap.
pub mod Locking
pub mod QueueObject
pub mod VectorObject
pub mod VectorSizing
pub mod HashTableObject
pub mod IntegerObject
pub mod Registration
use pht.Common.{
  ℕ, zero, suc, ◌+◌, ◌%◌, ◌^◌, Bool, true, false, List, [], ◌∷◌, Option, none, some, ◌==◌, ◌&&◌,
  if◌then◌else◌, Run, ok, fault, ◌>>=◌, deref, Ptr, null, ref,
}
use pht.Mutex.{unlock}
use pht.Queue.{Queue}
use pht.Vector.{Vector}
use pht.HashTable.{Table}
use pht.Entry.{
  Entry, Zval, Shared, SharedInteger, Object, Heap, object_at, put_object, lock_object, mutex_of,
  set_count, refcount_of,
}

-- The errors that the methods throw.
pub data Message : Type 0 where
  failed_to_serialise pop_empty front_empty shift_empty : Message
  empty_offset empty_offset_insertion invalid_offset undefined_offset invalid_index : Message
  invalid_size failed_to_create failed_to_resize : Message
  insert_out_of_bounds update_out_of_bounds delete_out_of_bounds : Message
  already_held not_held properties_disabled : Message

pub data Reply (R : Type 0) : Type 0 where
  returned : R → Reply R
  thrown : Message → Reply R

-- `++vn` on a zend_ulong.
abbrev pub next_version : ℕ → ℕ
next_version vn = (vn + 1) % 2 ^ 64

-- queue_obj_t, vector_obj_t, hashtable_obj_t: the version of the property table and the table.
pub record Handle (T : Type 0) : Type 0 where
  pub vn : ℕ
  pub properties : Option T

abbrev pub Method : (F R : Type 0) → Type 0
Method F R = Heap F → Run (Reply R × Heap F)

module _ {F : Type 0} where
  as_queue : Object F → Run (Shared (Queue (Entry F)))
  as_queue (Object.queue s) = ok s
  as_queue o = fault

  as_vector : Object F → Run (Shared (Vector (Entry F)))
  as_vector (Object.vector s) = ok s
  as_vector o = fault

  as_table : Object F → Run (Shared (Table (Entry F)))
  as_table (Object.hash_table s) = ok s
  as_table o = fault

  as_integer : Object F → Run SharedInteger
  as_integer (Object.atomic_integer s) = ok s
  as_integer o = fault

  -- `qo->qoi`, `vo->voi`, `hto->htoi`, `aio->aioi`
  unfoldable pub qoi : ℕ → Heap F → Run (Shared (Queue (Entry F)))
  unfolding as_queue object_at
  qoi a h = do o ← deref (object_at a h); as_queue o

  unfoldable pub voi : ℕ → Heap F → Run (Shared (Vector (Entry F)))
  unfolding as_vector object_at
  voi a h = do o ← deref (object_at a h); as_vector o

  unfoldable pub htoi : ℕ → Heap F → Run (Shared (Table (Entry F)))
  unfolding as_table object_at
  htoi a h = do o ← deref (object_at a h); as_table o

  unfoldable pub aioi : ℕ → Heap F → Run SharedInteger
  unfolding as_integer object_at
  aioi a h = do o ← deref (object_at a h); as_integer o

  -- The lock and unlock methods of the three error-checked classes, which report a failed call.
  unfoldable pub lock_method : (self a : ℕ) → Method F (Unit {0})
  unfolding object_at lock_object set_count refcount_of put_object
  lock_method self a h = do
    o ← deref (object_at a h)
    (done, m) ← lock_object self o
    ok (
      if done then returned tt else thrown already_held,
      put_object a (set_count m (refcount_of o) o) h,
    )

  unfoldable pub unlock_method : (self a : ℕ) → Method F (Unit {0})
  unfolding object_at mutex_of set_count refcount_of put_object
  unlock_method self a h = do
    o ← deref (object_at a h)
    let (done, m) = unlock self (mutex_of o)
    ok (
      if done then returned tt else thrown not_held,
      put_object a (set_count m (refcount_of o) o) h,
    )
