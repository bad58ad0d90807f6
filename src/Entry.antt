-- ===== src/Entry.antt =====
-- src/pht_entry.c: the entries that the shared structures store, and their conversion from and to
-- PHP values; the heap of shared objects (the `*_obj_internal_t` of src/classes/*.h), which entries
-- and PHP objects reference and count.
-- `php_var_serialize`, `php_var_unserialize` and the copying of closures are not under the modelled
-- code: they are the fields of `Zend`.
pub mod Deletion
pub mod Counting
pub mod Conversion
use pht.Common.{
  ℕ, zero, suc, ◌+◌, ◌-◌, ◌%◌, ◌^◌, Bool, true, false, not, ◌==◌, List, [], ◌∷◌, ◌++◌, Option, none,
  some, if◌then◌else◌, on_value, Run, ok, fault, blocked, ◌>>=◌, deref, length,
}
use pht.Common.Int.{ℤ, pos, to_int32}
use pht.Mutex.{Mutex, lock_errorcheck, lock_recursive, unlock}
use pht.PhtString.{Bytes}
use pht.Queue
use pht.Queue.{Queue}
use pht.HashTable
use pht.HashTable.{Table}
use pht.Vector
use pht.Vector.{Vector}

-- pht_entry_t, over the type `F` of PHP functions. Array and object hold serialised bytes; the four
-- shared structures are held by address.
pub data Entry (F : Type 0) : Type 0 where
  null true_entry false_entry : Entry F
  boolean : Bool → Entry F
  long : ℤ → Entry F
  double : ℕ → Entry F
  string array object : Bytes → Entry F
  store_func : F → Entry F
  queue hash_table vector atomic_integer : ℕ → Entry F

-- zval: arrays and objects that are serialised are values of `A`, closures are functions. An object
-- of a Threaded class is the address of its internal object. Other types are `other`.
pub data Zval (A F : Type 0) : Type 0 where
  undef null true_value false_value other : Zval A F
  boolean : ℤ → Zval A F
  long : ℤ → Zval A F
  double : ℕ → Zval A F
  string : Bytes → Zval A F
  array object : A → Zval A F
  closure : F → Zval A F
  queue_object hash_table_object vector_object atomic_integer_object : ℕ → Zval A F

-- queue_obj_internal_t, hashtable_obj_internal_t, vector_obj_internal_t
pub record Shared (C : Type 0) : Type 0 where
  pub content : C
  pub lock : Mutex
  pub refcount : ℕ
  pub vn : ℕ

-- atomic_integer_obj_internal_t
pub record SharedInteger : Type 0 where
  pub value : ℤ
  pub lock : Mutex
  pub refcount : ℕ

pub data Object (F : Type 0) : Type 0 where
  queue : Shared (Queue (Entry F)) → Object F
  hash_table : Shared (Table (Entry F)) → Object F
  vector : Shared (Vector (Entry F)) → Object F
  atomic_integer : SharedInteger → Object F

abbrev pub Heap : Type 0 → Type 0
Heap F = List (ℕ × Object F)

-- What the code calls of PHP.
pub record Zend (A F : Type 0) : Type 0 where
  pub serialize : A → Option Bytes
  pub unserialize : Bytes → Option A
  pub copy_user_function : F → F
  pub is_true : Zval A F → Bool

-- `++refcount` and `--refcount` on a uint32_t.
abbrev pub increment : ℕ → ℕ
increment n = (n + 1) % 2 ^ 32

abbrev pub decrement : ℕ → ℕ
decrement n = (n + 2 ^ 32 - 1) % 2 ^ 32

module _ {F : Type 0} where
  unfoldable pub object_at : ℕ → Heap F → Option (Object F)
  object_at a [] = none
  object_at a ((b, o) ∷ h) = if a == b then some o else object_at a h

  unfoldable pub put_object : ℕ → Object F → Heap F → Heap F
  put_object a o [] = []
  put_object a o ((b, p) ∷ h) = if a == b then (b, o) ∷ h else (b, p) ∷ put_object a o h

  unfoldable pub remove_object : ℕ → Heap F → Heap F
  remove_object a [] = []
  remove_object a ((b, p) ∷ h) = if a == b then h else (b, p) ∷ remove_object a h

  unfoldable pub mutex_of : Object F → Mutex
  mutex_of (queue s) = s.lock
  mutex_of (hash_table s) = s.lock
  mutex_of (vector s) = s.lock
  mutex_of (atomic_integer s) = s.lock

  unfoldable pub refcount_of : Object F → ℕ
  refcount_of (queue s) = s.refcount
  refcount_of (hash_table s) = s.refcount
  refcount_of (vector s) = s.refcount
  refcount_of (atomic_integer s) = s.refcount

  unfoldable pub set_count : Mutex → ℕ → Object F → Object F
  set_count m n (queue s) = queue (record s { lock = m; refcount = n })
  set_count m n (hash_table s) = hash_table (record s { lock = m; refcount = n })
  set_count m n (vector s) = vector (record s { lock = m; refcount = n })
  set_count m n (atomic_integer s) = atomic_integer (record s { lock = m; refcount = n })

  unfoldable pub lock_object : ℕ → Object F → Run (Bool × Mutex)
  unfolding mutex_of
  lock_object self (atomic_integer s) = lock_recursive self s.lock
  lock_object self o = lock_errorcheck self (mutex_of o)

  -- `pthread_mutex_lock`, a change of the refcount, `pthread_mutex_unlock`: the results of the two
  -- calls are not looked at.
  unfoldable pub counted : (ℕ → ℕ) → (self : ℕ) → Object F → Run (Object F)
  unfolding lock_object refcount_of set_count
  counted change self o = do
    (_, locked) ← lock_object self o
    ok (set_count (unlock self locked).1 (change (refcount_of o)) o)

  unfoldable pub retain : (self a : ℕ) → Heap F → Run (Heap F)
  unfolding object_at counted put_object
  retain self a h = do
    o ← deref (object_at a h)
    o' ← counted increment self o
    ok (put_object a o' h)

  -- The entries that the destructor of an object is called on.
  unfoldable pub contents : Object F → Run (List (Entry F))
  contents (queue s) = do (elements, _) ← Queue.destroy s.content; ok elements
  contents (hash_table s) = ok (HashTable.destroy s.content)
  contents (vector s) = Vector.destroy s.content
  contents (atomic_integer s) = ok []

  -- A reference to an object is given up. The last one frees it (qoi_free, htoi_free, voi_free,
  -- aioi_free); the result has the entries that it held, which are deleted next.
  unfoldable pub release : (self a : ℕ) → Heap F → Run (List (Entry F) × Heap F)
  unfolding object_at counted put_object refcount_of contents remove_object
  release self a h = do
    o ← deref (object_at a h)
    o' ← counted decrement self o
    if refcount_of o' == 0
        then (do entries ← contents o'; ok (entries, remove_object a h))
        else ok ([], put_object a o' h)

  -- One call of pht_entry_delete_value up to the entries that it deletes in turn. Strings, arrays
  -- and functions give their own memory back; nothing is done for an object.
  unfoldable pub entry_delete_value : (self : ℕ) → Entry F → Heap F → Run (List (Entry F) × Heap F)
  unfolding release
  entry_delete_value self (queue a) h = release self a h
  entry_delete_value self (hash_table a) h = release self a h
  entry_delete_value self (vector a) h = release self a h
  entry_delete_value self (atomic_integer a) h = release self a h
  entry_delete_value self e h = ok ([], h)

  abbrev pub go_on :
      Run (List (Entry F) × Heap F)
      → (List (Entry F) → Heap F → Option (Run (Heap F)))
      → Option (Run (Heap F))
  go_on (ok (entries, h)) k = k entries h
  go_on fault k = some fault
  go_on blocked k = some blocked

  -- The deletions in the order of the calls: what a freed object held comes before the rest.
  -- `none` where the fuel runs out.
  pub delete_entries : ℕ → (self : ℕ) → List (Entry F) → Heap F → Option (Run (Heap F))
  unfolding entry_delete_value
  delete_entries zero self es h = none
  delete_entries (suc fuel) self [] h = some (ok h)
  delete_entries (suc fuel) self (e ∷ es) h =
      go_on (entry_delete_value self e h) λ held h'. delete_entries fuel self (held ++ es) h'

  -- The number of entries that an object holds, and that all objects hold.
  unfoldable pub held : Object F → ℕ
  unfolding contents
  held o = elim (contents o) [ ok entries ↦ length entries | fault ↦ 0 | blocked ↦ 0 ]

  unfoldable pub stored : Heap F → ℕ
  unfolding held
  stored [] = 0
  stored ((a, o) ∷ h) = held o + stored h

  -- `fault` stands for a lack of fuel, which does not happen.
  abbrev pub settled : Option (Run (Heap F)) → Run (Heap F)
  settled none = fault
  settled (some r) = r

  -- pht_entry_delete with all that follows from it. One round for each stored entry is enough.
  unfoldable pub entry_delete : (self : ℕ) → Entry F → Heap F → Run (Heap F)
  unfolding delete_entries stored
  entry_delete self e h = settled (delete_entries (stored h + 2) self (e ∷ []) h)

module _ {A F : Type 0} (zend : Zend A F) (self : ℕ) where
  -- pht_convert_zval_to_entry: `none` where it returns 0. An integer is stored in an `int`.
  unfoldable pub convert_zval_to_entry : Zval A F → Heap F → Run (Option (Entry F) × Heap F)
  unfolding retain
  convert_zval_to_entry (string s) h = ok (some (string s), h)
  convert_zval_to_entry (long z) h = ok (some (long (to_int32 z)), h)
  convert_zval_to_entry (double d) h = ok (some (double d), h)
  convert_zval_to_entry (boolean (pos zero)) h = ok (some (boolean false), h)
  convert_zval_to_entry (boolean z) h = ok (some (boolean true), h)
  convert_zval_to_entry true_value h = ok (some true_entry, h)
  convert_zval_to_entry false_value h = ok (some false_entry, h)
  convert_zval_to_entry null h = ok (some null, h)
  convert_zval_to_entry (array a) h =
      ok (on_value (zend.serialize a) none (λ bytes. some (array bytes)), h)
  convert_zval_to_entry (closure f) h = ok (some (store_func f), h)
  convert_zval_to_entry (queue_object a) h = do h' ← retain self a h; ok (some (queue a), h')
  convert_zval_to_entry (hash_table_object a) h = do
    h' ← retain self a h
    ok (some (hash_table a), h')
  convert_zval_to_entry (vector_object a) h = do h' ← retain self a h; ok (some (vector a), h')
  convert_zval_to_entry (atomic_integer_object a) h = do
    h' ← retain self a h
    ok (some (atomic_integer a), h')
  convert_zval_to_entry (object a) h =
      ok (on_value (zend.serialize a) none (λ bytes. some (object bytes)), h)
  convert_zval_to_entry undef h = ok (none, h)
  convert_zval_to_entry other h = ok (none, h)

  -- pht_convert_entry_to_zval: a shared structure gets a new PHP object, which counts as one more
  -- reference. A failed deserialisation leaves the value undefined (for an object it also throws).
  unfoldable pub convert_entry_to_zval : Entry F → Heap F → Run (Zval A F × Heap F)
  unfolding retain
  convert_entry_to_zval (string s) h = ok (string s, h)
  convert_entry_to_zval (long z) h = ok (long z, h)
  convert_entry_to_zval (double d) h = ok (double d, h)
  convert_entry_to_zval (boolean true) h = ok (true_value, h)
  convert_entry_to_zval (boolean false) h = ok (false_value, h)
  convert_entry_to_zval true_entry h = ok (true_value, h)
  convert_entry_to_zval false_entry h = ok (false_value, h)
  convert_entry_to_zval null h = ok (null, h)
  convert_entry_to_zval (array bytes) h =
      ok (on_value (zend.unserialize bytes) undef (λ a. array a), h)
  convert_entry_to_zval (store_func f) h = ok (closure (zend.copy_user_function f), h)
  convert_entry_to_zval (queue a) h = do h' ← retain self a h; ok (queue_object a, h')
  convert_entry_to_zval (hash_table a) h = do h' ← retain self a h; ok (hash_table_object a, h')
  convert_entry_to_zval (vector a) h = do h' ← retain self a h; ok (vector_object a, h')
  convert_entry_to_zval (atomic_integer a) h = do
    h' ← retain self a h
    ok (atomic_integer_object a, h')
  convert_entry_to_zval (object bytes) h =
      ok (on_value (zend.unserialize bytes) undef (λ a. object a), h)

  -- pht_create_entry_from_zval: NULL where the conversion returned 0.
  unfoldable pub create_entry_from_zval : Zval A F → Heap F → Run (Option (Entry F) × Heap F)
  unfolding convert_zval_to_entry
  create_entry_from_zval value h = convert_zval_to_entry value h

  -- The values of a property table, converted in order.
  unfoldable pub convert_all :
      {K : Type 0} → List (K × Entry F) → Heap F → Run (List (K × Zval A F) × Heap F)
  unfolding convert_entry_to_zval
  convert_all [] h = ok ([], h)
  convert_all ((k, e) ∷ rest) h = do
    (z, h') ← convert_entry_to_zval e h
    (zs, h'') ← convert_all rest h'
    ok ((k, z) ∷ zs, h'')
