-- ===== src/Classes/VectorObject.antt =====
-- src/classes/vector.c: the methods and object handlers of pht\Vector. `a` is the address of the
-- internal object and `self` the calling thread. What `calloc` and `malloc` answer is an argument.
use pht.Common.{
  ℕ, Bool, true, false, List, [], ◌∷◌, Option, none, some, not, ◌==◌, if◌then◌else◌, on_value, Run,
  ok, fault, ◌>>=◌, Ptr, null, wild, ref,
}
use pht.Common.Int.{ℤ}
use pht.Vector
use pht.Vector.{Vector}
use pht.Entry.{
  Entry, Zval, Shared, Object, Heap, Zend, put_object, entry_delete, create_entry_from_zval,
  convert_entry_to_zval, convert_all,
}
use pht.Classes.{
  Message, failed_to_serialise, pop_empty, shift_empty, empty_offset, invalid_offset,
  undefined_offset, invalid_index, insert_out_of_bounds, update_out_of_bounds, properties_disabled,
  Reply, returned, thrown, next_version, Method, Handle, voi, lock_method, unlock_method,
}

module _ {F : Type 0} where
  abbrev put_vector : ℕ → Shared (Vector (Entry F)) → Heap F → Heap F
  put_vector a s h = put_object a (Object.vector s) h

  abbrev pub entry_pointer : Option (Entry F) → Ptr (Entry F)
  entry_pointer none = null
  entry_pointer (some e) = ref e

  -- `++vo->voi->vn`
  unfoldable pub count_version : ℕ → Heap F → Run (Heap F)
  unfolding voi put_object
  count_version a h = do s ← voi a h; ok (put_vector a (record s { vn = next_version s.vn }) h)

  -- Replacing the content of the internal object.
  unfoldable pub put_content : ℕ → Vector (Entry F) → Heap F → Run (Heap F)
  unfolding voi put_object
  put_content a v h = do s ← voi a h; ok (put_vector a (record s { content = v }) h)

  -- vector_ctor; the array is set up by the constructor method.
  unfoldable pub ctor : (skip_voi_creation : Bool) → ℕ → Heap F → Heap F
  ctor skip a h =
      if skip
      then h
      else (
        a,
        Object.vector (record {
          content = record { values = []; size = 0; used = 0 };
          lock = none;
          refcount = 1;
          vn = 0;
        }),
      )
        ∷ h

  unfoldable pub free_obj : (self a : ℕ) → Heap F → Run (Heap F)
  unfolding entry_delete
  free_obj self a h = entry_delete self (Entry.vector a) h

  unfoldable pub size : ℕ → Method F ℕ
  unfolding voi
  size a h = do s ← voi a h; ok (returned (Vector.size s.content), h)

  unfoldable pub lock : (self a : ℕ) → Method F (Unit {0})
  unfolding lock_method
  lock self a h = lock_method self a h

  unfoldable pub unlock : (self a : ℕ) → Method F (Unit {0})
  unfolding unlock_method
  unlock self a h = unlock_method self a h

  unfoldable pub read_property : Method F (Unit {0})
  read_property h = ok (thrown properties_disabled, h)

  unfoldable pub write_property : Method F (Unit {0})
  write_property h = ok (thrown properties_disabled, h)

  -- The entries that an operation of the array deletes.
  unfoldable pub delete_all : (self : ℕ) → List (Entry F) → Heap F → Run (Heap F)
  unfolding entry_delete
  delete_all self [] h = ok h
  delete_all self (e ∷ es) h = entry_delete self e h >>= λ h'. delete_all self es h'

  -- deleteAt. The deletion that the array operation makes on its way is run after it.
  unfoldable pub delete_at : (self a : ℕ) → Message → ℤ → Method F (Unit {0})
  unfolding voi put_object delete_all count_version put_content
  delete_at self a message i h = do
    s ← voi a h
    (done, deleted, v) ← Vector.delete_at s.content i
    h1 ← put_content a v h
    h2 ← delete_all self deleted h1
    if done then (do h3 ← count_version a h2; ok (returned tt, h3)) else ok (thrown message, h2)

module _ {A F : Type 0} (zend : Zend A F) (self a : ℕ) where
  -- A value becomes an entry, and a pointer to it is given to an operation of the array.
  unfoldable pub with_entry :
      Zval A F → (Ptr (Entry F) → Heap F → Run (Reply (Unit {0}) × Heap F)) → Method F (Unit {0})
  unfolding create_entry_from_zval
  with_entry value use_entry h = do
    (created, h') ← create_entry_from_zval zend self value h
    on_value created (ok (thrown failed_to_serialise, h')) λ entry. use_entry (ref entry) h'

  unfoldable pub push : Zval A F → Method F (Unit {0})
  unfolding with_entry voi put_content count_version
  push value = with_entry value λ p h. do
    s ← voi a h
    v ← Vector.push s.content p
    h1 ← put_content a v h
    h2 ← count_version a h1
    ok (returned tt, h2)

  unfoldable pub unshift : Zval A F → Method F (Unit {0})
  unfolding with_entry voi put_content count_version
  unshift value = with_entry value λ p h. do
    s ← voi a h
    v ← Vector.unshift s.content p
    h1 ← put_content a v h
    h2 ← count_version a h1
    ok (returned tt, h2)

  -- insertAt
  unfoldable pub insert_at : Zval A F → ℤ → Method F (Unit {0})
  unfolding with_entry voi put_content count_version
  insert_at value i = with_entry value λ p h. do
    s ← voi a h
    (done, v) ← Vector.insert_at s.content p i
    h1 ← put_content a v h
    if done
        then (do h2 ← count_version a h1; ok (returned tt, h2))
        else ok (thrown insert_out_of_bounds, h1)

  -- updateAt, and the same with the message of write_dimension.
  unfoldable pub update_with : Message → ℤ → Ptr (Entry F) → Method F (Unit {0})
  unfolding voi put_content count_version delete_all
  update_with message i p h = do
    s ← voi a h
    (done, deleted, v) ← Vector.update_at s.content p i
    h1 ← put_content a v h
    h2 ← delete_all self deleted h1
    if done then (do h3 ← count_version a h2; ok (returned tt, h3)) else ok (thrown message, h2)

  unfoldable pub update_at : Zval A F → ℤ → Method F (Unit {0})
  unfolding with_entry update_with
  update_at value i = with_entry value (update_with update_out_of_bounds i)

  -- pop and shift: the entry is converted, then deleted; the version counts afterwards.
  unfoldable pub take_out :
      Message → (Vector (Entry F) → Run (Ptr (Entry F) × Vector (Entry F))) → Method F (Zval A F)
  unfolding voi put_content convert_entry_to_zval entry_delete count_version
  take_out message operation h = do
    s ← voi a h
    (p, v) ← operation s.content
    elim p [
      | null ↦ ok (thrown message, h)
      | wild ↦ fault
      | ref entry ↦ do
        h1 ← put_content a v h
        (value, h2) ← convert_entry_to_zval zend self entry h1
        h3 ← entry_delete self entry h2
        h4 ← count_version a h3
        ok (returned value, h4)
    ]

  unfoldable pub pop : Method F (Zval A F)
  unfolding take_out
  pop = take_out pop_empty Vector.pop

  unfoldable pub shift : Method F (Zval A F)
  unfolding take_out
  shift = take_out shift_empty Vector.shift

  -- `none` for a NULL result; `quiet` for `type == BP_VAR_IS`.
  unfoldable pub read_dimension : Option (Zval A F) → (quiet : Bool) → Method F (Option (Zval A F))
  unfolding voi convert_entry_to_zval
  read_dimension none quiet h = ok (thrown empty_offset, h)
  read_dimension (some (Zval.long i)) quiet h = do
    s ← voi a h
    p ← Vector.fetch_at s.content i
    elim p [
      | null ↦ ok (if quiet then returned none else thrown undefined_offset, h)
      | wild ↦ fault
      | ref entry ↦ do
        (value, h1) ← convert_entry_to_zval zend self entry h
        ok (returned (some value), h1)
    ]
  read_dimension (some offset) quiet h = ok (thrown invalid_offset, h)

  -- `$vector[] = value` and `$vector[offset] = value`
  write_at : Option (Zval A F) → Ptr (Entry F) → Method F (Unit {0})
  unfolding voi put_content count_version update_with
  write_at none p h = do
    s ← voi a h
    v ← Vector.push s.content p
    h1 ← put_content a v h
    h2 ← count_version a h1
    ok (returned tt, h2)
  write_at (some (Zval.long i)) p h = update_with invalid_index i p h
  write_at (some offset) p h = ok (thrown invalid_offset, h)

  unfoldable pub write_dimension : Option (Zval A F) → Zval A F → Method F (Unit {0})
  unfolding with_entry write_at
  write_dimension offset value = with_entry value (write_at offset)

  unfoldable pub unset_dimension : Zval A F → Method F (Unit {0})
  unfolding delete_at
  unset_dimension (Zval.long i) h = delete_at self a invalid_index i h
  unset_dimension offset h = ok (thrown invalid_offset, h)

  abbrev is_null_entry : Entry F → Bool
  is_null_entry Entry.null = true
  is_null_entry e = false

  -- isset() and, with `check_empty`, empty(); the temporary value is destroyed again.
  unfoldable pub has_dimension : Zval A F → (check_empty : Bool) → Method F Bool
  unfolding voi convert_entry_to_zval
  has_dimension (Zval.long i) check_empty h = do
    s ← voi a h
    p ← Vector.fetch_at s.content i
    elim p [
      | null ↦ ok (returned false, h)
      | wild ↦ fault
      | ref entry ↦
          if check_empty
          then (do
            (value, h1) ← convert_entry_to_zval zend self entry h
            h2 ← entry_delete self entry h1
            ok (returned (zend.is_true value), h2))
          else ok (returned (not (is_null_entry entry)), h)
    ]
  has_dimension offset check_empty h = ok (thrown invalid_offset, h)

  -- The cached table is given as long as its version is the vector's.
  unfoldable pub get_properties :
      Handle (List (ℕ × Zval A F)) → Heap F → Run (Handle (List (ℕ × Zval A F)) × Heap F)
  unfolding convert_all voi
  get_properties handle h = do
    s ← voi a h
    let rebuilt = do
      entries ← Vector.to_zend_hashtable (λ e. e) s.content
      (values, h') ← convert_all zend self entries h
      ok (record { vn = s.vn; properties = some values }, h')
    on_value handle.properties rebuilt λ _. if handle.vn == s.vn then ok (handle, h) else rebuilt
