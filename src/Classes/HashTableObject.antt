-- ===== src/Classes/HashTableObject.antt =====
-- src/classes/hashtable.c: the methods and object handlers of pht\HashTable.
pub mod Map
use pht.Common.{
  ℕ, ◌^◌, Bool, true, false, List, [], ◌∷◌, Option, none, some, ◌==◌, not, length, if◌then◌else◌,
  on_value, Run, ok, ◌>>=◌,
}
use pht.Common.Int.{to_bits}
use pht.PhtString.{Bytes, copy}
use pht.HashTable
use pht.HashTable.{Table, Query, string_query, index_query}
use pht.Entry.{
  Entry, Zval, Shared, Object, Heap, Zend, put_object, entry_delete, create_entry_from_zval,
  convert_entry_to_zval, convert_all,
}
use pht.Classes.{
  failed_to_serialise, empty_offset, empty_offset_insertion, invalid_offset, undefined_offset,
  properties_disabled, returned, thrown, next_version, Handle, Method, htoi, lock_method,
  unlock_method,
}
use pht.Classes.VectorObject.{delete_all}

module _ {F : Type 0} where
  abbrev put_table : ℕ → Shared (Table (Entry F)) → Heap F → Heap F
  put_table a s h = put_object a (Object.hash_table s) h

  -- hash_table_ctor
  unfoldable pub ctor : (skip_htoi_creation : Bool) → ℕ → Heap F → Heap F
  ctor skip a h =
      if skip
      then h
      else (
        a,
        Object.hash_table
            (record { content = HashTable.init 2; lock = none; refcount = 1; vn = 0 }),
      )
        ∷ h

  unfoldable pub free_obj : (self a : ℕ) → Heap F → Run (Heap F)
  unfolding entry_delete
  free_obj self a h = entry_delete self (Entry.hash_table a) h

  unfoldable pub lock : (self a : ℕ) → Method F (Unit {0})
  unfolding lock_method
  lock self a h = lock_method self a h

  unfoldable pub unlock : (self a : ℕ) → Method F (Unit {0})
  unfolding unlock_method
  unlock self a h = unlock_method self a h

  unfoldable pub size : ℕ → Method F ℕ
  unfolding htoi
  size a h = do s ← htoi a h; ok (returned s.content.used, h)

  unfoldable pub read_property : Method F (Unit {0})
  read_property h = ok (thrown properties_disabled, h)

  unfoldable pub write_property : Method F (Unit {0})
  write_property h = ok (thrown properties_disabled, h)

-- The key of an offset: a string under its hash, or the bits of an integer.
module _ {A F : Type 0} (zend_hash_func : Bytes → ℕ) where
  unfoldable pub query_of : Zval A F → Option Query
  unfolding string_query copy
  query_of (Zval.string s) = some (string_query zend_hash_func (copy s (length s)))
  query_of (Zval.long i) = some (index_query (to_bits (2 ^ 64) i))
  query_of offset = none

module _ {A F : Type 0} (zend : Zend A F) (zend_hash_func : Bytes → ℕ) (self a : ℕ) where
  -- `none` for a NULL result; `quiet` for `type == BP_VAR_IS`.
  unfoldable pub read_dimension : Option (Zval A F) → (quiet : Bool) → Method F (Option (Zval A F))
  unfolding query_of htoi convert_entry_to_zval
  read_dimension none quiet h = ok (thrown empty_offset, h)
  read_dimension (some offset) quiet h =
      on_value (query_of zend_hash_func offset) (ok (thrown invalid_offset, h)) λ q. do
        s ← htoi a h
        found ← HashTable.search s.content q
        on_value found (ok (if quiet then returned none else thrown undefined_offset, h)) λ entry.
            do (value, h1) ← convert_entry_to_zval zend self entry h; ok (returned (some value), h1)

  -- `$table[offset] = value`: an update where a search finds the key, an insertion otherwise.
  unfoldable pub write_dimension : Option (Zval A F) → Zval A F → Method F (Unit {0})
  unfolding query_of htoi create_entry_from_zval put_object delete_all
  write_dimension none value h = ok (thrown empty_offset_insertion, h)
  write_dimension (some offset) value h = do
    (created, h1) ← create_entry_from_zval zend self value h
    on_value created (ok (thrown failed_to_serialise, h1)) λ entry.
        on_value (query_of zend_hash_func offset) (ok (thrown invalid_offset, h1)) λ q. do
          s ← htoi a h1
          found ← HashTable.search s.content q
          (deleted, t) ←
              on_value found (HashTable.insert s.content q entry >>= λ t. ok ([], t))
                (λ _. HashTable.update s.content q entry)
          h2 ← delete_all self deleted (put_table a (record s { content = t }) h1)
          s2 ← htoi a h2
          ok (returned tt, put_table a (record s2 { vn = next_version s2.vn }) h2)

  abbrev is_null_entry : Entry F → Bool
  is_null_entry Entry.null = true
  is_null_entry e = false

  unfoldable pub has_dimension : Zval A F → (check_empty : Bool) → Method F Bool
  unfolding query_of htoi convert_entry_to_zval entry_delete
  has_dimension offset check_empty h =
      on_value (query_of zend_hash_func offset) (ok (thrown invalid_offset, h)) λ q. do
        s ← htoi a h
        found ← HashTable.search s.content q
        on_value found (ok (returned false, h)) λ entry.
            if check_empty
            then (do
              (value, h1) ← convert_entry_to_zval zend self entry h
              h2 ← entry_delete self entry h1
              ok (returned (zend.is_true value), h2))
            else ok (returned (not (is_null_entry entry)), h)

  unfoldable pub unset_dimension : Zval A F → Method F (Unit {0})
  unfolding query_of htoi put_object delete_all
  unset_dimension offset h =
      on_value (query_of zend_hash_func offset) (ok (thrown invalid_offset, h)) λ q. do
        s ← htoi a h
        (deleted, t) ← HashTable.delete s.content q
        h1 ← delete_all self deleted (put_table a (record s { content = t }) h)
        s1 ← htoi a h1
        ok (returned tt, put_table a (record s1 { vn = next_version s1.vn }) h1)

  unfoldable pub get_properties :
      Handle (List (Query × Zval A F)) → Heap F → Run (Handle (List (Query × Zval A F)) × Heap F)
  unfolding convert_all htoi
  get_properties handle h = do
    s ← htoi a h
    let rebuilt = do
      (values, h') ← convert_all zend self (HashTable.to_zend_hashtable (λ e. e) s.content) h
      ok (record { vn = s.vn; properties = some values }, h')
    on_value handle.properties rebuilt λ _. if handle.vn == s.vn then ok (handle, h) else rebuilt

  -- var_dump() and the like: a new table each time.
  unfoldable pub get_debug_info : Heap F → Run (List (Query × Zval A F) × Heap F)
  unfolding convert_all htoi
  get_debug_info h = do
    s ← htoi a h
    convert_all zend self (HashTable.to_zend_hashtable (λ e. e) s.content) h
