-- ===== src/Classes/HashTableObject/Map.antt =====
-- classes/hashtable.c: the array syntax of PHP on a shared hash table, against the map that the table stands for.
use pht.Common.{
  ℕ, ◌*◌, ◌≤◌, ◌≡◌, refl, Bool, false, inl, inr, Option-cases, List, [], ◌∷◌, Option, none, some,
  int_max, if◌then◌else◌, on_value, ok, ◌>>=◌, Returns,
}
use pht.PhtString.{Bytes}
use pht.HashTable
use pht.HashTable.{Table, Query, Bucket}
use pht.HashTable.Slots.{find, has_key}
use pht.HashTable.Keys.{has_key_self}
use pht.HashTable.Laws.{search-find}
use pht.HashTable.Load.{IsValid, insert-find}
use pht.HashTable.Update.{NoTombstone, update-find}
use pht.HashTable.Delete.{delete-find}
use pht.Entry.{
  Entry, Zval, Shared, Object, Heap, Zend, object_at, put_object, create_entry_from_zval,
  convert_entry_to_zval,
}
use pht.Entry.Conversion.{object_at-put_object}
use pht.Classes.{returned, next_version, htoi}
use pht.Classes.VectorObject.{delete_all}
use pht.Classes.HashTableObject.{
  query_of, read_dimension, write_dimension, has_dimension, unset_dimension,
}

module _ {F : Type 0} where
  -- The object at the address is a valid table of this map, at the version `vn`.
  abbrev pub Maps : ℕ → Heap F → (Query → Option (Entry F)) → ℕ → Type 0
  Maps a h f vn =
      (s : Shared (Table (Entry F))) × (object_at a h ≡ some (Object.hash_table s))
      × IsValid s.content
      × ((p : Query) → find p s.content.values ≡ f p)
      × (s.vn ≡ vn)

  htoi-at :
      (a : ℕ) (h : Heap F) (s : Shared (Table (Entry F)))
      → object_at a h ≡ some (Object.hash_table s)
      → htoi a h ≡ ok s
  unfolding htoi
  htoi-at a h s at = rw at

  -- The entries that an operation deletes leave the heap alone.
  abbrev pub Inert : ℕ → List (Entry F) → Type 0
  Inert self es = (k : Heap F) → delete_all self es k ≡ ok k

  -- A map with one key changed.
  abbrev pub changed :
      Query → Option (Entry F) → (Query → Option (Entry F)) → Query → Option (Entry F)
  changed q o f p = if has_key p q.key q.hash then o else f p

module _ {A F : Type 0} (zend : Zend A F) (zend_hash_func : Bytes → ℕ) (self a : ℕ) where
  read-Maps :
      (offset : Zval A F) (q : Query) (f : Query → Option (Entry F)) (h : Heap F) (vn : ℕ)
      (e : Entry F) (z : Zval A F)
      → query_of zend_hash_func offset ≡ some q
      → Maps a h f vn
      → f q ≡ some e
      → convert_entry_to_zval zend self e h ≡ ok (z, h)
      → (quiet : Bool)
      → read_dimension zend zend_hash_func self a (some offset) quiet h ≡ ok (returned (some z), h)
  unfolding read_dimension
  read-Maps offset q f h vn e z key (s, at, valid, map, _) has converts quiet =
      rw (key, htoi-at a h s at, search-find s.content valid.table q, map q, has, converts)

  isset-Maps :
      (offset : Zval A F) (q : Query) (f : Query → Option (Entry F)) (h : Heap F) (vn : ℕ)
      → query_of zend_hash_func offset ≡ some q
      → Maps a h f vn
      → f q ≡ none
      → (check_empty : Bool)
      → has_dimension zend zend_hash_func self a offset check_empty h ≡ ok (returned false, h)
  unfolding has_dimension
  isset-Maps offset q f h vn key (s, at, valid, map, _) has check_empty =
      rw (key, htoi-at a h s at, search-find s.content valid.table q, map q, has)

  -- The change of the table that a write makes, whether or not the key is there.
  stores :
      (t : Table (Entry F)) (q : Query) (e : Entry F)
      → IsValid t
      → t.size * 2 ≤ int_max
      → NoTombstone q
      → Returns
          (on_value
            (find q t.values)
            (HashTable.insert t q e >>= λ u. ok ([], u))
            (λ _. HashTable.update t q e))
          (λ r.
            (r.0 ≡ on_value (find q t.values) [] (λ old. old ∷ []))
            × IsValid r.1
            × ((p : Query) → find p r.1.values ≡ changed q (some e) (λ p. find p t.values) p))
  stores t q e valid fits ne = elim (Option-cases (find q t.values)) [
    | inl absent ↦
        let (u, run, (valid', _, map)) = insert-find t q e valid fits absent in
        (([], u), rw (absent, run), (rw absent, valid', map))
    | inr (old, present) ↦
        let (r, run, (deleted, valid', _, map)) = update-find t q old e valid ne present in
        (r, rw present run, (rw present deleted, valid', map))
  ]

  -- Writing an accepted value under a string or integer offset of a valid table, the integer 1
  -- excluded, returns; the table then maps the key of the offset to the entry of the value and
  -- every other key as before, at the next version, and reading the offset returns the value.
  -- Making and reading the entry and deleting an old one are to leave the heap alone, and twice
  -- the size is to fit in an `int`.
  pub write_dimension-Maps :
      (offset value : Zval A F) (q : Query) (e : Entry F) (z : Zval A F) (h : Heap F)
      (s : Shared (Table (Entry F)))
      → query_of zend_hash_func offset ≡ some q
      → create_entry_from_zval zend self value h ≡ ok (some e, h)
      → ((k : Heap F) → convert_entry_to_zval zend self e k ≡ ok (z, k))
      → object_at a h ≡ some (Object.hash_table s)
      → IsValid s.content
      → s.content.size * 2 ≤ int_max
      → NoTombstone q
      → Inert self (on_value (find q s.content.values) [] (λ old. old ∷ []))
      → Returns (write_dimension zend zend_hash_func self a (some offset) value h) (λ r.
        (r.0 ≡ returned tt)
        × Maps a r.1 (changed q (some e) (λ p. find p s.content.values)) (next_version s.vn)
        × ((quiet : Bool)
            → read_dimension zend zend_hash_func self a (some offset) quiet r.1
              ≡ ok (returned (some z), r.1)))
  unfolding write_dimension
  write_dimension-Maps offset value q e z h s key creates converts at valid fits ne inert =
      let (r, run, (deleted, valid', map)) = stores s.content q e valid fits ne in
      let s1 : Shared (Table (Entry F)) = record s { content = r.1 } in
      let h1 = put_object a (Object.hash_table s1) h in
      let at1 = object_at-put_object a (Object.hash_table s) (Object.hash_table s1) h at in
      let s2 : Shared (Table (Entry F)) = record s1 { vn = next_version s.vn } in
      let h2 = put_object a (Object.hash_table s2) h1 in
      let at2 = object_at-put_object a (Object.hash_table s1) (Object.hash_table s2) h1 at1 in
      let gone : delete_all self r.0 h1 ≡ ok h1 = rw deleted (inert h1) in
      let maps : Maps a h2 (changed q (some e) (λ p. find p s.content.values)) (next_version s.vn) =
        (s2, at2, valid', map, refl) in
      let itself : changed q (some e) (λ p. find p s.content.values) q ≡ some e =
        rw (has_key_self q) in
      (
        (returned tt, h2),
        rw (
          creates,
          key,
          htoi-at a h s at,
          search-find s.content valid.table q,
          run,
          gone,
          htoi-at a h1 s1 at1,
        ),
        (refl, maps, read-Maps offset q _ h2 (next_version s.vn) e z key maps itself (converts h2)),
      )

  -- Unsetting a string or integer offset of a valid table returns; the table then maps the key of
  -- the offset to nothing and every other key as before, at the next version, and isset() and
  -- empty() find nothing there. Deleting an old entry is to leave the heap alone.
  pub unset_dimension-Maps :
      (offset : Zval A F) (q : Query) (h : Heap F) (s : Shared (Table (Entry F)))
      → query_of zend_hash_func offset ≡ some q
      → object_at a h ≡ some (Object.hash_table s)
      → IsValid s.content
      → Inert self (on_value (find q s.content.values) [] (λ old. old ∷ []))
      → Returns (unset_dimension zend zend_hash_func self a offset h) (λ r.
        (r.0 ≡ returned tt)
        × Maps a r.1 (changed q none (λ p. find p s.content.values)) (next_version s.vn)
        × ((check_empty : Bool)
            → has_dimension zend zend_hash_func self a offset check_empty r.1
              ≡ ok (returned false, r.1)))
  unfolding unset_dimension
  unset_dimension-Maps offset q h s key at valid inert =
      let (r, run, d) = delete-find s.content q valid in
      let s1 : Shared (Table (Entry F)) = record s { content = r.1 } in
      let h1 = put_object a (Object.hash_table s1) h in
      let at1 = object_at-put_object a (Object.hash_table s) (Object.hash_table s1) h at in
      let s2 : Shared (Table (Entry F)) = record s1 { vn = next_version s.vn } in
      let h2 = put_object a (Object.hash_table s2) h1 in
      let at2 = object_at-put_object a (Object.hash_table s1) (Object.hash_table s2) h1 at1 in
      let gone : delete_all self r.0 h1 ≡ ok h1 = rw d.deleted (inert h1) in
      let maps : Maps a h2 (changed q none (λ p. find p s.content.values)) (next_version s.vn) =
        (s2, at2, d.valid, d.map, refl) in
      let itself : changed q none (λ p. find p s.content.values) q ≡ none = rw (has_key_self q) in
      (
        (returned tt, h2),
        rw (key, htoi-at a h s at, run, gone, htoi-at a h1 s1 at1),
        (refl, maps, isset-Maps offset q _ h2 (next_version s.vn) key maps itself),
      )
