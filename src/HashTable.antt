-- ===== src/HashTable.antt =====
-- src/ds/pht_hashtable.c: open addressing with linear probing, Robin Hood displacement and
-- tombstones, behind pht\HashTable. A hash is the 64-bit pattern of the C `long`. A bucket is empty
-- where its value is NULL: with hash 0 it was never used, with hash 1 it is a tombstone.
-- `zend_hash_func` is not under the repository: it is a parameter. The destructor of the struct is
-- `pht_entry_delete`: an operation gives the values that it is called on.
pub mod Slots
pub mod Probe
pub mod Writes
pub mod Insert
pub mod Keys
pub mod Laws
pub mod Resize
pub mod Load
pub mod Hits
pub mod Update
pub mod Delete
pub mod Listing
use pht.Common.{
  ℕ, zero, suc, ◌+◌, ◌-◌, ◌*◌, ◌/◌, bit_and, Bool, true, false, ◌&&◌, ◌==◌, ltb, List, [], ◌∷◌,
  ◌++◌, Option, none, some, if◌then◌else◌, Run, ok, fault, ◌>>=◌, deref, as_int, load, store,
  replicate, length,
}
pub use pht.Common.{on_value}
use pht.PhtString.{Bytes, str_eq}

-- pht_bucket_t
pub record Bucket (V : Type 0) : Type 0 where
  pub key : Option Bytes
  pub value : Option V
  pub hash : ℕ
  pub variance : ℕ

-- pht_hashtable_t
pub record Table (V : Type 0) : Type 0 where
  pub values : List (Bucket V)
  pub size : ℕ
  pub used : ℕ

-- What an operation looks for: a string key with its hash, or NULL with an integer key as hash.
pub record Query : Type 0 where
  pub key : Option Bytes
  pub hash : ℕ

-- `!(!!b->key ^ !!key) && (!key || pht_str_eq(b->key, key))`
unfoldable pub same_key : Option Bytes → Option Bytes → Bool
same_key none none = true
same_key none (some k) = false
same_key (some b) none = false
same_key (some b) (some k) = str_eq b k

-- `++index`, back to 0 at the end of the array.
unfoldable pub next : ℕ → ℕ → ℕ
next size index = if index + 1 == size then 0 else index + 1

unfoldable pub home : ℕ → ℕ → ℕ
home size hash = bit_and hash (size - 1)

module _ {V : Type 0} where
  abbrev pub blank : Bucket V
  blank = record { key = none; value = none; hash = 0; variance = 0 }

  abbrev pub tombstone : Bucket V
  tombstone = record { key = none; value = none; hash = 1; variance = 0 }

  unfoldable pub matches : Bucket V → Query → Bool
  unfolding same_key
  matches b q = b.hash == q.hash && same_key b.key q.key

  unfoldable pub init : ℕ → Table V
  init size = record { values = replicate size blank; size = size; used = 0 }

  -- The loop of the insertion. `carried` stands for the local variables hash, key, value and
  -- variance, which the code swaps with a bucket that is nearer to its home.
  pub insert_loop : (size rounds index : ℕ) → Bucket V → List (Bucket V) → Run (List (Bucket V))
  unfolding next
  insert_loop size zero index carried values = ok values
  insert_loop size (suc rounds) index carried values = do
    b ← load values index
    on_value b.value (store values index carried) λ v.
        let swap = ltb b.variance carried.variance in
        let moved = if swap then b else carried in
        (if swap then store values index carried else ok values) >>= λ values'.
        insert_loop size rounds (next size index) (record moved { variance = moved.variance + 1 })
          values'

  unfoldable pub insert_direct : Table V → Query → V → Run (Table V)
  unfolding insert_loop home
  insert_direct t q value = do
    values ←
        insert_loop t.size t.size (home t.size q.hash)
          (record { key = q.key; value = some value; hash = q.hash; variance = 0 }) t.values
    ok (record t { values = values; used = t.used + 1 })

  pub repopulate : Table V → List (Bucket V) → Run (Table V)
  unfolding insert_direct
  repopulate t [] = ok t
  repopulate t (b ∷ old_values) =
      (on_value b.value (ok t) λ v. insert_direct t (record { key = b.key; hash = b.hash }) v)
      >>= λ t'. repopulate t' old_values

  -- `size <<= 1` is undefined where it leaves the range of an `int`.
  unfoldable pub resize : Table V → Run (Table V)
  unfolding repopulate
  resize t = do
    size ← as_int (t.size * 2)
    repopulate (record { values = replicate size blank; size = size; used = 0 }) t.values

  -- pht_hashtable_insert and pht_hashtable_insert_ind resize at 75% of the capacity.
  unfoldable pub insert : Table V → Query → V → Run (Table V)
  unfolding resize insert_direct
  insert t q value = do
    t' ← if t.used == t.size - t.size / 4 then resize t else ok t
    insert_direct t' q value

  -- The bucket that a search ends at.
  pub search_loop : (size rounds index : ℕ) → Query → List (Bucket V) → Run (Option (Bucket V))
  unfolding matches next
  search_loop size zero index q values = ok none
  search_loop size (suc rounds) index q values = load values index >>= λ b.
      let more = search_loop size rounds (next size index) q values in
      on_value b.value (if b.hash == 0 then ok none else more)
        λ v. if matches b q then ok (some b) else more

  unfoldable pub search : Table V → Query → Run (Option V)
  unfolding search_loop home
  search t q = do
    found ← search_loop t.size t.size (home t.size q.hash) q t.values
    ok (on_value found none λ b. b.value)

  unfoldable pub key_fetch : Table V → Query → Run (Option Bytes)
  unfolding search_loop home
  key_fetch t q = do
    found ← search_loop t.size t.size (home t.size q.hash) q t.values
    ok (on_value found none λ b. b.key)

  -- The loop of the update does not test whether the bucket is in use; the destructor dereferences
  -- the value that it is given.
  pub update_loop :
      (size rounds index : ℕ) → Query → V → List (Bucket V) → Run (List V × List (Bucket V))
  unfolding matches next
  update_loop size zero index q value values = ok ([], values)
  update_loop size (suc rounds) index q value values = load values index >>= λ b.
      let more = update_loop size rounds (next size index) q value values in
      if matches b q
      then (do
        old ← deref b.value
        values' ← store values index (record b { value = some value })
        ok (old ∷ [], values'))
      else more

  unfoldable pub update : Table V → Query → V → Run (List V × Table V)
  unfolding update_loop home
  update t q value = do
    (deleted, values) ← update_loop t.size t.size (home t.size q.hash) q value t.values
    ok (deleted, record t { values = values })

  -- A deletion leaves a tombstone. The flag says whether a bucket was cleared.
  pub delete_loop :
      (size rounds index : ℕ) → Query → List (Bucket V) → Run (List V × List (Bucket V))
  unfolding matches next
  delete_loop size zero index q values = ok ([], values)
  delete_loop size (suc rounds) index q values = load values index >>= λ b.
      let more = delete_loop size rounds (next size index) q values in
      on_value b.value (if b.hash == 0 then ok ([], values) else more) λ v.
        if matches b q
        then (do values' ← store values index tombstone; ok (v ∷ [], values'))
        else more

  unfoldable pub delete : Table V → Query → Run (List V × Table V)
  unfolding delete_loop home
  delete t q = do
    (deleted, values) ← delete_loop t.size t.size (home t.size q.hash) q t.values
    ok (deleted, record t { values = values; used = t.used - length deleted })

  -- The values that the destructor is called on.
  pub occupants : List (Bucket V) → List V
  occupants [] = []
  occupants (b ∷ bs) = on_value b.value (occupants bs) λ v. v ∷ occupants bs

  unfoldable pub destroy : Table V → List V
  unfolding occupants
  destroy t = occupants t.values

-- The arguments of `_zend_hash_str_add` and `_zend_hash_index_add`: the key, or the hash of an
-- integer key, and the converted value.
module _ {V Z : Type 0} (convert : V → Z) where
  pub listed : List (Bucket V) → List (Query × Z)
  listed [] = []
  listed (b ∷ bs) =
      on_value b.value (listed bs)
        λ v. (record { key = b.key; hash = b.hash }, convert v) ∷ listed bs

  unfoldable pub to_zend_hashtable : Table V → List (Query × Z)
  unfolding listed
  to_zend_hashtable t = listed t.values

-- get_hash and the operations that take a string key or an integer key.
module _ (zend_hash_func : Bytes → ℕ) where
  unfoldable pub string_query : Bytes → Query
  string_query s = record { key = some s; hash = zend_hash_func s }

abbrev pub index_query : ℕ → Query
index_query i = record { key = none; hash = i }
