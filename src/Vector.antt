-- ===== src/Vector.antt =====
-- src/ds/pht_vector.c: the growable array of entry pointers behind pht\Vector.
-- `values` is the allocated block, so its list has `size` slots; a slot that `realloc` added holds
-- an indeterminate pointer. The destructor of the struct is `pht_entry_delete`: an operation that
-- deletes an entry gives the entry back in its result, in the order of the calls.
pub mod Moves
pub mod Laws
pub mod Shifts
pub mod Capacity
use pht.Common.{
  ℕ, zero, suc, ◌+◌, ◌-◌, ◌*◌, Bool, true, false, List, [], ◌∷◌, ◌++◌, if◌then◌else◌, ◌==◌, leb,
  ltb, Run, ok, fault, ◌>>=◌, ◌>>◌, as_int, load, store, Ptr, null, wild, ref, target, replicate,
  take, length,
}
use pht.Common.Int.{ℤ, pos, negsuc}

pub record Vector (A : Type 0) : Type 0 where
  pub values : List (Ptr A)
  pub size : ℕ
  pub used : ℕ

-- The result flag, the entries that were deleted, and the vector.
abbrev pub Change : Type 0 → Type 0
Change A = Bool × List A × Vector A

module _ {A : Type 0} where
  -- `realloc` keeps the slots that fit.
  abbrev pub realloc : List (Ptr A) → ℕ → List (Ptr A)
  realloc values size = take size values ++ replicate (size - length values) wild

  -- `size << 1` is undefined where it leaves the range of an `int`.
  unfoldable pub space_check : Vector A → Run (Vector A)
  space_check v =
      if v.used == v.size
      then (do
        size ← if v.size == 0 then ok 1 else as_int (v.size * 2)
        ok (record v { values = realloc v.values size; size = size }))
      else ok v

  unfoldable pub init : ℕ → Vector A
  init size = record { values = replicate size null; size = size; used = 0 }

  unfoldable pub push : Vector A → Ptr A → Run (Vector A)
  push v value = do
    w ← space_check v
    values ← store w.values w.used value
    ok (record w { values = values; used = w.used + 1 })

  unfoldable pub pop : Vector A → Run (Ptr A × Vector A)
  pop v =
      if v.used == 0
      then ok (null, v)
      else (do value ← load v.values (v.used - 1); ok (value, record v { used = v.used - 1 }))

  -- `values[i - 1] = values[i]` for as many indices as the loop has rounds, upwards from `i`.
  pub shift_down : (rounds i : ℕ) → List (Ptr A) → Run (List (Ptr A))
  shift_down zero i values = ok values
  shift_down (suc rounds) i values = do
    value ← load values i
    moved ← store values (i - 1) value
    shift_down rounds (i + 1) moved

  -- `values[i] = values[i - 1]`, downwards from `i`.
  pub shift_up : (rounds i : ℕ) → List (Ptr A) → Run (List (Ptr A))
  shift_up zero i values = ok values
  shift_up (suc rounds) i values = do
    value ← load values (i - 1)
    moved ← store values i value
    shift_up rounds (i - 1) moved

  unfoldable pub shift : Vector A → Run (Ptr A × Vector A)
  unfolding shift_down
  shift v = if v.used == 0 then ok (null, v) else (do
    value ← load v.values 0
    values ← shift_down (v.used - 1) 1 v.values
    ok (value, record v { values = values; used = v.used - 1 }))

  unfoldable pub unshift : Vector A → Ptr A → Run (Vector A)
  unfolding shift_up
  unshift v value = do
    w ← space_check v
    moved ← shift_up w.used w.used w.values
    values ← store moved 0 value
    ok (record w { values = values; used = w.used + 1 })

  unfoldable pub fetch_at : Vector A → ℤ → Run (Ptr A)
  fetch_at v (pos i) = if leb v.used i then ok null else load v.values i
  fetch_at v (negsuc i) = ok null

  unfoldable pub update_at : Vector A → Ptr A → ℤ → Run (Change A)
  update_at v value (pos i) = if leb v.used i then ok (false, [], v) else (do
    old ← load v.values i
    deleted ← target old
    values ← store v.values i value
    ok (true, deleted ∷ [], record v { values = values }))
  update_at v value (negsuc i) = ok (false, [], v)

  unfoldable pub insert_at : Vector A → Ptr A → ℤ → Run (Bool × Vector A)
  unfolding shift_up
  insert_at v value (pos i) = if ltb v.used i then ok (false, v) else (do
    w ← space_check v
    moved ← shift_up (w.used - i) w.used w.values
    values ← store moved i value
    ok (true, record w { values = values; used = w.used + 1 }))
  insert_at v value (negsuc i) = ok (false, v)

  -- The loop reads `values[i + 1]` also for the last index in use.
  unfoldable pub delete_at : Vector A → ℤ → Run (Change A)
  unfolding shift_down
  delete_at v (pos i) = if leb v.used i then ok (false, [], v) else (do
    old ← load v.values i
    deleted ← target old
    values ← shift_down (v.used - i) (i + 1) v.values
    ok (true, deleted ∷ [], record v { values = values; used = v.used - 1 }))
  delete_at v (negsuc i) = ok (false, [], v)

  unfoldable pub size : Vector A → ℕ
  size v = v.used

  -- The entries at the slots from `i` on, each read and then dereferenced by its user.
  pub read_slots : (rounds i : ℕ) → List (Ptr A) → Run (List A)
  read_slots zero i values = ok []
  read_slots (suc rounds) i values = do
    slot ← load values i
    entry ← target slot
    rest ← read_slots rounds (i + 1) values
    ok (entry ∷ rest)

  -- The entries that the destructor is called on.
  unfoldable pub destroy : Vector A → Run (List A)
  unfolding read_slots
  destroy v = read_slots v.used 0 v.values

module _ {A Z : Type 0} (convert : A → Z) where
  unfoldable pub numbered : ℕ → List A → List (ℕ × Z)
  numbered i [] = []
  numbered i (a ∷ rest) = (i, convert a) ∷ numbered (i + 1) rest

  -- The pairs that `_zend_hash_index_add` is called with: the index and the converted entry.
  unfoldable pub to_zend_hashtable : Vector A → Run (List (ℕ × Z))
  unfolding read_slots numbered
  to_zend_hashtable v = do entries ← read_slots v.used 0 v.values; ok (numbered 0 entries)
