-- ===== src/Engine/Duplicate.antt =====
-- src/pht_zend.c, and PHT_ZVAL_DUP of src/pht_zend.h: the hard copy of a zval. A copy takes the
-- memory as it is and leaves it with the new blocks; `emalloc` is taken before the calls inside.
use pht.Common.{
  ℕ, suc, ◌+◌, ◌%◌, Bool, true, false, not, ◌&&◌, ◌||◌, List, Option, none, some, if◌then◌else◌,
  ◌==◌, ltb, length, get_elem?, set, replicate,
}
use pht.Common.Int.{pos}
use pht.Engine.{
  Str, Header, Value, undef, null, false_value, true_value, long, double, string, array, object,
  resource, reference, constant, constant_ast, Array, table, Buckets, end, bucket, Ast, null_ast,
  zval_node, list_node, node, Asts, no_more, child, Memory, emalloc, raise, StringDup, is_undef,
  nothing_used, num_used, invalid_index,
}

-- The flags and fields that each branch of pht_zend_array_dup sets, before the elements are copied.
abbrev pub empty_header : Header → Header
empty_header h = record {
  immutable = false;
  packed = false;
  static_keys = true;
  initialized = false;
  persistent = false;
  apply_protection = true;
  apply_count = 0;
  table_size = h.table_size;
  elements = 0;
  next_free = pos 0;
  internal_pointer = invalid_index;
  destructor = h.destructor;
  data_block = none;
  hash = replicate 2 invalid_index;
}

abbrev pub immutable_header : Header → ℕ → ℕ → Header
immutable_header h block pointer = record {
  immutable = false;
  packed = h.packed;
  static_keys = h.static_keys;
  initialized = h.initialized;
  persistent = false;
  apply_protection = true;
  apply_count = h.apply_count;
  table_size = h.table_size;
  elements = h.elements;
  next_free = h.next_free;
  internal_pointer = pointer;
  destructor = h.destructor;
  data_block = some block;
  hash = h.hash;
}

abbrev pub packed_header : Header → ℕ → ℕ → Header
packed_header h block pointer = record {
  immutable = false;
  packed = true;
  static_keys = h.static_keys;
  initialized = h.initialized;
  persistent = false;
  apply_protection = true;
  apply_count = 0;
  table_size = h.table_size;
  elements = h.elements;
  next_free = h.next_free;
  internal_pointer = pointer;
  destructor = h.destructor;
  data_block = some block;
  hash = replicate 2 invalid_index;
}

abbrev pub hash_header : Header → ℕ → ℕ → ℕ → List ℕ → Header
hash_header h block pointer count hash = record {
  immutable = false;
  packed = false;
  static_keys = h.static_keys;
  initialized = h.initialized;
  persistent = false;
  apply_protection = true;
  apply_count = 0;
  table_size = h.table_size;
  elements = count;
  next_free = h.next_free;
  internal_pointer = pointer;
  destructor = h.destructor;
  data_block = some block;
  hash = hash;
}

-- The `while` that looks for the first bucket in use.
abbrev pub first_used : Buckets → ℕ
first_used end = 0
first_used (bucket i v h k n r) = if not i && is_undef v then suc (first_used r) else 0

abbrev pub pointer_in : Header → Buckets → ℕ
pointer_in h bs =
    if ltb 0 h.elements && (h.internal_pointer == invalid_index)
    then first_used bs
    else h.internal_pointer

-- Where pht_zend_array_dup_element returns 0.
abbrev pub skipped : (packed with_holes indirect : Bool) → Value → Bool
skipped packed true indirect v = not (packed && indirect) && is_undef v
skipped true false indirect v = false
skipped false false true v = is_undef v
skipped false false false v = false

-- `h | nTableMask`, as an index in the hash part. The size of the hash part is a power of 2.
abbrev pub hash_slot : List ℕ → ℕ → ℕ
hash_slot hash h = h % length hash

abbrev pub hash_entry : List ℕ → ℕ → ℕ
hash_entry hash slot = elim (get_elem? hash slot) [ none ↦ invalid_index | some i ↦ i ]

-- nInternalPointer once the elements of a table that is not packed are copied.
abbrev pub pointer_after : ℕ → ℕ → ℕ
pointer_after count pointer = if ltb 0 count && (pointer == invalid_index) then 0 else pointer

-- What the loop over the elements of a table has made: the buckets from here on, how many there are in
-- all, the internal pointer, the hash part and the memory.
pub record Filled : Type 0 where
  pub buckets : Buckets
  pub count : ℕ
  pub pointer : ℕ
  pub hash : List ℕ
  pub memory : Memory

-- The bucket before those that the rest of the loop makes: that of a packed table, where nothing is
-- kept of a bucket that is not in use (its other fields, which nothing reads, are 0 here), and that of
-- another table, where a bucket that is skipped leaves no place.
unfoldable pub packed_bucket : (skip indirect : Bool) (v copy : Value) → ℕ → Buckets → Buckets
packed_bucket true indirect v copy h rest = bucket false undef 0 none 0 rest
packed_bucket false true v copy h rest = bucket true v h none 0 rest
packed_bucket false false v copy h rest = bucket false copy h none 0 rest

unfoldable pub hash_bucket : (skip : Bool) → Value → ℕ → Option Str → ℕ → Filled → Filled
hash_bucket true v h key next f = f
hash_bucket false v h key next f = record {
  buckets = bucket false v h key next f.buckets;
  count = f.count;
  pointer = f.pointer;
  hash = f.hash;
  memory = f.memory;
}

-- The branches of pht_zend_array_dup, given what the loops over the elements make.
unfoldable pub array_copied :
    (nothing immutable packed : Bool)
    → Header
    → Buckets
    → Memory
    → Buckets × Memory
    → Filled
    → Array × Memory
array_copied true immutable packed h bs m p f = (table m.next (empty_header h) end, emalloc m)
array_copied false true packed h bs m p f =
    (table m.next (immutable_header h (m.next + 1) (pointer_in h bs)) bs, emalloc (emalloc m))
array_copied false false true h bs m p f =
    (table m.next (packed_header h (m.next + 1) (pointer_in h p.0)) p.0, p.1)
array_copied false false false h bs m p f = (
  table m.next (hash_header h (m.next + 1) (pointer_after f.count f.pointer) f.count f.hash)
      f.buckets,
  f.memory,
)

-- Where the loop over the elements of a table stands: `idx` in the source and `target_idx` in the copy,
-- which are the same until an element has been skipped.
pub record Walk : Type 0 where
  pub static_keys : Bool
  pub with_holes : Bool
  pub source_pointer : ℕ
  pub idx : ℕ
  pub target_idx : ℕ
  pub pointer : ℕ
  pub hash : List ℕ

abbrev pub skip_element : Walk → Walk
skip_element w = record {
  static_keys = w.static_keys;
  with_holes = w.with_holes;
  source_pointer = w.source_pointer;
  idx = w.idx + 1;
  target_idx = w.target_idx;
  pointer = w.pointer;
  hash = w.hash;
}

abbrev pub copy_element : Walk → ℕ → Walk
copy_element w h = record {
  static_keys = w.static_keys;
  with_holes = w.with_holes;
  source_pointer = w.source_pointer;
  idx = w.idx + 1;
  target_idx = w.target_idx + 1;
  pointer =
      if ltb w.target_idx w.idx && (w.source_pointer == w.idx) then w.target_idx else w.pointer;
  hash = set w.hash (hash_slot w.hash h) w.target_idx;
}

abbrev pub first_walk : Header → Bool → Walk
first_walk h holes = record {
  static_keys = h.static_keys;
  with_holes = holes;
  source_pointer = h.internal_pointer;
  idx = 0;
  target_idx = 0;
  pointer = h.internal_pointer;
  hash = replicate (length h.hash) invalid_index;
}

module _ (zend_string_dup : StringDup) where
  -- The key of the copy in a table that is not packed.
  abbrev pub dup_key : (static_keys : Bool) → Option Str → Memory → Option Str × Memory
  dup_key true key m = (key, m)
  dup_key false none m = (none, m)
  dup_key false (some s) m = let (t, m1) = zend_string_dup s m in (some t, m1)

  unfoldable mutual
    -- PHT_ZVAL_DUP, with _pht_zval_copy_ctor_func for the types that are copied.
    pub pht_zval_dup : Value → Memory → Value × Memory
    pht_zval_dup (string s) m = let (t, m1) = zend_string_dup s m in (string t, m1)
    pht_zval_dup (array a) m = let (b, m1) = pht_zend_array_dup a m in (array b, m1)
    pht_zval_dup (constant s) m = let (t, m1) = zend_string_dup s m in (constant t, m1)
    pht_zval_dup (constant_ast a t) m =
        let (u, m1) = pht_zend_ast_copy t m in (constant_ast m1.next u, emalloc m1)
    pht_zval_dup (object a) m = (object a, raise a m)
    pht_zval_dup (resource a) m = (resource a, raise a m)
    pht_zval_dup (reference a v) m = (reference a v, raise a m)
    pht_zval_dup undef m = (undef, m)
    pht_zval_dup null m = (null, m)
    pht_zval_dup false_value m = (false_value, m)
    pht_zval_dup true_value m = (true_value, m)
    pht_zval_dup (long k) m = (long k, m)
    pht_zval_dup (double k) m = (double k, m)

    -- pht_zend_array_dup: a block for the table, then one for its data.
    pub pht_zend_array_dup : Array → Memory → Array × Memory
    pht_zend_array_dup (table a h bs) m =
        let holes = not (num_used bs == h.elements) in
        array_copied (nothing_used bs) h.immutable h.packed h bs m
          (pht_zend_array_dup_packed_elements bs holes (emalloc (emalloc m)))
          (pht_zend_array_dup_elements bs (first_walk h holes) (emalloc (emalloc m)))

    -- pht_zend_array_dup_packed_elements. No chain and no key is kept.
    pub pht_zend_array_dup_packed_elements :
        Buckets → (with_holes : Bool) → Memory → Buckets × Memory
    pht_zend_array_dup_packed_elements end holes m = (end, m)
    pht_zend_array_dup_packed_elements (bucket i v h key next r) holes m =
        let (w, m1) = pht_zval_dup v m in
        let rest =
          pht_zend_array_dup_packed_elements r holes
            (if skipped true holes i v || i then m else m1) in
        (packed_bucket (skipped true holes i v) i v w h rest.0, rest.1)

    -- pht_zend_array_dup_elements, with pht_zend_array_dup_element for each: the elements move up over
    -- those that are skipped, and each goes to the front of the chain of its hash.
    pub pht_zend_array_dup_elements : Buckets → Walk → Memory → Filled
    pht_zend_array_dup_elements end w m = record {
      buckets = end;
      count = w.target_idx;
      pointer = w.pointer;
      hash = w.hash;
      memory = m;
    }
    pht_zend_array_dup_elements (bucket i v h key next r) w m =
        let (d, m1) = pht_zval_dup v m in
        let (k, m2) = dup_key w.static_keys key m1 in
        let skip = skipped false w.with_holes i v in
        let rest =
          pht_zend_array_dup_elements r (if skip then skip_element w else copy_element w h)
            (if skip then m else m2) in
        hash_bucket skip d h k (hash_entry w.hash (hash_slot w.hash h)) rest

    pub pht_zend_ast_copy : Ast → Memory → Ast × Memory
    pht_zend_ast_copy null_ast m = (null_ast, m)
    pht_zend_ast_copy (zval_node a attr v) m =
        let (w, m1) = pht_zval_dup v (emalloc m) in (zval_node m.next attr w, m1)
    pht_zend_ast_copy (list_node a kind attr ts) m =
        let (us, m1) = copy_children ts (emalloc m) in (list_node m.next kind attr us, m1)
    pht_zend_ast_copy (node a kind attr ts) m =
        let (us, m1) = copy_children ts (emalloc m) in (node m.next kind attr us, m1)

    -- The loop over the children of a node.
    pub copy_children : Asts → Memory → Asts × Memory
    copy_children no_more m = (no_more, m)
    copy_children (child t ts) m =
        let (u, m1) = pht_zend_ast_copy t m in
        let (us, m2) = copy_children ts m1 in (child u us, m2)
