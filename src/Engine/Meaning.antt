-- ===== src/Engine/Meaning.antt =====
-- What a zval says to a PHP program, whatever blocks it lies in: an array is its elements in order,
-- with their positions or hashes and their keys. What both threads share is known by its address.
-- About PHT_ZVAL_DUP of src/pht_zend.h and src/pht_zend.c.
use pht.Common.{
  ℕ, suc, ◌≡◌, refl, ap, Bool, true, false, not, ◌||◌, Option, none, some, if◌then◌else◌, arith,
  ◌==◌,
}
use pht.Common.Int.{ℤ}
use pht.PhtString.{Bytes}
use pht.Engine.{
  Str, Header, Value, undef, null, false_value, true_value, long, double, string, array, object,
  resource, reference, constant, constant_ast, Array, table, Buckets, end, bucket, Ast, null_ast,
  zval_node, list_node, node, Asts, no_more, child, Memory, emalloc, StringDup, KeepsBytes,
  is_undef, nothing_used, num_used,
}
use pht.Engine.Duplicate.{
  pht_zval_dup, pht_zend_array_dup, pht_zend_array_dup_packed_elements, pht_zend_array_dup_elements,
  pht_zend_ast_copy, copy_children, skipped, dup_key, Walk, Filled, first_walk, packed_bucket,
  hash_bucket, array_copied, skip_element, copy_element,
}

mutual
  pub data Content : Type 0 where
    nothing is_null is_false is_true : Content
    number : ℤ → Content
    float : ℕ → Content
    text name : Bytes → Content
    elements : Entries → Content
    shared_object shared_resource shared_reference : (address : ℕ) → Content
    expression : Tree → Content

  pub data Entries : Type 0 where
    empty : Entries
    entry : (index : ℕ) (key : Option Bytes) → Content → Entries → Entries

  pub data Tree : Type 0 where
    leaf : Tree
    value_leaf : (attr : ℕ) → Content → Tree
    branch : (list : Bool) (kind attr : ℕ) → Trees → Tree

  pub data Trees : Type 0 where
    no_trees : Trees
    tree : Tree → Trees → Trees

abbrev pub key_bytes : Option Str → Option Bytes
key_bytes none = none
key_bytes (some s) = some s.bytes

-- An element, where the bucket is in use.
abbrev pub used_entry :
    (unused : Bool) (index : ℕ) (key : Option Bytes) → Content → Entries → Entries
used_entry true index key c rest = rest
used_entry false index key c rest = entry index key c rest

unfoldable mutual
  pub meaning : Value → Content
  meaning undef = nothing
  meaning null = is_null
  meaning false_value = is_false
  meaning true_value = is_true
  meaning (long k) = number k
  meaning (double k) = float k
  meaning (string s) = text s.bytes
  meaning (array a) = elements (meaning_array a)
  meaning (object a) = shared_object a
  meaning (resource a) = shared_resource a
  meaning (reference a v) = shared_reference a
  meaning (constant s) = name s.bytes
  meaning (constant_ast a t) = expression (meaning_ast t)

  pub meaning_array : Array → Entries
  meaning_array (table a h bs) =
      let packed = meaning_packed bs 0 in
      let hashed = meaning_hash bs in if h.packed then packed else hashed

  -- An element of a packed table is found by its position.
  pub meaning_packed : Buckets → ℕ → Entries
  meaning_packed end i = empty
  meaning_packed (bucket ind v h k n r) i =
      used_entry (is_undef v) i none (meaning v) (meaning_packed r (suc i))

  pub meaning_hash : Buckets → Entries
  meaning_hash end = empty
  meaning_hash (bucket ind v h k n r) =
      used_entry (is_undef v) h (key_bytes k) (meaning v) (meaning_hash r)

  pub meaning_ast : Ast → Tree
  meaning_ast null_ast = leaf
  meaning_ast (zval_node a attr v) = value_leaf attr (meaning v)
  meaning_ast (list_node a kind attr ts) = branch true kind attr (meaning_asts ts)
  meaning_ast (node a kind attr ts) = branch false kind attr (meaning_asts ts)

  pub meaning_asts : Asts → Trees
  meaning_asts no_more = no_trees
  meaning_asts (child t ts) = tree (meaning_ast t) (meaning_asts ts)

module _ (zend_string_dup : StringDup) (keeps : KeepsBytes zend_string_dup) where
  key_bytes-dup_key :
      (static : Bool) (k : Option Str) (m : Memory)
      → key_bytes (dup_key zend_string_dup static k m).0 ≡ key_bytes k
  key_bytes-dup_key true k m = refl
  key_bytes-dup_key false none m = refl
  key_bytes-dup_key false (some s) m = ap some (keeps s m)

  is_undef-pht_zval_dup :
      (v : Value) (m : Memory) → is_undef (pht_zval_dup zend_string_dup v m).0 ≡ is_undef v
  unfolding pht_zval_dup
  is_undef-pht_zval_dup undef m = refl
  is_undef-pht_zval_dup null m = refl
  is_undef-pht_zval_dup false_value m = refl
  is_undef-pht_zval_dup true_value m = refl
  is_undef-pht_zval_dup (long k) m = refl
  is_undef-pht_zval_dup (double k) m = refl
  is_undef-pht_zval_dup (string s) m = refl
  is_undef-pht_zval_dup (array a) m = refl
  is_undef-pht_zval_dup (object a) m = refl
  is_undef-pht_zval_dup (resource a) m = refl
  is_undef-pht_zval_dup (reference a v) m = refl
  is_undef-pht_zval_dup (constant s) m = refl
  is_undef-pht_zval_dup (constant_ast a t) m = refl

  -- Only what is not in use is skipped.
  skipped-undef :
      (packed holes i : Bool) (v : Value) → skipped packed holes i v ≡ true → is_undef v ≡ true
  skipped-undef packed holes i v h = ground arith

  -- One element of a packed table and of another, given that the value of the copy means what the
  -- value of the source means.
  meaning-packed_bucket :
      (skip ind : Bool) (v copy : Value) (h : ℕ) (k : Option Str) (n : ℕ) (rest r : Buckets) (i : ℕ)
      → (skip ≡ true → is_undef v ≡ true)
      → is_undef copy ≡ is_undef v
      → meaning copy ≡ meaning v
      → meaning_packed rest (suc i) ≡ meaning_packed r (suc i)
      → meaning_packed (packed_bucket skip ind v copy h rest) i
        ≡ meaning_packed (bucket ind v h k n r) i
  unfolding meaning packed_bucket
  meaning-packed_bucket true ind v copy h k n rest r i s u c e = rw (s refl, e)
  meaning-packed_bucket false true v copy h k n rest r i s u c e = rw e
  meaning-packed_bucket false false v copy h k n rest r i s u c e = rw (u, c, e)

  meaning-hash_bucket :
      (skip ind : Bool) (v copy : Value) (h : ℕ) (k key : Option Str) (next n : ℕ) (f : Filled)
      (r : Buckets)
      → (skip ≡ true → is_undef v ≡ true)
      → is_undef copy ≡ is_undef v
      → meaning copy ≡ meaning v
      → key_bytes key ≡ key_bytes k
      → meaning_hash f.buckets ≡ meaning_hash r
      → meaning_hash (hash_bucket skip copy h key next f).buckets
        ≡ meaning_hash (bucket ind v h k n r)
  unfolding meaning hash_bucket
  meaning-hash_bucket true ind v copy h k key next n f r s u c e t = rw (s refl, t)
  meaning-hash_bucket false ind v copy h k key next n f r s u c e t = rw (u, c, e, t)

  meaning-array_copied :
      (imm packed : Bool) (a : ℕ) (h : Header) (bs : Buckets) (m : Memory) (p : Buckets × Memory)
      (f : Filled)
      → h.packed ≡ packed
      → meaning_packed p.0 0 ≡ meaning_packed bs 0
      → meaning_hash f.buckets ≡ meaning_hash bs
      → meaning_array (array_copied (nothing_used bs) imm packed h bs m p f).0
        ≡ meaning_array (table a h bs)
  unfolding meaning array_copied
  meaning-array_copied imm packed a h end m p f e u v = ground arith
  meaning-array_copied true packed a h (bucket i v k key n r) m p f e u w = refl
  meaning-array_copied false true a h (bucket i v k key n r) m p f e u w = rw (e, u)
  meaning-array_copied false false a h (bucket i v k key n r) m p f e u w = rw (e, w)

  mutual
    unfolding pht_zval_dup meaning

    meaning_zval :
        (v : Value) (m : Memory) → meaning (pht_zval_dup zend_string_dup v m).0 ≡ meaning v
    meaning_zval undef m = refl
    meaning_zval null m = refl
    meaning_zval false_value m = refl
    meaning_zval true_value m = refl
    meaning_zval (long k) m = refl
    meaning_zval (double k) m = refl
    meaning_zval (string s) m = ap text (keeps s m)
    meaning_zval (array a) m = ap elements (meaning_table a m)
    meaning_zval (object a) m = refl
    meaning_zval (resource a) m = refl
    meaning_zval (reference a v) m = refl
    meaning_zval (constant s) m = ap name (keeps s m)
    meaning_zval (constant_ast a t) m = ap expression (meaning_tree t m)

    meaning_table :
        (a : Array) (m : Memory)
        → meaning_array (pht_zend_array_dup zend_string_dup a m).0 ≡ meaning_array a
    meaning_table (table a h bs) m =
        let m2 = emalloc (emalloc m) in
        let holes = not (num_used bs == h.elements) in
        meaning-array_copied h.immutable h.packed a h bs m
          (pht_zend_array_dup_packed_elements zend_string_dup bs holes m2)
          (pht_zend_array_dup_elements zend_string_dup bs (first_walk h holes) m2) refl
          (meaning_packed_elements bs holes m2 0) (meaning_elements bs (first_walk h holes) m2)

    meaning_packed_elements :
        (bs : Buckets) (holes : Bool) (m : Memory) (i : ℕ)
        → meaning_packed (pht_zend_array_dup_packed_elements zend_string_dup bs holes m).0 i
          ≡ meaning_packed bs i
    meaning_packed_elements end holes m i = refl
    meaning_packed_elements (bucket ind v h k n r) holes m i =
        meaning-packed_bucket (skipped true holes ind v) ind v (pht_zval_dup zend_string_dup v m).0
          h k n _ r i (skipped-undef true holes ind v) (is_undef-pht_zval_dup v m)
          (meaning_zval v m)
          (meaning_packed_elements r holes
            (if skipped true holes ind v || ind then m else (pht_zval_dup zend_string_dup v m).1)
            (suc i))

    meaning_elements :
        (bs : Buckets) (w : Walk) (m : Memory)
        → meaning_hash (pht_zend_array_dup_elements zend_string_dup bs w m).buckets
          ≡ meaning_hash bs
    meaning_elements end w m = refl
    meaning_elements (bucket ind v h k n r) w m =
        let skip = skipped false w.with_holes ind v in
        let d = pht_zval_dup zend_string_dup v m in
        meaning-hash_bucket skip ind v d.0 h k (dup_key zend_string_dup w.static_keys k d.1).0 _ n _
          r (skipped-undef false w.with_holes ind v) (is_undef-pht_zval_dup v m) (meaning_zval v m)
          (key_bytes-dup_key w.static_keys k d.1)
          (meaning_elements r (if skip then skip_element w else copy_element w h)
            (if skip then m else (dup_key zend_string_dup w.static_keys k d.1).1))

    meaning_tree :
        (t : Ast) (m : Memory)
        → meaning_ast (pht_zend_ast_copy zend_string_dup t m).0 ≡ meaning_ast t
    meaning_tree null_ast m = refl
    meaning_tree (zval_node a attr v) m = ap (value_leaf attr) (meaning_zval v (emalloc m))
    meaning_tree (list_node a kind attr ts) m =
        ap (branch true kind attr) (meaning_children ts (emalloc m))
    meaning_tree (node a kind attr ts) m =
        ap (branch false kind attr) (meaning_children ts (emalloc m))

    meaning_children :
        (ts : Asts) (m : Memory)
        → meaning_asts (copy_children zend_string_dup ts m).0 ≡ meaning_asts ts
    meaning_children no_more m = refl
    meaning_children (child t ts) m =
        rw (meaning_tree t m, meaning_children ts (pht_zend_ast_copy zend_string_dup t m).1)

  -- Whatever blocks zend_string_dup takes, as long as it keeps the bytes of a string, the copy of
  -- a zval means what the zval means: an array has the same elements in the same order, at their
  -- positions or under their hashes and keys, at every depth, and so has the tree of a constant
  -- expression.
  pub meaning-pht_zval_dup :
      (v : Value) (m : Memory) → meaning (pht_zval_dup zend_string_dup v m).0 ≡ meaning v
  meaning-pht_zval_dup v m = meaning_zval v m

  pub meaning_array-pht_zend_array_dup :
      (a : Array) (m : Memory)
      → meaning_array (pht_zend_array_dup zend_string_dup a m).0 ≡ meaning_array a
  meaning_array-pht_zend_array_dup a m = meaning_table a m

  pub meaning_ast-pht_zend_ast_copy :
      (t : Ast) (m : Memory) → meaning_ast (pht_zend_ast_copy zend_string_dup t m).0 ≡ meaning_ast t
  meaning_ast-pht_zend_ast_copy t m = meaning_tree t m
