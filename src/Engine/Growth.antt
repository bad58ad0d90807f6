-- ===== src/Engine/Growth.antt =====
-- The addresses that a copy takes: the next free one never goes back, and without objects, resources
-- and references no reference count is raised. About src/pht_zend.c.
use pht.Common.{
  ℕ, ◌≤◌, Bool, true, false, not, ◌||◌, Option, none, some, if◌then◌else◌, arith, ◌==◌,
}
use pht.Engine.{
  Str, Header, Value, undef, null, false_value, true_value, long, double, string, array, object,
  resource, reference, constant, constant_ast, Array, table, Buckets, end, bucket, Ast, null_ast,
  zval_node, list_node, node, Asts, no_more, child, Memory, emalloc, StringDup, TakesFresh,
  num_used, nothing_used,
}
use pht.Engine.Duplicate.{
  pht_zval_dup, pht_zend_array_dup, pht_zend_array_dup_packed_elements, pht_zend_array_dup_elements,
  pht_zend_ast_copy, copy_children, skipped, dup_key, Walk, Filled, first_walk, hash_bucket,
  array_copied, skip_element, copy_element,
}

module _ (zend_string_dup : StringDup) (fresh : TakesFresh zend_string_dup) where
  pub dup_key-grows :
      (static : Bool) (k : Option Str) (m : Memory)
      → m.next ≤ (dup_key zend_string_dup static k m).1.next
  dup_key-grows true k m = omega arith
  dup_key-grows false none m = omega arith
  dup_key-grows false (some s) m = (fresh s m).0

  array_copied-grows :
      (unused imm packed : Bool) (h : Header) (bs : Buckets) (m : Memory) (p : Buckets × Memory)
      (f : Filled)
      → m.next ≤ p.1.next
      → m.next ≤ f.memory.next
      → m.next ≤ (array_copied unused imm packed h bs m p f).1.next
  unfolding array_copied
  array_copied-grows true imm packed h bs m p f u v = omega arith
  array_copied-grows false true packed h bs m p f u v = omega arith
  array_copied-grows false false true h bs m p f u v = u
  array_copied-grows false false false h bs m p f u v = v

  chosen-grows :
      (b : Bool) (m m1 : Memory) (n : ℕ)
      → m.next ≤ m1.next
      → (if b then m else m1).next ≤ n
      → m.next ≤ n
  chosen-grows true m m1 n u v = v
  chosen-grows false m m1 n u v = omega arith

  hash_bucket-grows :
      (skip : Bool) (d : Value) (h : ℕ) (k : Option Str) (next : ℕ) (f : Filled) (n : ℕ)
      → n ≤ f.memory.next
      → n ≤ (hash_bucket skip d h k next f).memory.next
  unfolding hash_bucket
  hash_bucket-grows true d h k next f n u = u
  hash_bucket-grows false d h k next f n u = u

  mutual
    unfolding pht_zval_dup

    pub pht_zval_dup-grows :
        (v : Value) (m : Memory) → m.next ≤ (pht_zval_dup zend_string_dup v m).1.next
    pht_zval_dup-grows undef m = omega arith
    pht_zval_dup-grows null m = omega arith
    pht_zval_dup-grows false_value m = omega arith
    pht_zval_dup-grows true_value m = omega arith
    pht_zval_dup-grows (long k) m = omega arith
    pht_zval_dup-grows (double k) m = omega arith
    pht_zval_dup-grows (string s) m = (fresh s m).0
    pht_zval_dup-grows (array a) m = pht_zend_array_dup-grows a m
    pht_zval_dup-grows (object a) m = omega arith
    pht_zval_dup-grows (resource a) m = omega arith
    pht_zval_dup-grows (reference a v) m = omega arith
    pht_zval_dup-grows (constant s) m = (fresh s m).0
    pht_zval_dup-grows (constant_ast a t) m = omega (arith, pht_zend_ast_copy-grows t m)

    pub pht_zend_array_dup-grows :
        (a : Array) (m : Memory) → m.next ≤ (pht_zend_array_dup zend_string_dup a m).1.next
    pht_zend_array_dup-grows (table a h bs) m =
        let m2 = emalloc (emalloc m) in
        let holes = not (num_used bs == h.elements) in
        array_copied-grows (nothing_used bs) h.immutable h.packed h bs m
          (pht_zend_array_dup_packed_elements zend_string_dup bs holes m2)
          (pht_zend_array_dup_elements zend_string_dup bs (first_walk h holes) m2)
          (omega (arith, packed_elements-grows bs holes m2))
          (omega (arith, elements-grows bs (first_walk h holes) m2))

    pub packed_elements-grows :
        (bs : Buckets) (holes : Bool) (m : Memory)
        → m.next ≤ (pht_zend_array_dup_packed_elements zend_string_dup bs holes m).1.next
    packed_elements-grows end holes m = omega arith
    packed_elements-grows (bucket i v h k n r) holes m =
        let kept = skipped true holes i v || i in
        let m1 = (pht_zval_dup zend_string_dup v m).1 in
        chosen-grows kept m m1 _ (pht_zval_dup-grows v m)
          (packed_elements-grows r holes (if kept then m else m1))

    pub elements-grows :
        (bs : Buckets) (w : Walk) (m : Memory)
        → m.next ≤ (pht_zend_array_dup_elements zend_string_dup bs w m).memory.next
    elements-grows end w m = omega arith
    elements-grows (bucket i v h k n r) w m =
        let skip = skipped false w.with_holes i v in
        let m1 = (pht_zval_dup zend_string_dup v m).1 in
        let m2 = (dup_key zend_string_dup w.static_keys k m1).1 in
        hash_bucket-grows skip _ h _ _ _ m.next (
          chosen-grows skip m m2 _
            (omega (arith, pht_zval_dup-grows v m, dup_key-grows w.static_keys k m1))
            (elements-grows r (if skip then skip_element w else copy_element w h)
              (if skip then m else m2)))

    pub pht_zend_ast_copy-grows :
        (t : Ast) (m : Memory) → m.next ≤ (pht_zend_ast_copy zend_string_dup t m).1.next
    pht_zend_ast_copy-grows null_ast m = omega arith
    pht_zend_ast_copy-grows (zval_node a attr v) m = omega (arith, pht_zval_dup-grows v (emalloc m))
    pht_zend_ast_copy-grows (list_node a kind attr ts) m =
        omega (arith, copy_children-grows ts (emalloc m))
    pht_zend_ast_copy-grows (node a kind attr ts) m =
        omega (arith, copy_children-grows ts (emalloc m))

    pub copy_children-grows :
        (ts : Asts) (m : Memory) → m.next ≤ (copy_children zend_string_dup ts m).1.next
    copy_children-grows no_more m = omega arith
    copy_children-grows (child t ts) m = omega (
      arith,
      pht_zend_ast_copy-grows t m,
      copy_children-grows ts (pht_zend_ast_copy zend_string_dup t m).1,
    )
