-- ===== src/Engine/Isolation.antt =====
-- What a hard copy shares with its source: nothing that is ever freed. About PHT_ZVAL_DUP of
-- src/pht_zend.h and src/pht_zend.c.
use pht.Common.{
  ℕ, ◌+◌, ◌≤◌, ◌≡◌, refl, ◌∙◌, Bool, true, false, not, ◌||◌, Option, none, some, if◌then◌else◌, inl,
  inr, arith, ◌==◌,
}
use pht.Engine.{
  Str, Header, Value, undef, null, false_value, true_value, long, double, string, array, object,
  resource, reference, constant, constant_ast, Array, table, Buckets, end, bucket, Ast, null_ast,
  zval_node, list_node, node, Asts, no_more, child, Memory, emalloc, StringDup, TakesFresh,
  num_used, nothing_used,
}
use pht.Engine.Duplicate.{
  pht_zval_dup, pht_zend_array_dup, pht_zend_array_dup_packed_elements, pht_zend_array_dup_elements,
  pht_zend_ast_copy, copy_children, skipped, dup_key, Walk, Filled, first_walk, packed_bucket,
  hash_bucket, array_copied, skip_element, copy_element,
}
use pht.Engine.Owned.{
  FreshStr, FreshKey, Fresh, FreshArray, FreshBuckets, FreshAst, FreshAsts, Static, StaticBuckets,
  InternedKey, KeyKept, Copyable, CopyableArray, CopyableBuckets, CopyableAst, CopyableAsts,
}
use pht.Engine.Growth.{
  dup_key-grows, pht_zval_dup-grows, packed_elements-grows, elements-grows, pht_zend_ast_copy-grows,
  copy_children-grows,
}

module _ (zend_string_dup : StringDup) (fresh : TakesFresh zend_string_dup) where
  module _ (lo hi : ℕ) where
    new_string :
        (s : Str) (m : Memory)
        → lo ≤ m.next
        → (zend_string_dup s m).1.next ≤ hi
        → FreshStr lo hi (zend_string_dup s m).0
    new_string s m l u = ground (arith, fresh s m)

    new_key :
        (static : Bool) (k : Option Str) (m : Memory)
        → KeyKept static k
        → lo ≤ m.next
        → (dup_key zend_string_dup static k m).1.next ≤ hi
        → FreshKey lo hi (dup_key zend_string_dup static k m).0
    new_key true none m h l u = tt
    new_key true (some s) m h l u = inl h
    new_key false none m h l u = tt
    new_key false (some s) m h l u = new_string s m l u

    Static-Fresh : (v : Value) → Static v → Fresh lo hi v
    unfolding Fresh Static
    Static-Fresh undef h = tt
    Static-Fresh null h = tt
    Static-Fresh false_value h = tt
    Static-Fresh true_value h = tt
    Static-Fresh (long k) h = tt
    Static-Fresh (double k) h = tt
    Static-Fresh (string s) h = inl h
    Static-Fresh (array (table a t bs)) h = inl h
    Static-Fresh (object a) h = h
    Static-Fresh (resource a) h = h
    Static-Fresh (reference a v) h = h
    Static-Fresh (constant s) h = inl h
    Static-Fresh (constant_ast a t) h = absurd h

    InternedKey-FreshKey : (k : Option Str) → InternedKey k → FreshKey lo hi k
    InternedKey-FreshKey none h = tt
    InternedKey-FreshKey (some s) h = inl h

    StaticBuckets-FreshBuckets : (bs : Buckets) → StaticBuckets bs → FreshBuckets lo hi bs
    unfolding Fresh Static
    StaticBuckets-FreshBuckets end h = tt
    StaticBuckets-FreshBuckets (bucket i v h k n r) (e, s, t, u) =
        (e, Static-Fresh v s, InternedKey-FreshKey k t, StaticBuckets-FreshBuckets r u)

    packed_bucket-Fresh :
        (skip ind : Bool) (v copy : Value) (h : ℕ) (rest : Buckets)
        → ind ≡ false
        → (skip ≡ false → Fresh lo hi copy)
        → FreshBuckets lo hi rest
        → FreshBuckets lo hi (packed_bucket skip ind v copy h rest)
    unfolding Fresh packed_bucket
    packed_bucket-Fresh true ind v copy h rest e c r = (refl, tt, tt, r)
    packed_bucket-Fresh false true v copy h rest e c r = absurd (cc e)
    packed_bucket-Fresh false false v copy h rest e c r = (refl, c refl, tt, r)

    hash_bucket-Fresh :
        (skip : Bool) (copy : Value) (h : ℕ) (key : Option Str) (next : ℕ) (f : Filled)
        → (skip ≡ false → Fresh lo hi copy)
        → (skip ≡ false → FreshKey lo hi key)
        → FreshBuckets lo hi f.buckets
        → FreshBuckets lo hi (hash_bucket skip copy h key next f).buckets
    unfolding Fresh hash_bucket
    hash_bucket-Fresh true copy h key next f c k r = r
    hash_bucket-Fresh false copy h key next f c k r = (refl, c refl, k refl, r)

    array_copied-Fresh :
        (unused imm packed : Bool) (h : Header) (bs : Buckets) (m : Memory) (p : Buckets × Memory)
        (f : Filled)
        → lo ≤ m.next
        → (array_copied unused imm packed h bs m p f).1.next ≤ hi
        → m.next + 2 ≤ p.1.next
        → m.next + 2 ≤ f.memory.next
        → (imm ≡ true → StaticBuckets bs)
        → (packed ≡ true → p.1.next ≤ hi → FreshBuckets lo hi p.0)
        → (f.memory.next ≤ hi → FreshBuckets lo hi f.buckets)
        → FreshArray lo hi (array_copied unused imm packed h bs m p f).0
    unfolding Fresh array_copied
    array_copied-Fresh true imm packed h bs m p f l u gp gf s x y = inr ((l, omega arith), tt, tt)
    array_copied-Fresh false true packed h bs m p f l u gp gf s x y =
        inr ((l, omega arith), (omega arith, omega arith), StaticBuckets-FreshBuckets bs (s refl))
    array_copied-Fresh false false true h bs m p f l u gp gf s x y =
        inr ((l, omega arith), (omega arith, omega arith), x refl u)
    array_copied-Fresh false false false h bs m p f l u gp gf s x y =
        inr ((l, omega arith), (omega arith, omega arith), y u)

    -- The memory that a choice of two leaves is between the two.
    chosen-low :
        (b : Bool) (m m1 : Memory)
        → m.next ≤ m1.next
        → lo ≤ m.next
        → lo ≤ (if b then m else m1).next
    chosen-low true m m1 g l = l
    chosen-low false m m1 g l = omega arith

  static_keys-step :
      (skip : Bool) (w : Walk) (h : ℕ)
      → (if skip then skip_element w else copy_element w h).static_keys ≡ w.static_keys
  static_keys-step true w h = refl
  static_keys-step false w h = refl

  -- The bound on the memory after one element, from that after the rest.
  within :
      (b : Bool) (m m1 : Memory) (n hi : ℕ)
      → b ≡ false
      → (if b then m else m1).next ≤ n
      → n ≤ hi
      → m1.next ≤ hi
  within true m m1 n hi e g u = absurd (cc e)
  within false m m1 n hi e g u = omega arith

  neither : (b c : Bool) → b ≡ false → c ≡ false → (b || c) ≡ false
  neither true c e o = absurd (cc e)
  neither false c e o = o

  rest-hash_bucket :
      (skip : Bool) (d : Value) (h : ℕ) (k : Option Str) (next : ℕ) (f : Filled) (hi : ℕ)
      → (hash_bucket skip d h k next f).memory.next ≤ hi
      → f.memory.next ≤ hi
  unfolding hash_bucket
  rest-hash_bucket true d h k next f hi u = u
  rest-hash_bucket false d h k next f hi u = u

  kept-under : (s t : Bool) (k : Option Str) → t ≡ s → KeyKept s k → KeyKept t k
  kept-under s t k e c = rw e c

  mutual
    unfolding pht_zval_dup Fresh Copyable

    new_zval :
        (v : Value) (m : Memory) (lo hi : ℕ)
        → Copyable v
        → lo ≤ m.next
        → (pht_zval_dup zend_string_dup v m).1.next ≤ hi
        → Fresh lo hi (pht_zval_dup zend_string_dup v m).0
    new_zval undef m lo hi c l u = tt
    new_zval null m lo hi c l u = tt
    new_zval false_value m lo hi c l u = tt
    new_zval true_value m lo hi c l u = tt
    new_zval (long k) m lo hi c l u = tt
    new_zval (double k) m lo hi c l u = tt
    new_zval (string s) m lo hi c l u = new_string lo hi s m l u
    new_zval (array a) m lo hi c l u = new_array a m lo hi c l u
    new_zval (object a) m lo hi c l u = c
    new_zval (resource a) m lo hi c l u = c
    new_zval (reference a v) m lo hi c l u = c
    new_zval (constant s) m lo hi c l u = new_string lo hi s m l u
    new_zval (constant_ast a t) m lo hi c l u =
        let g = pht_zend_ast_copy-grows zend_string_dup fresh t m in
        ((omega arith, omega arith), new_ast t m lo hi c l (omega arith))

    new_array :
        (a : Array) (m : Memory) (lo hi : ℕ)
        → CopyableArray a
        → lo ≤ m.next
        → (pht_zend_array_dup zend_string_dup a m).1.next ≤ hi
        → FreshArray lo hi (pht_zend_array_dup zend_string_dup a m).0
    new_array (table a h bs) m lo hi (s, c) l u =
        let m2 = emalloc (emalloc m) in
        let holes = not (num_used bs == h.elements) in
        array_copied-Fresh lo hi (nothing_used bs) h.immutable h.packed h bs m
          (pht_zend_array_dup_packed_elements zend_string_dup bs holes m2)
          (pht_zend_array_dup_elements zend_string_dup bs (first_walk h holes) m2) l u
          (omega (arith, packed_elements-grows zend_string_dup fresh bs holes m2))
          (omega (arith, elements-grows zend_string_dup fresh bs (first_walk h holes) m2)) s
          (λ e b. new_packed bs holes m2 lo hi h.static_keys h.packed e c (omega arith) b)
          (λ b.
            new_elements bs (first_walk h holes) m2 lo hi h.static_keys h.packed refl c
              (omega arith) b)

    new_packed :
        (bs : Buckets) (holes : Bool) (m : Memory) (lo hi : ℕ) (s p : Bool)
        → p ≡ true
        → CopyableBuckets s p bs
        → lo ≤ m.next
        → (pht_zend_array_dup_packed_elements zend_string_dup bs holes m).1.next ≤ hi
        → FreshBuckets lo hi (pht_zend_array_dup_packed_elements zend_string_dup bs holes m).0
    new_packed end holes m lo hi s p e c l u = tt
    new_packed (bucket i v h k n r) holes m lo hi s p e (ic, c, kc, rc) l u =
        let kept = skipped true holes i v || i in
        let m1 = (pht_zval_dup zend_string_dup v m).1 in
        let m2 = if kept then m else m1 in
        packed_bucket-Fresh lo hi (skipped true holes i v) i v _ h _ (ic e)
          (λ o. new_zval v m lo hi c l (
            within kept m m1 _ hi (neither _ i o (ic e))
              (packed_elements-grows zend_string_dup fresh r holes m2) u))
          (new_packed r holes m2 lo hi s p e rc
            (chosen-low lo hi kept m m1 (pht_zval_dup-grows zend_string_dup fresh v m) l) u)

    new_elements :
        (bs : Buckets) (w : Walk) (m : Memory) (lo hi : ℕ) (s p : Bool)
        → w.static_keys ≡ s
        → CopyableBuckets s p bs
        → lo ≤ m.next
        → (pht_zend_array_dup_elements zend_string_dup bs w m).memory.next ≤ hi
        → FreshBuckets lo hi (pht_zend_array_dup_elements zend_string_dup bs w m).buckets
    new_elements end w m lo hi s p e c l u = tt
    new_elements (bucket i v h k n r) w m lo hi s p e (ic, c, kc, rc) l u =
        let skip = skipped false w.with_holes i v in
        let m1 = (pht_zval_dup zend_string_dup v m).1 in
        let m2 = (dup_key zend_string_dup w.static_keys k m1).1 in
        let m3 = if skip then m else m2 in
        let w1 = if skip then skip_element w else copy_element w h in
        let gv = pht_zval_dup-grows zend_string_dup fresh v m in
        let gk = dup_key-grows zend_string_dup fresh w.static_keys k m1 in
        let end =
          rest-hash_bucket skip _ h _ _ (pht_zend_array_dup_elements zend_string_dup r w1 m3) hi
            u in
        let after = λ (o : skip ≡ false).
          within skip m m2 _ hi o (elements-grows zend_string_dup fresh r w1 m3) end in
        hash_bucket-Fresh lo hi skip _ h _ _ _
          (λ o. let b = after o in new_zval v m lo hi c l (omega arith))
          (λ o.
            new_key lo hi w.static_keys k m1 (kept-under s w.static_keys k e kc) (omega arith)
              (after o))
          (new_elements r w1 m3 lo hi s p (static_keys-step skip w h ∙ e) rc
            (chosen-low lo hi skip m m2 (omega arith) l) end)

    new_ast :
        (t : Ast) (m : Memory) (lo hi : ℕ)
        → CopyableAst t
        → lo ≤ m.next
        → (pht_zend_ast_copy zend_string_dup t m).1.next ≤ hi
        → FreshAst lo hi (pht_zend_ast_copy zend_string_dup t m).0
    new_ast null_ast m lo hi c l u = tt
    new_ast (zval_node a attr v) m lo hi c l u =
        let g = pht_zval_dup-grows zend_string_dup fresh v (emalloc m) in
        ((l, omega arith), new_zval v (emalloc m) lo hi c (omega arith) u)
    new_ast (list_node a kind attr ts) m lo hi c l u =
        let g = copy_children-grows zend_string_dup fresh ts (emalloc m) in
        ((l, omega arith), new_children ts (emalloc m) lo hi c (omega arith) u)
    new_ast (node a kind attr ts) m lo hi c l u =
        let g = copy_children-grows zend_string_dup fresh ts (emalloc m) in
        ((l, omega arith), new_children ts (emalloc m) lo hi c (omega arith) u)

    new_children :
        (ts : Asts) (m : Memory) (lo hi : ℕ)
        → CopyableAsts ts
        → lo ≤ m.next
        → (copy_children zend_string_dup ts m).1.next ≤ hi
        → FreshAsts lo hi (copy_children zend_string_dup ts m).0
    new_children no_more m lo hi c l u = tt
    new_children (child t ts) m lo hi (c, cs) l u =
        let m1 = (pht_zend_ast_copy zend_string_dup t m).1 in
        let g = pht_zend_ast_copy-grows zend_string_dup fresh t m in
        let gs = copy_children-grows zend_string_dup fresh ts m1 in
        (new_ast t m lo hi c l (omega arith), new_children ts m1 lo hi cs (omega arith) u)

  -- The copy of a zval without objects, resources and references, in which the engine's rules for
  -- arrays hold, shares no block with its source that is ever freed: at every depth a string is
  -- interned or has a new block, and so has each table, its data and each node of a constant
  -- expression. zend_string_dup is to return an interned string or a new block.
  pub Fresh-pht_zval_dup :
      (v : Value) (m : Memory)
      → Copyable v
      → Fresh m.next (pht_zval_dup zend_string_dup v m).1.next (pht_zval_dup zend_string_dup v m).0
  Fresh-pht_zval_dup v m c =
      new_zval v m m.next (pht_zval_dup zend_string_dup v m).1.next c (omega arith) (omega arith)
