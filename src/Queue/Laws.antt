-- ===== src/Queue/Laws.antt =====
-- pht_queue.c against the sequence of elements that a queue stands for.
use pht.Common.{
  ℕ, zero, suc, ◌+◌, ◌-◌, ◌<◌, ◌≡◌, ◌≢◌, refl, sym, ap, ◌∙◌, true, false, List, [], ◌∷◌, ◌++◌,
  Option, none, some, ◌==◌, ok, Returns, arith, length, length-append, if◌then◌else◌, eq_false,
}
use pht.Queue.{
  Cells, Queue, write, init, push, pop, front, destroy_loop, destroy, walk, to_zend_hashtable,
}
use pht.Queue.Chain.{
  Nodes, first, final, has, elements_of, Linked, Linked-write, Linked-append, final-cell,
  final_element, final-append, has_unused, first-ne-zero, link,
}
use pht.Vector.{numbered}

module _ {A : Type 0} where
  -- The nodes of a queue are `r`: they are linked in this order, and the struct describes them.
  pub record Holds (q : Queue A) (r : Nodes A) : Type 0 where
    pub linked : Linked q.cells r
    pub elements : q.elements ≡ first r
    pub last : q.last ≡ final r
    pub size : q.size ≡ length r

  abbrev pub Lists : Queue A → List A → Type 0
  Lists q xs = (r : Nodes A) × Holds q r × (elements_of r ≡ xs)

  pub init-Lists : (cells : Cells A) → Lists (init cells) []
  unfolding init
  init-Lists cells = ([], record { linked = tt; elements = refl; last = refl; size = refl }, refl)

  length-elements_of : (r : Nodes A) → length (elements_of r) ≡ length r
  length-elements_of [] = refl
  length-elements_of ((a, x) ∷ r) = omega (arith, length-elements_of r)

  pub Lists-size : (q : Queue A) (xs : List A) → Lists q xs → q.size ≡ length xs
  Lists-size q xs (r, h, is) = omega (arith, h.size, length-elements_of r, ap length is)

  elements_of-append :
      (r : Nodes A) (a : ℕ) (x : A) → elements_of (r ++ ((a, x) ∷ [])) ≡ elements_of r ++ (x ∷ [])
  elements_of-append [] a x = refl
  elements_of-append ((b, y) ∷ r) a x = ap (λ t. y ∷ t) (elements_of-append r a x)

  -- `push` on a queue that stands for a sequence, with an address that is not NULL and that no
  -- node has, ends in a queue that stands for the sequence with the element at the end.
  pub push-Lists :
      (address : ℕ) (q : Queue A) (xs : List A) (x : A)
      → Lists q xs
      → address ≢ 0
      → q.cells address ≡ none
      → Returns (push address q x) (λ q'. Lists q' (xs ++ (x ∷ [])))
  unfolding push
  push-Lists address q xs x ([], h, is) nz free =
      let e : (q.elements == 0) ≡ true = ground (arith, h.elements) in
      (
        record {
          cells = write q.cells address (some (record { element = x; next = 0 }));
          elements = address;
          last = address;
          size = q.size + 1;
        },
        rw e,
        (
          (address, x) ∷ [],
          record {
            linked = (nz, refl, ground arith, tt);
            elements = refl;
            last = refl;
            size = omega (arith, h.size);
          },
          ap (λ t. t ++ (x ∷ [])) is,
        ),
      )
  push-Lists address q xs x ((a, y) ∷ r, h, is) nz free =
      let e : (q.elements == 0) ≡ false = rw h.elements (first-ne-zero q.cells a y r h.linked) in
      let nodes : Nodes A = (a, y) ∷ r in
      let out : has address nodes ≡ false = has_unused q.cells address nodes free h.linked in
      let last = final-cell q.cells a y r h.linked in
      let apart : (final nodes == address) ≡ false =
        eq_false (final nodes) address (λ same. cc (last, free, ap q.cells same)) in
      (
        record {
          cells = link q.cells (final nodes) address (final_element y r) x;
          elements = q.elements;
          last = address;
          size = q.size + 1;
        },
        rw (e, h.last, apart, last),
        (
          nodes ++ ((address, x) ∷ []),
          record {
            linked = Linked-append q.cells address x a y r h.linked nz out;
            elements = h.elements;
            last = sym (final-append nodes address x);
            size = omega (arith, h.size, length-append nodes ((address, x) ∷ []));
          },
          elements_of-append nodes address x ∙ ap (λ t. t ++ (x ∷ [])) is,
        ),
      )

  pub pop-empty : (q : Queue A) → Lists q [] → pop q ≡ ok (none, q)
  unfolding pop
  pop-empty q ([], h, is) = let e : (q.elements == 0) ≡ true = ground (arith, h.elements) in rw e
  pop-empty q ((a, y) ∷ r, h, is) = cc

  -- `pop` takes the first node: what is left holds the others, and the node is given back.
  pub pop-Holds :
      (q : Queue A) (a : ℕ) (x : A) (r : Nodes A)
      → Holds q ((a, x) ∷ r)
      → Returns (pop q) (λ s. (s.0 ≡ some x) × Holds s.1 r × (s.1.cells ≡ write q.cells a none))
  unfolding pop
  pop-Holds q a x r h =
      let e : (q.elements == 0) ≡ false = rw h.elements (first-ne-zero q.cells a x r h.linked) in
      let at = h.linked.2 in
      (
        (
          some x,
          record {
            cells = write q.cells a none;
            elements = first r;
            last = if first r == 0 then 0 else q.last;
            size = q.size - 1;
          },
        ),
        rw (e, h.elements, at),
        (
          refl,
          record {
            linked = Linked-write q.cells a none r h.linked.1 h.linked.3;
            elements = refl;
            last = last_lem r h;
            size = omega (arith, h.size);
          },
          refl,
        ),
      )
    where
      last_lem :
          (r : Nodes A) → Holds q ((a, x) ∷ r) → (if first r == 0 then 0 else q.last) ≡ final r
      last_lem [] h = refl
      last_lem ((b, y) ∷ r) h =
          let e : (b == 0) ≡ false = first-ne-zero q.cells b y r h.linked.3 in rw e h.last

  -- `pop` on a queue that stands for a sequence with a first element returns this element, and the
  -- queue stands for the rest.
  pub pop-Lists :
      (q : Queue A) (x : A) (xs : List A)
      → Lists q (x ∷ xs)
      → Returns (pop q) (λ s. (s.0 ≡ some x) × Lists s.1 xs)
  pop-Lists q x xs ([], h, is) = cc
  pop-Lists q x xs ((a, y) ∷ r, h, is) =
      let (s, run, (top, k, _)) = pop-Holds q a y r h in (s, run, (cc, (r, k, cc)))

  abbrev pub head? : List A → Option A
  head? [] = none
  head? (x ∷ xs) = some x

  -- `front` returns the first element of the sequence that a queue stands for, or NULL where it is
  -- empty.
  pub front-Lists : (q : Queue A) (xs : List A) → Lists q xs → front q ≡ ok (head? xs)
  unfolding front
  front-Lists q xs ([], h, is) =
      let e : (q.elements == 0) ≡ true = ground (arith, h.elements) in rw (e, ← is)
  front-Lists q xs ((a, y) ∷ r, h, is) =
      let e : (q.elements == 0) ≡ false = rw h.elements (first-ne-zero q.cells a y r h.linked) in
      rw (e, h.elements, h.linked.2, ← is)

  -- `destroy` calls the destructor on every element, first to last, and frees exactly the nodes.
  destroy_loop-Holds :
      (fuel : ℕ) (q : Queue A) (r : Nodes A)
      → Holds q r
      → length r < fuel
      → Returns (destroy_loop fuel q) (λ s.
        (s.0 ≡ elements_of r) × ((p : ℕ) → s.1.cells p ≡ (if has p r then none else q.cells p)))
  unfolding destroy_loop
  destroy_loop-Holds zero q r h enough = absurd (omega arith)
  destroy_loop-Holds (suc fuel) q [] h enough =
      let e : (q.size == 0) ≡ true = ground (arith, h.size) in (([], q), rw e, (refl, λ p. refl))
  destroy_loop-Holds (suc fuel) q ((a, x) ∷ r) h enough =
      let e : (q.size == 0) ≡ false = ground (arith, h.size) in
      let (s, run, (top, k, cells)) = pop-Holds q a x r h in
      let (t, rest, (all, freed)) = destroy_loop-Holds fuel s.1 r k (omega arith) in
      (
        (x ∷ t.0, t.1),
        rw (e, run, top, rest),
        (ap (λ l. x ∷ l) all, λ p. freed p ∙ rw cells (ground arith)),
      )

  -- `destroy` calls the destructor on the elements of a queue in their order, frees the nodes of
  -- the queue, and leaves every other address alone.
  pub destroy-Holds :
      (q : Queue A) (r : Nodes A)
      → Holds q r
      → Returns (destroy q) (λ s.
        (s.0 ≡ elements_of r) × ((p : ℕ) → s.1.cells p ≡ (if has p r then none else q.cells p)))
  unfolding destroy
  destroy-Holds q r h = destroy_loop-Holds (q.size + 1) q r h (omega (arith, h.size))

  module _ {Z : Type 0} (convert : A → Z) where
    walk-numbered :
        (cells : Cells A) (fuel i : ℕ) (r : Nodes A)
        → Linked cells r
        → length r < fuel
        → walk convert cells fuel i (first r) ≡ ok (numbered convert i (elements_of r))
    unfolding walk numbered
    walk-numbered cells zero i r l enough = absurd (omega arith)
    walk-numbered cells (suc fuel) i [] l enough = refl
    walk-numbered cells (suc fuel) i ((a, x) ∷ r) l enough =
        rw (first-ne-zero cells a x r l, l.2, walk-numbered cells fuel (i + 1) r l.3 (omega arith))

    -- The property table of a queue that stands for a sequence lists the elements, converted,
    -- under 0, 1 and so on, in the order of the sequence.
    pub to_zend_hashtable-Lists :
        (q : Queue A) (xs : List A)
        → Lists q xs
        → to_zend_hashtable convert q ≡ ok (numbered convert 0 xs)
    unfolding to_zend_hashtable
    to_zend_hashtable-Lists q xs (r, h, is) =
        rw (h.elements, ← is)
          (walk-numbered q.cells (q.size + 1) 0 r h.linked (omega (arith, h.size)))
