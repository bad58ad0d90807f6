-- ===== src/Queue.antt =====
-- src/ds/pht_queue.c: the linked list behind pht\Queue and behind the task list of a thread.
-- A queue owns its nodes: `cells` is the part of the heap that holds them, by address, and an
-- address is a number with 0 for NULL. `malloc` is not under the repository: `push` takes the
-- address that it returned. The destructor of the struct is the caller's: `destroy` gives the
-- elements that it is called on, in the order of the calls.
pub mod Chain
pub mod Laws
use pht.Common.{
  ℕ, zero, suc, ◌+◌, ◌-◌, true, false, List, [], ◌∷◌, Option, none, some, if◌then◌else◌, ◌==◌, Run,
  ok, fault, ◌>>=◌, deref,
}

-- linked_list_t
pub record Cell (A : Type 0) : Type 0 where
  pub element : A
  pub next : ℕ

abbrev pub Cells : Type 0 → Type 0
Cells A = ℕ → Option (Cell A)

-- pht_queue_t
pub record Queue (A : Type 0) : Type 0 where
  pub cells : Cells A
  pub elements : ℕ
  pub last : ℕ
  pub size : ℕ

module _ {A : Type 0} where
  -- The cell at an address is given a new content, or is given back to the heap.
  abbrev pub write : Cells A → ℕ → Option (Cell A) → Cells A
  write cells p c a = if a == p then c else cells a

  unfoldable pub init : Cells A → Queue A
  init cells = record { cells = cells; elements = 0; last = 0; size = 0 }

  -- `address` is the one that `malloc` returned.
  unfoldable pub push : (address : ℕ) → Queue A → A → Run (Queue A)
  push address q element =
      let cells = write q.cells address (some (record { element = element; next = 0 })) in
      if q.elements == 0
      then ok (record { cells = cells; elements = address; last = address; size = q.size + 1 })
      else (do
        c ← deref (cells q.last)
        ok (record {
          cells = write cells q.last (some (record c { next = address }));
          elements = q.elements;
          last = address;
          size = q.size + 1;
        }))

  unfoldable pub pop : Queue A → Run (Option A × Queue A)
  pop q = if q.elements == 0 then ok (none, q) else (do
    c ← deref (q.cells q.elements)
    ok (
      some c.element,
      record {
        cells = write q.cells q.elements none;
        elements = c.next;
        last = if c.next == 0 then 0 else q.last;
        size = q.size - 1;
      },
    ))

  unfoldable pub front : Queue A → Run (Option A)
  front q =
      if q.elements == 0 then ok none else (do c ← deref (q.cells q.elements); ok (some c.element))

  unfoldable pub size : Queue A → ℕ
  size q = q.size

  -- The loop is entered while elements are counted. The destructor dereferences its argument.
  pub destroy_loop : ℕ → Queue A → Run (List A × Queue A)
  destroy_loop zero q = fault
  destroy_loop (suc fuel) q =
      let more = do
        (popped, q') ← pop q
        element ← deref popped
        (rest, q'') ← destroy_loop fuel q'
        ok (element ∷ rest, q'')
      in if q.size == 0 then ok ([], q) else more

  unfoldable pub destroy : Queue A → Run (List A × Queue A)
  unfolding destroy_loop
  destroy q = destroy_loop (q.size + 1) q

-- The pairs that `_zend_hash_index_add` is called with on the way along the nodes: the index and
-- the converted element.
module _ {A Z : Type 0} (convert : A → Z) (cells : Cells A) where
  pub walk : (fuel i ll : ℕ) → Run (List (ℕ × Z))
  walk zero i ll = fault
  walk (suc fuel) i ll =
      let more = do
        c ← deref (cells ll)
        rest ← walk fuel (i + 1) c.next
        ok ((i, convert c.element) ∷ rest)
      in if ll == 0 then ok [] else more

unfoldable pub to_zend_hashtable : {A Z : Type 0} → (A → Z) → Queue A → Run (List (ℕ × Z))
unfolding walk
to_zend_hashtable convert q = walk convert q.cells (q.size + 1) 0 q.elements
