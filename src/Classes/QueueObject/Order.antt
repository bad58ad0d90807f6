-- ===== src/Classes/QueueObject/Order.antt =====
-- classes/queue.c: what `push`, `pop` and `front` do to the sequence that a shared queue stands for.
use pht.Common.{ℕ, ◌≡◌, ◌≢◌, refl, List, [], ◌∷◌, ◌++◌, none, some, ok, Returns}
use pht.Queue.Laws
use pht.Queue.{Queue}
use pht.Entry.{
  Entry, Zval, Shared, Object, Heap, Zend, object_at, put_object, entry_delete,
  create_entry_from_zval, convert_entry_to_zval,
}
use pht.Entry.Conversion.{object_at-put_object}
use pht.Classes.{failed_to_serialise, pop_empty, front_empty, returned, thrown, next_version, qoi}
use pht.Classes.QueueObject.{push, pop, front}

module _ {F : Type 0} where
  -- The object at the address is a queue that stands for `xs`, at the version `vn`.
  abbrev pub Stores : ℕ → Heap F → List (Entry F) → ℕ → Type 0
  Stores a h xs vn =
      (s : Shared (Queue (Entry F))) × (object_at a h ≡ some (Object.queue s))
      × Laws.Lists s.content xs
      × (s.vn ≡ vn)

  qoi-at :
      (a : ℕ) (h : Heap F) (s : Shared (Queue (Entry F)))
      → object_at a h ≡ some (Object.queue s)
      → qoi a h ≡ ok s
  unfolding qoi
  qoi-at a h s at = rw at

  put_queue-at :
      (a : ℕ) (h : Heap F) (o : Object F) (s : Shared (Queue (Entry F)))
      → object_at a h ≡ some o
      → object_at a (put_object a (Object.queue s) h) ≡ some (Object.queue s)
  put_queue-at a h o s at = object_at-put_object a o (Object.queue s) h at

module _ {A F : Type 0} (zend : Zend A F) (self a : ℕ) where
  -- `push` of a value that no entry can be made of throws, and only the conversion touched the heap;
  -- else the entry comes last in the queue, and the version counts.
  pub push-refused :
      (address : ℕ) (value : Zval A F) (h h' : Heap F)
      → create_entry_from_zval zend self value h ≡ ok (none, h')
      → push zend self a address value h ≡ ok (thrown failed_to_serialise, h')
  unfolding push
  push-refused address value h h' refused = rw refused

  -- `push` of a value that an entry can be made of returns; the queue stands for its sequence with
  -- the entry at the end, and its version is the next. `malloc` is to return an address that no
  -- node has.
  pub push-Stores :
      (address : ℕ) (value : Zval A F) (e : Entry F) (h h' : Heap F) (s : Shared (Queue (Entry F)))
      (xs : List (Entry F))
      → create_entry_from_zval zend self value h ≡ ok (some e, h')
      → object_at a h' ≡ some (Object.queue s)
      → Laws.Lists s.content xs
      → address ≢ 0
      → s.content.cells address ≡ none
      → Returns
          (push zend self a address value h)
          (λ r. (r.0 ≡ returned tt) × Stores a r.1 (xs ++ (e ∷ [])) (next_version s.vn))
  unfolding push
  push-Stores address value e h h' s xs created at m nz free =
      let (q, run, m') = Laws.push-Lists address s.content xs e m nz free in
      let s' : Shared (Queue (Entry F)) = record s { content = q; vn = next_version s.vn } in
      (
        (returned tt, put_object a (Object.queue s') h'),
        rw (created, qoi-at a h' s at, run),
        (refl, (s', put_queue-at a h' (Object.queue s) s' at, m', refl)),
      )

  -- On an empty queue `pop` and `front` throw and change nothing.
  pub pop-front_empty :
      (h : Heap F) (s : Shared (Queue (Entry F)))
      → object_at a h ≡ some (Object.queue s)
      → Laws.Lists s.content []
      → (pop zend self a h ≡ ok (thrown pop_empty, h))
        × (front zend self a h ≡ ok (thrown front_empty, h))
  unfolding pop front
  pop-front_empty h s at m = (
    rw (qoi-at a h s at, Laws.pop-empty s.content m),
    rw (qoi-at a h s at, Laws.front-Lists s.content [] m),
  )

  -- On a queue with a first element that conversion and deletion leave the heap alone for, `front`
  -- returns its value and changes nothing, and `pop` returns the same value; the queue then stands
  -- for the rest, and its version is the next.
  pub pop-Stores :
      (e : Entry F) (z : Zval A F) (xs : List (Entry F)) (h : Heap F) (s : Shared (Queue (Entry F)))
      → ((k : Heap F) → convert_entry_to_zval zend self e k ≡ ok (z, k))
      → ((k : Heap F) → entry_delete self e k ≡ ok k)
      → object_at a h ≡ some (Object.queue s)
      → Laws.Lists s.content (e ∷ xs)
      → (front zend self a h ≡ ok (returned z, h))
        × Returns
            (pop zend self a h)
            (λ r. (r.0 ≡ returned z) × Stores a r.1 xs (next_version s.vn))
  unfolding pop front
  pop-Stores e z xs h s converts deletes at m =
      let (r, run, (top, m')) = Laws.pop-Lists s.content e xs m in
      let s1 : Shared (Queue (Entry F)) = record s { content = r.1 } in
      let h1 = put_object a (Object.queue s1) h in
      let at1 = put_queue-at a h (Object.queue s) s1 at in
      let s2 : Shared (Queue (Entry F)) = record s1 { vn = next_version s.vn } in
      (
        rw (qoi-at a h s at, Laws.front-Lists s.content (e ∷ xs) m, converts h),
        (
          (returned z, put_object a (Object.queue s2) h1),
          rw (qoi-at a h s at, run, top, converts h1, deletes h1, qoi-at a h1 s1 at1),
          (refl, (s2, put_queue-at a h1 (Object.queue s1) s2 at1, m', refl)),
        ),
      )
