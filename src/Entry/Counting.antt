-- ===== src/Entry/Counting.antt =====
-- pht_entry.c: what the deletion of a reference to a shared object does to the count and to the heap.
use pht.Common.{
  ℕ, ◌+◌, ◌^◌, ◌<◌, ◌≡◌, ◌≢◌, refl, ap, ◌∙◌, ==_refl, eq_false, List, [], ◌∷◌, Option, none, some,
  arith, ok, ◌>>=◌, Returns,
}
use pht.Mutex.{Mutex, lock_errorcheck, lock_recursive, unlock}
use pht.Entry.{
  Entry, Object, Heap, object_at, put_object, remove_object, mutex_of, refcount_of, set_count,
  lock_object, counted, decrement, contents, release, entry_delete_value, entry_delete,
}
use pht.Entry.Conversion.{object_at-put_object}
use pht.Entry.Deletion.{delete_each, entry_delete_recursion, contents-set_count}

decrement-pred : (n : ℕ) → n < 2 ^ 32 → decrement (n + 1) ≡ n
decrement-pred n lt = omega arith

module _ {F : Type 0} where
  -- The object that an entry refers to.
  abbrev pub reference : Entry F → Option ℕ
  reference (Entry.queue a) = some a
  reference (Entry.hash_table a) = some a
  reference (Entry.vector a) = some a
  reference (Entry.atomic_integer a) = some a
  reference e = none

  counted-free :
      (change : ℕ → ℕ) (self : ℕ) (o : Object F)
      → mutex_of o ≡ none
      → counted change self o ≡ ok (set_count none (change (refcount_of o)) o)
  unfolding counted mutex_of lock_object lock_errorcheck lock_recursive unlock
  counted-free change self (Object.queue s) f = rw (f, ==_refl self) refl
  counted-free change self (Object.hash_table s) f = rw (f, ==_refl self) refl
  counted-free change self (Object.vector s) f = rw (f, ==_refl self) refl
  counted-free change self (Object.atomic_integer s) f = rw (f, ==_refl self) refl

  refcount_of-set_count : (m : Mutex) (n : ℕ) (o : Object F) → refcount_of (set_count m n o) ≡ n
  unfolding refcount_of set_count
  refcount_of-set_count m n (Object.queue s) = refl
  refcount_of-set_count m n (Object.hash_table s) = refl
  refcount_of-set_count m n (Object.vector s) = refl
  refcount_of-set_count m n (Object.atomic_integer s) = refl

  object_at-unchanged :
      (a b : ℕ) (p : Object F) (h : Heap F) → b ≢ a → object_at b (put_object a p h) ≡ object_at b h
  unfolding object_at put_object
  object_at-unchanged a b p [] n = refl
  object_at-unchanged a b p ((c, q) ∷ h) n = ground (arith, object_at-unchanged a b p h, n)

  entry_delete_value-reference :
      (self a : ℕ) (e : Entry F) (h : Heap F)
      → reference e ≡ some a
      → entry_delete_value self e h ≡ release self a h
  unfolding entry_delete_value
  entry_delete_value-reference self a (Entry.queue b) h r = let s : b ≡ a = cc in rw s refl
  entry_delete_value-reference self a (Entry.hash_table b) h r = let s : b ≡ a = cc in rw s refl
  entry_delete_value-reference self a (Entry.vector b) h r = let s : b ≡ a = cc in rw s refl
  entry_delete_value-reference self a (Entry.atomic_integer b) h r = let s : b ≡ a = cc in rw s refl
  entry_delete_value-reference self a e h r = absurd (cc r)

  -- The deletion of an entry that refers to an object whose mutex is free, and to which n + 1
  -- references count: where n is not 0 it returns, the object counts n references and its mutex is
  -- free, and every other object is as before; where n is 0 it is the deletion, one after the
  -- other and each with all that it frees in turn, of the entries that the object holds, on the
  -- heap without the object.
  pub entry_delete-reference :
      (self a n : ℕ) (e : Entry F) (h : Heap F) (o : Object F)
      → reference e ≡ some a
      → object_at a h ≡ some o
      → mutex_of o ≡ none
      → refcount_of o ≡ n + 1
      → n < 2 ^ 32
      → (n ≢ 0
          → Returns (entry_delete self e h) λ h'.
            (object_at a h' ≡ some (set_count none n o))
            × ((b : ℕ) → b ≢ a → object_at b h' ≡ object_at b h))
        × (n ≡ 0
            → (es : List (Entry F)) → contents o ≡ ok es
            → entry_delete self e h ≡ delete_each self es (remove_object a h))
  unfolding release delete_each
  entry_delete-reference self a n e h o ref at free count small =
      let step =
        entry_delete_recursion self e h
        ∙ ap (λ x. x >>= λ r. delete_each self r.0 r.1)
            (entry_delete_value-reference self a e h ref) in
      let pred : decrement (refcount_of o) ≡ n = ap decrement count ∙ decrement-pred n small in
      let counts : counted decrement self o ≡ ok (set_count none n o) =
        counted-free decrement self o free ∙ ap (λ k. ok (set_count none k o)) pred in
      let same = refcount_of-set_count none n o in
      (
        (λ shared.
            let more = eq_false n 0 shared in
            (
              put_object a (set_count none n o) h,
              step ∙ rw (at, counts, same, more) refl,
              (
                object_at-put_object a o (set_count none n o) h at,
                λ b other. object_at-unchanged a b (set_count none n o) h other,
              ),
            )),
        (λ last es got.
            let held = contents-set_count none 0 o ∙ got in
            step ∙ rw (at, counts, same, last, held) refl),
      )
