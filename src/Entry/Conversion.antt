-- ===== src/Entry/Conversion.antt =====
-- pht_entry.c: a value that goes into a shared structure and comes out again, and what the count of
-- references does to a mutex that the calling thread holds.
use pht.Common.{
  ℕ, zero, suc, ◌+◌, ◌≡◌, refl, Bool, true, false, ==_refl, [], ◌∷◌, Option, none, some, on_value,
  arith, Option-cases, inl, inr, Run, ok, ◌>>=◌, Returns, deref, bind-ok, deref-ok,
}
use pht.Common.Int.{pos, negsuc, to_int32}
use pht.PhtString.{Bytes}
use pht.Mutex.{Mutex, lock_errorcheck, lock_recursive, unlock}
use pht.Entry.{
  Entry, Zval, Object, Heap, Zend, object_at, put_object, mutex_of, refcount_of, set_count,
  lock_object, counted, increment, retain, convert_zval_to_entry, convert_entry_to_zval,
}

-- The thread may take the mutex at once: nobody else holds it.
abbrev pub Mine : ℕ → Mutex → Type 0
Mine self none = Unit {0}
Mine self (some (holder, n)) = holder ≡ self

lock_errorcheck-Mine :
    (self : ℕ) (m m' : Mutex) (done : Bool) → lock_errorcheck self m ≡ ok (done, m') → Mine self m'
unfolding lock_errorcheck
lock_errorcheck-Mine self none m' done run = ground (arith, run)
lock_errorcheck-Mine self (some (holder, n)) m' done run = ground (arith, run)

lock_recursive-Mine :
    (self : ℕ) (m m' : Mutex) (done : Bool) → lock_recursive self m ≡ ok (done, m') → Mine self m'
unfolding lock_recursive
lock_recursive-Mine self none m' done run = ground (arith, run)
lock_recursive-Mine self (some (holder, n)) m' done run = ground (arith, run)

unlock-Mine : (self : ℕ) (m : Mutex) → Mine self m → Mine self (unlock self m).1
unfolding unlock
unlock-Mine self none mine = tt
unlock-Mine self (some (holder, zero)) mine = ground (arith, mine)
unlock-Mine self (some (holder, suc n)) mine = ground (arith, mine)

Mine-lock_errorcheck :
    (self : ℕ) (m : Mutex) → Mine self m → Returns (lock_errorcheck self m) (λ _. Unit {0})
unfolding lock_errorcheck
Mine-lock_errorcheck self none mine = (_, refl, tt)
Mine-lock_errorcheck self (some (holder, n)) mine =
    ((false, some (holder, n)), rw (mine, ==_refl self), tt)

Mine-lock_recursive :
    (self : ℕ) (m : Mutex) → Mine self m → Returns (lock_recursive self m) (λ _. Unit {0})
unfolding lock_recursive
Mine-lock_recursive self none mine = (_, refl, tt)
Mine-lock_recursive self (some (holder, n)) mine =
    ((true, some (holder, n + 1)), rw (mine, ==_refl self), tt)

module _ {F : Type 0} where
  lock_object-Mine :
      (self : ℕ) (o : Object F) (m : Mutex) (done : Bool)
      → lock_object self o ≡ ok (done, m)
      → Mine self m
  unfolding lock_object mutex_of
  lock_object-Mine self (Object.queue s) m done run = lock_errorcheck-Mine self s.lock m done run
  lock_object-Mine self (Object.hash_table s) m done run =
      lock_errorcheck-Mine self s.lock m done run
  lock_object-Mine self (Object.vector s) m done run = lock_errorcheck-Mine self s.lock m done run
  lock_object-Mine self (Object.atomic_integer s) m done run =
      lock_recursive-Mine self s.lock m done run

  Mine-lock_object :
      (self : ℕ) (o : Object F)
      → Mine self (mutex_of o)
      → Returns (lock_object self o) (λ _. Unit {0})
  unfolding lock_object mutex_of
  Mine-lock_object self (Object.queue s) mine = Mine-lock_errorcheck self s.lock mine
  Mine-lock_object self (Object.hash_table s) mine = Mine-lock_errorcheck self s.lock mine
  Mine-lock_object self (Object.vector s) mine = Mine-lock_errorcheck self s.lock mine
  Mine-lock_object self (Object.atomic_integer s) mine = Mine-lock_recursive self s.lock mine

  pub mutex_of-set_count : (m : Mutex) (n : ℕ) (o : Object F) → mutex_of (set_count m n o) ≡ m
  unfolding mutex_of set_count
  mutex_of-set_count m n (Object.queue s) = refl
  mutex_of-set_count m n (Object.hash_table s) = refl
  mutex_of-set_count m n (Object.vector s) = refl
  mutex_of-set_count m n (Object.atomic_integer s) = refl

  pub object_at-put_object :
      (a : ℕ) (o p : Object F) (h : Heap F)
      → object_at a h ≡ some o
      → object_at a (put_object a p h) ≡ some p
  unfolding object_at put_object
  object_at-put_object a o p [] at = cc
  object_at-put_object a o p ((b, q) ∷ h) at = ground (arith, object_at-put_object a o p h, at)

  -- The object at the address may be taken by the thread.
  abbrev pub Reachable : (self a : ℕ) → Heap F → Type 0
  Reachable self a h = (o : Object F) × (object_at a h ≡ some o) × Mine self (mutex_of o)

  counted-Mine :
      (change : ℕ → ℕ) (self : ℕ) (o o' : Object F)
      → counted change self o ≡ ok o'
      → Mine self (mutex_of o')
  unfolding counted
  counted-Mine change self o o' run =
      let (b, locking, e) = bind-ok (lock_object self o) _ run in
      let same : set_count (unlock self b.1).1 (change (refcount_of o)) o ≡ o' = cc in
      let mine = unlock-Mine self b.1 (lock_object-Mine self o b.1 b.0 locking) in
      rw (← same, mutex_of-set_count (unlock self b.1).1 (change (refcount_of o)) o) mine

  Mine-counted :
      (change : ℕ → ℕ) (self : ℕ) (o : Object F)
      → Mine self (mutex_of o)
      → Returns (counted change self o) (λ _. Unit {0})
  unfolding counted
  Mine-counted change self o mine =
      let (b, locking, _) = Mine-lock_object self o mine in
      (set_count (unlock self b.1).1 (change (refcount_of o)) o, rw locking refl, tt)

  retain-Reachable : (self a : ℕ) (h h' : Heap F) → retain self a h ≡ ok h' → Reachable self a h'
  unfolding retain
  retain-Reachable self a h h' run =
      let (o, e, run_1) = bind-ok (deref (object_at a h)) _ run in
      let at : object_at a h ≡ some o = deref-ok (object_at a h) e in
      let (o', counting, e') = bind-ok (counted increment self o) _ run_1 in
      let same : put_object a o' h ≡ h' = cc in
      (
        o',
        rw (← same) (object_at-put_object a o o' h at),
        counted-Mine increment self o o' counting,
      )

  Reachable-retain :
      (self a : ℕ) (h : Heap F) → Reachable self a h → Returns (retain self a h) (λ _. Unit {0})
  unfolding retain
  Reachable-retain self a h (o, at, mine) =
      let (o', counting, _) = Mine-counted increment self o mine in
      (put_object a o' h, rw (at, counting), tt)

  -- The two classes of mutexes: only the locks of an AtomicInteger count.
  unfoldable pub retained : (self : ℕ) → Object F → Mutex
  retained self (Object.atomic_integer s) = s.lock
  retained self o = none

  -- A thread that holds the mutex of an object, locked once, and stores the object counts one more
  -- reference; after it the mutex of an AtomicInteger is still held, and the mutex of a queue, a
  -- hash table or a vector is free.
  pub retain-held :
      (self a : ℕ) (o : Object F) (h : Heap F)
      → object_at a h ≡ some o
      → mutex_of o ≡ some (self, 0)
      → retain self a h
        ≡ ok (put_object a (set_count (retained self o) (increment (refcount_of o)) o) h)
  unfolding retain counted lock_object mutex_of lock_errorcheck lock_recursive unlock retained
      set_count refcount_of
  retain-held self a (Object.queue s) h at own = rw (at, own, ==_refl self, ==_refl self)
  retain-held self a (Object.hash_table s) h at own = rw (at, own, ==_refl self, ==_refl self)
  retain-held self a (Object.vector s) h at own = rw (at, own, ==_refl self, ==_refl self)
  retain-held self a (Object.atomic_integer s) h at own = rw (at, own, ==_refl self, ==_refl self)

module _ {A F : Type 0} (zend : Zend A F) (self : ℕ) where
  -- What comes back for a value: the casts and copies that the two conversions make.
  abbrev pub delivered : Zval A F → Zval A F
  delivered (Zval.boolean (pos zero)) = Zval.false_value
  delivered (Zval.boolean z) = Zval.true_value
  delivered (Zval.long z) = Zval.long (to_int32 z)
  delivered (Zval.closure f) = Zval.closure (zend.copy_user_function f)
  delivered z = z

  retained_twice :
      (a : ℕ) (h h' : Heap F) (z : Zval A F) (e e' : Entry F)
      → (◌>>=◌ {B = Option (Entry F) × Heap F} (retain self a h) λ h1. ok (some e', h1))
        ≡ ok (some e, h')
      → (e' ≡ e)
        × Returns (◌>>=◌ {B = Zval A F × Heap F} (retain self a h') λ h1. ok (z, h1)) (λ p. p.0 ≡ z)
  retained_twice a h h' z e e' run =
      let (h1, once, e2) = bind-ok (retain self a h) _ run in
      let same : h1 ≡ h' = cc in
      let (h2, twice, _) =
        Reachable-retain self a h' (rw same at (retain-Reachable self a h h1 once)) in
      (cc, ((z, h2), rw twice, refl))

  serialised :
      (a : A) (h h' : Heap F) (wrap : Bytes → Entry F) (e : Entry F)
      → ◌≡◌ {A = Run (Option (Entry F) × Heap F)}
          (ok (on_value (zend.serialize a) none (λ bytes. some (wrap bytes)), h))
          (ok (some e, h'))
      → (bytes : Bytes) × (zend.serialize a ≡ some bytes) × (wrap bytes ≡ e)
  serialised a h h' wrap e run = elim (Option-cases (zend.serialize a)) [
    | inl nothing ↦ let run' = rw nothing at run in absurd cc
    | inr (bytes, done) ↦ let run' = rw done at run in (bytes, done, cc)
  ]

  -- A value that becomes an entry comes out again, without a fault or a wait, as `delivered` says:
  -- itself, but for an integer cast to 32 bits, a Boolean and a closure that is copied.
  -- Deserialising is to undo serialising.
  pub convert-convert :
      ((a : A) (bytes : Bytes) → zend.serialize a ≡ some bytes → zend.unserialize bytes ≡ some a)
      → (z : Zval A F) (h h' : Heap F) (e : Entry F)
      → convert_zval_to_entry zend self z h ≡ ok (some e, h')
      → Returns (convert_entry_to_zval zend self e h') (λ p. p.0 ≡ delivered z)
  unfolding convert_zval_to_entry convert_entry_to_zval
  convert-convert restores (Zval.queue_object a) h h' e run =
      let (same, r) = retained_twice a h h' (Zval.queue_object a) e (Entry.queue a) run in
      rw (← same) r
  convert-convert restores (Zval.hash_table_object a) h h' e run =
      let (same, r) = retained_twice a h h' (Zval.hash_table_object a) e (Entry.hash_table a) run in
      rw (← same) r
  convert-convert restores (Zval.vector_object a) h h' e run =
      let (same, r) = retained_twice a h h' (Zval.vector_object a) e (Entry.vector a) run in
      rw (← same) r
  convert-convert restores (Zval.atomic_integer_object a) h h' e run =
      let (same, r) =
        retained_twice a h h' (Zval.atomic_integer_object a) e (Entry.atomic_integer a) run in
      rw (← same) r
  convert-convert restores (Zval.array a) h h' e run =
      let (bytes, done, same) = serialised a h h' Entry.array e run in
      rw (← same) ((Zval.array a, h'), rw (restores a bytes done), refl)
  convert-convert restores (Zval.object a) h h' e run =
      let (bytes, done, same) = serialised a h h' Entry.object e run in
      rw (← same) ((Zval.object a, h'), rw (restores a bytes done), refl)
  convert-convert restores (Zval.string s) h h' e run =
      let same : Entry.string s ≡ e = cc in rw (← same) (_, refl, refl)
  convert-convert restores (Zval.long z) h h' e run =
      let same : Entry.long (to_int32 z) ≡ e = cc in rw (← same) (_, refl, refl)
  convert-convert restores (Zval.double d) h h' e run =
      let same : Entry.double d ≡ e = cc in rw (← same) (_, refl, refl)
  convert-convert restores (Zval.boolean (pos zero)) h h' e run =
      let same : Entry.boolean false ≡ e = cc in rw (← same) (_, refl, refl)
  convert-convert restores (Zval.boolean (pos (suc n))) h h' e run =
      let same : Entry.boolean true ≡ e = cc in rw (← same) (_, refl, refl)
  convert-convert restores (Zval.boolean (negsuc n)) h h' e run =
      let same : Entry.boolean true ≡ e = cc in rw (← same) (_, refl, refl)
  convert-convert restores Zval.true_value h h' e run =
      let same : Entry.true_entry ≡ e = cc in rw (← same) (_, refl, refl)
  convert-convert restores Zval.false_value h h' e run =
      let same : Entry.false_entry ≡ e = cc in rw (← same) (_, refl, refl)
  convert-convert restores Zval.null h h' e run =
      let same : Entry.null ≡ e = cc in rw (← same) (_, refl, refl)
  convert-convert restores (Zval.closure f) h h' e run =
      let same : Entry.store_func f ≡ e = cc in rw (← same) (_, refl, refl)
  convert-convert restores Zval.undef h h' e run = absurd cc
  convert-convert restores Zval.other h h' e run = absurd cc
