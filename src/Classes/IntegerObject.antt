-- ===== src/Classes/IntegerObject.antt =====
-- src/classes/atomic_integer.c: the methods and object handlers of pht\AtomicInteger.
pub mod Counting
use pht.Common.{
  ℕ, zero, suc, ◌+◌, ◌-◌, ◌^◌, Bool, true, false, List, [], ◌∷◌, Option, none, some, ◌==◌,
  if◌then◌else◌, Run, ok, fault, ◌>>=◌,
}
use pht.Common.Int.{ℤ, pos, negsuc}
use pht.Mutex.{lock_recursive, unlock}
use pht.Entry.{Entry, SharedInteger, Object, Heap, put_object, entry_delete}
use pht.Classes.{Reply, returned, Method, aioi}

-- `++value` and `--value` on a zend_long, undefined at the ends of its range.
unfoldable pub increase : ℤ → Run ℤ
increase (pos n) = if n == 2 ^ 63 - 1 then fault else ok (pos (n + 1))
increase (negsuc zero) = ok (pos 0)
increase (negsuc (suc n)) = ok (negsuc n)

unfoldable pub decrease : ℤ → Run ℤ
decrease (pos zero) = ok (negsuc 0)
decrease (pos (suc n)) = ok (pos n)
decrease (negsuc n) = if n == 2 ^ 63 - 1 then fault else ok (negsuc (n + 1))

module _ {F : Type 0} where
  abbrev put_integer : ℕ → SharedInteger → Heap F → Heap F
  put_integer a s h = put_object a (Object.atomic_integer s) h

  -- atomic_integer_ctor
  unfoldable pub ctor : (skip_aioi_creation : Bool) → ℕ → Heap F → Heap F
  ctor skip a h =
      if skip
      then h
      else (a, Object.atomic_integer (record { value = pos 0; lock = none; refcount = 1 })) ∷ h

  unfoldable pub free_obj : (self a : ℕ) → Heap F → Run (Heap F)
  unfolding entry_delete
  free_obj self a h = entry_delete self (Entry.atomic_integer a) h

  -- `__construct` and `set`
  unfoldable pub set : (a : ℕ) → ℤ → Method F (Unit {0})
  unfolding aioi put_object
  set a value h = do s ← aioi a h; ok (returned tt, put_integer a (record s { value = value }) h)

  unfoldable pub get : (a : ℕ) → Method F ℤ
  unfolding aioi
  get a h = do s ← aioi a h; ok (returned s.value, h)

  -- `inc` and `dec` change the value between the two calls of the mutex.
  unfoldable pub locked_change : (ℤ → Run ℤ) → (self a : ℕ) → Method F (Unit {0})
  unfolding aioi put_object lock_recursive unlock
  locked_change change self a h = do
    s ← aioi a h
    (_, m) ← lock_recursive self s.lock
    value ← change s.value
    ok (returned tt, put_integer a (record s { value = value; lock = (unlock self m).1 }) h)

  unfoldable pub inc : (self a : ℕ) → Method F (Unit {0})
  unfolding locked_change increase
  inc self a h = locked_change increase self a h

  unfoldable pub dec : (self a : ℕ) → Method F (Unit {0})
  unfolding locked_change decrease
  dec self a h = locked_change decrease self a h

  -- The results of the two calls are not looked at.
  unfoldable pub lock : (self a : ℕ) → Method F (Unit {0})
  unfolding aioi put_object lock_recursive
  lock self a h = do
    s ← aioi a h
    (_, m) ← lock_recursive self s.lock
    ok (returned tt, put_integer a (record s { lock = m }) h)

  unfoldable pub unlock_integer : (self a : ℕ) → Method F (Unit {0})
  unfolding aioi put_object unlock
  unlock_integer self a h = do
    s ← aioi a h
    ok (returned tt, put_integer a (record s { lock = (unlock self s.lock).1 }) h)

  -- The property table has the value alone; it is read under the mutex.
  unfoldable pub get_properties : (self a : ℕ) → Heap F → Run (ℤ × Heap F)
  unfolding aioi put_object lock_recursive unlock
  get_properties self a h = do
    s ← aioi a h
    (_, m) ← lock_recursive self s.lock
    ok (s.value, put_integer a (record s { lock = (unlock self m).1 }) h)
