-- ===== src/Classes/IntegerObject/Counting.antt =====
-- classes/atomic_integer.c: `inc` and `dec` as changes of the integer by one.
use pht.Common.{
  ℕ, zero, suc, ◌+◌, ◌-◌, ◌^◌, ◌≡◌, ◌≢◌, refl, ap, true, false, none, some, ◌==◌, ==_refl, eq_false,
  arith, Run, ok, Returns,
}
use pht.Common.Int.{ℤ, pos, negsuc, InRange}
use pht.Mutex.{Mutex, lock_recursive, unlock}
use pht.Entry.{SharedInteger, Object, Heap, object_at, put_object}
use pht.Entry.Conversion.{Mine, object_at-put_object}
use pht.Classes.{returned, aioi}
use pht.Classes.IntegerObject.{increase, decrease, locked_change, inc, dec}

-- The successor and predecessor of an integer, without a bound.
abbrev pub successor : ℤ → ℤ
successor (pos n) = pos (n + 1)
successor (negsuc zero) = pos 0
successor (negsuc (suc n)) = negsuc n

-- Below the largest zend_long, `++value` is the successor, fits, and is undone by `--value`.
pub increase_lem :
    (z : ℤ)
    → InRange (2 ^ 63) z
    → z ≢ pos (2 ^ 63 - 1)
    → (increase z ≡ ok (successor z))
      × InRange (2 ^ 63) (successor z)
      × (decrease (successor z) ≡ ok z)
unfolding increase decrease
increase_lem (pos n) fits below =
    let apart : (n == 2 ^ 63 - 1) ≡ false = eq_false n _ (λ e. below (ap pos e)) in
    let small : n ≢ 2 ^ 63 - 1 = λ e. below (ap pos e) in
    (rw apart, omega (arith, fits, small), predecessor n)
  where
    predecessor : (n : ℕ) → decrease (pos (n + 1)) ≡ ok (pos n)
    predecessor n = ground arith
increase_lem (negsuc zero) fits below = (refl, omega arith, refl)
increase_lem (negsuc (suc n)) fits below =
    let apart : (n == 2 ^ 63 - 1) ≡ false = eq_false n _ (omega (arith, fits)) in
    (refl, omega (arith, fits), rw apart (ground arith))

-- A thread that takes and gives back a recursive mutex that no other thread holds leaves it as it was.
lock_recursive-unlock :
    (self : ℕ) (m : Mutex)
    → Mine self m
    → Returns (lock_recursive self m) (λ r. (unlock self r.1).1 ≡ m)
unfolding lock_recursive unlock
lock_recursive-unlock self none mine = ((true, some (self, 0)), refl, rw (==_refl self))
lock_recursive-unlock self (some (holder, n)) mine =
    ((true, some (holder, n + 1)), rw (mine, ==_refl self), ground (arith, mine))

module _ {F : Type 0} where
  -- The object at the address is an AtomicInteger of this value, its mutex in this state.
  abbrev pub Counts : ℕ → Heap F → ℤ → Mutex → Type 0
  Counts a h z m =
      (s : SharedInteger) × (object_at a h ≡ some (Object.atomic_integer s))
      × (s.value ≡ z)
      × (s.lock ≡ m)

  locked_change-Counts :
      (change : ℤ → Run ℤ) (self a : ℕ) (h : Heap F) (z z' : ℤ) (m : Mutex)
      → Counts a h z m
      → Mine self m
      → change z ≡ ok z'
      → Returns (locked_change change self a h) (λ r. (r.0 ≡ returned tt) × Counts a r.1 z' m)
  unfolding locked_change aioi
  locked_change-Counts change self a h z z' m (s, at, is, state) mine changed =
      let (r, locking, restored) = lock_recursive-unlock self m mine in
      let s' : SharedInteger = record s { value = z'; lock = (unlock self r.1).1 } in
      (
        (returned tt, put_object a (Object.atomic_integer s') h),
        rw (at, state, locking, is, changed),
        (
          refl,
          (
            s',
            object_at-put_object a (Object.atomic_integer s) (Object.atomic_integer s') h at,
            refl,
            restored,
          ),
        ),
      )

  -- Where no other thread holds the mutex and the value is a zend_long below the largest, `inc`
  -- returns and adds one, and `dec` after it returns and restores the value; the mutex is after
  -- each as it was.
  pub inc-dec :
      (self a : ℕ) (h : Heap F) (z : ℤ) (m : Mutex)
      → Counts a h z m
      → Mine self m
      → InRange (2 ^ 63) z
      → z ≢ pos (2 ^ 63 - 1)
      → Returns (inc self a h) (λ r.
        (r.0 ≡ returned tt)
        × Counts a r.1 (successor z) m
        × Returns (dec self a r.1) (λ t. (t.0 ≡ returned tt) × Counts a t.1 z m))
  unfolding inc dec
  inc-dec self a h z m c mine fits below =
      let (up, _, down) = increase_lem z fits below in
      let (r, run, (replied, c')) =
        locked_change-Counts increase self a h z (successor z) m c mine up in
      (
        r,
        run,
        (replied, c', locked_change-Counts decrease self a r.1 (successor z) z m c' mine down),
      )
