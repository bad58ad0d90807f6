-- ===== src/Mutex.antt =====
-- POSIX mutexes as src/classes uses them: PTHREAD_MUTEX_ERRORCHECK for Queue, HashTable and Vector,
-- PTHREAD_MUTEX_RECURSIVE for AtomicInteger. A call returns whether it succeeded.
use pht.Common.{
  ℕ, zero, suc, ◌+◌, Bool, true, false, Option, none, some, ◌==◌, if◌then◌else◌, Run, ok, blocked,
}

-- The thread that holds the mutex, with the number of its further locks.
abbrev pub Mutex : Type 0
Mutex = Option (ℕ × ℕ)

-- Locking a held mutex again is an error, another thread waits.
unfoldable pub lock_errorcheck : ℕ → Mutex → Run (Bool × Mutex)
lock_errorcheck self none = ok (true, some (self, 0))
lock_errorcheck self (some (holder, n)) =
    if holder == self then ok (false, some (holder, n)) else blocked

-- The holder may lock a recursive mutex again.
unfoldable pub lock_recursive : ℕ → Mutex → Run (Bool × Mutex)
lock_recursive self none = ok (true, some (self, 0))
lock_recursive self (some (holder, n)) =
    if holder == self then ok (true, some (holder, n + 1)) else blocked

-- Unlocking a mutex that the thread does not hold is an error.
unfoldable pub unlock : ℕ → Mutex → Bool × Mutex
unlock self none = (false, none)
unlock self (some (holder, zero)) =
    if holder == self then (true, none) else (false, some (holder, 0))
unlock self (some (holder, suc n)) =
    if holder == self then (true, some (holder, n)) else (false, some (holder, suc n))
