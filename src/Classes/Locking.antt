-- ===== src/Classes/Locking.antt =====
-- src/classes: the lock and unlock methods of Queue, HashTable and Vector, which report misuse.
use pht.Common.{ℕ, ◌≡◌, some}
use pht.Mutex.{Mutex}
use pht.Entry.{Object, Heap, object_at, mutex_of}

module _ {F : Type 0} where
  -- An object with an error-checked mutex.
  abbrev pub Checked : Object F → Type 0
  Checked (Object.atomic_integer s) = ⊥
  Checked o = Unit {0}

  -- The object at the address has such a mutex, in this state.
  abbrev pub Held : ℕ → Heap F → Mutex → Type 0
  Held a h m = (o : Object F) × (object_at a h ≡ some o) × Checked o × (mutex_of o ≡ m)
