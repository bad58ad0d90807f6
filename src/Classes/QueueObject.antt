-- ===== src/Classes/QueueObject.antt =====
-- src/classes/queue.c: the methods and object handlers of pht\Queue. `a` is the address of the
-- internal object, `self` the calling thread, and `address` what `malloc` returns for a new node.
pub mod Order
use pht.Common.{
  ℕ, zero, suc, Bool, true, false, List, [], ◌∷◌, Option, none, some, ◌==◌, if◌then◌else◌, on_value,
  Run, ok, ◌>>=◌,
}
use pht.Queue
use pht.Queue.{Queue, Cells}
use pht.Entry.{
  Entry, Zval, Shared, Object, Heap, Zend, put_object, entry_delete, create_entry_from_zval,
  convert_entry_to_zval, convert_all,
}
use pht.Classes.{
  Message, failed_to_serialise, pop_empty, front_empty, properties_disabled, Reply, returned,
  thrown, next_version, Handle, Method, qoi, lock_method, unlock_method,
}

module _ {F : Type 0} where
  abbrev put_queue : ℕ → Shared (Queue (Entry F)) → Heap F → Heap F
  put_queue a s h = put_object a (Object.queue s) h

  -- queue_ctor; the internal object is left out where an entry brings its own.
  unfoldable pub ctor : (skip_qoi_creation : Bool) → ℕ → Cells (Entry F) → Heap F → Heap F
  ctor skip a cells h =
      if skip
      then h
      else (
        a,
        Object.queue (record { content = Queue.init cells; lock = none; refcount = 1; vn = 0 }),
      )
        ∷ h

  -- qo_free_obj with qoi_free: the object gives up its reference as an entry does.
  unfoldable pub free_obj : (self a : ℕ) → Heap F → Run (Heap F)
  unfolding entry_delete
  free_obj self a h = entry_delete self (Entry.queue a) h

  unfoldable pub size : ℕ → Method F ℕ
  unfolding qoi
  size a h = do s ← qoi a h; ok (returned (Queue.size s.content), h)

  unfoldable pub lock : (self a : ℕ) → Method F (Unit {0})
  unfolding lock_method
  lock self a h = lock_method self a h

  unfoldable pub unlock : (self a : ℕ) → Method F (Unit {0})
  unfolding unlock_method
  unlock self a h = unlock_method self a h

  unfoldable pub read_property : Method F (Unit {0})
  read_property h = ok (thrown properties_disabled, h)

  unfoldable pub write_property : Method F (Unit {0})
  write_property h = ok (thrown properties_disabled, h)

module _ {A F : Type 0} (zend : Zend A F) (self a : ℕ) where
  unfoldable pub push : (address : ℕ) → Zval A F → Method F (Unit {0})
  unfolding create_entry_from_zval qoi put_object
  push address value h = do
    (created, h') ← create_entry_from_zval zend self value h
    on_value created (ok (thrown failed_to_serialise, h')) λ entry. do
      s ← qoi a h'
      q ← Queue.push address s.content entry
      ok (returned tt, put_queue a (record s { content = q; vn = next_version s.vn }) h')

  -- The entry is converted, then deleted; the version counts afterwards.
  unfoldable pub pop : Method F (Zval A F)
  unfolding convert_entry_to_zval entry_delete qoi put_object
  pop h = do
    s ← qoi a h
    (popped, q) ← Queue.pop s.content
    on_value popped (ok (thrown pop_empty, h)) λ entry. do
      (value, h1) ← convert_entry_to_zval zend self entry (put_queue a (record s { content = q }) h)
      h2 ← entry_delete self entry h1
      s2 ← qoi a h2
      ok (returned value, put_queue a (record s2 { vn = next_version s2.vn }) h2)

  unfoldable pub front : Method F (Zval A F)
  unfolding convert_entry_to_zval qoi
  front h = do
    s ← qoi a h
    first ← Queue.front s.content
    on_value first (ok (thrown front_empty, h))
        λ entry. do (value, h1) ← convert_entry_to_zval zend self entry h; ok (returned value, h1)

  -- The cached table is given as long as its version is the queue's.
  unfoldable pub get_properties :
      Handle (List (ℕ × Zval A F)) → Heap F → Run (Handle (List (ℕ × Zval A F)) × Heap F)
  unfolding convert_all qoi
  get_properties handle h = do
    s ← qoi a h
    let rebuilt = do
      entries ← Queue.to_zend_hashtable (λ e. e) s.content
      (values, h') ← convert_all zend self entries h
      ok (record { vn = s.vn; properties = some values }, h')
    on_value handle.properties rebuilt λ _. if handle.vn == s.vn then ok (handle, h) else rebuilt
