-- ===== src/Thread.antt =====
-- src/classes/thread.c: pht\Thread, its tasks, its worker, and the methods that start and join it.
-- The PHP code of a task is not under the modelled code: `Php` has what the handlers ask of the engine.
-- `thread_init` gives the mutex default attributes: a second lock waits, by the holder too.
pub mod Tasks
pub mod Steps
pub mod Order
pub mod Draining
pub mod Adding
pub mod Finishing
pub mod Children
pub mod Waiting
use pht.Common.{
  ℕ, zero, suc, ◌+◌, Bool, true, false, not, ◌||◌, List, [], ◌∷◌, ◌++◌, Option, none, some, ◌==◌,
  if◌then◌else◌, on_value, Run, ok, fault, blocked, ◌>>=◌, Ptr, null, wild, ref, target,
}
use pht.PhtString.{Bytes}
use pht.Mutex.{Mutex}
use pht.Queue
use pht.Queue.{Queue, Cells}
use pht.Entry.{Entry, Zval, Heap, Zend, entry_delete, convert_entry_to_zval}

-- class_task_t, function_task_t and file_task_t in the union task_t. The callable of a function task
-- is `wild` where its conversion failed, which is not looked at.
pub data Task (F : Type 0) : Type 0 where
  class_task : (name : Bytes) (ctor_args : List (Entry F)) → Task F
  function_task : (fn : Ptr (Entry F)) (args : List (Entry F)) → Task F
  file_task : (name : Bytes) (args : List (Entry F)) → Task F

-- status_t
pub data Status : Type 0 where
  not_started starting_up started joined : Status

abbrev pub is_joined : Status → Bool
is_joined joined = true
is_joined s = false

-- thread_obj_t
pub record Thread (F : Type 0) : Type 0 where
  pub lock : Mutex
  pub status : Status
  pub tasks : Queue (Task F)

-- pthread_mutex_lock on a default mutex.
unfoldable pub lock_default : ℕ → Mutex → Run Mutex
lock_default self none = ok (some (self, 0))
lock_default self (some holder) = blocked

-- What the handlers ask of PHP: whether an object of the class can be made, and whether that has a
-- constructor; then the calls, which may change any shared object.
pub record Php (A F : Type 0) : Type 0 where
  pub creates : Bytes → Option Bool
  pub run_object : Bytes → List (Zval A F) → Heap F → Run (Heap F)
  pub call_function : Zval A F → List (Zval A F) → Heap F → Run (Heap F)
  pub execute_script : Bytes → List (Zval A F) → Heap F → Run (Heap F)

module _ {F : Type 0} where
  unfoldable pub thread_init : Cells (Task F) → Thread F
  thread_init cells = record { lock = none; status = not_started; tasks = Queue.init cells }

  -- A change of the task list under the mutex.
  unfoldable pub critical :
      {B : Type 0} → ℕ → (Queue (Task F) → Run (B × Queue (Task F))) → Thread F → Run (B × Thread F)
  unfolding lock_default
  critical self change t = do
    m ← lock_default self t.lock
    (b, q) ← change t.tasks
    ok (b, record t { lock = none; tasks = q })

  -- The end of the three methods that add a task; `address` is what `malloc` returns for the node.
  unfoldable pub push_task : (self address : ℕ) → Task F → Thread F → Run (Thread F)
  unfolding critical
  push_task self address task t = do
    (_, t') ← critical self (λ q. Queue.push address q task >>= λ q'. ok (true, q')) t
    ok t'

  unfoldable pub pop_task : (self : ℕ) → Thread F → Run (Option (Task F) × Thread F)
  unfolding critical
  pop_task self t = critical self Queue.pop t

  unfoldable pub task_count : Thread F → ℕ
  task_count t = t.tasks.size

  -- `start` and `join` set the status; they do not look at it.
  unfoldable pub start : Thread F → Thread F
  start t = record t { status = starting_up }

  unfoldable pub join : Thread F → Thread F
  join t = record t { status = joined }

  -- worker_function, before its loop.
  unfoldable pub announce : (self : ℕ) → Thread F → Run (Thread F)
  unfolding lock_default
  announce self t = do
    m ← lock_default self t.lock
    ok (record t { lock = none; status = elim t.status [ starting_up ↦ started | other ↦ other ] })

  -- thread_join_destroy: the result tells whether the worker is waited for.
  unfoldable pub thread_join_destroy : (self : ℕ) → Thread F → Run (Bool × Thread F)
  unfolding lock_default
  thread_join_destroy self t =
      let joins = do
        m ← lock_default self t.lock
        ok (true, record t { lock = none; status = joined })
      in elim t.status [ not_started ↦ ok (false, t) | other ↦ joins ]

  -- The condition of the loop in handle_thread_tasks.
  unfoldable pub goes_on : Thread F → Bool
  goes_on t = not (is_joined t.status) || not (t.tasks.size == 0)

  unfoldable pub delete_values : (self : ℕ) → List (Entry F) → Heap F → Run (Heap F)
  unfolding entry_delete
  delete_values self [] h = ok h
  delete_values self (e ∷ es) h = entry_delete self e h >>= λ h'. delete_values self es h'

  -- class_task_delete, function_task_delete and file_task_delete by task_delete
  unfoldable pub task_delete : (self : ℕ) → Task F → Heap F → Run (Heap F)
  unfolding delete_values entry_delete
  task_delete self (class_task name args) h = delete_values self args h
  task_delete self (function_task fn args) h = do
    e ← target fn
    h' ← entry_delete self e h
    delete_values self args h'
  task_delete self (file_task name args) h = delete_values self args h

module _ {A F : Type 0} (zend : Zend A F) (php : Php A F) (self : ℕ) where
  unfoldable pub convert_entries : List (Entry F) → Heap F → Run (List (Zval A F) × Heap F)
  unfolding convert_entry_to_zval
  convert_entries [] h = ok ([], h)
  convert_entries (e ∷ es) h = do
    (z, h') ← convert_entry_to_zval zend self e h
    (zs, h'') ← convert_entries es h'
    ok (z ∷ zs, h'')

  -- The arguments are converted only for a class with a constructor. A class without objects throws.
  unfoldable pub handle_class_task : Bytes → List (Entry F) → Heap F → Run (Heap F)
  unfolding convert_entries
  handle_class_task name args h = on_value (php.creates name) (ok h) λ has_constructor.
      if has_constructor
      then (do (zs, h') ← convert_entries args h; php.run_object name zs h')
      else php.run_object name [] h

  unfoldable pub handle_function_task : Ptr (Entry F) → List (Entry F) → Heap F → Run (Heap F)
  unfolding convert_entries convert_entry_to_zval
  handle_function_task fn args h = do
    e ← target fn
    (callable, h') ← convert_entry_to_zval zend self e h
    (zs, h'') ← convert_entries args h'
    php.call_function callable zs h''

  unfoldable pub handle_file_task : Bytes → List (Entry F) → Heap F → Run (Heap F)
  unfolding convert_entries
  handle_file_task name args h = do (zs, h') ← convert_entries args h; php.execute_script name zs h'

  unfoldable pub handle_task : Task F → Heap F → Run (Heap F)
  unfolding handle_class_task handle_function_task handle_file_task
  handle_task (class_task name args) h = handle_class_task name args h
  handle_task (function_task fn args) h = handle_function_task fn args h
  handle_task (file_task name args) h = handle_file_task name args h

  abbrev pub proceed :
      Run (Thread F × Heap F)
      → (Thread F → Heap F → Option (Run (Thread F × Heap F)))
      → Option (Run (Thread F × Heap F))
  proceed (ok (t, h)) k = k t h
  proceed fault k = some fault
  proceed blocked k = some blocked

  -- The loop of handle_thread_tasks, while no other thread touches the task list; `none` where the
  -- fuel runs out.
  pub handle_thread_tasks : ℕ → Thread F → Heap F → Option (Run (Thread F × Heap F))
  unfolding goes_on pop_task handle_task task_delete
  handle_thread_tasks zero t h = none
  handle_thread_tasks (suc fuel) t h =
      let round = do
        (popped, t') ← pop_task self t
        h' ← on_value popped (ok h) λ task. handle_task task h >>= λ h1. task_delete self task h1
        ok (t', h')
      in let next = proceed round (handle_thread_tasks fuel) in
        if goes_on t then next else some (ok (t, h))
