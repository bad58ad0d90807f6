-- ===== src/Tests/Threads.antt =====
-- src/classes/thread.c: a thread with two tasks.
use pht.Common.{ℕ, ◌≡◌, refl, true, false, [], ◌∷◌, List, none, some, ok, arith, ◌≤◌, Returns}
use pht.Queue
use pht.Entry
use pht.Entry.{Entry, Zval, Heap, Zend}
use pht.Thread.Tasks.{failed_to_serialise_argument, add_task}
use pht.Thread.Adding.{Outcome, add_task-Outcome}
use pht.Thread
use pht.Thread.{
  Status, starting_up, started, start, announce, goes_on, pop_task, Task, class_task, file_task,
  Thread, Php, joined, not_started, push_task, thread_init, join, handle_thread_tasks,
}
use pht.Thread.Steps.{
  State, Worker, checking, fetching, handling, exited, starting, absent, initial, worker_step, Step,
  adds, starts, joins, works, Reachable, begins, steps,
}
use pht.Thread.Order.{Waits, InOrder, Reachable-InOrder}
use pht.Thread.Finishing.{worker_runs, joined-exits}
use pht.Thread.Draining.{exit-handled, run_all, handle_thread_tasks-joined}

abbrev cells : Queue.Cells (Task ℕ)
cells a = none

abbrev task : Task ℕ
task = class_task (97 ∷ []) (Entry.null ∷ [])

abbrev script : Task ℕ
script = file_task (98 ∷ []) []

abbrev cells_two : Queue.Cells (Task ℕ)
cells_two =
    Queue.write (Queue.write cells 10 (some (record { element = task; next = 20 }))) 20
      (some (record { element = script; next = 0 }))

abbrev two : Thread ℕ
two = record {
  lock = none;
  status = joined;
  tasks = record { cells = cells_two; elements = 10; last = 20; size = 2 };
}

two-Waits : Waits two (task ∷ script ∷ [])
two-Waits = record {
  free = refl;
  models = (
    (10, task) ∷ (20, script) ∷ [],
    record {
      linked = ((λ e. omega (arith, e)), refl, refl, ((λ e. omega (arith, e)), refl, refl, tt));
      elements = refl;
      last = refl;
      size = refl;
    },
    refl,
  );
}

abbrev zend : Zend ℕ ℕ
zend = record {
  serialize = λ a. none;
  unserialize = λ s. none;
  copy_user_function = λ f. f;
  is_true = λ z. true;
}

-- Objects of every class can be made, without a constructor; the calls leave the heap alone.
abbrev php : Php ℕ ℕ
php = record {
  creates = λ name. some false;
  run_object = λ name args h. ok h;
  call_function = λ fn args h. ok h;
  execute_script = λ name args h. ok h;
}

runs : run_all zend php 1 (task ∷ script ∷ []) [] ≡ ok []
unfolding run_all Thread.handle_task Thread.task_delete
runs = refl

handle_thread_tasks-joined_example :
    (t' : Thread ℕ) × (handle_thread_tasks zend php 1 3 two [] ≡ some (ok (t', []))) × Waits t' []
handle_thread_tasks-joined_example =
    handle_thread_tasks-joined zend php 1 (task ∷ script ∷ []) two [] [] two-Waits refl runs

-- A task is added, the worker starts, handles it, and finds the thread joined.
abbrev one : Queue.Queue (Task ℕ)
one = record {
  cells = Queue.write cells 10 (some (record { element = task; next = 0 }));
  elements = 10;
  last = 10;
  size = 1;
}

abbrev none_left : Queue.Queue (Task ℕ)
none_left = record { cells = Queue.write one.cells 10 none; elements = 0; last = 0; size = 0 }

abbrev state : Status → Queue.Queue (Task ℕ) → Worker ℕ → List (Task ℕ) → State ℕ
state status tasks worker handled = record {
  thread = record { lock = none; status = status; tasks = tasks };
  worker = worker;
  added = task ∷ [];
  handled = handled;
}

abbrev added_one : State ℕ
added_one = state not_started one absent []

abbrev announcing : State ℕ
announcing = state starting_up one starting []

abbrev ready : State ℕ
ready = state started one checking []

abbrev popping : State ℕ
popping = state started one fetching []

abbrev working : State ℕ
working = state started none_left (handling task) []

abbrev done_one : State ℕ
done_one = state started none_left checking (task ∷ [])

abbrev waited_for : State ℕ
waited_for = state joined none_left checking (task ∷ [])

abbrev gone : State ℕ
gone = state joined none_left exited (task ∷ [])

-- `Step` with the state that follows given apart.
by : {s s' t : State ℕ} → Step 0 1 s s' → s' ≡ t → Step 0 1 s t
by step e = rw (← e) step

added_one-Reachable : Reachable 0 1 cells added_one
unfolding initial thread_init push_task Queue.push Queue.init
added_one-Reachable = steps begins (by (adds 10 task (λ e. omega (arith, e)) refl refl) refl)

ready-Reachable : Reachable 0 1 cells ready
unfolding start worker_step announce
ready-Reachable =
    steps {s = announcing} (steps added_one-Reachable (by (starts refl) refl)) (works refl)

working-Reachable : Reachable 0 1 cells working
unfolding worker_step goes_on pop_task Queue.pop
working-Reachable = steps {s = popping} (steps ready-Reachable (works refl)) (works refl)

waited_for-Reachable : Reachable 0 1 cells waited_for
unfolding worker_step join
waited_for-Reachable = steps {s = done_one} (steps working-Reachable (works refl)) (by joins refl)

leaves : worker_step 1 waited_for checking ≡ ok gone
unfolding worker_step goes_on
leaves = refl

Reachable-InOrder_example : InOrder working
Reachable-InOrder_example = Reachable-InOrder 1 0 cells working working-Reachable

exit-handled_example : (gone.handled ≡ gone.added) × (gone.thread.status ≡ joined)
exit-handled_example =
    exit-handled 0 1 cells waited_for gone waited_for-Reachable (λ e. cc) leaves refl

-- The thread is joined while the worker handles the task.
abbrev joined_at_work : State ℕ
joined_at_work = state joined none_left (handling task) []

joined_at_work-Reachable : Reachable 0 1 cells joined_at_work
unfolding join
joined_at_work-Reachable = steps working-Reachable (by joins refl)

joined-exits_example :
    (n : ℕ) × (n ≤ 5)
    × Returns (worker_runs 1 n joined_at_work) (λ t. (t.worker ≡ exited) × (t.handled ≡ task ∷ []))
joined-exits_example = joined-exits 0 1 cells joined_at_work joined_at_work-Reachable refl tt

-- The second of two arguments cannot be serialised.
abbrev arguments : List (Zval ℕ ℕ)
arguments = Zval.null ∷ Zval.array 5 ∷ []

refuses :
    add_task zend 1 30 (class_task (97 ∷ [])) arguments two []
    ≡ ok (failed_to_serialise_argument 2, two, [])
unfolding add_task Entry.convert_zval_to_entry Thread.delete_values
refuses = refl

add_task-Outcome_example :
    Outcome zend 1
      (class_task (97 ∷ []))
      arguments
      (task ∷ script ∷ [])
      two
      []
      (failed_to_serialise_argument 2)
      two
      []
add_task-Outcome_example =
    add_task-Outcome zend 1 30 (class_task (97 ∷ [])) arguments (task ∷ script ∷ []) two two [] []
      (failed_to_serialise_argument 2) two-Waits (λ e. omega (arith, e)) refl refuses
