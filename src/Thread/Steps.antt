-- ===== src/Thread/Steps.antt =====
-- src/classes/thread.c: a thread and its worker as a transition system. A step of either side is one
-- access to the shared thread object: a critical section, or a read or write outside of one.
use pht.Common.{
  ℕ, ◌≡◌, ◌≢◌, List, [], ◌∷◌, ◌++◌, none, if◌then◌else◌, on_value, Run, ok, blocked, ◌>>=◌,
}
use pht.Queue.{Cells}
use pht.Thread.{Task, Thread, thread_init, push_task, pop_task, start, join, announce, goes_on}

-- Where the worker is: before `worker_function`, at its start, at the condition of the loop, before the
-- pop, at the handler of a task, or after the loop.
pub data Worker (F : Type 0) : Type 0 where
  absent starting checking fetching exited : Worker F
  handling : Task F → Worker F

-- `added` and `handled` record the tasks that were pushed and those whose handler has ended.
pub record State (F : Type 0) : Type 0 where
  pub thread : Thread F
  pub worker : Worker F
  pub added : List (Task F)
  pub handled : List (Task F)

module _ {F : Type 0} where
  unfoldable pub initial : Cells (Task F) → State F
  unfolding thread_init
  initial cells = record { thread = thread_init cells; worker = absent; added = []; handled = [] }

  -- The next step of the worker (`self`) by where it is.
  unfoldable pub worker_step : ℕ → State F → Worker F → Run (State F)
  unfolding announce goes_on pop_task
  worker_step self s absent = blocked
  worker_step self s starting =
      announce self s.thread >>= λ t. ok (record s { thread = t; worker = checking })
  worker_step self s checking =
      ok (record s { worker = if goes_on s.thread then fetching else exited })
  worker_step self s fetching = pop_task self s.thread >>= λ r.
      ok (record s { thread = r.1; worker = on_value r.0 checking handling })
  worker_step self s (handling task) =
      ok (record s { worker = checking; handled = s.handled ++ (task ∷ []) })
  worker_step self s exited = blocked

  -- Steps of the thread that owns the object (`main`) and of the worker. `malloc` returns an address that no
  -- node has. The worker is started once.
  pub data Step (main self : ℕ) : State F → State F → Type 0 where
    adds :
        {s : State F} {t : Thread F} (address : ℕ) (task : Task F)
        → address ≢ 0
        → s.thread.tasks.cells address ≡ none
        → push_task main address task s.thread ≡ ok t
        → Step main self s (record s { thread = t; added = s.added ++ (task ∷ []) })
    starts :
        {s : State F}
        → s.worker ≡ absent
        → Step main self s (record s { thread = start s.thread; worker = starting })
    joins : {s : State F} → Step main self s (record s { thread = join s.thread })
    works : {s s' : State F} → worker_step self s s.worker ≡ ok s' → Step main self s s'

  pub data Reachable (main self : ℕ) (cells : Cells (Task F)) : State F → Type 0 where
    begins : Reachable main self cells (initial cells)
    steps :
        {s s' : State F}
        → Reachable main self cells s
        → Step main self s s'
        → Reachable main self cells s'
