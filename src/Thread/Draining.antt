-- ===== src/Thread/Draining.antt =====
-- src/classes/thread.c: the end of the loop of handle_thread_tasks.
use pht.Common.{
  ℕ, suc, ◌≡◌, ◌≢◌, refl, sym, ap, ◌∙◌, Bool, true, false, not, ◌||◌, ◌==◌, Bool-cases, inl, inr,
  List, [], ◌∷◌, ◌++◌, append-nil, length, Option, none, some, if◌then◌else◌, on_value, arith, Run,
  ok, ◌>>=◌, bind-ok,
}
use pht.Queue.{Cells}
use pht.Queue.Laws
use pht.Entry.{Heap, Zend}
use pht.Thread.{
  Task, Thread, Php, Status, not_started, starting_up, started, is_joined, joined, pop_task,
  announce, goes_on, handle_task, task_delete, handle_thread_tasks,
}
use pht.Thread.Steps.{
  Worker, absent, starting, checking, fetching, exited, handling, State, worker_step, Reachable,
}
use pht.Thread.Order.{Waits, pop_task-first, InOrder, Reachable-InOrder}

not_joined : (s : Status) → is_joined s ≡ true → s ≡ joined
not_joined joined e = refl
not_joined not_started e = cc
not_joined starting_up e = cc
not_joined started e = cc

module _ {F : Type 0} where
  pub goes_on-empty : (t : Thread F) → Waits t [] → t.status ≡ joined → goes_on t ≡ false
  unfolding goes_on
  goes_on-empty t w j =
      let none_waits : (t.tasks.size == 0) ≡ true =
        ground (arith, Laws.Lists-size t.tasks [] w.models) in
      rw (j, none_waits)

  pub goes_on-more :
      (t : Thread F) (task : Task F) (xs : List (Task F)) → Waits t (task ∷ xs) → goes_on t ≡ true
  unfolding goes_on
  goes_on-more t task xs w =
      let waits : (t.tasks.size == 0) ≡ false =
        ground (arith, Laws.Lists-size t.tasks (task ∷ xs) w.models) in
      rw waits (or_true (not (is_joined t.status)))
    where
      or_true : (b : Bool) → (b || true) ≡ true
      or_true true = refl
      or_true false = refl

  stops :
      (t : Thread F) (xs : List (Task F))
      → Waits t xs
      → goes_on t ≡ false
      → (xs ≡ []) × (t.status ≡ joined)
  unfolding goes_on
  stops t (task ∷ xs) w off = let on = goes_on-more t task xs w in cc
  stops t [] w off = elim (Bool-cases (is_joined t.status)) [
    | inl yes_joined ↦ (refl, not_joined t.status yes_joined)
    | inr running ↦ let off' = rw running at off in absurd cc
  ]

  exits :
      (self : ℕ) (s s' : State F) (w : Worker F)
      → s.worker ≡ w
      → InOrder s
      → w ≢ exited
      → worker_step self s w ≡ ok s'
      → s'.worker ≡ exited
      → (s'.handled ≡ s'.added) × (s'.thread.status ≡ joined)
  unfolding worker_step
  exits self s s' absent at i before run after = cc
  exits self s s' exited at i before run after = absurd (before refl)
  exits self s s' starting at i before run after =
      let (t, _, e) = bind-ok (announce self s.thread) _ run in
      let same : record s { thread = t; worker = checking } ≡ s' = cc in
      let where_now : checking ≡ s'.worker = ap (λ r. r.worker) same in absurd cc
  exits self s s' checking at i before run after =
      let same : record s { worker = if goes_on s.thread then fetching else exited } ≡ s' = cc in
      let order : s.handled ++ i.queued ≡ s.added = rw at at i.order in
      let where_now : (if goes_on s.thread then fetching else exited) ≡ s'.worker =
        ap (λ r. r.worker) same in
      elim (Bool-cases (goes_on s.thread)) [
        | inl on ↦ let stays = rw on at where_now in absurd cc
        | inr off ↦
            let (none_left, is) = stops s.thread i.queued i.waits off in
            rw (← same) (sym (append-nil s.handled) ∙ rw none_left at order, is)
      ]
  exits self s s' fetching at i before run after =
      let (r, popped, e) = bind-ok (pop_task self s.thread) _ run in
      let same : record s { thread = r.1; worker = on_value r.0 checking handling } ≡ s' = cc in
      let where_now : on_value r.0 checking handling ≡ s'.worker = ap (λ r. r.worker) same in
      absurd (goes_back r.0 (where_now ∙ after))
    where
      goes_back : (o : Option (Task F)) → on_value o checking handling ≢ exited
      goes_back none e = cc
      goes_back (some task) e = cc
  exits self s s' (handling task) at i before run after =
      let same : record s { worker = checking; handled = s.handled ++ (task ∷ []) } ≡ s' = cc in
      let where_now : checking ≡ s'.worker = ap (λ r. r.worker) same in absurd cc

  -- When the step of a worker that had not left its loop ends in a state in which it has, from any
  -- reachable state, the thread is joined and the tasks that were handled are all the tasks that
  -- were added, in order.
  pub exit-handled :
      (main self : ℕ) (cells : Cells (Task F)) (s s' : State F)
      → Reachable main self cells s
      → s.worker ≢ exited
      → worker_step self s s.worker ≡ ok s'
      → s'.worker ≡ exited
      → (s'.handled ≡ s'.added) × (s'.thread.status ≡ joined)
  exit-handled main self cells s s' reached before run after =
      exits self s s' s.worker refl (Reachable-InOrder self main cells s reached) before run after

module _ {A F : Type 0} (zend : Zend A F) (php : Php A F) (self : ℕ) where
  -- The tasks one after the other, each handled and then deleted.
  unfoldable pub run_all : List (Task F) → Heap F → Run (Heap F)
  run_all [] h = ok h
  run_all (task ∷ tasks) h = do
    h1 ← handle_task zend php self task h
    h2 ← task_delete self task h1
    run_all tasks h2

  -- On a joined thread whose list of tasks no other thread touches, the loop ends within one round
  -- more than there are tasks, where handling and deleting the tasks one after the other ends in a
  -- heap; it ends in the same heap, and the list is empty.
  pub handle_thread_tasks-joined :
      (xs : List (Task F)) (t : Thread F) (h h' : Heap F)
      → Waits t xs
      → t.status ≡ joined
      → run_all xs h ≡ ok h'
      → (t' : Thread F) × (handle_thread_tasks zend php self (suc (length xs)) t h
          ≡ some (ok (t', h')))
        × Waits t' []
  unfolding handle_thread_tasks run_all
  handle_thread_tasks-joined [] t h h' w j run =
      let same : h ≡ h' = cc in (t, rw (goes_on-empty t w j, same), w)
  handle_thread_tasks-joined (task ∷ xs) t h h' w j run =
      let (h1, handled, run_1) = bind-ok (handle_task zend php self task h) _ run in
      let (h2, deleted, run_2) = bind-ok (task_delete self task h1) _ run_1 in
      let (t1, popped, w1, status) = pop_task-first self t task xs w in
      let (t', looped, w2) = handle_thread_tasks-joined xs t1 h2 h' w1 (status ∙ j) run_2 in
      (t', rw (goes_on-more t task xs w, popped, handled, deleted) looped, w2)
