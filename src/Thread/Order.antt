-- ===== src/Thread/Order.antt =====
-- src/classes/thread.c: the tasks of a thread in the states that it can reach.
use pht.Common.{
  ℕ, ◌≡◌, ◌≢◌, refl, sym, ap, ◌∙◌, List, [], ◌∷◌, ◌++◌, append_assoc, Option, none, some,
  if◌then◌else◌, on_value, Bool-cases, inl, inr, ok, fault, blocked, Returns, bind-ok,
}
use pht.Queue.{Queue, Cells}
use pht.Queue.Laws
use pht.Thread.{
  Task, Thread, thread_init, lock_default, critical, push_task, pop_task, start, join, announce,
  goes_on,
}
use pht.Thread.Steps.{
  Worker, absent, starting, checking, fetching, exited, handling, State, initial, worker_step, Step,
  adds, starts, joins, works, Reachable, begins, steps,
}

module _ {F : Type 0} where
  -- The thread's mutex is free and its list stands for `queued`.
  pub record Waits (t : Thread F) (queued : List (Task F)) : Type 0 where
    pub free : t.lock ≡ none
    pub models : Laws.Lists t.tasks queued

  pub push_task-Waits :
      (main address : ℕ) (task : Task F) (t t' : Thread F) (queued : List (Task F))
      → Waits t queued
      → address ≢ 0
      → t.tasks.cells address ≡ none
      → push_task main address task t ≡ ok t'
      → Waits t' (queued ++ (task ∷ []))
  unfolding push_task critical lock_default
  push_task-Waits main address task t t' queued w nz unused run =
      let (q, pushed, m) = Laws.push-Lists address t.tasks queued task w.models nz unused in
      let run' = rw (w.free, pushed) at run in
      let same : record t { lock = none; tasks = q } ≡ t' = cc in
      rw (← same) (record { free = refl; models = m })

  pub pop_task-first :
      (self : ℕ) (t : Thread F) (task : Task F) (rest : List (Task F))
      → Waits t (task ∷ rest)
      → (t' : Thread F) × (pop_task self t ≡ ok (some task, t'))
        × Waits t' rest
        × (t'.status ≡ t.status)
  unfolding pop_task critical lock_default
  pop_task-first self t task rest w =
      let (r, run, (top, m)) = Laws.pop-Lists t.tasks task rest w.models in
      let t' : Thread F = record t { lock = none; tasks = r.1 } in
      (t', rw (w.free, run, top), record { free = refl; models = m }, refl)

  -- `pop_task` takes the first of the waiting tasks, if there is one.
  abbrev Taken : List (Task F) → Option (Task F) → List (Task F) → Type 0
  Taken queued none rest = (queued ≡ []) × (rest ≡ [])
  Taken queued (some task) rest = queued ≡ task ∷ rest

  pop_task-Waits :
      (self : ℕ) (t : Thread F) (queued : List (Task F))
      → Waits t queued
      → Returns
          (pop_task self t)
          (λ r. (rest : List (Task F)) × Waits r.1 rest × Taken queued r.0 rest)
  unfolding pop_task critical lock_default
  pop_task-Waits self t [] w = (
    (none, record t { lock = none }),
    rw (w.free, Laws.pop-empty t.tasks w.models),
    ([], record { free = refl; models = w.models }, (refl, refl)),
  )
  pop_task-Waits self t (task ∷ rest) w =
      let (t', run, w', _) = pop_task-first self t task rest w in
      ((some task, t'), run, (rest, w', refl))

  -- The task whose handler runs.
  abbrev pub in_hand : Worker F → List (Task F)
  in_hand (handling task) = task ∷ []
  in_hand w = []

  -- The tasks that were handled, the one that is, and those that wait are the ones that were added, in order.
  pub record InOrder (s : State F) : Type 0 where
    pub queued : List (Task F)
    pub waits : Waits s.thread queued
    pub order : s.handled ++ (in_hand s.worker ++ queued) ≡ s.added

  order-added :
      (handled hand queued added : List (Task F)) (task : Task F)
      → handled ++ (hand ++ queued) ≡ added
      → handled ++ (hand ++ (queued ++ (task ∷ []))) ≡ added ++ (task ∷ [])
  order-added handled hand queued added task e =
      ap (λ l. handled ++ l) (sym (append_assoc hand queued (task ∷ [])))
      ∙ sym (append_assoc handled (hand ++ queued) (task ∷ []))
      ∙ ap (λ l. l ++ (task ∷ [])) e

  announce-Waits :
      (self : ℕ) (t t' : Thread F) (queued : List (Task F))
      → Waits t queued
      → announce self t ≡ ok t'
      → Waits t' queued
  unfolding announce lock_default
  announce-Waits self t t' queued w run =
      let run' = rw w.free at run in
      let free : none ≡ t'.lock =
        ap (λ r. elim r as (λ r. Option (ℕ × ℕ)) [ ok t ↦ t.lock | fault ↦ none | blocked ↦ none ])
          run' in
      let tasks : t.tasks ≡ t'.tasks =
        ap
          (λ r. elim r as (λ r. Queue (Task F)) [
            | ok t ↦ t.tasks
            | fault ↦ t.tasks
            | blocked ↦ t.tasks
          ])
          run' in
      record { free = sym free; models = rw (← tasks) w.models }

  module _ (self : ℕ) where
    works-InOrder :
        (s s' : State F) (w : Worker F)
        → s.worker ≡ w
        → InOrder s
        → worker_step self s w ≡ ok s'
        → InOrder s'
    unfolding worker_step
    works-InOrder s s' absent at i run = cc
    works-InOrder s s' exited at i run = cc
    works-InOrder s s' starting at i run =
        let (t, announced, e) = bind-ok (announce self s.thread) _ run in
        let same : record s { thread = t; worker = checking } ≡ s' = cc in
        rw (← same) (record {
          queued = i.queued;
          waits = announce-Waits self s.thread t i.queued i.waits announced;
          order = rw at at i.order;
        })
    works-InOrder s s' checking at i run =
        let same : record s { worker = if goes_on s.thread then fetching else exited } ≡ s' = cc in
        let order : s.handled ++ i.queued ≡ s.added = rw at at i.order in
        rw (← same) (elim (Bool-cases (goes_on s.thread)) [
          | inl on ↦ record { queued = i.queued; waits = i.waits; order = rw on order }
          | inr off ↦ record { queued = i.queued; waits = i.waits; order = rw off order }
        ])
    works-InOrder s s' fetching at i run =
        let (r, popped, (rest, w, taken)) = pop_task-Waits self s.thread i.queued i.waits in
        let same : record s { thread = r.1; worker = on_value r.0 checking handling } ≡ s' =
          (let run' = rw popped at run in cc) in
        let order : s.handled ++ i.queued ≡ s.added = rw at at i.order in
        rw (← same) (record {
          queued = rest;
          waits = w;
          order = fetched s.handled s.added i.queued rest r.0 taken order;
        })
      where
        fetched :
            (handled added queued rest : List (Task F)) (o : Option (Task F))
            → Taken queued o rest
            → handled ++ queued ≡ added
            → handled ++ (in_hand (on_value o checking handling) ++ rest) ≡ added
        fetched handled added queued rest none (e, e') order = rw (e', ← e) order
        fetched handled added queued rest (some task) e order = rw (← e) order
    works-InOrder s s' (handling task) at i run =
        let same : record s { worker = checking; handled = s.handled ++ (task ∷ []) } ≡ s' = cc in
        let order : s.handled ++ (task ∷ i.queued) ≡ s.added = rw at at i.order in
        rw (← same) (record {
          queued = i.queued;
          waits = i.waits;
          order = append_assoc s.handled (task ∷ []) i.queued ∙ order;
        })

    Step-InOrder : (main : ℕ) {s s' : State F} → InOrder s → Step main self s s' → InOrder s'
    unfolding start join
    Step-InOrder main {s} i (adds {t} address task nz unused run) = record {
      queued = i.queued ++ (task ∷ []);
      waits = push_task-Waits main address task s.thread t i.queued i.waits nz unused run;
      order = order-added s.handled (in_hand s.worker) i.queued s.added task i.order;
    }
    Step-InOrder main {s} i (starts at) = record {
      queued = i.queued;
      waits = record { free = i.waits.free; models = i.waits.models };
      order = rw at at i.order;
    }
    Step-InOrder main i joins = record {
      queued = i.queued;
      waits = record { free = i.waits.free; models = i.waits.models };
      order = i.order;
    }
    Step-InOrder main {s} {s'} i (works run) = works-InOrder s s' s.worker refl i run

    -- In every state that the owner of a thread, who starts it once, and its worker can reach, in
    -- any interleaving of adding, starting, joining and the steps of the worker, where the
    -- worker's change of the status under the mutex is one step, the tasks that were added are, in
    -- this order: those whose handler has ended, the one in hand, and those that wait in the list;
    -- the mutex is free.
    pub Reachable-InOrder :
        (main : ℕ) (cells : Cells (Task F)) (s : State F) → Reachable main self cells s → InOrder s
    unfolding initial thread_init
    Reachable-InOrder main cells s begins = record {
      queued = [];
      waits = record { free = refl; models = Laws.init-Lists cells };
      order = refl;
    }
    Reachable-InOrder main cells s (steps {s = r} reached step) =
        Step-InOrder main (Reachable-InOrder main cells r reached) step
