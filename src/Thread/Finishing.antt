-- ===== src/Thread/Finishing.antt =====
-- src/classes/thread.c: how many steps the worker of a joined thread has left.
use pht.Common.{
  ℕ, zero, suc, ◌+◌, ◌*◌, ◌≤◌, ◌≡◌, refl, sym, ap, ◌∙◌, List, [], ◌∷◌, ◌++◌, append_assoc,
  append-nil, length, length-append, none, arith, Run, ok, ◌>>=◌, Returns,
}
use pht.Queue.{Cells}
use pht.Queue.Laws
use pht.Thread.{Task, Thread, joined, pop_task, critical, lock_default}
use pht.Thread.Steps.{
  Worker, absent, starting, checking, fetching, exited, handling, State, worker_step, Reachable,
}
use pht.Thread.Order.{Waits, pop_task-first, in_hand, Reachable-InOrder}
use pht.Thread.Draining.{goes_on-empty, goes_on-more}

module _ {F : Type 0} where
  -- `n` steps of the worker.
  unfoldable pub worker_runs : (self n : ℕ) → State F → Run (State F)
  worker_runs self zero s = ok s
  worker_runs self (suc n) s = worker_step self s s.worker >>= λ t. worker_runs self n t

  -- The worker is in the loop of handle_thread_tasks.
  abbrev pub InLoop : Worker F → Type 0
  InLoop absent = ⊥
  InLoop starting = ⊥
  InLoop exited = ⊥
  InLoop _ = Unit {0}

  abbrev rounds : List (Task F) → ℕ
  rounds [] = 1
  rounds (x ∷ xs) = suc (suc (suc (rounds xs)))

  rounds-length : (xs : List (Task F)) → rounds xs ≡ 3 * length xs + 1
  rounds-length [] = refl
  rounds-length (x ∷ xs) = omega (arith, rounds-length xs)

  module _ (self : ℕ) where
    then_step :
        (s t : State F) (w : Worker F) (n : ℕ) {P : State F → Type 0}
        → s.worker ≡ w
        → worker_step self s w ≡ ok t
        → Returns (worker_runs self n t) P
        → Returns (worker_runs self (suc n) s) P
    unfolding worker_runs
    then_step s t w n at run h = let here = ap (λ x. worker_step self s x) at ∙ run in rw here h

    -- What the worker has done once it has left the loop.
    abbrev Done : State F → List (Task F) → State F → Type 0
    Done s xs t = (t.worker ≡ exited) × (t.handled ≡ s.handled ++ xs)

    drains :
        (xs : List (Task F)) (s : State F)
        → s.worker ≡ checking
        → Waits s.thread xs
        → s.thread.status ≡ joined
        → Returns (worker_runs self (rounds xs) s) (Done s xs)
    unfolding worker_step worker_runs
    drains [] s at w j =
        let t : State F = record s { worker = exited } in
        then_step s t checking 0 at (rw (goes_on-empty s.thread w j))
          (t, refl, (refl, sym (append-nil s.handled)))
    drains (x ∷ xs) s at w j =
        let (t', popped, w', status) = pop_task-first self s.thread x xs w in
        let s1 : State F = record s { worker = fetching } in
        let s2 : State F = record s { thread = t'; worker = handling x } in
        let s3 : State F = record s2 { worker = checking; handled = s.handled ++ (x ∷ []) } in
        let (t, runs, (left, all)) = drains xs s3 refl w' (status ∙ j) in
        then_step s s1 checking (suc (suc (rounds xs))) at (rw (goes_on-more s.thread x xs w)) (
          then_step s1 s2 fetching (suc (rounds xs)) refl (rw popped) (
            then_step s2 s3 (handling x) (rounds xs) refl refl
              (t, runs, (left, all ∙ append_assoc s.handled (x ∷ []) xs))))

    pop_task-none :
        (t : Thread F)
        → Waits t []
        → (t' : Thread F) × (pop_task self t ≡ ok (none, t')) × Waits t' [] × (t'.status ≡ t.status)
    unfolding pop_task critical lock_default
    pop_task-none t w = (
      record t { lock = none },
      rw (w.free, Laws.pop-empty t.tasks w.models),
      record { free = refl; models = w.models },
      refl,
    )

    -- From each place in the loop.
    abbrev Left : State F → List (Task F) → Type 0
    Left s xs = (n : ℕ) × (n ≤ 3 * length xs + 2) × Returns (worker_runs self n s) (Done s xs)

    leaves :
        (w : Worker F) (s : State F) (xs : List (Task F))
        → InLoop w
        → s.worker ≡ w
        → Waits s.thread xs
        → s.thread.status ≡ joined
        → Left s (in_hand w ++ xs)
    unfolding worker_step
    leaves checking s xs l at w j = (rounds xs, omega (arith, rounds-length xs), drains xs s at w j)
    leaves (handling x) s xs l at w j =
        let s1 : State F = record s { worker = checking; handled = s.handled ++ (x ∷ []) } in
        let (t, runs, (left, all)) = drains xs s1 refl w j in
        (
          suc (rounds xs),
          omega (arith, rounds-length xs),
          then_step s s1 (handling x) (rounds xs) at refl
              (t, runs, (left, all ∙ append_assoc s.handled (x ∷ []) xs)),
        )
    leaves fetching s [] l at w j =
        let (t', popped, w', status) = pop_task-none s.thread w in
        let s1 : State F = record s { thread = t'; worker = checking } in
        let (t, runs, done) = drains [] s1 refl w' (status ∙ j) in
        (2, omega arith, then_step s s1 fetching 1 at (rw popped) (t, runs, done))
    leaves fetching s (x ∷ xs) l at w j =
        let (t', popped, w', status) = pop_task-first self s.thread x xs w in
        let s2 : State F = record s { thread = t'; worker = handling x } in
        let s3 : State F = record s2 { worker = checking; handled = s.handled ++ (x ∷ []) } in
        let (t, runs, (left, all)) = drains xs s3 refl w' (status ∙ j) in
        (
          suc (suc (rounds xs)),
          omega (arith, rounds-length xs),
          then_step s s2 fetching (suc (rounds xs)) at (rw popped) (
              then_step s2 s3 (handling x) (rounds xs) refl refl
                (t, runs, (left, all ∙ append_assoc s.handled (x ∷ []) xs))),
        )
    leaves absent s xs l at w j = absurd l
    leaves starting s xs l at w j = absurd l
    leaves exited s xs l at w j = absurd l

  -- From every reachable state in which the thread is joined and the worker is in its loop, at
  -- most 3 steps of the worker for each task that was added and 2 more take it out of the loop,
  -- without waiting, and then the tasks that were handled are all those that were added, in order.
  pub joined-exits :
      (main self : ℕ) (cells : Cells (Task F)) (s : State F)
      → Reachable main self cells s
      → s.thread.status ≡ joined
      → InLoop s.worker
      → (n : ℕ) × (n ≤ 3 * length s.added + 2)
        × Returns (worker_runs self n s) (λ t. (t.worker ≡ exited) × (t.handled ≡ s.added))
  joined-exits main self cells s reached j l =
      let i = Reachable-InOrder self main cells s reached in
      let (n, bound, (t, runs, (left, all))) = leaves self s.worker s i.queued l refl i.waits j in
      let size = length-append s.handled (in_hand s.worker ++ i.queued) in
      let total = ap length i.order in
      (n, omega (arith, bound, size, total), (t, runs, (left, all ∙ i.order)))
