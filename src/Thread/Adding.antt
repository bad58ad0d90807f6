-- ===== src/Thread/Adding.antt =====
-- src/classes/thread.c: the outcome of the methods that add a task, by what becomes of the arguments.
use pht.Common.{
  ℕ, ◌+◌, ◌≡◌, ◌≢◌, List, [], ◌∷◌, ◌++◌, zero, suc, none, some, sym, ap, ◌∙◌, append_assoc,
  append-nil, arith, Option-cases, inl, inr, Run, ok, ◌>>=◌, bind-ok,
}
use pht.Entry.{Entry, Zval, Heap, Zend, convert_zval_to_entry}
use pht.Thread.{Task, Thread, push_task, delete_values}
use pht.Thread.Order.{Waits, push_task-Waits}
use pht.Thread.Tasks.{
  Arguments, converted, refused, Added, added, failed_to_serialise_argument, convert_arguments,
  add_task,
}

module _ {A F : Type 0} (zend : Zend A F) (self : ℕ) where
  -- `es` are the entries of `args`, each made of one argument, in order, from the heap `h` to `h'`.
  abbrev pub Converts : List (Zval A F) → Heap F → List (Entry F) → Heap F → Type 0
  Converts [] h [] h' = h ≡ h'
  Converts [] h (e ∷ es) h' = ⊥
  Converts (z ∷ zs) h [] h' = ⊥
  Converts (z ∷ zs) h (e ∷ es) h' =
      (h1 : Heap F) × (convert_zval_to_entry zend self z h ≡ ok (some e, h1)) × Converts zs h1 es h'

  -- The arguments before number `i`, counted from 0, are converted to `es`, and argument `i` is refused.
  abbrev pub Refuses : List (Zval A F) → Heap F → ℕ → List (Entry F) → Heap F → Type 0
  Refuses [] h i es h' = ⊥
  Refuses (z ∷ zs) h zero [] h' = convert_zval_to_entry zend self z h ≡ ok (none, h')
  Refuses (z ∷ zs) h zero (e ∷ es) h' = ⊥
  Refuses (z ∷ zs) h (suc i) [] h' = ⊥
  Refuses (z ∷ zs) h (suc i) (e ∷ es) h' =
      (h1 : Heap F) × (convert_zval_to_entry zend self z h ≡ ok (some e, h1))
      × Refuses zs h1 i es h'

  -- What the reply says of the thread and of the arguments.
  abbrev pub Outcome :
      (List (Entry F) → Task F)
      → List (Zval A F)
      → List (Task F)
      → (t : Thread F) → Heap F
      → Added
      → (t' : Thread F) → Heap F
      → Type 0
  Outcome make args queued t h added t' h' =
      (es : List (Entry F)) × Converts args h es h' × Waits t' (queued ++ (make es ∷ []))
  Outcome make args queued t h (failed_to_serialise_argument k) t' h' =
      (t' ≡ t)
      × ((i : ℕ) × (es : List (Entry F)) × (h1 : Heap F) × (k ≡ i + 1)
          × Refuses args h i es h1
          × (delete_values self es h1 ≡ ok h'))
  Outcome make args queued t h other t' h' = ⊥

  -- The same of the loop, `before` being converted already.
  abbrev Fate :
      (i : ℕ) (before : List (Entry F)) → List (Zval A F) → Heap F → Arguments F → Heap F → Type 0
  Fate i before args h (converted all) h' =
      (es : List (Entry F)) × (all ≡ before ++ es) × Converts args h es h'
  Fate i before args h (refused k) h' =
      (j : ℕ) × (es : List (Entry F)) × (h1 : Heap F) × (k ≡ i + j + 1)
      × Refuses args h j es h1
      × (delete_values self (before ++ es) h1 ≡ ok h')

  Fate-more :
      (i : ℕ) (before : List (Entry F)) (z : Zval A F) (zs : List (Zval A F)) (h h1 h' : Heap F)
      (e : Entry F) (r : Arguments F)
      → convert_zval_to_entry zend self z h ≡ ok (some e, h1)
      → Fate (i + 1) (before ++ (e ∷ [])) zs h1 r h'
      → Fate i before (z ∷ zs) h r h'
  Fate-more i before z zs h h1 h' e (converted all) run (es, is, more) =
      (e ∷ es, is ∙ append_assoc before (e ∷ []) es, (h1, run, more))
  Fate-more i before z zs h h1 h' e (refused k) run (j, es, h2, is, more, deletes) = (
    suc j,
    e ∷ es,
    h2,
    omega (arith, is),
    (h1, run, more),
    rw (← append_assoc before (e ∷ []) es) deletes,
  )

  convert_arguments-Fate :
      (i : ℕ) (before : List (Entry F)) (args : List (Zval A F)) (h h' : Heap F) (r : Arguments F)
      → convert_arguments zend self i before args h ≡ ok (r, h')
      → Fate i before args h r h'
  unfolding convert_arguments
  convert_arguments-Fate i before [] h h' r run =
      let same : converted before ≡ r = cc in
      let heap : h ≡ h' = cc in rw (← same) ([], sym (append-nil before), heap)
  convert_arguments-Fate i before (z ∷ zs) h h' r run =
      let (s, converts, run_1) = bind-ok (convert_zval_to_entry zend self z h) _ run in
      elim (Option-cases s.0) [
        | inl nothing ↦
            let (h2, deletes, run_2) =
              bind-ok (delete_values self before s.1) _ (rw nothing at run_1) in
            let same : refused (i + 1) ≡ r = cc in
            let heap : h2 ≡ h' = cc in
            let here : convert_zval_to_entry zend self z h ≡ ok (none, s.1) =
              converts ∙ ap (λ o. ok (o, s.1)) nothing in
            rw (← same)
              (0, [], s.1, omega arith, here, rw (append-nil before, deletes) (ap ok heap))
        | inr (e, it) ↦
            Fate-more i before z zs h s.1 h' e r (converts ∙ ap (λ o. ok (o, s.1)) it)
              (convert_arguments-Fate (i + 1) (before ++ (e ∷ [])) zs s.1 h' r (rw it at run_1))
      ]

  -- When the part that the three methods share, from the conversion of the arguments on, returns,
  -- then either all arguments were converted, each by itself and in order, and the task with these
  -- entries is at the end of the list of the thread; or the arguments before one were converted,
  -- this one was refused and its number is reported, the entries made before it are deleted, and
  -- the thread is as it was. `malloc` is to return an address that no node has.
  pub add_task-Outcome :
      (address : ℕ) (make : List (Entry F) → Task F) (args : List (Zval A F))
      (queued : List (Task F)) (t t' : Thread F) (h h' : Heap F) (r : Added)
      → Waits t queued
      → address ≢ 0
      → t.tasks.cells address ≡ none
      → add_task zend self address make args t h ≡ ok (r, t', h')
      → Outcome make args queued t h r t' h'
  unfolding add_task
  add_task-Outcome address make args queued t t' h h' r w nz unused run =
      let (s, converting, run_1) = bind-ok (convert_arguments zend self 0 [] args h) _ run in
      decided s.0 s.1 (convert_arguments-Fate 0 [] args h s.1 s.0 converting) run_1
    where
      decided :
          (result : Arguments F) (h1 : Heap F)
          → Fate 0 [] args h result h1
          → (◌≡◌ {A = Run (Added × Thread F × Heap F)}
              (elim result [
                | refused i ↦ ok (failed_to_serialise_argument i, t, h1)
                | converted entries ↦
                    push_task self address (make entries) t >>= λ t'. ok (added, t', h1)
              ])
              (ok (r, t', h')))
          → Outcome make args queued t h r t' h'
      decided (refused k) h1 (j, es, h2, is, refuses, deletes) e =
          let same : failed_to_serialise_argument k ≡ r = cc in
          let heap : h1 ≡ h' = cc in
          rw (← same) (cc, (j, es, h2, omega (arith, is), refuses, deletes ∙ ap ok heap))
      decided (converted all) h1 (es, is, converts) e =
          let (t1, pushed, e1) = bind-ok (push_task self address (make all) t) _ e in
          let same : added ≡ r = cc in
          let same_thread : t1 ≡ t' = cc in
          let heap : h1 ≡ h' = cc in
          rw (← same, ← same_thread, ← heap)
            (
              es,
              converts,
              rw (← is) (push_task-Waits self address (make all) t t1 queued w nz unused pushed),
            )
