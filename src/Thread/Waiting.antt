-- ===== src/Thread/Waiting.antt =====
-- src/classes/thread.c and pht.c: how often pthread_join is called for a thread until its parent's
-- request has ended, and when the end of the request reads memory that was given back.
use mathlib.Core.Option
use pht.Common.{
  ℕ, ◌+◌, ◌<◌, ◌≡◌, ◌≢◌, refl, sym, ap, ◌∙◌, Bool, true, false, List, [], ◌∷◌, ◌++◌, Option, none,
  some, ◌==◌, if◌then◌else◌, on_value, Run, ok, fault, ◌>>=◌, Returns, bind-Returns, arith,
  Bool-cases, ==_iff, ==_refl, eq_false, inl, inr, ◌⊎◌,
}
use pht.Thread.{
  Thread, Status, not_started, starting_up, started, joined, thread_join_destroy, lock_default,
}
use pht.Thread.Children.{
  Globals, Process, place, count, index_del, join_child, join_children, th_free_obj,
  request_shutdown,
}

count-append : (a : ℕ) (xs ys : List ℕ) → count a (xs ++ ys) ≡ count a xs + count a ys
unfolding count
count-append a [] ys = omega arith
count-append a (b ∷ bs) ys = omega (arith, count-append a bs ys)

-- A worker was made by pthread_create.
abbrev pub was_started : Status → Bool
was_started not_started = false
was_started s = true

-- No element of the table points to `p`.
abbrev pub Apart : ℕ → List (ℕ × ℕ) → Type 0
Apart p [] = Unit {0}
Apart p ((h, q) ∷ table) = (p ≢ q) × Apart p table

-- What `thread_ctor` makes of a table: the index of each element is its pointer, and no two are the same.
abbrev pub Distinct : List (ℕ × ℕ) → Type 0
Distinct [] = Unit {0}
Distinct ((h, p) ∷ table) = (h ≡ p) × Apart p table × Distinct table

module _ {F : Type 0} where
  abbrev pub owes : Option (Thread F) → ℕ
  owes none = 0
  owes (some t) = if was_started t.status then 1 else 0

  -- How often the destructor of the table will wait for the thread at `a`: once for each element that
  -- points to it, if the thread was started.
  unfoldable pub due : (ℕ → Option (Thread F)) → List (ℕ × ℕ) → ℕ → ℕ
  due threads [] a = 0
  due threads ((h, p) ∷ table) a = (if p == a then owes (threads a) else 0) + due threads table a

  -- There is a thread at `p`, no one holds its mutex, and no one has waited for its worker yet.
  abbrev pub Ready : Process F → ℕ → Type 0
  Ready w p =
      (t : Thread F) × (w.threads p ≡ some t)
      × (t.lock ≡ none)
      × (was_started t.status ≡ true → count p w.waited ≡ 0)

  abbrev pub AllReady : Process F → List (ℕ × ℕ) → Type 0
  AllReady w [] = Unit {0}
  AllReady w ((h, p) ∷ table) = Ready w p × AllReady w table

  -- What the destructor does for `p`: the other threads stay as they are.
  record Waits (p : ℕ) (w w' : Process F) : Type 0 where
    waited :
        (a : ℕ) → count a w'.waited ≡ count a w.waited + (if p == a then owes (w.threads a) else 0)
    others : (a : ℕ) → p ≢ a → w'.threads a ≡ w.threads a

  thread_join_destroy-free :
      (self : ℕ) (t : Thread F) (s : Status)
      → t.status ≡ s
      → t.lock ≡ none
      → (t' : Thread F) × (thread_join_destroy self t ≡ ok (was_started t.status, t'))
  unfolding thread_join_destroy lock_default
  thread_join_destroy-free self t not_started e f = (t, rw e refl)
  thread_join_destroy-free self t starting_up e f =
      (record t { lock = none; status = joined }, rw (e, f) refl)
  thread_join_destroy-free self t started e f =
      (record t { lock = none; status = joined }, rw (e, f) refl)
  thread_join_destroy-free self t joined e f =
      (record t { lock = none; status = joined }, rw (e, f) refl)

  place-other :
      (threads : ℕ → Option (Thread F)) (p a : ℕ) (t : Thread F)
      → p ≢ a
      → place threads p t a ≡ threads a
  place-other threads p a t n = rw (eq_false p a n) refl

  owes-at :
      (threads : ℕ → Option (Thread F)) (p a : ℕ) (t : Thread F) (b : Bool)
      → threads p ≡ some t
      → was_started t.status ≡ b
      → (if p == a then owes (threads a) else 0) ≡ (if p == a then (if b then 1 else 0) else 0)
  owes-at threads p a t b at s = elim (Bool-cases (p == a)) [
    | inl e ↦ let here : threads a ≡ some t = rw (sym ((==_iff p a).0 e)) at in rw (e, here, s) refl
    | inr e ↦ rw e refl
  ]

  join_child-Waits :
      (self p : ℕ) (w : Process F) → Ready w p → Returns (join_child self p w) (Waits p w)
  unfolding join_child count
  join_child-Waits self p w (t, at, free, first) =
      let (t', runs) = thread_join_destroy-free self t t.status refl free in
      elim (Bool-cases (was_started t.status)) [
        | inl s ↦ (
          record { threads = place w.threads p t'; waited = w.waited ++ (p ∷ []) },
          rw (at, runs, s, first s) refl,
          record {
            waited = λ a.
                omega (arith, count-append a w.waited (p ∷ []), owes-at w.threads p a t true at s);
            others = λ a n. place-other w.threads p a t' n;
          },
        )
        | inr s ↦ (
          record w { threads = place w.threads p t' },
          rw (at, runs, s) refl,
          record {
            waited = λ a. ground (arith, owes-at w.threads p a t false at s);
            others = λ a n. place-other w.threads p a t' n;
          },
        )
      ]

  -- Where only `p` changes, a table without `p` keeps what is said of it.
  due-Apart :
      (p : ℕ) (threads later : ℕ → Option (Thread F)) (table : List (ℕ × ℕ)) (a : ℕ)
      → ((b : ℕ) → p ≢ b → later b ≡ threads b)
      → Apart p table
      → due later table a ≡ due threads table a
  unfolding due
  due-Apart p threads later [] a same h = refl
  due-Apart p threads later ((i, q) ∷ table) a same (n, h) = elim (Bool-cases (q == a)) [
    | inl e ↦
        let here : later a ≡ threads a = same a (λ k. n (k ∙ sym ((==_iff q a).0 e))) in
        rw (here, due-Apart p threads later table a same h) refl
    | inr e ↦ rw (e, due-Apart p threads later table a same h) refl
  ]

  AllReady-Apart :
      (p : ℕ) (w later : Process F) (table : List (ℕ × ℕ))
      → ((a : ℕ) → p ≢ a → later.threads a ≡ w.threads a)
      → ((a : ℕ) → p ≢ a → count a later.waited ≡ count a w.waited)
      → Apart p table
      → AllReady w table
      → AllReady later table
  AllReady-Apart p w later [] same waited h all = tt
  AllReady-Apart p w later ((i, q) ∷ table) same waited (n, h) ((t, at, free, first), all) = (
    (t, same q n ∙ at, free, λ s. waited q n ∙ first s),
    AllReady-Apart p w later table same waited h all,
  )

  Waits-elsewhere :
      {p : ℕ} {w later : Process F} (a : ℕ)
      → Waits p w later
      → p ≢ a
      → count a later.waited ≡ count a w.waited
  Waits-elsewhere {p} a waits n =
      let other = eq_false p a n in ground (arith, waits.waited a, other)

  join_children-due :
      (self : ℕ) (table : List (ℕ × ℕ)) (w : Process F)
      → Distinct table
      → AllReady w table
      → Returns
          (join_children self table w)
          λ w'. (a : ℕ) → count a w'.waited ≡ count a w.waited + due w.threads table a
  unfolding join_children due
  join_children-due self [] w d h = (w, refl, λ a. omega arith)
  join_children-due self ((i, p) ∷ table) w (own, apart, d) (r, all) =
      bind-Returns (join_child self p w) (λ w'. join_children self table w')
        (join_child-Waits self p w r)
        λ w' waits.
          let ready =
            AllReady-Apart p w w' table waits.others (λ a n. Waits-elsewhere a waits n) apart all in
          let (w'', runs, h) = join_children-due self table w' d ready in
          (
            w'',
            runs,
            λ a. omega (
              arith,
              h a,
              waits.waited a,
              due-Apart p w.threads w'.threads table a waits.others apart,
            ),
          )

  -- An element that points to `p` has been taken out of a table.
  record Splits (w : Process F) (address : ℕ) (table : List (ℕ × ℕ)) (p : ℕ) (rest : List (ℕ × ℕ))
      : Type 0 where
    due_of :
        (a : ℕ)
        → due w.threads table a ≡ (if p == a then owes (w.threads a) else 0) + due w.threads rest a
    ready : AllReady w table → Ready w p × AllReady w rest
    distinct : Distinct table → (p ≡ address) × Apart p rest × Distinct rest
    apart : (q : ℕ) → Apart q table → (q ≢ p) × Apart q rest

  abbrev AllSplits : Process F → ℕ → List (ℕ × ℕ) → Option (ℕ × List (ℕ × ℕ)) → Type 0
  AllSplits w address table none = Distinct table → Apart address table
  AllSplits w address table (some r) = Splits w address table r.0 r.1

  AllSplits-later :
      (w : Process F) (address j q : ℕ) (table : List (ℕ × ℕ)) (o : Option (ℕ × List (ℕ × ℕ)))
      → (j == address) ≡ false
      → AllSplits w address table o
      → AllSplits w address ((j, q) ∷ table) (Option.map (λ r. (r.0, (j, q) ∷ r.1)) o)
  unfolding due
  AllSplits-later w address j q table none n h =
      λ (own, apart, d). ((λ e. ground (arith, own, e, n)), h d)
  AllSplits-later w address j q table (some (p, rest)) n h = record {
    due_of = λ a. omega (arith, h.due_of a);
    ready = λ (here, all). let (r, later) = h.ready all in (r, (here, later));
    distinct = λ (own, apart, d).
        let (is, apart', d') = h.distinct d in
        let (other, apart'') = h.apart q apart in
        (is, ((λ e. other (sym e)), apart'), (own, apart'', d'));
    apart = λ a (first, later). let (other, apart') = h.apart a later in (other, (first, apart'));
  }

  index_del-AllSplits :
      (w : Process F) (table : List (ℕ × ℕ)) (address : ℕ)
      → AllSplits w address table (index_del table address)
  unfolding index_del due
  index_del-AllSplits w [] address = λ d. tt
  index_del-AllSplits w ((j, q) ∷ table) address =
      let later = AllSplits-later w address j q table (index_del table address) in
      elim (Bool-cases (j == address)) [
        | inl same ↦ rw same (record {
          due_of = λ a. refl;
          ready = λ all. all;
          distinct = λ (own, apart, d). (sym own ∙ (==_iff j address).0 same, apart, d);
          apart = λ a h. h;
        })
        | inr other ↦ rw other (later other (index_del-AllSplits w table address))
      ]

  -- The engine calls `th_free_obj`, and then gives the block of the object back.
  abbrev pub give_back : ℕ → Process F → Process F
  give_back address w = record w { threads = λ a. if address == a then none else w.threads a }

  unfoldable pub free_object :
      (self exit_status address : ℕ) → Globals → Process F → Run (Globals × Process F)
  unfolding th_free_obj
  free_object self exit_status address g w =
      th_free_obj self exit_status address g w >>= λ r. ok (r.0, give_back address r.1)

  -- What the threads owe does not change, whoever waits for them.
  record Balanced (g : Globals) (w : Process F) (r : Globals × Process F) : Type 0 where
    distinct : Distinct r.0.child_threads
    ready : AllReady r.1 r.0.child_threads
    balance :
        (a : ℕ)
        → count a r.1.waited + due r.1.threads r.0.child_threads a
          ≡ count a w.waited + due w.threads g.child_threads a

  give_back-other :
      (address a : ℕ) (w : Process F) → address ≢ a → (give_back address w).threads a ≡ w.threads a
  give_back-other address a w n = rw (eq_false address a n) refl

  free_element-Balanced :
      (self address : ℕ) (g : Globals) (w : Process F) (o : Option (ℕ × List (ℕ × ℕ)))
      → Distinct g.child_threads
      → AllReady w g.child_threads
      → AllSplits w address g.child_threads o
      → Returns
          (◌>>=◌ {A = Globals × Process F}
            (on_value o
              (ok (g, w))
              (λ r. join_child self r.0 w >>= λ w'. ok (record g { child_threads = r.1 }, w')))
            λ r. ok (r.0, give_back address r.1))
          (Balanced g w)
  free_element-Balanced self address g w none d all h =
      let apart = h d in
      let same = λ (a : ℕ) (n : address ≢ a). give_back-other address a w n in
      (
        (g, give_back address w),
        refl,
        record {
          distinct = d;
          ready =
              AllReady-Apart address w (give_back address w) g.child_threads same (λ a n. refl)
                apart all;
          balance = λ a.
              ap (λ n. count a w.waited + n)
                (due-Apart address w.threads (give_back address w).threads g.child_threads a same
                  apart);
        },
      )
  free_element-Balanced self address g w (some (p, rest)) d all h =
      let (here, later) = h.ready all in
      let (is, apart, d') = h.distinct d in
      let (w', runs, waits) = join_child-Waits self p w here in
      let others : (a : ℕ) → p ≢ a → (give_back address w').threads a ≡ w.threads a =
        λ a n. give_back-other address a w' (λ e. n (is ∙ e)) ∙ waits.others a n in
      (
        (record g { child_threads = rest }, give_back address w'),
        rw runs refl,
        record {
          distinct = d';
          ready =
              AllReady-Apart p w (give_back address w') rest others
                (λ a n. Waits-elsewhere a waits n) apart later;
          balance = λ a. omega (
            arith,
            h.due_of a,
            waits.waited a,
            due-Apart p w.threads (give_back address w').threads rest a others apart,
          );
        },
      )

  free_object-Balanced :
      (self address : ℕ) (g : Globals) (w : Process F)
      → Distinct g.child_threads
      → AllReady w g.child_threads
      → Returns (free_object self 0 address g w) (Balanced g w)
  unfolding free_object th_free_obj
  free_object-Balanced self address g w d all =
      free_element-Balanced self address g w (index_del g.child_threads address) d all
        (index_del-AllSplits w g.child_threads address)

  -- The objects of threads are freed one after the other; then the request ends.
  unfoldable pub free_and_end :
      (self : ℕ) → List ℕ → Globals → Process F → Run (Globals × Process F)
  unfolding free_object request_shutdown
  free_and_end self [] g w = request_shutdown self g w
  free_and_end self (address ∷ freed) g w =
      free_object self 0 address g w >>= λ r. free_and_end self freed r.0 r.1

  -- Where each element of the table of child threads has its pointer for its index, no two have
  -- the same, every thread is there with a mutex that no one holds, and no worker was waited for
  -- yet: the objects of threads may be freed in any order, without an exit status, before the
  -- request ends. All this returns, no freed block is read and no worker waited for twice; the
  -- table is empty afterwards, and pthread_join was called for each thread of the table once if it
  -- was started, and never if it was not.
  pub free_and_end-due :
      (self : ℕ) (freed : List ℕ) (g : Globals) (w : Process F)
      → Distinct g.child_threads
      → AllReady w g.child_threads
      → Returns (free_and_end self freed g w) λ (g', w').
        (g'.child_threads ≡ [])
        × ((a : ℕ) → count a w'.waited ≡ count a w.waited + due w.threads g.child_threads a)
  unfolding free_and_end request_shutdown
  free_and_end-due self [] g w d all =
      let (w', runs, h) = join_children-due self g.child_threads w d all in
      ((record g { op_array_file_names = []; child_threads = [] }, w'), rw runs refl, (refl, h))
  free_and_end-due self (address ∷ freed) g w d all =
      bind-Returns (free_object self 0 address g w) (λ r. free_and_end self freed r.0 r.1)
        (free_object-Balanced self address g w d all)
        λ (g', w') b.
          let (r, runs, (ends, h)) = free_and_end-due self freed g' w' b.distinct b.ready in
          (r, runs, (ends, λ a. h a ∙ b.balance a))

  -- The thread at `p` was given back, or its worker was waited for already.
  abbrev pub Broken : Process F → ℕ → Type 0
  Broken w p =
      (w.threads p ≡ none)
      ⊎ ((t : Thread F) × (w.threads p ≡ some t)
          × (t.lock ≡ none)
          × (was_started t.status ≡ true)
          × (0 < count p w.waited))

  join_child-Broken : (self p : ℕ) (w : Process F) → Broken w p → join_child self p w ≡ fault
  unfolding join_child
  join_child-Broken self p w (inl gone) = rw gone refl
  join_child-Broken self p w (inr (t, at, free, s, again)) =
      let (t', runs) = thread_join_destroy-free self t t.status refl free in
      let more : (count p w.waited == 0) ≡ false =
        eq_false (count p w.waited) 0 (λ e. omega (arith, e, again)) in
      rw (at, runs, s, more) refl

  Broken-Waits :
      (p q : ℕ) (w later : Process F) → q ≢ p → Waits q w later → Broken w p → Broken later p
  Broken-Waits p q w later n waits (inl gone) = inl (waits.others p n ∙ gone)
  Broken-Waits p q w later n waits (inr (t, at, free, s, again)) =
      inr (t, waits.others p n ∙ at, free, s, omega (arith, again, Waits-elsewhere p waits n))

  join_children-Broken :
      (self : ℕ) (before rest : List (ℕ × ℕ)) (h p : ℕ) (w : Process F)
      → Distinct before
      → Apart p before
      → AllReady w before
      → Broken w p
      → join_children self (before ++ (h, p) ∷ rest) w ≡ fault
  unfolding join_children
  join_children-Broken self [] rest h p w d apart all broken =
      rw (join_child-Broken self p w broken) refl
  join_children-Broken self ((i, q) ∷ before) rest h p w (own, others, d) (n, apart) (r, all)
        broken =
      let (w', runs, waits) = join_child-Waits self q w r in
      let other : q ≢ p = λ e. n (sym e) in
      rw runs (
        join_children-Broken self before rest h p w' d apart
          (AllReady-Apart q w w' before waits.others (λ a m. Waits-elsewhere a waits m) others all)
          (Broken-Waits p q w w' other waits broken))

  -- Where the table of child threads has an element whose block was given back, or whose worker
  -- was started and waited for already, and the threads before it are there, free and not waited
  -- for, the end of the request has undefined behaviour.
  pub request_shutdown-Broken :
      (self : ℕ) (before rest : List (ℕ × ℕ)) (h p : ℕ) (g : Globals) (w : Process F)
      → g.child_threads ≡ before ++ (h, p) ∷ rest
      → Distinct before
      → Apart p before
      → AllReady w before
      → Broken w p
      → request_shutdown self g w ≡ fault
  unfolding request_shutdown
  request_shutdown-Broken self before rest h p g w is d apart all broken =
      rw (is, join_children-Broken self before rest h p w d apart all broken) refl

  -- With an exit status the table keeps its pointer to the block that is given back.
  free_object-Broken :
      (self exit_status p : ℕ) (g : Globals) (w : Process F)
      → exit_status ≢ 0
      → Returns
          (free_object self exit_status p g w)
          λ (g', w'). (g'.child_threads ≡ g.child_threads) × Broken w' p
  unfolding free_object th_free_obj
  free_object-Broken self exit_status p g w n =
      let other = eq_false exit_status 0 n in
      ((g, give_back p w), rw other refl, (refl, inl (rw (==_refl p) refl)))
