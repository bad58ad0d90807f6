-- ===== src/Thread/Children.antt =====
-- src/classes/thread.c and pht.c: the table of child threads. `thread_ctor` enters a thread, the end of
-- the object takes it out, and the end of the request joins what is left.
use mathlib.Core.Option
use pht.Common.{
  ℕ, ◌+◌, Bool, false, List, [], ◌∷◌, ◌++◌, Option, none, some, ◌==◌, if◌then◌else◌, on_value, Run,
  ok, fault, ◌>>=◌, deref,
}
use pht.Queue.{Cells}
use pht.Engine.{Str}
use pht.Copy.Tables.{Table}
use pht.Thread.{Thread, Task, thread_init, thread_join_destroy}

-- zend_pht_globals. An element of `child_threads` has its index and its pointer.
pub record Globals : Type 0 where
  pub parent_thread_ls : ℕ
  pub op_array_file_names : Table Str
  pub child_threads : List (ℕ × ℕ)
  pub skip_qoi_creation : Bool
  pub skip_htoi_creation : Bool
  pub skip_voi_creation : Bool
  pub skip_aioi_creation : Bool

-- The thread objects by address, no address being used again, and the threads that pthread_join was called with, the first first.
pub record Process (F : Type 0) : Type 0 where
  pub threads : ℕ → Option (Thread F)
  pub waited : List ℕ

-- How often a number stands in a list.
unfoldable pub count : ℕ → List ℕ → ℕ
count a [] = 0
count a (b ∷ bs) = (if b == a then 1 else 0) + count a bs

-- zend_hash_index_add_ptr
unfoldable pub index_add : List (ℕ × ℕ) → ℕ → ℕ → List (ℕ × ℕ)
index_add [] h p = (h, p) ∷ []
index_add ((j, q) ∷ table) h p =
    let rest = index_add table h p in if j == h then (j, q) ∷ table else (j, q) ∷ rest

-- zend_hash_index_del: the pointer at the index, for the destructor, and the table without it.
unfoldable pub index_del : List (ℕ × ℕ) → ℕ → Option (ℕ × List (ℕ × ℕ))
index_del [] h = none
index_del ((j, q) ∷ table) h =
    let rest = index_del table h in
    if j == h then some (q, table) else Option.map (λ r. (r.0, (j, q) ∷ r.1)) rest

-- PHP_RINIT_FUNCTION
unfoldable pub request_startup : Globals → Globals
request_startup g = record g {
  op_array_file_names = [];
  child_threads = [];
  skip_qoi_creation = false;
  skip_htoi_creation = false;
  skip_voi_creation = false;
  skip_aioi_creation = false;
}

module _ {F : Type 0} where
  abbrev pub place : (ℕ → Option (Thread F)) → ℕ → Thread F → ℕ → Option (Thread F)
  place threads p t a = if p == a then some t else threads a

  -- `address` is what `ecalloc` returned, `cells` the memory for the nodes of the list of tasks.
  unfoldable pub thread_ctor :
      (address : ℕ) → Cells (Task F) → Globals → Process F → Globals × Process F
  unfolding thread_init index_add
  thread_ctor address cells g w = (
    record g { child_threads = index_add g.child_threads address address },
    record w { threads = place w.threads address (thread_init cells) },
  )

  -- The destructor of the table, on one pointer. A thread that was given back is read, and one that was
  -- waited for is waited for again, only at the price of undefined behaviour.
  unfoldable pub join_child : (self p : ℕ) → Process F → Run (Process F)
  unfolding thread_join_destroy count
  join_child self p w = do
    t ← deref (w.threads p)
    (waits, t') ← thread_join_destroy self t
    if waits
        then (if count p w.waited == 0
            then ok (record { threads = place w.threads p t'; waited = w.waited ++ (p ∷ []) })
            else fault)
        else ok (record w { threads = place w.threads p t' })

  unfoldable pub join_children : (self : ℕ) → List (ℕ × ℕ) → Process F → Run (Process F)
  unfolding join_child
  join_children self [] w = ok w
  join_children self ((h, p) ∷ table) w = join_child self p w >>= λ w'. join_children self table w'

  -- `exit_status` is that of the executor globals; `address` is the thread of the object.
  unfoldable pub th_free_obj :
      (self exit_status address : ℕ) → Globals → Process F → Run (Globals × Process F)
  unfolding join_child index_del
  th_free_obj self exit_status address g w =
      if exit_status == 0
      then (on_value (index_del g.child_threads address) (ok (g, w))
          λ r. join_child self r.0 w >>= λ w'. ok (record g { child_threads = r.1 }, w'))
      else ok (g, w)

  -- PHP_RSHUTDOWN_FUNCTION
  unfoldable pub request_shutdown : (self : ℕ) → Globals → Process F → Run (Globals × Process F)
  unfolding join_children
  request_shutdown self g w = do
    w' ← join_children self g.child_threads w
    ok (record g { op_array_file_names = []; child_threads = [] }, w')
