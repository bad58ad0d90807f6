-- ===== src/Tests/Lifecycle.antt =====
-- pht.c and the table of child threads of src/classes/thread.c: loading the extension, and requests
-- that have made threads.
use pht.Common.{
  ℕ, fault, inr, arith, ◌+◌, ◌*◌, ◌≡◌, refl, false, List, [], ◌∷◌, length, none, some, Run, ok,
  Returns,
}
use pht.PhtString.{Bytes}
use pht.Queue
use pht.Classes.Registration.{Guards, register_classes}
use pht.Extension.{Host, CommonStrings, module_startup, module_shutdown}
use pht.Extension.Interned.{Restored, Fresh, module_startup-shutdown}
use pht.Thread.{Task, Thread, started, joined}
use pht.Thread.Children.{
  Globals, Process, place, thread_ctor, request_startup, request_shutdown, index_add, index_del,
  count, th_free_obj,
}
use pht.Thread.Waiting.{
  Distinct, Broken, free_object, request_shutdown-Broken, AllReady, due, free_and_end,
  free_and_end-due,
}

abbrev hash_func : Bytes → ℕ
hash_func b = 31 * length b

abbrev host : Host ℕ
host = record {
  classes = record { class_table = []; runnable_ce = none; threaded_ce = none };
  memory = record { texts = λ a. none; next = 40 };
  deactivate = some 7;
  saved_deactivate = none;
}

abbrev host-Fresh : Fresh host.memory
host-Fresh a l = refl

module_startup-shutdown_example :
    Returns
      (module_startup hash_func host)
      λ (c, h'). Guards h'.classes × Returns (module_shutdown c h') (Restored host)
module_startup-shutdown_example = module_startup-shutdown hash_func host host-Fresh

-- The classes that start-up leaves.
abbrev classes_of : Run (CommonStrings × Host ℕ) → ℕ
classes_of (ok (c, h)) = length h.classes.class_table
classes_of _ = 0

seven_classes : classes_of (module_startup hash_func host) ≡ 7
unfolding module_startup register_classes
seven_classes = refl

abbrev globals : Globals
globals = record {
  parent_thread_ls = 1;
  op_array_file_names = [];
  child_threads = [];
  skip_qoi_creation = false;
  skip_htoi_creation = false;
  skip_voi_creation = false;
  skip_aioi_creation = false;
}

abbrev cells : Queue.Cells (Task ℕ)
cells a = none

-- A request that makes the threads 10 and 20.
abbrev made : Globals × Process ℕ
unfolding thread_ctor request_startup
made =
    let (g, w) =
      thread_ctor 10 cells (request_startup globals)
        (record { threads = λ a. none; waited = [] }) in
    thread_ctor 20 cells g w

table_of_two : made.0.child_threads ≡ (10, 10) ∷ (20, 20) ∷ []
unfolding made thread_ctor request_startup index_add
table_of_two = refl

-- Both threads of a request were started.
abbrev running : Thread ℕ
running = record {
  lock = none;
  status = started;
  tasks = record { cells = cells; elements = 0; last = 0; size = 0 };
}

abbrev family : Globals
family = record globals { child_threads = (10, 10) ∷ (20, 20) ∷ [] }

abbrev process : Process ℕ
process = record { threads = place (place (λ a. none) 10 running) 20 running; waited = [] }

family-Distinct : Distinct family.child_threads
family-Distinct = (refl, ((λ e. omega (arith, e)), tt), (refl, tt, tt))

process-AllReady : AllReady process family.child_threads
unfolding count
process-AllReady = ((running, refl, refl, λ s. refl), ((running, refl, refl, λ s. refl), tt))

free_and_end-due_example : Returns (free_and_end 0 (20 ∷ []) family process) λ (g', w').
    (g'.child_threads ≡ [])
    × ((a : ℕ)
        → count a w'.waited ≡ count a process.waited + due process.threads family.child_threads a)
free_and_end-due_example =
    free_and_end-due 0 (20 ∷ []) family process family-Distinct process-AllReady

abbrev waited_of : Run (Globals × Process ℕ) → List ℕ
waited_of (ok (g, w)) = w.waited
waited_of _ = []

waits_for_both : waited_of (free_and_end 0 (20 ∷ []) family process) ≡ 20 ∷ 10 ∷ []
unfolding free_and_end free_object th_free_obj index_del request_shutdown count
waits_for_both = refl

-- The second thread was joined by its method.
abbrev second_joined : Process ℕ
second_joined = record {
  threads = place (place (λ a. none) 10 running) 20 (record running { status = joined });
  waited = 20 ∷ [];
}

second_joined-Broken : Broken second_joined 20
unfolding count
second_joined-Broken = inr (record running { status = joined }, refl, refl, refl, omega arith)

second_joined-AllReady : AllReady second_joined ((10, 10) ∷ [])
unfolding count
second_joined-AllReady = ((running, refl, refl, λ s. refl), tt)

request_shutdown-Broken_example : request_shutdown 0 family second_joined ≡ fault
request_shutdown-Broken_example =
    request_shutdown-Broken 0 ((10, 10) ∷ []) [] 20 20 family second_joined refl (refl, tt, tt)
      ((λ e. omega (arith, e)), tt) second_joined-AllReady second_joined-Broken
