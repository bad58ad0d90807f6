-- ===== src/Thread/Tasks.antt =====
-- src/classes/thread.c: the methods that add a task, with the conversion of their arguments.
use pht.Common.{
  ℕ, ◌+◌, Bool, not, List, [], ◌∷◌, ◌++◌, Option, if◌then◌else◌, on_value, Run, ok, ◌>>=◌, wild,
  ref,
}
use pht.PhtString.{Bytes}
use pht.Entry.{Entry, Zval, Heap, Zend, convert_zval_to_entry}
use pht.Thread.{Task, class_task, function_task, file_task, Thread, push_task, delete_values}

-- The arguments, or the number of the one that was refused.
pub data Arguments (F : Type 0) : Type 0 where
  converted : List (Entry F) → Arguments F
  refused : ℕ → Arguments F

pub data Added : Type 0 where
  added : Added
  failed_to_serialise_argument : ℕ → Added
  invalid_callable file_missing file_unreadable : Added

-- What the methods ask of PHP and of the file system. `by_name` gives the array that names the class of the
-- object in a callable array, and nothing where it has a string there.
pub record Outside (A F : Type 0) : Type 0 where
  pub is_callable : Zval A F → Bool
  pub by_name : A → Option A
  pub resolve_path : Bytes → Option Bytes
  pub file_exists : Bytes → Bool
  pub file_readable : Bytes → Bool

module _ {A F : Type 0} (zend : Zend A F) (self : ℕ) where
  -- The loop over the arguments from number `i` on, after `before`. On the first that is refused, those before
  -- it are deleted.
  unfoldable pub convert_arguments :
      (i : ℕ) (before : List (Entry F)) → List (Zval A F) → Heap F → Run (Arguments F × Heap F)
  unfolding convert_zval_to_entry delete_values
  convert_arguments i before [] h = ok (converted before, h)
  convert_arguments i before (z ∷ zs) h = convert_zval_to_entry zend self z h >>= λ r.
      on_value r.0 (delete_values self before r.1 >>= λ h2. ok (refused (i + 1), h2))
        λ e. convert_arguments (i + 1) (before ++ (e ∷ [])) zs r.1

  -- The arguments are converted, and the task that they make is pushed.
  unfoldable pub add_task :
      (address : ℕ)
      → (List (Entry F) → Task F)
      → List (Zval A F)
      → Thread F
      → Heap F
      → Run (Added × Thread F × Heap F)
  unfolding convert_arguments push_task
  add_task address make args t h = do
    (result, h') ← convert_arguments 0 [] args h
    elim result [
      | refused i ↦ ok (failed_to_serialise_argument i, t, h')
      | converted entries ↦ push_task self address (make entries) t >>= λ t'. ok (added, t', h')
    ]

  unfoldable pub add_class_task :
      (address : ℕ) → Bytes → List (Zval A F) → Thread F → Heap F → Run (Added × Thread F × Heap F)
  unfolding add_task
  add_class_task address name args t h = add_task address (class_task name) args t h

  module _ (outside : Outside A F) where
    unfoldable pub callable_value : Zval A F → Zval A F
    callable_value (Zval.array a) = on_value (outside.by_name a) (Zval.array a) (λ b. Zval.array b)
    callable_value z = z

    unfoldable pub add_function_task :
        (address : ℕ)
        → Zval A F
        → List (Zval A F)
        → Thread F
        → Heap F
        → Run (Added × Thread F × Heap F)
    unfolding callable_value convert_zval_to_entry add_task
    add_function_task address callable args t h =
        if outside.is_callable callable
        then (do
          (fn, h') ← convert_zval_to_entry zend self (callable_value callable) h
          add_task address (function_task (on_value fn wild ref)) args t h')
        else ok (invalid_callable, t, h)

    unfoldable pub add_file_task :
        (address : ℕ)
        → Bytes
        → List (Zval A F)
        → Thread F
        → Heap F
        → Run (Added × Thread F × Heap F)
    unfolding add_task
    add_file_task address filename args t h =
        let name = on_value (outside.resolve_path filename) filename (λ path. path) in
        if not (outside.file_exists name)
        then ok (file_missing, t, h)
        else if not (outside.file_readable name)
        then ok (file_unreadable, t, h)
        else add_task address (file_task name) args t h
