-- ===== src/Copy/Context.antt =====
-- copy_execution_context and copy_executor_globals of src/pht_copy.c: everything that a new thread takes
-- from its parent, in the order of the calls.
use mathlib.Core.Option
use pht.Common.{ℕ, ◌≡◌, refl, List, Option, none, some, ◌⊎◌, Run, ok, ◌>>=◌, Returns, bind-Returns}
use pht.PhtString.{Bytes}
use pht.Engine.{Str, Value, Memory, StringDup, KeepsBytes}
use pht.Copy.Tables.{Table, zend_hash_find, Extends, found_or}
use pht.Copy.Functions.{Function, with_memory, copy_functions}
use pht.Copy.OpArrays.{Named}
use pht.Copy.FunctionTables.{shown, shown_for, AllCopyable, taken, copy_functions-shown}
use pht.Copy.Constants.{
  Constant, IniEntry, Ini, copy_included_files, copy_global_constants, copy_ini_directives,
}
use pht.Copy.Settings.{
  presence, Keyed, Covers, SaidBy, IsRegistration, copy_included_files-presence,
  copy_global_constants-Covers,
}
use pht.Copy.Directives.{setting, merged_at, Handled, DistinctKeys, copy_ini_directives-merged}
use pht.Copy.Classes.{Fields, Class, NewClass, Loading, taking}
use pht.Copy.Loading.{copy_ces}
use pht.Copy.Registration.{AllLoadable, AllRegistered, Origins, copy_ces-Registers}

-- The executor globals of the parent that are read.
pub record ParentGlobals (Op Internal Hooks : Type 0) : Type 0 where
  pub included_files : Table Value
  pub function_table : Table (Function Op Internal)
  pub class_table : List (Class (Fields Op Internal Hooks))
  pub zend_constants : Table Constant
  pub ini_directives : Table IniEntry

-- Those of the new thread that are written.
pub record Globals (Op Internal World : Type 0) : Type 0 where
  pub included_files : Table Value
  pub function_table : Table (Function Op Internal)
  pub class_table : Table ℕ
  pub zend_constants : Table Constant
  pub ini : Ini World

module _ (zend_string_dup : StringDup) (zend_string_tolower : Str → Memory → Str × Memory)
    (zend_lookup_class : Bytes → Option ℕ)
    (zend_register_constant : Constant → Table Constant → Memory → Table Constant × Memory)
    {World : Type 0} (on_modify : ℕ → Str → World → World) {Op Internal Hooks : Type 0} where
  unfoldable pub copy_executor_globals :
      ParentGlobals Op Internal Hooks
      → Globals Op Internal World
      → Loading (NewClass Op Internal Hooks)
      → Run (Globals Op Internal World × Loading (NewClass Op Internal Hooks))
  copy_executor_globals old new s =
      let (included, m1) =
        copy_included_files zend_string_dup new.included_files old.included_files
          s.copying.memory in
      copy_functions zend_string_dup new.function_table old.function_table none
        (with_memory s.copying m1)
      >>= λ f.
          copy_ces zend_string_dup zend_string_tolower zend_lookup_class new.class_table
            old.class_table (record s { copying = f.1 })
          >>= λ c.
              let (constants, m4) =
                copy_global_constants zend_string_dup zend_string_tolower zend_register_constant
                  new.zend_constants old.zend_constants c.1.copying.memory in
              copy_ini_directives zend_string_dup on_modify (record new.ini { memory = m4 })
                old.ini_directives
              >>= λ i. ok (
                record {
                  included_files = included;
                  function_table = f.0;
                  class_table = c.0;
                  zend_constants = constants;
                  ini = i;
                },
                taking c.1 i.memory,
              )

-- What copying needs of the parent and of the new thread.
pub record IsReady {Op Internal Hooks World : Type 0} (constant_key : Str → ℕ → Bytes)
    (old : ParentGlobals Op Internal Hooks) (new : Globals Op Internal World)
    (s : Loading (NewClass Op Internal Hooks)) : Type 0 where
  pub functions : AllCopyable old.function_table
  pub classes : AllLoadable old.class_table
  pub constants : Keyed constant_key old.zend_constants
  pub handled : Handled new.ini.directives old.ini_directives
  pub distinct : DistinctKeys old.ini_directives
  pub named : Named s.copying.file_names

-- What the new thread has afterwards.
pub record HasContext {Op Internal Hooks World : Type 0} (lower : Bytes → Bytes)
    (old : ParentGlobals Op Internal Hooks) (new after : Globals Op Internal World)
    (made : List (ℕ × NewClass Op Internal Hooks)) : Type 0 where
  pub included_files :
      (b : Bytes)
      → Option.map presence (zend_hash_find after.included_files b)
        ≡ found_or
            (Option.map presence (zend_hash_find new.included_files b))
            (Option.map presence (zend_hash_find old.included_files b))
  pub functions :
      (b : Bytes)
      → Option.map shown (zend_hash_find after.function_table b)
        ≡ found_or
            (Option.map shown (zend_hash_find new.function_table b))
            (Option.map (shown_for none) (zend_hash_find (taken none old.function_table) b))
  pub classes_kept : Extends new.class_table after.class_table
  pub classes : AllRegistered lower after.class_table old.class_table
  pub classes_from : Origins lower new.class_table old.class_table made after.class_table
  pub constants_kept : Extends new.zend_constants after.zend_constants
  pub constants : Covers lower after.zend_constants old.zend_constants
  pub constants_from :
      (b : Bytes) (v : Constant)
      → zend_hash_find after.zend_constants b ≡ some v
      → (zend_hash_find new.zend_constants b ≡ some v) ⊎ SaidBy b v old.zend_constants
  pub directives :
      (b : Bytes)
      → Option.map setting (zend_hash_find after.ini.directives b)
        ≡ merged_at (zend_hash_find new.ini.directives b) (zend_hash_find old.ini_directives b)

module _ (zend_string_dup : StringDup) (keeps : KeepsBytes zend_string_dup) (lower : Bytes → Bytes)
    (zend_string_tolower : Str → Memory → Str × Memory)
    (lowers : (s : Str) (m : Memory) → (zend_string_tolower s m).0.bytes ≡ lower s.bytes)
    (zend_lookup_class : Bytes → Option ℕ) (constant_key : Str → ℕ → Bytes)
    (zend_register_constant : Constant → Table Constant → Memory → Table Constant × Memory)
    (registers : (c : Constant) (t : Table Constant) (m : Memory)
      → IsRegistration constant_key c t (zend_register_constant c t m).0)
    {World : Type 0} (on_modify : ℕ → Str → World → World) {Op Internal Hooks : Type 0} where
  -- For functions and classes that can be copied, constants under the keys of their registration,
  -- and directives with distinct names, those whose values differ with handlers, copying the
  -- executor globals returns. The new thread then has its own and the old thread's included files,
  -- its own functions and copies of the old user functions, its own classes and every named class
  -- of the old program, each class in the table being its own or one made with what an old class
  -- of that name has; its own constants and for each old constant one under its key or its
  -- lower-case key, each constant in the table being its own or one that says what the old one
  -- under this key says; and the merged directives. The engine's functions are to do what is
  -- documented: zend_string_dup keeps the bytes, zend_string_tolower gives the lower-case form,
  -- and zend_register_constant keeps the constants and adds the one it is given, under its key.
  pub copy_executor_globals-HasContext :
      (old : ParentGlobals Op Internal Hooks) (new : Globals Op Internal World)
      (s : Loading (NewClass Op Internal Hooks))
      → IsReady constant_key old new s
      → Returns
          (copy_executor_globals zend_string_dup zend_string_tolower zend_lookup_class
            zend_register_constant on_modify old new s)
          (λ r. HasContext lower old new r.0 r.1.created)
  unfolding copy_executor_globals
  copy_executor_globals-HasContext old new s ready =
      let (included, m1) =
        copy_included_files zend_string_dup new.included_files old.included_files
          s.copying.memory in
      bind-Returns _ _
        (copy_functions-shown zend_string_dup keeps new.function_table old.function_table none
          (with_memory s.copying m1) ready.functions ready.named)
        λ f (functions, files, named).
          bind-Returns _ _
            (copy_ces-Registers zend_string_dup keeps lower zend_string_tolower lowers
              zend_lookup_class new.class_table old.class_table (record s { copying = f.1 })
              ready.classes named)
            λ c (kept, registered, (named', origins)).
              let m3 = c.1.copying.memory in
              let (constants, m4) =
                copy_global_constants zend_string_dup zend_string_tolower zend_register_constant
                  new.zend_constants old.zend_constants m3 in
              let (constants_kept, covers, said) =
                copy_global_constants-Covers zend_string_dup keeps lower zend_string_tolower lowers
                  constant_key zend_register_constant registers new.zend_constants
                  old.zend_constants m3 ready.constants in
              bind-Returns _ _
                (copy_ini_directives-merged zend_string_dup keeps on_modify
                  (record new.ini { memory = m4 }) old.ini_directives ready.handled ready.distinct)
                λ i merged. (
                  _,
                  refl,
                  record {
                    included_files =
                        copy_included_files-presence zend_string_dup keeps new.included_files
                          old.included_files s.copying.memory;
                    functions = functions;
                    classes_kept = kept;
                    classes = registered;
                    classes_from = origins;
                    constants_kept = constants_kept;
                    constants = covers;
                    constants_from = said;
                    directives = merged;
                  },
                )
