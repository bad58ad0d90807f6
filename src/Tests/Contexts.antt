-- ===== src/Tests/Contexts.antt =====
-- A class `A` with a method, a class `B` that extends it, a function, a constant and a directive go to
-- a new thread.
use mathlib.Core.Option
use pht.Common.{
  ℕ, sym, inl, inr, ◌+◌, ◌≡◌, ◌≢◌, refl, ap, ◌∙◌, Bool, true, false, [], ◌∷◌, Option, none, some,
  if◌then◌else◌, leb, ◌&&◌, Returns, arith, map,
}
use pht.Common.Int.{pos}
use pht.PhtString.{Bytes, strncmp_zero}
use pht.Engine.{Str, Value, long, object, reference, Memory, emalloc}
use pht.Engine.Meaning.{meaning}
use pht.Copy.Tables.{
  Table, zend_hash_find, zend_hash_add, Extends, found_or, find-add_kept, find-add,
  found_or-inverse, bytes_eq, bytes_eq-eq,
}
use pht.Copy.Functions.{
  class_type, code, Block, OpArray, Function, user_function, internal_function, Copying,
  copy_static_variables, copy_zend_op_array, copy_functions,
}
use pht.Copy.Statics.{expected_static, copy_static_variables-expected}
use pht.Copy.OpArrays.{Named}
use pht.Copy.Prototypes.{IsCopyable, IsCopyOf, copy_zend_op_array-IsCopyOf}
use pht.Copy.FunctionTables.{shown, shown_for, AllCopyable, taken, copy_functions-shown}
use pht.Copy.Settings.{IsRegistration}
use pht.Copy.Constants.{Constant, IniEntry, Ini, copy_ini_directives}
use pht.Copy.Directives.{
  setting, merged_at, Handled, Differ, DistinctKeys, copy_ini_directives-merged,
}
use pht.Copy.Classes.{
  Fields, Class, user_class, no_class, class, no_classes, no_aliases, no_precedences, NewClass,
  Loading,
}
use pht.Copy.Loading.{copy_class, copy_ces}
use pht.Copy.Identity.{Loadable, Outcome, Grows}
use pht.Copy.Outcomes.{copy_class-Outcome}
use pht.Copy.Registration.{AllRegistered, Origins, copy_ces-Registers, Present-zend_hash_add}
use pht.Copy.Context.{
  ParentGlobals, Globals, IsReady, HasContext, copy_executor_globals,
  copy_executor_globals-HasContext,
}
use pht.Tests.Copying.{zend_string_dup, keeps, interned, owned, memory, pair}

-- Letters become small; the other bytes stay.
abbrev lower_byte : ℕ → ℕ
lower_byte c = if leb 65 c && leb c 90 then c + 32 else c

abbrev lower : Bytes → Bytes
lower b = map lower_byte b

abbrev zend_string_tolower : Str → Memory → Str × Memory
zend_string_tolower s m =
    (record { address = m.next; bytes = lower s.bytes; interned = false }, emalloc m)

lowers : (s : Str) (m : Memory) → (zend_string_tolower s m).0.bytes ≡ lower s.bytes
lowers s m = refl

abbrev zend_lookup_class : Bytes → Option ℕ
zend_lookup_class b = some 900

abbrev constant_key : Str → ℕ → Bytes
constant_key name flags = name.bytes

abbrev zend_register_constant : Constant → Table Constant → Memory → Table Constant × Memory
zend_register_constant c t m = (zend_hash_add t c.name c, m)

registers :
    (c : Constant) (t : Table Constant) (m : Memory)
    → IsRegistration constant_key c t (zend_register_constant c t m).0
registers c t m = (
  (λ b w h. find-add_kept t c.name c b w h),
  Present-zend_hash_add t c.name c,
  λ b v found.
      elim (found_or-inverse (zend_hash_find t b) (bytes_eq c.name.bytes b) c v
        (sym (find-add t c.name c b) ∙ found)) [
          | inl there ↦ inl there
          | inr (same, is) ↦ inr (bytes_eq-eq c.name.bytes b same, rw (← is) refl)
        ],
)

abbrev on_modify : ℕ → Str → ℕ → ℕ
on_modify handler value world = world + 1

abbrev no_names : Copying
no_names = record { memory = memory; file_names = [] }

no_names-Named : Named []
unfolding zend_hash_find
no_names-Named b v h = absurd (cc h)

-- function f(A $a): int, with static $s = ['a' => 7, 'b' => 'x'] and static $o = an object.
abbrev statics : Table Value
statics = (interned (115 ∷ []), reference 20 pair) ∷ (interned (111 ∷ []), object 30) ∷ []

abbrev op_array : OpArray ℕ
op_array = record {
  kind = 2;
  arg_flags = 0 ∷ 0 ∷ 0 ∷ [];
  fn_flags = record { has_return_type = true; variadic = false; others = 0 };
  function_name = interned (102 ∷ []);
  scope = none;
  prototype = none;
  num_args = 1;
  required_num_args = 1;
  arg_info = record {
    address = 40;
    infos =
        record { name = none; arg_type = code 4; pass_by_reference = 0; is_variadic = false }
        ∷ record {
          name = some (interned (97 ∷ []));
          arg_type = class_type false (owned 41 (65 ∷ []));
          pass_by_reference = 0;
          is_variadic = false;
        }
        ∷ [];
    at = 1;
  };
  refcount = record { address = 42; contents = 1 };
  temporaries = 1;
  vars = record { address = 43; contents = interned (97 ∷ []) ∷ [] };
  live_range = none;
  try_catch_array = none;
  static_variables = some (record { address = 44; contents = statics });
  filename = interned (112 ∷ []);
  line_start = 1;
  line_end = 3;
  doc_comment = none;
  early_binding = 0;
  literals = record { address = 45; contents = pair ∷ [] };
  opcodes = record { address = 46; contents = 61 ∷ 62 ∷ [] };
  cache_size = 0;
  run_time_cache = some 47;
  reserved = [];
}

op_array-IsCopyable : IsCopyable op_array
op_array-IsCopyable = ((refl, omega arith), (tt, (tt, tt)))

abbrev functions : Table (Function ℕ ℕ)
functions =
    (interned (102 ∷ []), user_function 50 op_array)
    ∷ (interned (103 ∷ []), internal_function 51 7)
    ∷ []

functions-AllCopyable : AllCopyable functions
functions-AllCopyable = (op_array-IsCopyable, (tt, tt))

copy_static_variables-expected_example :
    Returns
      (copy_static_variables zend_string_dup
        (some (record { address = 44; contents = statics }))
        memory)
      (λ r.
        (new : Block (Table Value)) × (r.0 ≡ some new)
        × ((b : Bytes)
            → Option.map meaning (zend_hash_find new.contents b)
              ≡ Option.map expected_static (zend_hash_find statics b)))
copy_static_variables-expected_example =
    copy_static_variables-expected zend_string_dup keeps
      (record { address = 44; contents = statics }) memory (tt, (tt, tt))

copy_zend_op_array-IsCopyOf_example :
    Returns (copy_zend_op_array zend_string_dup op_array (some 60) no_names) (λ r.
      IsCopyOf op_array (some 60) r.0
      × (zend_hash_find r.1.file_names (112 ∷ []) ≡ some r.0.filename)
      × Extends [] r.1.file_names
      × Named r.1.file_names)
copy_zend_op_array-IsCopyOf_example =
    copy_zend_op_array-IsCopyOf zend_string_dup keeps op_array (some 60) no_names
      op_array-IsCopyable no_names-Named

copy_functions-shown_example :
    Returns (copy_functions zend_string_dup [] functions none no_names) (λ r.
      ((b : Bytes)
        → Option.map shown (zend_hash_find r.0 b)
          ≡ found_or
              (Option.map shown (zend_hash_find [] b))
              (Option.map (shown_for none) (zend_hash_find (taken none functions) b)))
      × Extends [] r.1.file_names
      × Named r.1.file_names)
copy_functions-shown_example =
    copy_functions-shown zend_string_dup keeps [] functions none no_names functions-AllCopyable
      no_names-Named

-- class A { function f(A $a): int }, and class B extends A.
abbrev fields : Bytes → Fields ℕ ℕ ℕ
fields name = record {
  name = interned name;
  anonymous = false;
  ce_flags = 0;
  default_properties = some (pair ∷ object 30 ∷ []);
  default_static_members = none;
  function_table = functions;
  properties_info = [];
  constants_table = [];
  hooks = 5;
  filename = interned (112 ∷ []);
  line_start = 1;
  line_end = 9;
  doc_comment = none;
}

abbrev class_a : Class (Fields ℕ ℕ ℕ)
class_a = user_class (fields (65 ∷ [])) no_class no_classes no_classes no_aliases no_precedences

abbrev class_b : Class (Fields ℕ ℕ ℕ)
class_b =
    user_class (fields (66 ∷ [])) (class class_a) no_classes no_classes no_aliases no_precedences

class_a-Loadable : Loadable class_a
unfolding Loadable
class_a-Loadable = (((tt, (tt, tt)), tt, functions-AllCopyable), tt, tt, tt, tt, tt)

class_b-Loadable : Loadable class_b
unfolding Loadable
class_b-Loadable = (((tt, (tt, tt)), tt, functions-AllCopyable), class_a-Loadable, tt, tt, tt, tt)

abbrev loading : Loading (NewClass ℕ ℕ ℕ)
loading = record { copying = no_names; created = [] }

copy_class-Outcome_example :
    Returns
      (copy_class zend_string_dup zend_string_tolower zend_lookup_class
        ((interned (97 ∷ []), 70) ∷ [])
        class_b
        loading)
      (λ r.
        Outcome lower zend_lookup_class ((interned (97 ∷ []), 70) ∷ []) class_b r
        × (Named r.1.copying.file_names × Grows loading.created r.1.created))
copy_class-Outcome_example =
    copy_class-Outcome zend_string_dup keeps lower zend_string_tolower lowers zend_lookup_class
      ((interned (97 ∷ []), 70) ∷ []) class_b loading class_b-Loadable no_names-Named

copy_ces-Registers_example :
    Returns
      (copy_ces zend_string_dup zend_string_tolower zend_lookup_class []
        (class_a ∷ class_b ∷ [])
        loading)
      (λ r.
        Extends [] r.0
        × AllRegistered lower r.0 (class_a ∷ class_b ∷ [])
        × (Named r.1.copying.file_names
            × Origins lower [] (class_a ∷ class_b ∷ []) r.1.created r.0))
copy_ces-Registers_example =
    copy_ces-Registers zend_string_dup keeps lower zend_string_tolower lowers zend_lookup_class []
      (class_a ∷ class_b ∷ []) loading (class_a-Loadable, (class_b-Loadable, tt)) no_names-Named

-- The directive `m`, which is 5 in the old thread and 3 in the new one.
abbrev directive : Bytes → IniEntry
directive v = record {
  value = some (interned v);
  orig_value = none;
  modifiable = 7;
  orig_modifiable = 0;
  modified = false;
  on_modify = some 1;
}

-- A directive `d` that both threads have alike, without a handler.
abbrev plain : IniEntry
plain = record (directive (49 ∷ [])) { on_modify = none }

abbrev ini : Ini ℕ
ini = record {
  directives = (interned (109 ∷ []), directive (51 ∷ [])) ∷ (interned (100 ∷ []), plain) ∷ [];
  modified_directives = none;
  world = 0;
  memory = memory;
}

abbrev old_directives : Table IniEntry
old_directives = (interned (109 ∷ []), directive (53 ∷ [])) ∷ (interned (100 ∷ []), plain) ∷ []

handled_if :
    (c d : Bool) (e o : IniEntry)
    → (if c then some (directive (51 ∷ [])) else (if d then some plain else none)) ≡ some e
    → (if c then some (directive (53 ∷ [])) else (if d then some plain else none)) ≡ some o
    → Differ o.value e.value
    → e.on_modify ≢ none
unfolding strncmp_zero
handled_if true d e o h k differ n =
    let same : directive (51 ∷ []) ≡ e = cc in absurd (cc (ap (λ x. x.on_modify) same ∙ n))
handled_if false true e o h k differ n =
    let same_e : plain ≡ e = cc in
    let same_o : plain ≡ o = cc in
    let no : true ≡ false = rw (← same_o, ← same_e) at differ in absurd (cc no)
handled_if false false e o h k differ n = absurd (cc h)

ini-Handled : Handled ini.directives old_directives
unfolding zend_hash_find
ini-Handled b e o h k = handled_if (bytes_eq (109 ∷ []) b) (bytes_eq (100 ∷ []) b) e o h k

old_directives-DistinctKeys : DistinctKeys old_directives
unfolding zend_hash_find bytes_eq
old_directives-DistinctKeys = (refl, (refl, tt))

copy_ini_directives-merged_example :
    Returns (copy_ini_directives zend_string_dup on_modify ini old_directives) (λ r.
      (b : Bytes)
      → Option.map setting (zend_hash_find r.directives b)
        ≡ merged_at (zend_hash_find ini.directives b) (zend_hash_find old_directives b))
copy_ini_directives-merged_example =
    copy_ini_directives-merged zend_string_dup keeps on_modify ini old_directives ini-Handled
      old_directives-DistinctKeys

abbrev answer : Constant
answer = record { value = long (pos 42); name = interned (75 ∷ []); flags = 1; module_number = 3 }

abbrev parent : ParentGlobals ℕ ℕ ℕ
parent = record {
  included_files = (interned (112 ∷ []), long (pos 1)) ∷ [];
  function_table = functions;
  class_table = class_a ∷ class_b ∷ [];
  zend_constants = (interned (75 ∷ []), answer) ∷ [];
  ini_directives = old_directives;
}

abbrev blank_globals : Globals ℕ ℕ ℕ
blank_globals = record {
  included_files = [];
  function_table = [];
  class_table = [];
  zend_constants = [];
  ini = ini;
}

parent-IsReady : IsReady constant_key parent blank_globals loading
parent-IsReady = record {
  functions = functions-AllCopyable;
  classes = (class_a-Loadable, (class_b-Loadable, tt));
  constants = (refl, tt);
  handled = ini-Handled;
  distinct = old_directives-DistinctKeys;
  named = no_names-Named;
}

copy_executor_globals-HasContext_example :
    Returns
      (copy_executor_globals zend_string_dup zend_string_tolower zend_lookup_class
        zend_register_constant on_modify parent blank_globals loading)
      (λ r. HasContext lower parent blank_globals r.0 r.1.created)
copy_executor_globals-HasContext_example =
    copy_executor_globals-HasContext zend_string_dup keeps lower zend_string_tolower lowers
      zend_lookup_class constant_key zend_register_constant registers on_modify parent blank_globals
      loading parent-IsReady
