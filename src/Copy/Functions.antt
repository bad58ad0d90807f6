-- ===== src/Copy/Functions.antt =====
-- The functions of src/pht_copy.c that copy a function of PHP: its argument information, its static
-- variables, its op array. An opcode (zend_op) and an internal function (zend_internal_function) are
-- copied bit by bit: their types are parameters. The counts of an op array (last, last_var,
-- last_literal, last_live_range, last_try_catch) are the lengths of its lists.
use pht.Common.{
  ℕ, ◌+◌, ◌-◌, Bool, true, false, not, List, [], ◌∷◌, Option, none, some, if◌then◌else◌, ◌==◌, leb,
  length, take, drop, Run, ok, fault, on_value, ◌>>=◌,
}
use pht.Engine.{
  Str, Value, null, string, array, object, resource, reference, constant, constant_ast, table,
  Memory, emalloc, StringDup,
}
use pht.Engine.Duplicate.{pht_zend_array_dup, pht_zend_ast_copy}
use pht.Copy.Tables.{Table, zend_hash_find, zend_hash_add}

-- zend_type: a code, or the name of a class.
pub data ArgType : Type 0 where
  code : ℕ → ArgType
  class_type : (allow_null : Bool) → Str → ArgType

pub record ArgInfo : Type 0 where
  pub name : Option Str
  pub arg_type : ArgType
  pub pass_by_reference : ℕ
  pub is_variadic : Bool

-- The pointer `arg_info` of a function, which points to the entry `at` of its block: behind the entry
-- of the return type, where there is one.
pub record ArgInfos : Type 0 where
  pub address : ℕ
  pub infos : List ArgInfo
  pub at : ℕ

-- `fn_flags`: the two flags that copying looks at, and the other bits.
pub record FnFlags : Type 0 where
  pub has_return_type : Bool
  pub variadic : Bool
  pub others : ℕ

pub record LiveRange : Type 0 where
  pub var : ℕ
  pub start : ℕ
  pub stop : ℕ

pub record TryCatch : Type 0 where
  pub try_op : ℕ
  pub catch_op : ℕ
  pub finally_op : ℕ
  pub finally_end : ℕ

-- A block with a list in it, such as `vars`, or a table with its own block.
pub record Block (A : Type 0) : Type 0 where
  pub address : ℕ
  pub contents : A

pub record OpArray (Op : Type 0) : Type 0 where
  pub kind : ℕ
  pub arg_flags : List ℕ
  pub fn_flags : FnFlags
  pub function_name : Str
  pub scope : Option ℕ
  pub prototype : Option ℕ
  pub num_args : ℕ
  pub required_num_args : ℕ
  pub arg_info : ArgInfos
  pub refcount : Block ℕ
  pub temporaries : ℕ
  pub vars : Block (List Str)
  pub live_range : Option (Block (List LiveRange))
  pub try_catch_array : Option (Block (List TryCatch))
  pub static_variables : Option (Block (Table Value))
  pub filename : Str
  pub line_start : ℕ
  pub line_end : ℕ
  pub doc_comment : Option Str
  pub early_binding : ℕ
  pub literals : Block (List Value)
  pub opcodes : Block (List Op)
  pub cache_size : ℕ
  pub run_time_cache : Option ℕ
  pub reserved : List ℕ

pub data Function (Op Internal : Type 0) : Type 0 where
  user_function : (address : ℕ) → OpArray Op → Function Op Internal
  internal_function : (address : ℕ) → Internal → Function Op Internal

-- The state of copying: the memory, and `PHT_ZG(op_array_file_names)`.
pub record Copying : Type 0 where
  pub memory : Memory
  pub file_names : Table Str

abbrev pub with_memory : Copying → Memory → Copying
with_memory s m = record { memory = m; file_names = s.file_names }

abbrev pub flag : Bool → ℕ
flag true = 1
flag false = 0

-- The `count` entries from `start` on, undefined where the block ends before.
abbrev pub slice {ℓ} : {A : Type ℓ} → List A → ℕ → ℕ → Run (List A)
slice xs start count =
    if leb (start + count) (length xs) then ok (take count (drop start xs)) else fault

-- `--old_arg_info`, where there is a return type.
abbrev pub first_arg_info : ArgInfos → FnFlags → Run ℕ
first_arg_info a flags =
    if flags.has_return_type then if a.at == 0 then fault else ok (a.at - 1) else ok a.at

-- copy_zend_live_range and copy_zend_try_catch_element.
unfoldable pub copy_zend_live_range :
    Option (Block (List LiveRange)) → Memory → Option (Block (List LiveRange)) × Memory
copy_zend_live_range none m = (none, m)
copy_zend_live_range (some b) m =
    (some (record { address = m.next; contents = b.contents }), emalloc m)

unfoldable pub copy_zend_try_catch_element :
    Option (Block (List TryCatch)) → Memory → Option (Block (List TryCatch)) × Memory
copy_zend_try_catch_element none m = (none, m)
copy_zend_try_catch_element (some b) m =
    (some (record { address = m.next; contents = b.contents }), emalloc m)

-- Z_REFCOUNTED: interned strings and immutable arrays are not.
abbrev pub refcounted : Value → Bool
refcounted (string s) = not s.interned
refcounted (array (table a h bs)) = not h.immutable
refcounted (object a) = true
refcounted (resource a) = true
refcounted (reference a v) = true
refcounted (constant s) = not s.interned
refcounted (constant_ast a t) = true
refcounted _ = false

-- The `while` over Z_ISREF_P.
abbrev pub dereferenced : Value → Value
dereferenced (reference a v) = dereferenced v
dereferenced v = v

module _ (zend_string_dup : StringDup) where
  abbrev pub dup_option : Option Str → Memory → Option Str × Memory
  dup_option none m = (none, m)
  dup_option (some s) m = let (t, m1) = zend_string_dup s m in (some t, m1)

  abbrev pub copy_type : ArgType → Memory → ArgType × Memory
  copy_type (code c) m = (code c, m)
  copy_type (class_type allow_null s) m =
      let (t, m1) = zend_string_dup s m in (class_type allow_null t, m1)

  -- The body of the loop of copy_function_arg_info, and the loop.
  unfoldable pub copy_arg_info : ArgInfo → Memory → ArgInfo × Memory
  copy_arg_info a m =
      let (n, m1) = dup_option a.name m in
      let (t, m2) = copy_type a.arg_type m1 in
      (
        record {
          name = n;
          arg_type = t;
          pass_by_reference = a.pass_by_reference;
          is_variadic = a.is_variadic;
        },
        m2,
      )

  unfoldable pub copy_arg_infos : List ArgInfo → Memory → List ArgInfo × Memory
  copy_arg_infos [] m = ([], m)
  copy_arg_infos (a ∷ rest) m =
      let (b, m1) = copy_arg_info a m in let (bs, m2) = copy_arg_infos rest m1 in (b ∷ bs, m2)

  unfoldable pub copy_function_arg_info : ArgInfos → FnFlags → ℕ → Memory → Run (ArgInfos × Memory)
  copy_function_arg_info a flags num_args m = do
    start ← first_arg_info a flags
    old ← slice a.infos start (num_args + flag flags.has_return_type + flag flags.variadic)
    let (new, m1) = copy_arg_infos old (emalloc m)
    ok (record { address = m.next; infos = new; at = flag flags.has_return_type }, m1)

  -- The `switch` of copy_static_variables. ZVAL_NEW_STR makes a string, also of a constant.
  unfoldable pub copy_static_value : Value → Memory → Run (Value × Memory)
  copy_static_value (string s) m = let (t, m1) = zend_string_dup s m in ok (string t, m1)
  copy_static_value (array a) m =
      let (b, m1) = pht_zend_array_dup zend_string_dup a m in ok (array b, m1)
  copy_static_value (constant s) m = let (t, m1) = zend_string_dup s m in ok (string t, m1)
  copy_static_value (constant_ast a t) m =
      let (u, m1) = pht_zend_ast_copy zend_string_dup t m in ok (constant_ast m1.next u, emalloc m1)
  copy_static_value (object a) m = ok (null, m)
  copy_static_value _ m = fault

  unfoldable pub copy_static_entries :
      Table Value → Table Value → Memory → Run (Table Value × Memory)
  copy_static_entries new [] m = ok (new, m)
  copy_static_entries new ((key, value) ∷ old) m =
      let (new_key, m1) = zend_string_dup key m in
      let v = dereferenced value in
      (if refcounted v then copy_static_value v m1 else ok (v, m1)) >>= λ r.
      copy_static_entries (zend_hash_add new new_key r.0) old r.1

  unfoldable pub copy_static_variables :
      Option (Block (Table Value)) → Memory → Run (Option (Block (Table Value)) × Memory)
  copy_static_variables none m = ok (none, m)
  copy_static_variables (some b) m = do
    (new, m1) ← copy_static_entries [] b.contents (emalloc m)
    ok (some (record { address = m.next; contents = new }), m1)

  -- One name for the file of all functions that come from it.
  unfoldable pub copy_filename : Str → Copying → Str × Copying
  copy_filename f s =
      let found = zend_hash_find s.file_names f.bytes in
      let (new, m1) = zend_string_dup f s.memory in
      let added : Copying = record {
        memory = m1;
        file_names = zend_hash_add s.file_names new new;
      } in
      on_value found (new, added) λ shared. (shared, s)

  unfoldable pub copy_literal : Value → Memory → Value × Memory
  copy_literal (array a) m = let (b, m1) = pht_zend_array_dup zend_string_dup a m in (array b, m1)
  copy_literal (constant_ast a t) m =
      let (u, m1) = pht_zend_ast_copy zend_string_dup t m in (constant_ast m1.next u, emalloc m1)
  copy_literal v m = (v, m)

  unfoldable pub copy_literals : List Value → Memory → List Value × Memory
  copy_literals [] m = ([], m)
  copy_literals (v ∷ vs) m =
      let (w, m1) = copy_literal v m in let (ws, m2) = copy_literals vs m1 in (w ∷ ws, m2)

  module _ {Op : Type 0} where
    -- What copy_zend_op_array does once it has the static variables: `refcount` and `vars` are the
    -- blocks made before.
    abbrev pub rest_of_op_array :
        OpArray Op
        → (new_ce : Option ℕ) → Copying
        → (function_name : Str) (arg_info : ArgInfos) (refcount vars : ℕ)
        → Option (Block (List LiveRange))
        → Option (Block (List TryCatch))
        → Option (Block (Table Value))
        → OpArray Op × Copying
    rest_of_op_array old new_ce s function_name arg_info refcount vars live_range try_catch
          statics =
        let (filename, s1) = copy_filename old.filename s in
        let (doc_comment, m2) = dup_option old.doc_comment s1.memory in
        let (literals, m3) = copy_literals old.literals.contents (emalloc m2) in
        (
          record {
            kind = old.kind;
            arg_flags = old.arg_flags;
            fn_flags = old.fn_flags;
            function_name = function_name;
            scope = new_ce;
            prototype = none;
            num_args = old.num_args;
            required_num_args = old.required_num_args;
            arg_info = arg_info;
            refcount = record { address = refcount; contents = 1 };
            temporaries = old.temporaries;
            vars = record { address = vars; contents = old.vars.contents };
            live_range = live_range;
            try_catch_array = try_catch;
            static_variables = statics;
            filename = filename;
            line_start = old.line_start;
            line_end = old.line_end;
            doc_comment = doc_comment;
            early_binding = old.early_binding;
            literals = record { address = m2.next; contents = literals };
            opcodes = record { address = m3.next; contents = old.opcodes.contents };
            cache_size = old.cache_size;
            run_time_cache = none;
            reserved = old.reserved;
          },
          with_memory s1 (emalloc m3),
        )

    unfoldable pub copy_zend_op_array :
        OpArray Op → (new_ce : Option ℕ) → Copying → Run (OpArray Op × Copying)
    copy_zend_op_array old new_ce s = do
      let (name, m1) = zend_string_dup old.function_name s.memory
      (args, m2) ← copy_function_arg_info old.arg_info old.fn_flags old.num_args m1
      let (live, m3) = copy_zend_live_range old.live_range (emalloc (emalloc m2))
      let (try_catch, m4) = copy_zend_try_catch_element old.try_catch_array m3
      (statics, m5) ← copy_static_variables old.static_variables m4
      ok (
          rest_of_op_array old new_ce (with_memory s m5) name args m2.next (m2.next + 1) live
            try_catch statics)

    module _ {Internal : Type 0} where
      -- The function itself is in the arena of the compiler or, an internal one, in a block.
      unfoldable pub copy_user_function :
          OpArray Op → (new_ce : Option ℕ) → Copying → Run (Function Op Internal × Copying)
      copy_user_function old new_ce s = do
        (new, s1) ← copy_zend_op_array old new_ce (with_memory s (emalloc s.memory))
        ok (user_function s.memory.next new, s1)

      unfoldable pub copy_internal_function : Internal → Copying → Function Op Internal × Copying
      copy_internal_function old s =
          (internal_function s.memory.next old, with_memory s (emalloc s.memory))

      unfoldable pub copy_function :
          Function Op Internal
          → (new_ce : Option ℕ) → Copying
          → Run (Function Op Internal × Copying)
      copy_function (internal_function a old) new_ce s = ok (copy_internal_function old s)
      copy_function (user_function a old) new_ce s = copy_user_function old new_ce s

      -- The body of the loop of copy_functions: `zend_hash_add_ptr` keeps a function that is there, and
      -- the copy is destroyed.
      abbrev pub add_function :
          Table (Function Op Internal)
          → Str
          → Function Op Internal
          → (new_ce : Option ℕ) → Copying
          → Run (Table (Function Op Internal) × Copying)
      add_function new name f new_ce s = do
        let (new_name, m1) = zend_string_dup name s.memory
        (g, s2) ← copy_function f new_ce (with_memory s m1)
        ok (zend_hash_add new new_name g, s2)

      abbrev pub function_step :
          Table (Function Op Internal)
          → Str
          → Function Op Internal
          → (new_ce : Option ℕ) → Copying
          → Run (Table (Function Op Internal) × Copying)
      function_step new name f (some ce) s = add_function new name f (some ce) s
      function_step new name (user_function a o) none s =
          add_function new name (user_function a o) none s
      function_step new name (internal_function a i) none s = ok (new, s)

      unfoldable pub copy_functions :
          (new old : Table (Function Op Internal))
          → (new_ce : Option ℕ) → Copying
          → Run (Table (Function Op Internal) × Copying)
      copy_functions new [] new_ce s = ok (new, s)
      copy_functions new ((name, f) ∷ old) new_ce s =
          function_step new name f new_ce s >>= λ r. copy_functions r.0 old new_ce r.1
