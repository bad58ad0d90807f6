-- ===== src/Copy/Constants.antt =====
-- copy_included_files, copy_ini_directives and the copies of constants of src/pht_copy.c.
use pht.Common.{
  ℕ, suc, Bool, true, [], ◌∷◌, Option, none, some, if◌then◌else◌, length, Run, ok, fault, ◌>>=◌,
  on_value,
}
use pht.PhtString.{Bytes, strncmp_zero}
use pht.Engine.{Str, Value, null, Memory, StringDup}
use pht.Engine.Duplicate.{pht_zval_dup}
use pht.Copy.Tables.{Table, zend_hash_find, zend_hash_add, zend_hash_exists, bytes_eq}
use pht.Copy.Functions.{dup_option}

-- zend_constant, with the name under which it registers.
pub record Constant : Type 0 where
  pub value : Value
  pub name : Str
  pub flags : ℕ
  pub module_number : ℕ

-- zend_class_constant; `access` is what lies in `u2` of its zval.
pub record ClassConstant : Type 0 where
  pub value : Value
  pub access : ℕ
  pub doc_comment : Option Str
  pub ce : ℕ

-- zend_ini_entry. `on_modify` is a function of the engine or of an extension, known by a number, with
-- its arguments; NULL where the directive has none.
pub record IniEntry : Type 0 where
  pub value : Option Str
  pub orig_value : Option Str
  pub modifiable : ℕ
  pub orig_modifiable : ℕ
  pub modified : Bool
  pub on_modify : Option ℕ

-- The directives of the new thread, `EG(modified_ini_directives)` with the names of its entries, and
-- what the handlers keep.
pub record Ini (World : Type 0) : Type 0 where
  pub directives : Table IniEntry
  pub modified_directives : Option (Table Bytes)
  pub world : World
  pub memory : Memory

-- Whether `strcmp` of the C library returns 0.
abbrev pub strcmp_zero : Bytes → Bytes → Bool
strcmp_zero s t = strncmp_zero (suc (length s)) s t

abbrev pub same_value : Str → Str → Bool
same_value old new = strcmp_zero old.bytes new.bytes

-- The first of two values where both are there and they differ.
abbrev pub on_differing {ℓ} : {R : Type ℓ} → Option Str → Option Str → R → (Str → R) → R
on_differing none v stay go = stay
on_differing (some o) none stay go = stay
on_differing (some o) (some v) stay go = if same_value o v then stay else go o

-- `EG(modified_ini_directives)` exists from the first change on, and has each entry that was modified.
unfoldable pub note_modified : Bytes → Str → IniEntry → Option (Table Bytes) → Option (Table Bytes)
note_modified b new_name e modified_directives =
    let table = on_value modified_directives [] λ t. t in
    if e.modified then some table else some (zend_hash_add table new_name b)

-- The entry keeps the value and the flag that it had before its first change.
abbrev pub mark_modified : IniEntry → IniEntry
mark_modified e =
    if e.modified
    then e
    else record e { orig_value = e.value; orig_modifiable = e.modifiable; modified = true }

-- A write through the pointer that zend_hash_find_ptr gives.
unfoldable pub write_found {ℓ} : {A : Type ℓ} → Table A → Bytes → A → Table A
write_found [] b v = []
write_found ((k, w) ∷ t) b v =
    let rest = write_found t b v in if bytes_eq k.bytes b then (k, v) ∷ t else (k, w) ∷ rest

module _ (zend_string_dup : StringDup) where
  unfoldable pub copy_included_files : (new old : Table Value) → Memory → Table Value × Memory
  copy_included_files new [] m = (new, m)
  copy_included_files new ((filename, v) ∷ old) m =
      let (f, m1) = zend_string_dup filename m in
      copy_included_files (zend_hash_add new f null) old m1

  unfoldable pub copy_constant : Constant → Memory → Constant × Memory
  copy_constant c m =
      let (v, m1) = pht_zval_dup zend_string_dup c.value m in
      (record { value = v; name = c.name; flags = c.flags; module_number = c.module_number }, m1)

  unfoldable pub copy_class_constant :
      ClassConstant → (new_ce : ℕ) → Memory → ClassConstant × Memory
  copy_class_constant c new_ce m =
      let (v, m1) = pht_zval_dup zend_string_dup c.value m in
      let (d, m2) = dup_option zend_string_dup c.doc_comment m1 in
      (record { value = v; access = c.access; doc_comment = d; ce = new_ce }, m2)

  unfoldable pub copy_class_constants :
      (new old : Table ClassConstant) → (new_ce : ℕ) → Memory → Table ClassConstant × Memory
  copy_class_constants new [] new_ce m = (new, m)
  copy_class_constants new ((key, c) ∷ old) new_ce m =
      let (d, m1) = copy_class_constant c new_ce m in
      copy_class_constants (zend_hash_add new key d) old new_ce m1

  -- zend_string_tolower and zend_register_constant are the engine's.
  module _ (zend_string_tolower : Str → Memory → Str × Memory)
      (zend_register_constant : Constant → Table Constant → Memory → Table Constant × Memory) where
    -- The body of the loop of copy_global_constants.
    unfoldable pub constant_step :
        Str → Constant → Table Constant → Memory → Table Constant × Memory
    constant_step name c new m =
        let (lowercased, m1) = zend_string_tolower name m in
        let (d, m2) = copy_constant c m1 in
        if zend_hash_exists new name.bytes
        then (new, m)
        else if zend_hash_exists new lowercased.bytes
        then (new, m1)
        else zend_register_constant d new m2

    unfoldable pub copy_global_constants :
        (new old : Table Constant) → Memory → Table Constant × Memory
    copy_global_constants new [] m = (new, m)
    copy_global_constants new ((name, c) ∷ old) m =
        let s = constant_step name c new m in copy_global_constants s.0 old s.1

  -- `on_modify` is called with a value and its result is not looked at.
  module _ {World : Type 0} (on_modify : ℕ → Str → World → World) where
    -- The body of the loop of copy_ini_directives, from its `continue`s on. The values that are
    -- released are not followed.
    unfoldable pub change_directive : Str → Str → IniEntry → Ini World → Run (Ini World)
    change_directive ini_name old_value e s =
        let (new_name, m1) = zend_string_dup ini_name s.memory in
        let (v, m2) = zend_string_dup old_value m1 in
        let e1 = record (mark_modified e) { value = some v; modifiable = e.modifiable } in
        on_value e.on_modify fault λ handler. ok (record {
          directives = write_found s.directives ini_name.bytes e1;
          modified_directives = note_modified ini_name.bytes new_name e s.modified_directives;
          world = on_modify handler old_value s.world;
          memory = m2;
        })

    unfoldable pub ini_step : Str → IniEntry → Ini World → Run (Ini World)
    ini_step ini_name old s = on_value (zend_hash_find s.directives ini_name.bytes) (ok s) λ e.
        on_differing old.value e.value (ok s) λ old_value. change_directive ini_name old_value e s

    unfoldable pub copy_ini_directives : Ini World → Table IniEntry → Run (Ini World)
    copy_ini_directives s [] = ok s
    copy_ini_directives s ((ini_name, old) ∷ rest) =
        ini_step ini_name old s >>= λ s1. copy_ini_directives s1 rest
