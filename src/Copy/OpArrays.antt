-- ===== src/Copy/OpArrays.antt =====
-- A copied op array beside its source. About copy_function_arg_info and copy_zend_op_array of
-- src/pht_copy.c.
use pht.Common.{
  ℕ, ◌+◌, ◌≤◌, ◌≡◌, refl, sym, ap, ◌∙◌, Bool, true, false, List, [], ◌∷◌, Option, none, some,
  if◌then◌else◌, ok, Returns, Bool-cases, Option-cases, ◌⊎◌, inl, inr, arith, map, length, take,
  leb-true,
}
use pht.PhtString.{Bytes}
use pht.Engine.{
  Str, Value, array, constant_ast, Memory, emalloc, StringDup, KeepsBytes, undef, null, false_value,
  true_value, long, double, string, object, resource, reference, constant,
}
use pht.Engine.Meaning.{
  meaning, key_bytes, elements, expression, meaning_ast-pht_zend_ast_copy,
  meaning_array-pht_zend_array_dup,
}
use pht.Copy.Tables.{
  Table, zend_hash_find, zend_hash_add, Extends, find-add_self, find-add_kept, find-add, bytes_eq,
  bytes_eq-eq, found_or,
}
use pht.Copy.Functions.{
  ArgType, code, class_type, ArgInfo, ArgInfos, FnFlags, Copying, flag, first_arg_info, slice,
  copy_arg_infos, copy_arg_info, copy_function_arg_info, copy_filename, copy_literals, copy_literal,
  copy_type, dup_option,
}

-- What reflection shows of a parameter: its name, its type, how it is passed.
abbrev pub type_described : ArgType → ℕ ⊎ (Bool × Bytes)
type_described (code c) = inl c
type_described (class_type allow_null s) = inr (allow_null, s.bytes)

abbrev pub Described : Type 0
Described = Option Bytes × (ℕ ⊎ (Bool × Bytes)) × ℕ × Bool

abbrev pub arg_described : ArgInfo → Described
arg_described a = (key_bytes a.name, type_described a.arg_type, a.pass_by_reference, a.is_variadic)

-- How many entries the block has that belong to the function.
abbrev pub entry_count : FnFlags → ℕ → ℕ
entry_count flags num_args = num_args + flag flags.has_return_type + flag flags.variadic

-- The pointer stands behind the entry of the return type, and the block holds every entry.
abbrev pub IsPlaced : ArgInfos → FnFlags → ℕ → Type 0
IsPlaced a flags num_args =
    (a.at ≡ flag flags.has_return_type) × (entry_count flags num_args ≤ length a.infos)

-- Each name in the table is its own key.
abbrev pub Named : Table Str → Type 0
Named t = (b : Bytes) (v : Str) → zend_hash_find t b ≡ some v → v.bytes ≡ b

first_arg_info-start :
    (a : ArgInfos) (flags : FnFlags)
    → a.at ≡ flag flags.has_return_type
    → first_arg_info a flags ≡ ok 0
first_arg_info-start a flags e = elim (Bool-cases flags.has_return_type) [
  | inl t ↦ let one : a.at ≡ 1 = e ∙ ap flag t in rw (t, one)
  | inr f ↦ let zero' : a.at ≡ 0 = e ∙ ap flag f in rw (f, zero')
]

slice-start :
    {A : Type 0} (xs : List A) (count : ℕ)
    → count ≤ length xs
    → slice xs 0 count ≡ ok (take count xs)
slice-start xs count h = rw (leb-true (0 + count) (length xs) (omega arith))

named_or :
    (o : Option Str) (c : Bool) (new v : Str) (b : Bytes)
    → ((w : Str) → o ≡ some w → w.bytes ≡ b)
    → (c ≡ true → new.bytes ≡ b)
    → found_or o (if c then some new else none) ≡ some v
    → v.bytes ≡ b
named_or (some w) c new v b h k e = h v e
named_or none true new v b h k e = let same : new ≡ v = cc in sym (ap (λ x. x.bytes) same) ∙ k refl
named_or none false new v b h k e = absurd (cc e)

Named-zend_hash_add : (t : Table Str) (key : Str) → Named t → Named (zend_hash_add t key key)
Named-zend_hash_add t key named b v h =
    named_or (zend_hash_find t b) (bytes_eq key.bytes b) key v b (λ w e. named b w e)
      (bytes_eq-eq key.bytes b) (sym (find-add t key key b) ∙ h)

module _ (zend_string_dup : StringDup) (keeps : KeepsBytes zend_string_dup) where
  pub key_bytes-dup_option :
      (o : Option Str) (m : Memory) → key_bytes (dup_option zend_string_dup o m).0 ≡ key_bytes o
  key_bytes-dup_option none m = refl
  key_bytes-dup_option (some s) m = ap some (keeps s m)

  type_described-copy_type :
      (t : ArgType) (m : Memory)
      → type_described (copy_type zend_string_dup t m).0 ≡ type_described t
  type_described-copy_type (code c) m = refl
  type_described-copy_type (class_type allow_null s) m = ap (λ b. inr (allow_null, b)) (keeps s m)

  arg_described-copy_arg_info :
      (a : ArgInfo) (m : Memory)
      → arg_described (copy_arg_info zend_string_dup a m).0 ≡ arg_described a
  unfolding copy_arg_info
  arg_described-copy_arg_info a m = rw (
    key_bytes-dup_option a.name m,
    type_described-copy_type a.arg_type (dup_option zend_string_dup a.name m).1,
  )

  arg_described-copy_arg_infos :
      (as' : List ArgInfo) (m : Memory)
      → map arg_described (copy_arg_infos zend_string_dup as' m).0 ≡ map arg_described as'
  unfolding copy_arg_infos
  arg_described-copy_arg_infos [] m = refl
  arg_described-copy_arg_infos (a ∷ rest) m = rw (
    arg_described-copy_arg_info a m,
    arg_described-copy_arg_infos rest (copy_arg_info zend_string_dup a m).1,
  )

  pub copy_function_arg_info-described :
      (a : ArgInfos) (flags : FnFlags) (num_args : ℕ) (m : Memory)
      → IsPlaced a flags num_args
      → Returns (copy_function_arg_info zend_string_dup a flags num_args m) (λ r.
        (r.0.at ≡ a.at)
        × (map arg_described r.0.infos
            ≡ map arg_described (take (entry_count flags num_args) a.infos)))
  unfolding copy_function_arg_info
  copy_function_arg_info-described a flags num_args m (at, room) =
      let old = take (entry_count flags num_args) a.infos in
      let d = copy_arg_infos zend_string_dup old (emalloc m) in
      (
        (record { address = m.next; infos = d.0; at = flag flags.has_return_type }, d.1),
        rw (first_arg_info-start a flags at, slice-start a.infos (entry_count flags num_args) room),
        (sym at, arg_described-copy_arg_infos old (emalloc m)),
      )

  pub copy_filename-shared :
      (f : Str) (s : Copying)
      → Named s.file_names
      → (zend_hash_find (copy_filename zend_string_dup f s).1.file_names f.bytes
          ≡ some (copy_filename zend_string_dup f s).0)
        × ((copy_filename zend_string_dup f s).0.bytes ≡ f.bytes)
        × Extends s.file_names (copy_filename zend_string_dup f s).1.file_names
        × Named (copy_filename zend_string_dup f s).1.file_names
  unfolding copy_filename
  copy_filename-shared f s named = elim (Option-cases (zend_hash_find s.file_names f.bytes)) [
    | inl missing ↦
        let (new, m1) = zend_string_dup f s.memory in
        let here =
          find-add_self s.file_names new new
            (ap (zend_hash_find s.file_names) (keeps f s.memory) ∙ missing) in
        rw missing (
          ap (zend_hash_find (zend_hash_add s.file_names new new)) (sym (keeps f s.memory)) ∙ here,
          keeps f s.memory,
          λ b w. find-add_kept s.file_names new new b w,
          Named-zend_hash_add s.file_names new named,
        )
    | inr (shared, there) ↦ rw there (there, named f.bytes shared there, λ b w h. h, named)
  ]

  meaning-copy_literal :
      (v : Value) (m : Memory) → meaning (copy_literal zend_string_dup v m).0 ≡ meaning v
  unfolding copy_literal meaning
  meaning-copy_literal (array a) m =
      ap elements (meaning_array-pht_zend_array_dup zend_string_dup keeps a m)
  meaning-copy_literal (constant_ast a t) m =
      ap expression (meaning_ast-pht_zend_ast_copy zend_string_dup keeps t m)
  meaning-copy_literal undef m = refl
  meaning-copy_literal null m = refl
  meaning-copy_literal false_value m = refl
  meaning-copy_literal true_value m = refl
  meaning-copy_literal (long k) m = refl
  meaning-copy_literal (double k) m = refl
  meaning-copy_literal (string s) m = refl
  meaning-copy_literal (object a) m = refl
  meaning-copy_literal (resource a) m = refl
  meaning-copy_literal (reference a v) m = refl
  meaning-copy_literal (constant s) m = refl

  pub meaning-copy_literals :
      (vs : List Value) (m : Memory)
      → map meaning (copy_literals zend_string_dup vs m).0 ≡ map meaning vs
  unfolding copy_literals
  meaning-copy_literals [] m = refl
  meaning-copy_literals (v ∷ vs) m =
      rw (meaning-copy_literal v m, meaning-copy_literals vs (copy_literal zend_string_dup v m).1)
