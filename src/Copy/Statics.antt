-- ===== src/Copy/Statics.antt =====
-- The static variables of a copied function. About copy_static_variables of src/pht_copy.c.
use pht.Common.{
  ◌≡◌, refl, sym, ap, ◌∙◌, Bool, true, false, not, [], ◌∷◌, some, if◌then◌else◌, Run, ok, Returns,
}
use mathlib.Core.Option
use pht.PhtString.{Bytes}
use pht.Engine.{
  Str, Value, undef, null, false_value, true_value, long, double, string, array, object, resource,
  reference, constant, constant_ast, table, Memory, emalloc, StringDup, KeepsBytes,
}
use pht.Engine.Meaning.{
  Content, is_null, text, name, elements, expression, meaning, meaning_ast-pht_zend_ast_copy,
  meaning_array-pht_zend_array_dup,
}
use pht.Engine.Duplicate.{pht_zend_array_dup, pht_zend_ast_copy}
use pht.Copy.Tables.{Table, zend_hash_find, zend_hash_add, found_or, found_or-none, map-add}
use pht.Copy.Functions.{
  Block, refcounted, dereferenced, copy_static_value, copy_static_entries, copy_static_variables,
}

-- What the copy of a static variable is to say: what the variable says, but NULL for an object and,
-- for a constant whose name is not interned, its name as a string.
abbrev pub expected : Value → Content
expected (object a) = is_null
expected (constant s) = if s.interned then name s.bytes else text s.bytes
expected v = meaning v

abbrev pub expected_static : Value → Content
expected_static v = expected (dereferenced v)

-- A static variable is no resource. (What it refers to is never a reference.)
abbrev pub IsCopied : Value → Type 0
IsCopied (resource a) = ⊥
IsCopied (reference a v) = ⊥
IsCopied _ = Unit {0}

abbrev pub AllCopied : Table Value → Type 0
AllCopied [] = Unit {0}
AllCopied ((key, v) ∷ t) = IsCopied (dereferenced v) × AllCopied t

pub chosen {ℓ κ} :
    {A : Type ℓ} {P : A → Type κ} (b : Bool) (x y : Run A)
    → (b ≡ true → Returns x P)
    → (b ≡ false → Returns y P)
    → Returns (if b then x else y) P
chosen true x y h k = h refl
chosen false x y h k = k refl

other_branch {ℓ} : {A : Type ℓ} (i : Bool) (x y : A) → not i ≡ true → y ≡ (if i then x else y)
other_branch true x y e = absurd (cc e)
other_branch false x y e = refl

first_branch {ℓ} : {A : Type ℓ} (i : Bool) (x y : A) → not i ≡ false → x ≡ (if i then x else y)
first_branch true x y e = refl
first_branch false x y e = absurd (cc e)

module _ (zend_string_dup : StringDup) (keeps : KeepsBytes zend_string_dup) where
  abbrev static_copy : Value → Memory → Run (Value × Memory)
  static_copy v m = if refcounted v then copy_static_value zend_string_dup v m else ok (v, m)

  constant_value :
      (s : Str) (m : Memory)
      → Returns (static_copy (constant s) m) (λ r. meaning r.0 ≡ expected (constant s))
  unfolding copy_static_value meaning
  constant_value s m =
      chosen (not s.interned) _ _
        (λ e. (
          (string (zend_string_dup s m).0, (zend_string_dup s m).1),
          refl,
          ap text (keeps s m) ∙ other_branch s.interned _ _ e,
        ))
        (λ e. ((constant s, m), refl, first_branch s.interned _ _ e))

  static_value :
      (v : Value) (m : Memory)
      → IsCopied v
      → Returns (static_copy v m) (λ r. meaning r.0 ≡ expected v)
  unfolding copy_static_value meaning
  static_value undef m c = ((undef, m), refl, refl)
  static_value null m c = ((null, m), refl, refl)
  static_value false_value m c = ((false_value, m), refl, refl)
  static_value true_value m c = ((true_value, m), refl, refl)
  static_value (long k) m c = ((long k, m), refl, refl)
  static_value (double k) m c = ((double k, m), refl, refl)
  static_value (string s) m c =
      chosen (not s.interned) _ _
        (λ e.
          ((string (zend_string_dup s m).0, (zend_string_dup s m).1), refl, ap text (keeps s m)))
        (λ e. ((string s, m), refl, refl))
  static_value (array (table a h bs)) m c =
      let d = pht_zend_array_dup zend_string_dup (table a h bs) m in
      chosen (not h.immutable) _ _
        (λ e. (
          (array d.0, d.1),
          refl,
          ap elements (meaning_array-pht_zend_array_dup zend_string_dup keeps (table a h bs) m),
        ))
        (λ e. ((array (table a h bs), m), refl, refl))
  static_value (object a) m c = ((null, m), refl, refl)
  static_value (resource a) m c = absurd c
  static_value (reference a v) m c = absurd c
  static_value (constant s) m c = constant_value s m
  static_value (constant_ast a t) m c =
      let d = pht_zend_ast_copy zend_string_dup t m in
      (
        (constant_ast d.1.next d.0, emalloc d.1),
        refl,
        ap expression (meaning_ast-pht_zend_ast_copy zend_string_dup keeps t m),
      )

  pub copy_static_entries-expected :
      (new old : Table Value) (m : Memory)
      → AllCopied old
      → Returns (copy_static_entries zend_string_dup new old m) (λ r.
        (b : Bytes)
        → Option.map meaning (zend_hash_find r.0 b)
          ≡ found_or
              (Option.map meaning (zend_hash_find new b))
              (Option.map expected_static (zend_hash_find old b)))
  unfolding copy_static_entries zend_hash_find
  copy_static_entries-expected new [] m c =
      ((new, m), refl, λ b. sym (found_or-none (Option.map meaning (zend_hash_find new b))))
  copy_static_entries-expected new ((key, v) ∷ old) m (c, cs) =
      let (new_key, m1) = zend_string_dup key m in
      let (r, runs, like) = static_value (dereferenced v) m1 c in
      let (r', runs', rest) =
        copy_static_entries-expected (zend_hash_add new new_key r.0) old r.1 cs in
      (
        r',
        rw runs runs',
        λ b.
            rest b ∙ map-add meaning expected_static new key new_key r.0 v old b (keeps key m) like,
      )

  -- Where no static variable is a resource, copy_static_variables returns a table that has the
  -- same names; under each is what the variable or what it refers to says, NULL for an object, and
  -- the name as a string for a constant whose name is not interned. zend_string_dup is to keep the
  -- bytes of a string.
  pub copy_static_variables-expected :
      (t : Block (Table Value)) (m : Memory)
      → AllCopied t.contents
      → Returns (copy_static_variables zend_string_dup (some t) m) (λ r.
        (new : Block (Table Value)) × (r.0 ≡ some new)
        × ((b : Bytes)
            → Option.map meaning (zend_hash_find new.contents b)
              ≡ Option.map expected_static (zend_hash_find t.contents b)))
  unfolding copy_static_variables zend_hash_find
  copy_static_variables-expected t m c =
      let (r, runs, like) = copy_static_entries-expected [] t.contents (emalloc m) c in
      (
        (some (record { address = m.next; contents = r.0 }), r.1),
        rw runs,
        (record { address = m.next; contents = r.0 }, refl, like),
      )
