-- ===== src/Copy/Bodies.antt =====
-- What a copied class has of its own, beside its source. About copy_zval_table, copy_properties_info and
-- the middle of create_new_ce of src/pht_copy.c.
use mathlib.Core.Option
use pht.Common.{
  ℕ, ◌≡◌, refl, sym, ap, ◌∙◌, Bool, true, false, not, List, [], ◌∷◌, Option, none, some,
  if◌then◌else◌, Run, ok, Returns, map,
}
use pht.PhtString.{Bytes}
use pht.Engine.{
  Str, Value, undef, null, false_value, true_value, long, double, string, array, object, resource,
  reference, constant, constant_ast, table, Memory, emalloc, StringDup, KeepsBytes,
}
use pht.Engine.Duplicate.{pht_zend_array_dup}
use pht.Engine.Meaning.{
  Content, is_null, text, elements, meaning, key_bytes, meaning_array-pht_zend_array_dup,
}
use pht.Copy.Tables.{Table, zend_hash_find, zend_hash_add, found_or, found_or-none, map-add}
use pht.Copy.Functions.{Block, Function, with_memory, dup_option, refcounted}
use pht.Copy.Statics.{chosen}
use pht.Copy.OpArrays.{Named, key_bytes-dup_option}
use pht.Copy.FunctionTables.{shown, shown_for, AllCopyable, taken, copy_functions-shown}
use pht.Copy.Constants.{copy_class_constants}
use pht.Copy.Settings.{constant_shown, constant_shown_for, copy_class_constants-shown}
use pht.Copy.Classes.{PropertyInfo, Fields, Body, NewClass, Loading, magic_names}
use pht.Copy.Loading.{
  copy_default, copy_zval_entries, copy_zval_table, copy_properties_info, copy_body,
}

-- A default value is no resource, reference or constant expression, and the name of a constant is
-- interned.
abbrev pub IsDefault : Value → Type 0
IsDefault (resource a) = ⊥
IsDefault (reference a v) = ⊥
IsDefault (constant s) = s.interned ≡ true
IsDefault (constant_ast a t) = ⊥
IsDefault _ = Unit {0}

abbrev pub AllDefault : List Value → Type 0
AllDefault [] = Unit {0}
AllDefault (v ∷ vs) = IsDefault v × AllDefault vs

abbrev pub DefaultTable : Option (List Value) → Type 0
DefaultTable none = Unit {0}
DefaultTable (some vs) = AllDefault vs

-- What the copy of a default value is to say: NULL for an object.
abbrev pub default_shown : Value → Content
default_shown (object a) = is_null
default_shown v = meaning v

abbrev pub LikeDefaults : Option (List Value) → Option (Block (List Value)) → Type 0
LikeDefaults none none = Unit {0}
LikeDefaults none (some n) = ⊥
LikeDefaults (some o) none = ⊥
LikeDefaults (some o) (some n) = map meaning n.contents ≡ map default_shown o

abbrev pub property_shown : PropertyInfo → ℕ × ℕ × Str × Option Bytes × ℕ
property_shown p = (p.offset, p.flags, p.name, key_bytes p.doc_comment, p.ce)

-- What the copy of a property for the class `ce` is to show.
abbrev pub property_shown_for : ℕ → PropertyInfo → ℕ × ℕ × Str × Option Bytes × ℕ
property_shown_for ce p = (p.offset, p.flags, p.name, key_bytes p.doc_comment, ce)

taken_all : {Op Internal : Type 0} (c : ℕ) (t : Table (Function Op Internal)) → taken (some c) t ≡ t
taken_all c [] = refl
taken_all c ((k, f) ∷ t) = ap (λ r. (k, f) ∷ r) (taken_all c t)

module _ {Op Internal Hooks : Type 0} where
  -- Everything in the body of the new class belongs to it and is what the old class has.
  pub record BodyCopied (f : Fields Op Internal Hooks) (ce : ℕ) (body : Body Op Internal)
      : Type 0 where
    pub default_properties : LikeDefaults f.default_properties body.default_properties_table
    pub default_static_members :
        LikeDefaults f.default_static_members body.default_static_members_table
    pub static_members : LikeDefaults f.default_static_members body.static_members_table
    pub functions :
        (b : Bytes)
        → Option.map shown (zend_hash_find body.function_table b)
          ≡ Option.map (shown_for (some ce)) (zend_hash_find f.function_table b)
    pub properties :
        (b : Bytes)
        → Option.map property_shown (zend_hash_find body.properties_info b)
          ≡ Option.map (property_shown_for ce) (zend_hash_find f.properties_info b)
    pub constants :
        (b : Bytes)
        → Option.map constant_shown (zend_hash_find body.constants_table b)
          ≡ Option.map (constant_shown_for ce) (zend_hash_find f.constants_table b)
    pub magic : body.magic ≡ map (zend_hash_find body.function_table) magic_names

  abbrev pub FieldsLoadable : Fields Op Internal Hooks → Type 0
  FieldsLoadable f =
      DefaultTable f.default_properties
      × DefaultTable f.default_static_members
      × AllCopyable f.function_table

module _ (zend_string_dup : StringDup) (keeps : KeepsBytes zend_string_dup) where
  abbrev default_copy : Value → Memory → Run (Value × Memory)
  default_copy v m = if refcounted v then copy_default zend_string_dup v m else ok (v, m)

  interned_not : (b : Bool) → b ≡ true → not b ≡ true → ⊥
  interned_not true h k = absurd (cc k)
  interned_not false h k = absurd (cc h)

  default_value :
      (v : Value) (m : Memory)
      → IsDefault v
      → Returns (default_copy v m) (λ r. meaning r.0 ≡ default_shown v)
  unfolding copy_default meaning
  default_value undef m c = ((undef, m), refl, refl)
  default_value null m c = ((null, m), refl, refl)
  default_value false_value m c = ((false_value, m), refl, refl)
  default_value true_value m c = ((true_value, m), refl, refl)
  default_value (long k) m c = ((long k, m), refl, refl)
  default_value (double k) m c = ((double k, m), refl, refl)
  default_value (string s) m c =
      chosen (not s.interned) _ _
        (λ e.
          ((string (zend_string_dup s m).0, (zend_string_dup s m).1), refl, ap text (keeps s m)))
        (λ e. ((string s, m), refl, refl))
  default_value (array (table a h bs)) m c =
      let d = pht_zend_array_dup zend_string_dup (table a h bs) m in
      chosen (not h.immutable) _ _
        (λ e. (
          (array d.0, d.1),
          refl,
          ap elements (meaning_array-pht_zend_array_dup zend_string_dup keeps (table a h bs) m),
        ))
        (λ e. ((array (table a h bs), m), refl, refl))
  default_value (object a) m c = ((null, m), refl, refl)
  default_value (resource a) m c = absurd c
  default_value (reference a v) m c = absurd c
  default_value (constant s) m c =
      chosen (not s.interned) _ _ (λ e. absurd (interned_not s.interned c e))
        (λ e. ((constant s, m), refl, refl))
  default_value (constant_ast a t) m c = absurd c

  copy_zval_entries-shown :
      (vs : List Value) (m : Memory)
      → AllDefault vs
      → Returns
          (copy_zval_entries zend_string_dup vs m)
          (λ r. map meaning r.0 ≡ map default_shown vs)
  unfolding copy_zval_entries
  copy_zval_entries-shown [] m c = (([], m), refl, refl)
  copy_zval_entries-shown (v ∷ vs) m (c, cs) =
      let (r, runs, like) = default_value v m c in
      let (rs, runs', likes) = copy_zval_entries-shown vs r.1 cs in
      ((r.0 ∷ rs.0, rs.1), rw (runs, runs'), rw (like, likes))

  pub copy_zval_table-shown :
      (o : Option (List Value)) (m : Memory)
      → DefaultTable o
      → Returns (copy_zval_table zend_string_dup o m) (λ r. LikeDefaults o r.0)
  unfolding copy_zval_table
  copy_zval_table-shown none m c = ((none, m), refl, tt)
  copy_zval_table-shown (some vs) m c =
      let (r, runs, like) = copy_zval_entries-shown vs (emalloc m) c in
      ((some (record { address = m.next; contents = r.0 }), r.1), rw runs, like)

  copy_properties_info-shown :
      (new old : Table PropertyInfo) (ce : ℕ) (m : Memory) (b : Bytes)
      → Option.map property_shown
          (zend_hash_find (copy_properties_info zend_string_dup new old ce m).0 b)
        ≡ found_or
            (Option.map property_shown (zend_hash_find new b))
            (Option.map (property_shown_for ce) (zend_hash_find old b))
  unfolding copy_properties_info zend_hash_find
  copy_properties_info-shown new [] ce m b =
      sym (found_or-none (Option.map property_shown (zend_hash_find new b)))
  copy_properties_info-shown new ((key, p) ∷ old) ce m b =
      let (d, m1) = dup_option zend_string_dup p.doc_comment m in
      let q : PropertyInfo = record p { doc_comment = d; ce = ce } in
      copy_properties_info-shown (zend_hash_add new key q) old ce m1 b
      ∙ map-add property_shown (property_shown_for ce) new key key q p old b refl
          (rw (key_bytes-dup_option zend_string_dup keeps p.doc_comment m))

  module _ {Op Internal Hooks : Type 0} where
    pub copy_body-BodyCopied :
        (f : Fields Op Internal Hooks) (ce : ℕ) (s : Loading (NewClass Op Internal Hooks))
        → FieldsLoadable f
        → Named s.copying.file_names
        → Returns
            (copy_body zend_string_dup f ce s)
            (λ r. BodyCopied f ce r.0 × Named r.1.copying.file_names × (r.1.created ≡ s.created))
    unfolding copy_body zend_hash_find
    copy_body-BodyCopied f ce s (ps, ss, fs) named =
        let (p, runs_p, like_p) = copy_zval_table-shown f.default_properties s.copying.memory ps in
        let (t, runs_t, like_t) = copy_zval_table-shown f.default_static_members p.1 ss in
        let (u, runs_u, like_u) = copy_zval_table-shown f.default_static_members t.1 ss in
        let (g, runs_g, (like_g, extends, named')) =
          copy_functions-shown zend_string_dup keeps [] f.function_table (some ce)
            (with_memory s.copying u.1) fs named in
        let (infos, m5) = copy_properties_info zend_string_dup [] f.properties_info ce g.1.memory in
        let (constants, m6) = copy_class_constants zend_string_dup [] f.constants_table ce m5 in
        (
          (
            record {
              default_properties_table = p.0;
              default_static_members_table = t.0;
              static_members_table = u.0;
              function_table = g.0;
              properties_info = infos;
              constants_table = constants;
              magic = map (zend_hash_find g.0) magic_names;
            },
            record s { copying = with_memory g.1 m6 },
          ),
          rw (runs_p, runs_t, runs_u, runs_g),
          (
            record {
              default_properties = like_p;
              default_static_members = like_t;
              static_members = like_u;
              functions = λ b.
                  like_g b
                  ∙ ap (λ t. Option.map (shown_for (some ce)) (zend_hash_find t b))
                      (taken_all ce f.function_table);
              properties = copy_properties_info-shown [] f.properties_info ce g.1.memory;
              constants =
                  copy_class_constants-shown zend_string_dup keeps [] f.constants_table ce m5;
              magic = refl;
            },
            named',
            refl,
          ),
        )
