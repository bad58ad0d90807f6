-- ===== src/Copy/Loading.antt =====
-- The functions of src/pht_copy.c that copy classes: copy_zval_table, copy_properties_info, copy_ce with
-- create_new_ce, and copy_ces. zend_string_tolower and zend_lookup_class are the engine's; memory for a
-- class comes from the arena of the compiler.
use pht.Common.{
  ℕ, List, [], ◌∷◌, Option, none, some, if◌then◌else◌, Run, ok, fault, ◌>>=◌, on_value, map,
}
use pht.PhtString.{Bytes}
use pht.Engine.{Str, Value, string, array, object, null, Memory, emalloc, StringDup}
use pht.Engine.Duplicate.{pht_zend_array_dup}
use pht.Copy.Tables.{Table, zend_hash_find, zend_hash_add}
use pht.Copy.Functions.{Block, with_memory, dup_option, refcounted, copy_functions}
use pht.Copy.Constants.{copy_class_constants}
use pht.Copy.Classes.{
  PropertyInfo, Fields, Class, internal_class, user_class, Optional, no_class, class, Classes,
  no_classes, more, Reference, method_reference, Aliases, no_aliases, alias, Excluded,
  nothing_excluded, excluded_class, excluded_name, Precedences, no_precedences, precedence,
  NewReference, NewAlias, NewPrecedence, Body, NewClass, Loading, taking, magic_names,
}

-- A table that is NULL where it has no entries.
abbrev pub block_of : {A : Type 0} → ℕ → List A → Option (Block (List A))
block_of a [] = none
block_of a (x ∷ xs) = some (record { address = a; contents = x ∷ xs })

-- `emalloc` of the table, where there is one.
abbrev pub table_memory : {F : Type 0} → Classes F → Memory → Memory
table_memory no_classes m = m
table_memory (more c cs) m = emalloc m

abbrev pub aliases_memory : {F : Type 0} → Aliases F → Memory → Memory
aliases_memory no_aliases m = m
aliases_memory (alias r a n rest) m = emalloc m

abbrev pub precedences_memory : {F : Type 0} → Precedences F → Memory → Memory
precedences_memory no_precedences m = m
precedences_memory (precedence r e rest) m = emalloc m

module _ (zend_string_dup : StringDup) where
  -- The `switch` of copy_zval_table.
  unfoldable pub copy_default : Value → Memory → Run (Value × Memory)
  copy_default (string s) m = let (t, m1) = zend_string_dup s m in ok (string t, m1)
  copy_default (array a) m =
      let (b, m1) = pht_zend_array_dup zend_string_dup a m in ok (array b, m1)
  copy_default (object a) m = ok (null, m)
  copy_default _ m = fault

  unfoldable pub copy_zval_entries : List Value → Memory → Run (List Value × Memory)
  copy_zval_entries [] m = ok ([], m)
  copy_zval_entries (v ∷ vs) m = (if refcounted v then copy_default v m else ok (v, m)) >>= λ r.
      copy_zval_entries vs r.1 >>= λ rs. ok (r.0 ∷ rs.0, rs.1)

  unfoldable pub copy_zval_table :
      Option (List Value) → Memory → Run (Option (Block (List Value)) × Memory)
  copy_zval_table none m = ok (none, m)
  copy_zval_table (some vs) m = copy_zval_entries vs (emalloc m) >>= λ r.
      ok (some (record { address = m.next; contents = r.0 }), r.1)

  unfoldable pub copy_properties_info :
      (new old : Table PropertyInfo) → (new_ce : ℕ) → Memory → Table PropertyInfo × Memory
  copy_properties_info new [] new_ce m = (new, m)
  copy_properties_info new ((key, p) ∷ old) new_ce m =
      let (d, m1) = dup_option zend_string_dup p.doc_comment m in
      copy_properties_info (zend_hash_add new key (record p { doc_comment = d; ce = new_ce })) old
        new_ce m1

  module _ {Op Internal Hooks : Type 0} where
    -- create_new_ce from the tables of default values to the methods that the engine calls.
    unfoldable pub copy_body :
        Fields Op Internal Hooks
        → (new_ce : ℕ) → Loading (NewClass Op Internal Hooks)
        → Run (Body Op Internal × Loading (NewClass Op Internal Hooks))
    copy_body f new_ce s = do
      (properties, m1) ← copy_zval_table f.default_properties s.copying.memory
      (static_members, m2) ← copy_zval_table f.default_static_members m1
      (own_static_members, m3) ← copy_zval_table f.default_static_members m2
      (functions, s4) ←
          copy_functions zend_string_dup [] f.function_table (some new_ce)
            (with_memory s.copying m3)
      let (infos, m5) = copy_properties_info [] f.properties_info new_ce s4.memory
      let (constants, m6) = copy_class_constants zend_string_dup [] f.constants_table new_ce m5
      ok (
        record {
          default_properties_table = properties;
          default_static_members_table = static_members;
          static_members_table = own_static_members;
          function_table = functions;
          properties_info = infos;
          constants_table = constants;
          magic = map (zend_hash_find functions) magic_names;
        },
        record s { copying = with_memory s4 m6 },
      )

    -- The end of create_new_ce.
    abbrev pub finish_class :
        Fields Op Internal Hooks
        → (new_ce : ℕ) (name : Str) (parent : Option ℕ) → Body Op Internal
        → Option (Block (List (Option ℕ)))
        → Option (Block (List (Option ℕ)))
        → Option (Block (List NewAlias))
        → Option (Block (List NewPrecedence))
        → Loading (NewClass Op Internal Hooks)
        → Option ℕ × Loading (NewClass Op Internal Hooks)
    finish_class f new_ce name parent body interfaces traits aliases precedences s =
        let (doc_comment, m1) = dup_option zend_string_dup f.doc_comment s.copying.memory in
        (
          some new_ce,
          record {
            copying = with_memory s.copying m1;
            created =
                (
                  new_ce,
                  record {
                    name = name;
                    parent = parent;
                    ce_flags = f.ce_flags;
                    body = body;
                    hooks = f.hooks;
                    interfaces = interfaces;
                    traits = traits;
                    trait_aliases = aliases;
                    trait_precedences = precedences;
                    filename = f.filename;
                    line_start = f.line_start;
                    line_end = f.line_end;
                    doc_comment = doc_comment;
                  },
                )
                ∷ s.created;
          },
        )

    module _ (zend_string_tolower : Str → Memory → Str × Memory)
        (zend_lookup_class : Bytes → Option ℕ) (class_table : Table ℕ) where
      unfoldable mutual
        pub copy_ce :
            Optional (Fields Op Internal Hooks)
            → Loading (NewClass Op Internal Hooks)
            → Run (Option ℕ × Loading (NewClass Op Internal Hooks))
        copy_ce no_class s = ok (none, s)
        copy_ce (class c) s = copy_class c s

        -- copy_ce for a class that is there, with create_new_ce.
        pub copy_class :
            Class (Fields Op Internal Hooks)
            → Loading (NewClass Op Internal Hooks)
            → Run (Option ℕ × Loading (NewClass Op Internal Hooks))
        copy_class (internal_class name) s = ok (zend_lookup_class name.bytes, s)
        copy_class (user_class f parent interfaces traits aliases precedences) s =
            let (lowered, m1) = zend_string_tolower f.name s.copying.memory in
            let new_ce = m1.next in
            let (name, m2) = zend_string_dup f.name (emalloc m1) in
            let create = (do
              (new_parent, s3) ← copy_ce parent (taking s m2)
              (body, s4) ← copy_body f new_ce s3
              let m4 = s4.copying.memory
              (is, s5) ← copy_classes interfaces (taking s4 (table_memory interfaces m4))
              let m5 = s5.copying.memory
              (ts, s6) ← copy_classes traits (taking s5 (table_memory traits m5))
              let m6 = s6.copying.memory
              (as', s7) ← copy_trait_aliases aliases (taking s6 (aliases_memory aliases m6))
              let m7 = s7.copying.memory
              (ps, s8) ←
                  copy_trait_precedences precedences (taking s7 (precedences_memory precedences m7))
              ok (
                  finish_class f new_ce name new_parent body (block_of m4.next is)
                    (block_of m5.next ts) (block_of m6.next as') (block_of m7.next ps) s8)) in
            if f.anonymous
            then ok (none, s)
            else on_value (zend_hash_find class_table lowered.bytes) create
                λ ce. ok (some ce, taking s m1)

        -- copy_interfaces and copy_traits, which are alike.
        pub copy_classes :
            Classes (Fields Op Internal Hooks)
            → Loading (NewClass Op Internal Hooks)
            → Run (List (Option ℕ) × Loading (NewClass Op Internal Hooks))
        copy_classes no_classes s = ok ([], s)
        copy_classes (more c cs) s =
            copy_ce c s >>= λ r. copy_classes cs r.1 >>= λ rs. ok (r.0 ∷ rs.0, rs.1)

        pub copy_trait_method_reference :
            Reference (Fields Op Internal Hooks)
            → Loading (NewClass Op Internal Hooks)
            → Run (NewReference × Loading (NewClass Op Internal Hooks))
        copy_trait_method_reference (method_reference method_name ce class_name) s =
            let a = s.copying.memory.next in
            let (name, m1) = zend_string_dup method_name (emalloc s.copying.memory) in
            copy_ce ce (taking s m1) >>= λ r.
            let (n, m2) = dup_option zend_string_dup class_name r.1.copying.memory in
            ok (record { address = a; method_name = name; ce = r.0; class_name = n }, taking r.1 m2)

        -- The loop runs from the last entry to the first.
        pub copy_trait_aliases :
            Aliases (Fields Op Internal Hooks)
            → Loading (NewClass Op Internal Hooks)
            → Run (List NewAlias × Loading (NewClass Op Internal Hooks))
        copy_trait_aliases no_aliases s = ok ([], s)
        copy_trait_aliases (alias trait_method name modifiers rest) s =
            copy_trait_aliases rest s >>= λ rs.
            let a = rs.1.copying.memory.next in
            copy_trait_method_reference trait_method (taking rs.1 (emalloc rs.1.copying.memory))
            >>= λ r.
                let (n, m2) = dup_option zend_string_dup name r.1.copying.memory in
                ok (
                  record { address = a; trait_method = r.0; alias = n; modifiers = modifiers }
                      ∷ rs.0,
                  taking r.1 m2,
                )

        -- The one word is copied as a class and then as a string, and is not both.
        pub copy_excluded :
            Excluded (Fields Op Internal Hooks)
            → Loading (NewClass Op Internal Hooks)
            → Run (Option ℕ × Loading (NewClass Op Internal Hooks))
        copy_excluded nothing_excluded s = ok (none, s)
        copy_excluded (excluded_class ce) s =
            copy_ce ce (taking s (emalloc s.copying.memory)) >>= λ r. fault
        copy_excluded (excluded_name class_name) s = fault

        pub copy_trait_precedences :
            Precedences (Fields Op Internal Hooks)
            → Loading (NewClass Op Internal Hooks)
            → Run (List NewPrecedence × Loading (NewClass Op Internal Hooks))
        copy_trait_precedences no_precedences s = ok ([], s)
        copy_trait_precedences (precedence trait_method exclude rest) s =
            copy_trait_precedences rest s >>= λ rs.
            let a = rs.1.copying.memory.next in
            copy_trait_method_reference trait_method (taking rs.1 (emalloc rs.1.copying.memory))
            >>= λ r. copy_excluded exclude r.1 >>= λ e.
                ok (
                  record { address = a; trait_method = r.0; exclude_from_classes = e.0 } ∷ rs.0,
                  e.1,
                )

    module _ (zend_string_tolower : Str → Memory → Str × Memory)
        (zend_lookup_class : Bytes → Option ℕ) where
      -- The body of the loop of copy_ces.
      unfoldable pub copy_ces_step :
          Table ℕ
          → Class (Fields Op Internal Hooks)
          → Loading (NewClass Op Internal Hooks)
          → Run (Table ℕ × Loading (NewClass Op Internal Hooks))
      copy_ces_step table (internal_class name) s = ok (table, s)
      copy_ces_step table (user_class f parent interfaces traits aliases precedences) s =
          copy_class zend_string_tolower zend_lookup_class table
            (user_class f parent interfaces traits aliases precedences) s
          >>= λ r.
              let (name, m1) = zend_string_tolower f.name r.1.copying.memory in
              on_value r.0 (ok (table, r.1)) λ ce. ok (zend_hash_add table name ce, taking r.1 m1)

      unfoldable pub copy_ces :
          Table ℕ
          → List (Class (Fields Op Internal Hooks))
          → Loading (NewClass Op Internal Hooks)
          → Run (Table ℕ × Loading (NewClass Op Internal Hooks))
      copy_ces table [] s = ok (table, s)
      copy_ces table (c ∷ cs) s = copy_ces_step table c s >>= λ r. copy_ces r.0 cs r.1
