-- ===== src/Copy/FunctionTables.antt =====
-- Tables of functions after copying. About copy_function and copy_functions of src/pht_copy.c.
use mathlib.Core.Option
use pht.Common.{
  ℕ, ◌≡◌, refl, sym, ◌∙◌, List, [], ◌∷◌, Option, none, some, ◌>>=◌, Returns, ◌⊎◌, inl, inr, map,
}
use pht.PhtString.{Bytes}
use pht.Engine.{Str, emalloc, StringDup, KeepsBytes}
use pht.Engine.Meaning.{Content, meaning}
use pht.Copy.Tables.{
  Table, zend_hash_find, zend_hash_add, Extends, found_or, found_or-none, map-add,
}
use pht.Copy.Functions.{
  OpArray, Function, user_function, internal_function, Copying, with_memory, copy_user_function,
  copy_internal_function, copy_function, add_function, copy_functions,
}
use pht.Copy.OpArrays.{Described, Named}
use pht.Copy.Prototypes.{args_described, IsCopyable, IsCopyOf, copy_zend_op_array-IsCopyOf}

-- What a program can tell of a function: an internal one as it is; of another the class, the name, the
-- parameters, the file, the literals and the opcodes.
abbrev pub Shown : (Op Internal : Type 0) → Type 0
Shown Op Internal = Internal ⊎ (Option ℕ × Bytes × List Described × Bytes × List Content × List Op)

module _ {Op Internal : Type 0} where
  abbrev pub op_shown : Option ℕ → OpArray Op → Shown Op Internal
  op_shown ce o = inr (
    ce,
    o.function_name.bytes,
    args_described o,
    o.filename.bytes,
    map meaning o.literals.contents,
    o.opcodes.contents,
  )

  abbrev pub shown : Function Op Internal → Shown Op Internal
  shown (user_function a o) = op_shown o.scope o
  shown (internal_function a i) = inl i

  -- What the copy of a function for the class `ce` is to show.
  abbrev pub shown_for : Option ℕ → Function Op Internal → Shown Op Internal
  shown_for ce (user_function a o) = op_shown ce o
  shown_for ce (internal_function a i) = inl i

  abbrev pub IsCopyableFunction : Function Op Internal → Type 0
  IsCopyableFunction (user_function a o) = IsCopyable o
  IsCopyableFunction (internal_function a i) = Unit {0}

  abbrev pub AllCopyable : Table (Function Op Internal) → Type 0
  AllCopyable [] = Unit {0}
  AllCopyable ((k, f) ∷ t) = IsCopyableFunction f × AllCopyable t

  -- All functions of a class, the user functions of a program.
  abbrev pub taken : Option ℕ → Table (Function Op Internal) → Table (Function Op Internal)
  taken ce [] = []
  taken (some c) ((k, f) ∷ t) = (k, f) ∷ taken (some c) t
  taken none ((k, user_function a o) ∷ t) = (k, user_function a o) ∷ taken none t
  taken none ((k, internal_function a i) ∷ t) = taken none t

  op_shown-IsCopyOf :
      (old new : OpArray Op) (ce : Option ℕ)
      → IsCopyOf old ce new
      → op_shown new.scope new ≡ op_shown ce old
  op_shown-IsCopyOf old new ce c =
      rw (c.scope, c.function_name, c.args, c.filename, c.literals, c.opcodes)

  module _ (zend_string_dup : StringDup) (keeps : KeepsBytes zend_string_dup) where
    copy_function-shown :
        (f : Function Op Internal) (ce : Option ℕ) (s : Copying)
        → IsCopyableFunction f
        → Named s.file_names
        → Returns (copy_function zend_string_dup f ce s) (λ r.
          (shown r.0 ≡ shown_for ce f) × Extends s.file_names r.1.file_names × Named r.1.file_names)
    unfolding copy_function copy_user_function copy_internal_function
    copy_function-shown (internal_function a i) ce s c named = (
      (internal_function s.memory.next i, with_memory s (emalloc s.memory)),
      refl,
      (refl, (λ b w h. h), named),
    )
    copy_function-shown (user_function a o) ce s c named =
        let (r, runs, (is, there, extends, named')) =
          copy_zend_op_array-IsCopyOf zend_string_dup keeps o ce (with_memory s (emalloc s.memory))
            c named in
        (
          (user_function s.memory.next r.0, r.1),
          rw runs,
          (op_shown-IsCopyOf o r.0 ce is, extends, named'),
        )

    -- One element of the loop, with what the rest of it gives.
    add-rest :
        (new : Table (Function Op Internal)) (k : Str) (f : Function Op Internal) (ce : Option ℕ)
        (s : Copying) (old rest : Table (Function Op Internal))
        → IsCopyableFunction f
        → Named s.file_names
        → ((new' : Table (Function Op Internal)) (s' : Copying)
            → Named s'.file_names
            → Returns (copy_functions zend_string_dup new' old ce s') (λ r.
              ((b : Bytes)
                → Option.map shown (zend_hash_find r.0 b)
                  ≡ found_or
                      (Option.map shown (zend_hash_find new' b))
                      (Option.map (shown_for ce) (zend_hash_find rest b)))
              × Extends s'.file_names r.1.file_names
              × Named r.1.file_names))
        → Returns
            (add_function zend_string_dup new k f ce s >>= λ r.
              copy_functions zend_string_dup r.0 old ce r.1)
            (λ r.
              ((b : Bytes)
                → Option.map shown (zend_hash_find r.0 b)
                  ≡ found_or
                      (Option.map shown (zend_hash_find new b))
                      (Option.map (shown_for ce) (zend_hash_find ((k, f) ∷ rest) b)))
              × Extends s.file_names r.1.file_names
              × Named r.1.file_names)
    add-rest new k f ce s old rest c named go =
        let (new_name, m1) = zend_string_dup k s.memory in
        let (r, runs, (like, extends, named')) =
          copy_function-shown f ce (with_memory s m1) c named in
        let (r', runs', (has, extends', named'')) =
          go (zend_hash_add new new_name r.0) r.1 named' in
        (
          r',
          rw runs runs',
          (
            (λ b.
                has b
                ∙ map-add shown (shown_for ce) new k new_name r.0 f rest b (keeps k s.memory) like),
            (λ b w h. extends' b w (extends b w h)),
            named'',
          ),
        )

    -- For user functions that can be copied, copy_functions returns. Afterwards the table has
    -- under each name what it had, else a copy of the function of the old table: of every function
    -- of a class, now for the new class, and for the whole program of the user functions only. The
    -- names of files stay one string each. zend_string_dup is to keep the bytes of a string.
    pub copy_functions-shown :
        (new old : Table (Function Op Internal)) (ce : Option ℕ) (s : Copying)
        → AllCopyable old
        → Named s.file_names
        → Returns (copy_functions zend_string_dup new old ce s) (λ r.
          ((b : Bytes)
            → Option.map shown (zend_hash_find r.0 b)
              ≡ found_or
                  (Option.map shown (zend_hash_find new b))
                  (Option.map (shown_for ce) (zend_hash_find (taken ce old) b)))
          × Extends s.file_names r.1.file_names
          × Named r.1.file_names)
    unfolding copy_functions zend_hash_find
    copy_functions-shown new [] ce s c named = (
      (new, s),
      refl,
      ((λ b. sym (found_or-none (Option.map shown (zend_hash_find new b)))), (λ b w h. h), named),
    )
    copy_functions-shown new ((k, f) ∷ old) (some ce) s (c, cs) named =
        add-rest new k f (some ce) s old (taken (some ce) old) c named
          (λ new' s' n. copy_functions-shown new' old (some ce) s' cs n)
    copy_functions-shown new ((k, user_function a o) ∷ old) none s (c, cs) named =
        add-rest new k (user_function a o) none s old (taken none old) c named
          (λ new' s' n. copy_functions-shown new' old none s' cs n)
    copy_functions-shown new ((k, internal_function a i) ∷ old) none s (c, cs) named =
        copy_functions-shown new old none s cs named
