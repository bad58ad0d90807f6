-- ===== src/Copy/Prototypes.antt =====
-- Copied functions and tables of functions beside their sources. About copy_zend_op_array, copy_function
-- and copy_functions of src/pht_copy.c.
use mathlib.Core.Option
use pht.Common.{
  ℕ, zero, suc, ◌≤◌, ◌≡◌, refl, sym, ap, ◌∙◌, List, [], ◌∷◌, Option, none, some, Returns, arith,
  map, length, take, length-take, ◌+◌,
}
use pht.PhtString.{Bytes}
use pht.Engine.{Value, Memory, emalloc, StringDup, KeepsBytes}
use pht.Engine.Meaning.{meaning}
use pht.Copy.Tables.{Table, zend_hash_find, Extends}
use pht.Copy.Functions.{
  Block, OpArray, Copying, copy_zend_live_range, copy_zend_try_catch_element, copy_zend_op_array,
  rest_of_op_array, with_memory, copy_static_variables,
}
use pht.Copy.Statics.{AllCopied, expected_static, copy_static_variables-expected}
use pht.Copy.OpArrays.{
  Described, arg_described, entry_count, IsPlaced, Named, copy_function_arg_info-described,
  copy_filename-shared, meaning-copy_literals,
}

abbrev pub StaticsCopied : Option (Block (Table Value)) → Type 0
StaticsCopied none = Unit {0}
StaticsCopied (some t) = AllCopied t.contents

-- The two tables of static variables have the same names, with the values that are expected.
abbrev pub LikeStatics : Option (Block (Table Value)) → Option (Block (Table Value)) → Type 0
LikeStatics none none = Unit {0}
LikeStatics none (some n) = ⊥
LikeStatics (some o) none = ⊥
LikeStatics (some o) (some n) =
    (b : Bytes)
    → Option.map meaning (zend_hash_find n.contents b)
      ≡ Option.map expected_static (zend_hash_find o.contents b)

module _ {Op : Type 0} where
  abbrev pub args_described : OpArray Op → List Described
  args_described o = map arg_described (take (entry_count o.fn_flags o.num_args) o.arg_info.infos)

  -- The argument block is in order and no static variable is a resource.
  abbrev pub IsCopyable : OpArray Op → Type 0
  IsCopyable o = IsPlaced o.arg_info o.fn_flags o.num_args × StaticsCopied o.static_variables

  -- `new` is for the class `ce` what `old` is for its own.
  pub record IsCopyOf (old : OpArray Op) (ce : Option ℕ) (new : OpArray Op) : Type 0 where
    pub scope : new.scope ≡ ce
    pub prototype : new.prototype ≡ none
    pub run_time_cache : new.run_time_cache ≡ none
    pub refcount : new.refcount.contents ≡ 1
    pub function_name : new.function_name.bytes ≡ old.function_name.bytes
    pub filename : new.filename.bytes ≡ old.filename.bytes
    pub placed : IsPlaced new.arg_info new.fn_flags new.num_args
    pub args : args_described new ≡ args_described old
    pub opcodes : new.opcodes.contents ≡ old.opcodes.contents
    pub literals : map meaning new.literals.contents ≡ map meaning old.literals.contents
    pub static_variables : LikeStatics old.static_variables new.static_variables

map-take : {A B : Type 0} (f : A → B) (n : ℕ) (xs : List A) → map f (take n xs) ≡ take n (map f xs)
map-take f zero xs = refl
map-take f (suc n) [] = refl
map-take f (suc n) (x ∷ xs) = ap (λ t. f x ∷ t) (map-take f n xs)

take_twice : {A : Type 0} (n : ℕ) (xs : List A) → take n (take n xs) ≡ take n xs
take_twice zero xs = refl
take_twice (suc n) [] = refl
take_twice (suc n) (x ∷ xs) = ap (λ t. x ∷ t) (take_twice n xs)

-- What is like the first `n` entries has them as its own first `n`.
like_start :
    {A B : Type 0} (f : A → B) (n : ℕ) (xs ys : List A)
    → map f xs ≡ map f (take n ys)
    → map f (take n xs) ≡ map f (take n ys)
like_start f n xs ys h =
    map-take f n xs
    ∙ ap (take n) (h ∙ map-take f n ys)
    ∙ take_twice n (map f ys)
    ∙ sym (map-take f n ys)

length-map : {A B : Type 0} (f : A → B) (xs : List A) → length (map f xs) ≡ length xs
length-map f [] = refl
length-map f (x ∷ xs) = ap suc (length-map f xs)

-- As many entries as there are in the first `n`.
like_length :
    {A B : Type 0} (f : A → B) (n : ℕ) (xs ys : List A)
    → n ≤ length ys
    → map f xs ≡ map f (take n ys)
    → n ≤ length xs
like_length f n xs ys room h =
    let same : length xs ≡ n =
      sym (length-map f xs) ∙ ap length h ∙ length-map f (take n ys) ∙ length-take n ys room in
    omega arith

module _ (zend_string_dup : StringDup) (keeps : KeepsBytes zend_string_dup) where
  statics-like :
      (o : Option (Block (Table Value))) (m : Memory)
      → StaticsCopied o
      → Returns (copy_static_variables zend_string_dup o m) (λ r. LikeStatics o r.0)
  unfolding copy_static_variables
  statics-like none m c = ((none, m), refl, tt)
  statics-like (some t) m c =
      let (r, runs, (new, is, like)) = copy_static_variables-expected zend_string_dup keeps t m c in
      (r, runs, rw is like)

  module _ {Op : Type 0} where
    -- For an op array whose argument block is in order and none of whose static variables is a
    -- resource, copy_zend_op_array returns a copy for the given class, with no prototype and no
    -- run-time cache, and with the name, the file, the return type and the parameters, the opcodes
    -- and the literals of the source and the static variables that are expected. The file is named
    -- by the one string that the table of file names has for it, and the strings that this table
    -- had stay. zend_string_dup is to keep the bytes of a string.
    pub copy_zend_op_array-IsCopyOf :
        (old : OpArray Op) (ce : Option ℕ) (s : Copying)
        → IsCopyable old
        → Named s.file_names
        → Returns (copy_zend_op_array zend_string_dup old ce s) (λ r.
          IsCopyOf old ce r.0
          × (zend_hash_find r.1.file_names old.filename.bytes ≡ some r.0.filename)
          × Extends s.file_names r.1.file_names
          × Named r.1.file_names)
    unfolding copy_zend_op_array
    copy_zend_op_array-IsCopyOf old ce s (placed, statics) named =
        let (function_name, m1) = zend_string_dup old.function_name s.memory in
        let (a, runs_a, (at, like)) =
          copy_function_arg_info-described zend_string_dup keeps old.arg_info old.fn_flags
            old.num_args m1 placed in
        let m4 = emalloc (emalloc a.1) in
        let m5 = (copy_zend_live_range old.live_range m4).1 in
        let m6 = (copy_zend_try_catch_element old.try_catch_array m5).1 in
        let (t, runs_t, like_t) = statics-like old.static_variables m6 statics in
        let (there, same, extends, named') =
          copy_filename-shared zend_string_dup keeps old.filename (with_memory s t.1) named in
        (
          rest_of_op_array zend_string_dup old ce (with_memory s t.1) function_name a.0 a.1.next
              (a.1.next + 1) (copy_zend_live_range old.live_range m4).0
              (copy_zend_try_catch_element old.try_catch_array m5).0 t.0,
          rw (runs_a, runs_t),
          (
            record {
              scope = refl;
              prototype = refl;
              run_time_cache = refl;
              refcount = refl;
              function_name = keeps old.function_name s.memory;
              filename = same;
              placed = (
                at ∙ placed.0,
                like_length arg_described _ a.0.infos old.arg_info.infos placed.1 like,
              );
              args = like_start arg_described _ a.0.infos old.arg_info.infos like;
              opcodes = refl;
              literals = meaning-copy_literals zend_string_dup keeps old.literals.contents _;
              static_variables = like_t;
            },
            there,
            extends,
            named',
          ),
        )
