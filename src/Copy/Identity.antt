-- ===== src/Copy/Identity.antt =====
-- Which class of the new thread stands for a class of the old one, and what it has. About copy_ce,
-- create_new_ce, copy_interfaces and copy_traits of src/pht_copy.c.
use pht.Common.{
  ℕ, ◌≡◌, refl, Bool, true, false, List, [], ◌∷◌, Option, none, some, if◌then◌else◌, Run, ok,
  Returns, on_value, ◌⊎◌,
}
use pht.PhtString.{Bytes}
use pht.Copy.Tables.{Table, zend_hash_find}
use pht.Copy.Functions.{Block}
use pht.Copy.Classes.{
  Fields, Class, internal_class, user_class, Optional, no_class, class, Classes, no_classes, more,
  Reference, method_reference, Aliases, no_aliases, alias, Excluded, nothing_excluded,
  excluded_class, excluded_name, Precedences, no_precedences, precedence, NewClass, Loading,
}
use pht.Copy.Loading.{block_of}
use pht.Copy.Bodies.{BodyCopied, FieldsLoadable}

-- The entries of a table that may be NULL.
abbrev pub entries_of : {A : Type 0} → Option (Block (List A)) → List A
entries_of none = []
entries_of (some b) = b.contents

pub entries_of-block_of : {A : Type 0} (a : ℕ) (xs : List A) → entries_of (block_of a xs) ≡ xs
entries_of-block_of a [] = refl
entries_of-block_of a (x ∷ xs) = refl

-- What stands for a named class of a program: the class that the table has, else what `M` says; nothing
-- stands for an anonymous class.
abbrev pub Stands : (anonymous : Bool) → Option ℕ → Type 0 → Option ℕ → Type 0
Stands true found M r = r ≡ none
Stands false none M r = M
Stands false (some e) M r = r ≡ some e

pub Stands-map :
    (b : Bool) (o : Option ℕ) (M N : Type 0) (r : Option ℕ)
    → (M → N)
    → Stands b o M r
    → Stands b o N r
Stands-map true o M N r g h = h
Stands-map false none M N r g h = g h
Stands-map false (some e) M N r g h = h

-- The branches of copy_ce for a class of a program.
pub branches :
    {L : Type 0} (b : Bool) (o : Option ℕ) (create : Run (Option ℕ × L)) (there s : L)
    (M : Option ℕ × L → Type 0) (N : L → Type 0)
    → N s
    → N there
    → Returns create (λ r. M r × N r.1)
    → Returns
        (if b then ok (none, s) else on_value o create λ e. ok (some e, there))
        (λ r. Stands b o (M r) r.0 × N r.1)
branches true o create there s M N n t c = ((none, s), refl, (refl, n))
branches false none create there s M N n t c = c
branches false (some e) create there s M N n t c = ((some e, there), refl, (refl, t))

module _ {Op Internal Hooks : Type 0} where
  -- Every class in the tree can be copied without an assertion that fails, and none has a rule that
  -- excludes classes.
  unfoldable mutual
    pub Loadable : Class (Fields Op Internal Hooks) → Type 0
    Loadable (internal_class name) = Unit {0}
    Loadable (user_class f p is ts as' ps) =
        FieldsLoadable f
        × OptionalLoadable p
        × ClassesLoadable is
        × ClassesLoadable ts
        × AliasesLoadable as'
        × PrecedencesLoadable ps

    pub OptionalLoadable : Optional (Fields Op Internal Hooks) → Type 0
    OptionalLoadable no_class = Unit {0}
    OptionalLoadable (class c) = Loadable c

    pub ClassesLoadable : Classes (Fields Op Internal Hooks) → Type 0
    ClassesLoadable no_classes = Unit {0}
    ClassesLoadable (more c cs) = OptionalLoadable c × ClassesLoadable cs

    pub ReferenceLoadable : Reference (Fields Op Internal Hooks) → Type 0
    ReferenceLoadable (method_reference n c k) = OptionalLoadable c

    pub AliasesLoadable : Aliases (Fields Op Internal Hooks) → Type 0
    AliasesLoadable no_aliases = Unit {0}
    AliasesLoadable (alias r a n rest) = ReferenceLoadable r × AliasesLoadable rest

    pub ExcludedLoadable : Excluded (Fields Op Internal Hooks) → Type 0
    ExcludedLoadable nothing_excluded = Unit {0}
    ExcludedLoadable (excluded_class c) = ⊥
    ExcludedLoadable (excluded_name n) = ⊥

    pub PrecedencesLoadable : Precedences (Fields Op Internal Hooks) → Type 0
    PrecedencesLoadable no_precedences = Unit {0}
    PrecedencesLoadable (precedence r e rest) =
        ReferenceLoadable r × ExcludedLoadable e × PrecedencesLoadable rest

  -- A class is among those that were made.
  abbrev pub Among : ℕ → NewClass Op Internal Hooks → List (ℕ × NewClass Op Internal Hooks) → Type 0
  Among a n [] = ⊥
  Among a n ((b, m) ∷ made) = ((a ≡ b) × (n ≡ m)) ⊎ Among a n made

  abbrev pub Grows : (made later : List (ℕ × NewClass Op Internal Hooks)) → Type 0
  Grows made later = (a : ℕ) (n : NewClass Op Internal Hooks) → Among a n made → Among a n later

  -- The new class at `a` has what the old class has of its own.
  pub record OwnCopied (f : Fields Op Internal Hooks) (a : ℕ) (n : NewClass Op Internal Hooks)
      : Type 0 where
    pub name : n.name.bytes ≡ f.name.bytes
    pub ce_flags : n.ce_flags ≡ f.ce_flags
    pub hooks : n.hooks ≡ f.hooks
    pub body : BodyCopied f a n.body

  -- The class at `a` was made for a class with these fields.
  abbrev pub MadeFor : List (ℕ × NewClass Op Internal Hooks) → Fields Op Internal Hooks → ℕ → Type 0
  MadeFor made f a = (n : NewClass Op Internal Hooks) × Among a n made × OwnCopied f a n

  module _ (lower : Bytes → Bytes) (zend_lookup_class : Bytes → Option ℕ)
      (class_table : Table ℕ) where
    -- The pointer `r` of the new thread is to the class for `c`: an internal class by its name, a class
    -- that the table has by its lower-case name, else one of the classes that were made, which has what
    -- `c` has, and a parent, interfaces and traits that are in the same way those for the old ones.
    unfoldable mutual
      pub RefersTo :
          List (ℕ × NewClass Op Internal Hooks)
          → Optional (Fields Op Internal Hooks)
          → Option ℕ
          → Type 0
      RefersTo made no_class r = r ≡ none
      RefersTo made (class c) r = ClassRefers made c r

      pub ClassRefers :
          List (ℕ × NewClass Op Internal Hooks)
          → Class (Fields Op Internal Hooks)
          → Option ℕ
          → Type 0
      ClassRefers made (internal_class name) r = r ≡ zend_lookup_class name.bytes
      ClassRefers made (user_class f p is ts as' ps) r =
          Stands f.anonymous (zend_hash_find class_table (lower f.name.bytes))
            ((a : ℕ) × (n : NewClass Op Internal Hooks) × (r ≡ some a)
              × Among a n made
              × OwnCopied f a n
              × RefersTo made p n.parent
              × AllRefer made is (entries_of n.interfaces)
              × AllRefer made ts (entries_of n.traits))
            r

      pub AllRefer :
          List (ℕ × NewClass Op Internal Hooks)
          → Classes (Fields Op Internal Hooks)
          → List (Option ℕ)
          → Type 0
      AllRefer made no_classes [] = Unit {0}
      AllRefer made no_classes (r ∷ rs) = ⊥
      AllRefer made (more c cs) [] = ⊥
      AllRefer made (more c cs) (r ∷ rs) = RefersTo made c r × AllRefer made cs rs

    mutual
      unfolding RefersTo

      pub RefersTo-Grows :
          (made later : List (ℕ × NewClass Op Internal Hooks))
          (c : Optional (Fields Op Internal Hooks)) (r : Option ℕ)
          → Grows made later
          → RefersTo made c r
          → RefersTo later c r
      RefersTo-Grows made later no_class r g h = h
      RefersTo-Grows made later (class c) r g h = ClassRefers-Grows made later c r g h

      ClassRefers-Grows :
          (made later : List (ℕ × NewClass Op Internal Hooks))
          (c : Class (Fields Op Internal Hooks)) (r : Option ℕ)
          → Grows made later
          → ClassRefers made c r
          → ClassRefers later c r
      ClassRefers-Grows made later (internal_class name) r g h = h
      ClassRefers-Grows made later (user_class f p is ts as' ps) r g h =
          Stands-map f.anonymous (zend_hash_find class_table (lower f.name.bytes)) _ _ r
            (λ (a, n, e, among, own, of_p, of_is, of_ts). (
              a,
              n,
              e,
              g a n among,
              own,
              RefersTo-Grows made later p n.parent g of_p,
              AllRefer-Grows made later is (entries_of n.interfaces) g of_is,
              AllRefer-Grows made later ts (entries_of n.traits) g of_ts,
            ))
            h

      pub AllRefer-Grows :
          (made later : List (ℕ × NewClass Op Internal Hooks))
          (cs : Classes (Fields Op Internal Hooks)) (rs : List (Option ℕ))
          → Grows made later
          → AllRefer made cs rs
          → AllRefer later cs rs
      AllRefer-Grows made later no_classes [] g h = h
      AllRefer-Grows made later no_classes (r ∷ rs) g h = h
      AllRefer-Grows made later (more c cs) [] g h = h
      AllRefer-Grows made later (more c cs) (r ∷ rs) g (h, hs) =
          (RefersTo-Grows made later c r g h, AllRefer-Grows made later cs rs g hs)

    -- `r` is the class that was made last.
    abbrev pub IsMade :
        Fields Op Internal Hooks
        → Optional (Fields Op Internal Hooks)
        → (interfaces traits : Classes (Fields Op Internal Hooks))
        → Option ℕ × Loading (NewClass Op Internal Hooks)
        → Type 0
    IsMade f p is ts r =
        (a : ℕ) × (n : NewClass Op Internal Hooks) × (rest : List (ℕ × NewClass Op Internal Hooks))
        × (r.0 ≡ some a)
        × (r.1.created ≡ (a, n) ∷ rest)
        × OwnCopied f a n
        × RefersTo r.1.created p n.parent
        × AllRefer r.1.created is (entries_of n.interfaces)
        × AllRefer r.1.created ts (entries_of n.traits)

    abbrev pub Outcome :
        Class (Fields Op Internal Hooks) → Option ℕ × Loading (NewClass Op Internal Hooks) → Type 0
    Outcome (internal_class name) r = r.0 ≡ zend_lookup_class name.bytes
    Outcome (user_class f p is ts as' ps) r =
        Stands f.anonymous (zend_hash_find class_table (lower f.name.bytes)) (IsMade f p is ts r)
          r.0
