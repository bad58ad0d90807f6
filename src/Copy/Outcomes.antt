-- ===== src/Copy/Outcomes.antt =====
-- Copying a class runs to its end, and gives the class that stands for it. About copy_ce,
-- create_new_ce and the functions that they call of src/pht_copy.c.
use pht.Common.{
  ℕ, ◌≡◌, refl, sym, Bool, true, false, [], ◌∷◌, Option, none, some, Returns, bind-Returns, inl,
  inr, ◌⊎◌,
}
use mathlib.Core.Path.{subst}
use pht.PhtString.{Bytes}
use pht.Engine.{Str, Memory, emalloc, StringDup, KeepsBytes}
use pht.Copy.Tables.{Table, zend_hash_find}
use pht.Copy.OpArrays.{Named}
use pht.Copy.Classes.{
  Fields, Class, internal_class, user_class, Optional, no_class, class, Classes, no_classes, more,
  Reference, method_reference, Aliases, no_aliases, alias, Excluded, nothing_excluded,
  excluded_class, excluded_name, Precedences, no_precedences, precedence, NewClass, Loading, taking,
}
use pht.Copy.Functions.{Copying, with_memory, dup_option}
use pht.Copy.Loading.{
  table_memory, aliases_memory, precedences_memory, copy_ce, copy_class, copy_classes,
  copy_trait_method_reference, copy_trait_aliases, copy_excluded, copy_trait_precedences,
}
use pht.Copy.Bodies.{copy_body-BodyCopied}
use pht.Copy.Identity.{
  entries_of, entries_of-block_of, MadeFor, Loadable, OptionalLoadable, ClassesLoadable,
  ReferenceLoadable, AliasesLoadable, ExcludedLoadable, PrecedencesLoadable, Stands, Stands-map,
  branches, RefersTo, AllRefer, RefersTo-Grows, AllRefer-Grows, Grows, OwnCopied, ClassRefers,
  IsMade, Outcome,
}

some_of :
    (b : Bool) (found r : Option ℕ) (M : Type 0)
    → b ≡ false
    → Stands b found M r
    → (M → (a : ℕ) × (r ≡ some a))
    → (a : ℕ) × (r ≡ some a) × ((found ≡ some a) ⊎ M)
some_of true found r M e h made = absurd (cc e)
some_of false none r M e h made = let (a, is) = made h in (a, is, inr h)
some_of false (some a) r M e h made = (a, h, inl refl)

module _ (zend_string_dup : StringDup) (keeps : KeepsBytes zend_string_dup) (lower : Bytes → Bytes)
    (zend_string_tolower : Str → Memory → Str × Memory)
    (lowers : (s : Str) (m : Memory) → (zend_string_tolower s m).0.bytes ≡ lower s.bytes)
    (zend_lookup_class : Bytes → Option ℕ) (class_table : Table ℕ)
    {Op Internal Hooks : Type 0} where
  abbrev InOrder : Loading (NewClass Op Internal Hooks) → Type 0
  InOrder s = Named s.copying.file_names

  -- The names of files are in order afterwards, and the classes that were made are still among them.
  abbrev After : (s later : Loading (NewClass Op Internal Hooks)) → Type 0
  After s later = InOrder later × Grows s.created later.created

  Outcome-ClassRefers :
      (c : Class (Fields Op Internal Hooks)) (r : Option ℕ × Loading (NewClass Op Internal Hooks))
      → Outcome lower zend_lookup_class class_table c r
      → ClassRefers lower zend_lookup_class class_table r.1.created c r.0
  unfolding RefersTo
  Outcome-ClassRefers (internal_class name) r h = h
  Outcome-ClassRefers (user_class f p is ts as' ps) r h =
      Stands-map f.anonymous (zend_hash_find class_table (lower f.name.bytes)) _ _ r.0
        (λ (a, n, rest, is_a, e, own, of_p, of_is, of_ts).
          (a, n, is_a, rw e (inl (refl, refl)), own, of_p, of_is, of_ts))
        h

  -- The last class is made, when all that it refers to has been.
  finish_class-IsMade :
      (f : Fields Op Internal Hooks) (p : Optional (Fields Op Internal Hooks))
      (is ts : Classes (Fields Op Internal Hooks)) (a : ℕ) (n : NewClass Op Internal Hooks)
      (files : Copying) (s3 s5 s6 s8 : Loading (NewClass Op Internal Hooks))
      → OwnCopied f a n
      → Grows s3.created s8.created
      → Grows s5.created s8.created
      → Grows s6.created s8.created
      → RefersTo lower zend_lookup_class class_table s3.created p n.parent
      → AllRefer lower zend_lookup_class class_table s5.created is (entries_of n.interfaces)
      → AllRefer lower zend_lookup_class class_table s6.created ts (entries_of n.traits)
      → IsMade lower zend_lookup_class class_table f p is ts
          (some a, record { copying = files; created = (a, n) ∷ s8.created })
  finish_class-IsMade f p is ts a n files s3 s5 s6 s8 own g3 g5 g6 of_p of_is of_ts =
      let all = (a, n) ∷ s8.created in
      (
        a,
        n,
        s8.created,
        refl,
        refl,
        own,
        RefersTo-Grows lower zend_lookup_class class_table s3.created all p n.parent
            (λ b m i. inr (g3 b m i)) of_p,
        AllRefer-Grows lower zend_lookup_class class_table s5.created all is
            (entries_of n.interfaces) (λ b m i. inr (g5 b m i)) of_is,
        AllRefer-Grows lower zend_lookup_class class_table s6.created all ts (entries_of n.traits)
            (λ b m i. inr (g6 b m i)) of_ts,
      )

  mutual
    unfolding copy_ce Loadable RefersTo

    gives_optional :
        (o : Optional (Fields Op Internal Hooks)) (s : Loading (NewClass Op Internal Hooks))
        → OptionalLoadable o
        → InOrder s
        → Returns
            (copy_ce zend_string_dup zend_string_tolower zend_lookup_class class_table o s)
            (λ r. RefersTo lower zend_lookup_class class_table r.1.created o r.0 × After s r.1)
    gives_optional no_class s l n = ((none, s), refl, (refl, (n, λ a c m. m)))
    gives_optional (class c) s l n =
        let (r, runs, (h, n')) = gives_class c s l n in (r, runs, (Outcome-ClassRefers c r h, n'))

    gives_class :
        (c : Class (Fields Op Internal Hooks)) (s : Loading (NewClass Op Internal Hooks))
        → Loadable c
        → InOrder s
        → Returns
            (copy_class zend_string_dup zend_string_tolower zend_lookup_class class_table c s)
            (λ r. Outcome lower zend_lookup_class class_table c r × After s r.1)
    gives_class (internal_class name) s l n =
        ((zend_lookup_class name.bytes, s), refl, (refl, (n, λ a c m. m)))
    gives_class (user_class f p is ts as' ps) s (fl, pl, il, tl, al, ql) n =
        let (lowered, m1) = zend_string_tolower f.name s.copying.memory in
        let (name, m2) = zend_string_dup f.name (emalloc m1) in
        rw (lowers f.name s.copying.memory) (
          branches f.anonymous (zend_hash_find class_table (lower f.name.bytes)) _ (taking s m1) s
            (IsMade lower zend_lookup_class class_table f p is ts) (After s) (n, λ a c m. m)
            (n, λ a c m. m)
            (bind-Returns _ _ (gives_optional p (taking s m2) pl n) λ p3 (p_refers, (n3, g3)).
              bind-Returns _ _ (copy_body-BodyCopied zend_string_dup keeps f m1.next p3.1 fl n3)
                λ b4 (body, n4, same).
                  bind-Returns _ _
                    (gives_classes is (taking b4.1 (table_memory is b4.1.copying.memory)) il n4)
                    λ i5 (is_refer, (n5, g5)).
                      bind-Returns _ _
                        (gives_classes ts (taking i5.1 (table_memory ts i5.1.copying.memory)) tl n5)
                        λ t6 (ts_refer, (n6, g6)).
                          bind-Returns _ _
                            (gives_aliases as'
                              (taking t6.1 (aliases_memory as' t6.1.copying.memory)) al n6)
                            λ a7 (n7, g7).
                              bind-Returns _ _
                                (gives_precedences ps
                                  (taking a7.1 (precedences_memory ps a7.1.copying.memory)) ql n7)
                                λ q8 (n8, g8).
                                  let (doc_comment, m9) =
                                    dup_option zend_string_dup f.doc_comment q8.1.copying.memory in
                                  let of6 : Grows t6.1.created q8.1.created =
                                    λ a c m. g8 a c (g7 a c m) in
                                  let of5 : Grows i5.1.created q8.1.created =
                                    λ a c m. of6 a c (g6 a c m) in
                                  let of3 : Grows p3.1.created q8.1.created =
                                    λ a c m. of5 a c (g5 a c (rw same m)) in
                                  (
                                    _,
                                    refl,
                                    (
                                      finish_class-IsMade f p is ts m1.next _
                                          (with_memory q8.1.copying m9) p3.1 i5.1 t6.1 q8.1
                                          (record {
                                            name = keeps f.name (emalloc m1);
                                            ce_flags = refl;
                                            hooks = refl;
                                            body = body;
                                          })
                                          of3 of5 of6 p_refers
                                          (subst
                                            (AllRefer lower zend_lookup_class class_table
                                              i5.1.created is)
                                            (sym
                                              (entries_of-block_of b4.1.copying.memory.next i5.0))
                                            is_refer)
                                          (subst
                                            (AllRefer lower zend_lookup_class class_table
                                              t6.1.created ts)
                                            (sym
                                              (entries_of-block_of i5.1.copying.memory.next t6.0))
                                            ts_refer),
                                      (n8, λ a c m. inr (of3 a c (g3 a c m))),
                                    ),
                                  )))

    gives_classes :
        (cs : Classes (Fields Op Internal Hooks)) (s : Loading (NewClass Op Internal Hooks))
        → ClassesLoadable cs
        → InOrder s
        → Returns
            (copy_classes zend_string_dup zend_string_tolower zend_lookup_class class_table cs s)
            (λ r. AllRefer lower zend_lookup_class class_table r.1.created cs r.0 × After s r.1)
    gives_classes no_classes s l n = (([], s), refl, (tt, (n, λ a c m. m)))
    gives_classes (more c cs) s (l, ls) n =
        let (r, runs, (h, (n1, g1))) = gives_optional c s l n in
        let (rs, runs', (hs, (n2, g2))) = gives_classes cs r.1 ls n1 in
        (
          (r.0 ∷ rs.0, rs.1),
          rw (runs, runs'),
          (
            (
              RefersTo-Grows lower zend_lookup_class class_table r.1.created rs.1.created c r.0 g2
                  h,
              hs,
            ),
            (n2, λ a c' m. g2 a c' (g1 a c' m)),
          ),
        )

    gives_reference :
        (t : Reference (Fields Op Internal Hooks)) (s : Loading (NewClass Op Internal Hooks))
        → ReferenceLoadable t
        → InOrder s
        → Returns
            (copy_trait_method_reference zend_string_dup zend_string_tolower zend_lookup_class
              class_table t s)
            (λ r. After s r.1)
    gives_reference (method_reference method_name ce class_name) s l n =
        let (name, m1) = zend_string_dup method_name (emalloc s.copying.memory) in
        bind-Returns _ _ (gives_optional ce (taking s m1) l n) λ r (h, (n1, g)). (_, refl, (n1, g))

    gives_aliases :
        (t : Aliases (Fields Op Internal Hooks)) (s : Loading (NewClass Op Internal Hooks))
        → AliasesLoadable t
        → InOrder s
        → Returns
            (copy_trait_aliases zend_string_dup zend_string_tolower zend_lookup_class class_table t
              s)
            (λ r. After s r.1)
    gives_aliases no_aliases s l n = (([], s), refl, (n, λ a c m. m))
    gives_aliases (alias trait_method name modifiers rest) s (l, ls) n =
        bind-Returns _ _ (gives_aliases rest s ls n) λ rs (n1, g1).
          bind-Returns _ _
            (gives_reference trait_method (taking rs.1 (emalloc rs.1.copying.memory)) l n1)
            λ r (n2, g2). (_, refl, (n2, λ a c m. g2 a c (g1 a c m)))

    gives_excluded :
        (t : Excluded (Fields Op Internal Hooks)) (s : Loading (NewClass Op Internal Hooks))
        → ExcludedLoadable t
        → InOrder s
        → Returns
            (copy_excluded zend_string_dup zend_string_tolower zend_lookup_class class_table t s)
            (λ r. After s r.1)
    gives_excluded nothing_excluded s l n = ((none, s), refl, (n, λ a c m. m))
    gives_excluded (excluded_class ce) s l n = elim l [ ]
    gives_excluded (excluded_name class_name) s l n = elim l [ ]

    gives_precedences :
        (t : Precedences (Fields Op Internal Hooks)) (s : Loading (NewClass Op Internal Hooks))
        → PrecedencesLoadable t
        → InOrder s
        → Returns
            (copy_trait_precedences zend_string_dup zend_string_tolower zend_lookup_class
              class_table t s)
            (λ r. After s r.1)
    gives_precedences no_precedences s l n = (([], s), refl, (n, λ a c m. m))
    gives_precedences (precedence trait_method exclude rest) s (l, el, ls) n =
        bind-Returns _ _ (gives_precedences rest s ls n) λ rs (n1, g1).
          bind-Returns _ _
            (gives_reference trait_method (taking rs.1 (emalloc rs.1.copying.memory)) l n1)
            λ r (n2, g2).
              bind-Returns _ _ (gives_excluded exclude r.1 el n2)
                λ e (n3, g3). (_, refl, (n3, λ a c m. g3 a c (g2 a c (g1 a c m))))

  -- A class of a program that is not anonymous gives a class: the one found, or one made for it.
  pub Outcome-some :
      (f : Fields Op Internal Hooks) (p : Optional (Fields Op Internal Hooks))
      (is ts : Classes (Fields Op Internal Hooks)) (found : Option ℕ)
      (r : Option ℕ × Loading (NewClass Op Internal Hooks))
      → f.anonymous ≡ false
      → Stands f.anonymous found (IsMade lower zend_lookup_class class_table f p is ts r) r.0
      → (a : ℕ) × (r.0 ≡ some a) × ((found ≡ some a) ⊎ MadeFor r.1.created f a)
  Outcome-some f p is ts found r named h =
      let (a, is_a, from) =
        some_of f.anonymous found r.0 _ named h
          (λ (a, n, rest, e, last, own, of_p, of_is, of_ts). (a, e)) in
      (
        a,
        is_a,
        elim from [
          | inl there ↦ inl there
          | inr (b, n, rest, is_b, e, own, of_p, of_is, of_ts) ↦
              let same : a ≡ b = cc in inr (n, rw (e, same) (inl (refl, refl)), rw same own)
        ],
      )

  -- For a class whose tree can be copied, copying returns. An internal class gives what
  -- zend_lookup_class finds; an anonymous class gives nothing; a class that the class table has
  -- under its lower-case name gives the class there. Any other gives a new class, made last, with
  -- the name, flags and engine functions of the old one; its methods, properties and constants
  -- belong to it and show what the old ones show, and its default values say the same. Its parent,
  -- interfaces and traits are, at every depth, the internal class of that name, the class of the
  -- table, or a class that was made with what the old one has. The classes that were made before
  -- stay. zend_string_dup is to keep the bytes of a string, and zend_string_tolower to give its
  -- lower-case form.
  pub copy_class-Outcome :
      (c : Class (Fields Op Internal Hooks)) (s : Loading (NewClass Op Internal Hooks))
      → Loadable c
      → Named s.copying.file_names
      → Returns
          (copy_class zend_string_dup zend_string_tolower zend_lookup_class class_table c s)
          (λ r.
            Outcome lower zend_lookup_class class_table c r
            × (Named r.1.copying.file_names × Grows s.created r.1.created))
  copy_class-Outcome c s l n = gives_class c s l n
