-- ===== src/Copy/Registration.antt =====
-- The class table after copying. About copy_ces of src/pht_copy.c.
use pht.Common.{
  ℕ, ◌≡◌, refl, Bool, true, false, List, [], ◌∷◌, Option, none, some, ok, Returns, bind-Returns,
  on_value, Option-cases, inl, inr, ◌⊎◌, sym, ◌∙◌,
}
use mathlib.Core.Path.{subst}
use pht.PhtString.{Bytes}
use pht.Engine.{Str, Memory, StringDup, KeepsBytes}
use pht.Copy.Tables.{
  Table, zend_hash_find, zend_hash_add, Extends, Present, find-add, find-add_self, find-add_kept,
  found_or-inverse, bytes_eq, bytes_eq-eq,
}
use pht.Copy.OpArrays.{Named}
use pht.Copy.Classes.{
  Fields, Class, internal_class, user_class, Optional, Classes, Aliases, Precedences, NewClass,
  Loading, taking,
}
use pht.Copy.Loading.{copy_ces_step, copy_ces}
use pht.Copy.Identity.{Loadable, MadeFor, Grows, Stands}
use pht.Copy.Outcomes.{Outcome-some, copy_class-Outcome}

pub Present-zend_hash_add :
    {A : Type 0} (t : Table A) (key : Str) (v : A) → Present (zend_hash_add t key v) key.bytes
Present-zend_hash_add t key v = elim (Option-cases (zend_hash_find t key.bytes)) [
  | inl missing ↦ (v, find-add_self t key v missing)
  | inr (w, there) ↦ (w, find-add_kept t key v key.bytes w there)
]

-- `P`, where the test is false.
abbrev pub Unless {ℓ} : Bool → Type ℓ → Type ℓ
Unless true P = Unit
Unless false P = P

unless {ℓ} : {P : Type ℓ} (b : Bool) → (b ≡ false → P) → Unless b P
unless true h = tt
unless false h = h refl

Unless-map {ℓ κ} : {P : Type ℓ} {Q : Type κ} (b : Bool) → (P → Q) → Unless b P → Unless b Q
Unless-map true g h = tt
Unless-map false g h = g h

-- A named class has something to stand for it only where it is not anonymous.
Stands-named :
    (b : Bool) (found r : Option ℕ) (M : Type 0) (a : ℕ)
    → Stands b found M r
    → r ≡ some a
    → b ≡ false
Stands-named true found r M a h e = let no : none ≡ some a = sym h ∙ e in absurd (cc no)
Stands-named false found r M a h e = refl

module _ {Op Internal Hooks : Type 0} where
  abbrev pub AllLoadable : List (Class (Fields Op Internal Hooks)) → Type 0
  AllLoadable [] = Unit {0}
  AllLoadable (c ∷ cs) = Loadable c × AllLoadable cs

  -- A class of a program that has a name is in the table.
  abbrev pub IsRegistered : (Bytes → Bytes) → Table ℕ → Class (Fields Op Internal Hooks) → Type 0
  IsRegistered lower t (internal_class name) = Unit {0}
  IsRegistered lower t (user_class f p is ts as' ps) =
      Unless f.anonymous (Present t (lower f.name.bytes))

  abbrev pub AllRegistered :
      (Bytes → Bytes) → Table ℕ → List (Class (Fields Op Internal Hooks)) → Type 0
  AllRegistered lower t [] = Unit {0}
  AllRegistered lower t (c ∷ cs) = IsRegistered lower t c × AllRegistered lower t cs

  kept_later :
      (lower : Bytes → Bytes) (t u : Table ℕ) (c : Class (Fields Op Internal Hooks))
      → Extends t u
      → IsRegistered lower t c
      → IsRegistered lower u c
  kept_later lower t u (internal_class name) e h = h
  kept_later lower t u (user_class f p is ts as' ps) e h =
      Unless-map f.anonymous (λ (a, there). (a, e (lower f.name.bytes) a there)) h

  abbrev pub OneOf :
      Class (Fields Op Internal Hooks) → List (Class (Fields Op Internal Hooks)) → Type 0
  OneOf c [] = ⊥
  OneOf c (d ∷ ds) = (c ≡ d) ⊎ OneOf c ds

  -- The class at `a`, under the name `b`, was in the table at first, or was made for a class of the
  -- program, one of `old`, whose lower-case name is `b`.
  abbrev pub Origin :
      (lower : Bytes → Bytes)
      → (initial : Table ℕ) → (old : List (Class (Fields Op Internal Hooks)))
      → (made : List (ℕ × NewClass Op Internal Hooks)) → Bytes
      → ℕ
      → Type 0
  Origin lower initial old made b a =
      (zend_hash_find initial b ≡ some a)
      ⊎ ((f : Fields Op Internal Hooks) × (p : Optional (Fields Op Internal Hooks)) × (is : Classes
            (Fields Op Internal Hooks))
          × (ts : Classes (Fields Op Internal Hooks)) × (as' : Aliases (Fields Op Internal Hooks))
          × (ps : Precedences (Fields Op Internal Hooks)) × OneOf (user_class f p is ts as' ps) old
          × (lower f.name.bytes ≡ b)
          × MadeFor made f a)

  abbrev pub Origins :
      (lower : Bytes → Bytes)
      → (initial : Table ℕ) → (old : List (Class (Fields Op Internal Hooks)))
      → (made : List (ℕ × NewClass Op Internal Hooks)) → Table ℕ
      → Type 0
  Origins lower initial old made table =
      (b : Bytes) (a : ℕ) → zend_hash_find table b ≡ some a → Origin lower initial old made b a

  module _ (lower : Bytes → Bytes) (initial : Table ℕ)
      (old : List (Class (Fields Op Internal Hooks))) where
    Origins-Grows :
        (made later : List (ℕ × NewClass Op Internal Hooks)) (table : Table ℕ)
        → Grows made later
        → Origins lower initial old made table
        → Origins lower initial old later table
    Origins-Grows made later table g o b a found = elim (o b a found) [
      | inl there ↦ inl there
      | inr (f, p, is, ts, as', ps, one, e, (n, among, own)) ↦
          inr (f, p, is, ts, as', ps, one, e, (n, g a n among, own))
    ]

    Origins-zend_hash_add :
        (made : List (ℕ × NewClass Op Internal Hooks)) (table : Table ℕ) (name : Str) (v : ℕ)
        → Origins lower initial old made table
        → Origin lower initial old made name.bytes v
        → Origins lower initial old made (zend_hash_add table name v)
    Origins-zend_hash_add made table name v o new b a found =
        elim (found_or-inverse (zend_hash_find table b) (bytes_eq name.bytes b) v a
          (sym (find-add table name v b) ∙ found)) [
            | inl there ↦ o b a there
            | inr (same, is) ↦ rw (← bytes_eq-eq name.bytes b same, ← is) new
          ]

    module _ (zend_string_dup : StringDup) (keeps : KeepsBytes zend_string_dup)
        (zend_string_tolower : Str → Memory → Str × Memory)
        (lowers : (s : Str) (m : Memory) → (zend_string_tolower s m).0.bytes ≡ lower s.bytes)
        (zend_lookup_class : Bytes → Option ℕ) where
      -- The names of files are in order, and the classes in the table are where they should be from.
      abbrev Invariant : Table ℕ × Loading (NewClass Op Internal Hooks) → Type 0
      Invariant r = Named r.1.copying.file_names × Origins lower initial old r.1.created r.0

      -- What the loop does with what copy_ce gives.
      added :
          (o : Option ℕ) (table : Table ℕ) (name : Str) (b : Bytes) (anonymous : Bool)
          (s later : Loading (NewClass Op Internal Hooks))
          → name.bytes ≡ b
          → Invariant (table, s)
          → Invariant (table, later)
          → (anonymous ≡ false → (a : ℕ) × (o ≡ some a))
          → ((a : ℕ) → o ≡ some a → Origin lower initial old later.created b a)
          → Returns {A = Table ℕ × Loading (NewClass Op Internal Hooks)}
              (on_value o (ok (table, s)) λ ce. ok (zend_hash_add table name ce, later))
              (λ r. Extends table r.0 × Unless anonymous (Present r.0 b) × Invariant r)
      added none table name b anonymous s later is i i' some' from = (
        (table, s),
        refl,
        ((λ k w h. h), unless anonymous (λ named. let (a, e) = some' named in absurd (cc e)), i),
      )
      added (some ce) table name b anonymous s later is i (n, origins) some' from = (
        (zend_hash_add table name ce, later),
        refl,
        (
          (λ k w h. find-add_kept table name ce k w h),
          unless anonymous (λ named.
              subst (Present (zend_hash_add table name ce)) is
                (Present-zend_hash_add table name ce)),
          (n, Origins-zend_hash_add later.created table name ce origins (rw is (from ce refl))),
        ),
      )

      copy_ces_step-Registers :
          (table : Table ℕ) (c : Class (Fields Op Internal Hooks))
          (s : Loading (NewClass Op Internal Hooks))
          → Loadable c
          → OneOf c old
          → Invariant (table, s)
          → Returns
              (copy_ces_step zend_string_dup zend_string_tolower zend_lookup_class table c s)
              (λ r. Extends table r.0 × IsRegistered lower r.0 c × Invariant r)
      unfolding copy_ces_step
      copy_ces_step-Registers table (internal_class name) s l one i =
          ((table, s), refl, ((λ k w h. h), tt, i))
      copy_ces_step-Registers table (user_class f p is ts as' ps) s l one (n, origins) =
          bind-Returns _ _
            (copy_class-Outcome zend_string_dup keeps lower zend_string_tolower lowers
              zend_lookup_class table (user_class f p is ts as' ps) s l n)
            λ r (h, (n', grows)).
              let (name, m1) = zend_string_tolower f.name r.1.copying.memory in
              let some' = λ (named : f.anonymous ≡ false).
                Outcome-some zend_string_dup keeps lower zend_string_tolower lowers
                  zend_lookup_class table f p is ts _ r named h in
              let origins' = Origins-Grows s.created r.1.created table grows origins in
              let from : (a : ℕ)
                  → r.0 ≡ some a
                  → Origin lower initial old r.1.created (lower f.name.bytes) a =
                λ a is_a.
                  let (a', is_a', source) = some' (Stands-named f.anonymous _ r.0 _ a h is_a) in
                  let same : a' ≡ a = cc in
                  elim source [
                    | inl there ↦ origins' (lower f.name.bytes) a (rw (← same) there)
                    | inr made ↦ inr (f, p, is, ts, as', ps, one, refl, rw (← same) made)
                  ] in
              added r.0 table name (lower f.name.bytes) f.anonymous r.1 (taking r.1 m1)
                (lowers f.name r.1.copying.memory) (n', origins') (n', origins')
                (λ named. let (a, e, source) = some' named in (a, e)) from

      copy_ces-Invariant :
          (table : Table ℕ) (cs : List (Class (Fields Op Internal Hooks)))
          (s : Loading (NewClass Op Internal Hooks))
          → AllLoadable cs
          → ((c : Class (Fields Op Internal Hooks)) → OneOf c cs → OneOf c old)
          → Invariant (table, s)
          → Returns
              (copy_ces zend_string_dup zend_string_tolower zend_lookup_class table cs s)
              (λ r. Extends table r.0 × AllRegistered lower r.0 cs × Invariant r)
      unfolding copy_ces
      copy_ces-Invariant table [] s l sub i = ((table, s), refl, ((λ k w h. h), tt, i))
      copy_ces-Invariant table (c ∷ cs) s (l, ls) sub i =
          bind-Returns _ _ (copy_ces_step-Registers table c s l (sub c (inl refl)) i)
            λ r (e, here, i').
              let (r', runs, (e', rest, i'')) =
                copy_ces-Invariant r.0 cs r.1 ls (λ d one. sub d (inr one)) i' in
              (
                r',
                runs,
                ((λ b w h. e' b w (e b w h)), (kept_later lower r.0 r'.0 c e' here, rest), i''),
              )

  -- For classes whose trees can be copied, copy_ces returns. Afterwards every class of the old
  -- table that belongs to the program and has a name is in the class table under its lower-case
  -- name; every class in the table was there at first, under this name, or was made for a class of
  -- the old table with this lower-case name and has its name, flags, methods, properties,
  -- constants and default values; and the classes that were there stay. zend_string_dup is to keep
  -- the bytes of a string, and zend_string_tolower to give its lower-case form.
  pub copy_ces-Registers :
      (zend_string_dup : StringDup) (keeps : KeepsBytes zend_string_dup) (lower : Bytes → Bytes)
      (zend_string_tolower : Str → Memory → Str × Memory)
      (lowers : (s : Str) (m : Memory) → (zend_string_tolower s m).0.bytes ≡ lower s.bytes)
      (zend_lookup_class : Bytes → Option ℕ) (table : Table ℕ)
      (cs : List (Class (Fields Op Internal Hooks))) (s : Loading (NewClass Op Internal Hooks))
      → AllLoadable cs
      → Named s.copying.file_names
      → Returns (copy_ces zend_string_dup zend_string_tolower zend_lookup_class table cs s) (λ r.
        Extends table r.0
        × AllRegistered lower r.0 cs
        × (Named r.1.copying.file_names × Origins lower table cs r.1.created r.0))
  copy_ces-Registers zend_string_dup keeps lower zend_string_tolower lowers zend_lookup_class table
        cs s l n =
      copy_ces-Invariant lower table cs zend_string_dup keeps zend_string_tolower lowers
        zend_lookup_class table cs s l (λ c one. one) (n, (λ b a there. inl there))
