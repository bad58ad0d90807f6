-- ===== src/Copy/Settings.antt =====
-- The included files and the constants after copying. About copy_included_files, copy_class_constants
-- and copy_global_constants of src/pht_copy.c.
use mathlib.Core.Option
use mathlib.Core.Path.{subst}
use pht.Common.{
  ℕ, ◌≡◌, refl, sym, ◌∙◌, Bool, true, false, [], ◌∷◌, Option, some, if◌then◌else◌, ◌⊎◌, inl, inr,
}
use pht.PhtString.{Bytes}
use pht.Engine.{Str, Value, null, Memory, StringDup, KeepsBytes}
use pht.Engine.Duplicate.{pht_zval_dup}
use pht.Engine.Meaning.{Content, meaning, key_bytes, meaning-pht_zval_dup}
use pht.Copy.Tables.{
  Table, zend_hash_find, zend_hash_add, Extends, found_or, found_or-none, map-add, zend_hash_exists,
  Present, exists-Present,
}
use pht.Copy.OpArrays.{key_bytes-dup_option}
use pht.Copy.Constants.{
  Constant, ClassConstant, copy_included_files, copy_constant, copy_class_constant,
  copy_class_constants, copy_global_constants, constant_step,
}

-- Whether a file is among those of a table, whatever stands beside its name.
abbrev pub presence : Value → Unit {0}
presence v = tt

abbrev pub constant_shown : ClassConstant → Content × ℕ × Option Bytes × ℕ
constant_shown c = (meaning c.value, c.access, key_bytes c.doc_comment, c.ce)

-- What the copy of a constant for the class `ce` is to show.
abbrev pub constant_shown_for : ℕ → ClassConstant → Content × ℕ × Option Bytes × ℕ
constant_shown_for ce c = (meaning c.value, c.access, key_bytes c.doc_comment, ce)

module _ (zend_string_dup : StringDup) (keeps : KeepsBytes zend_string_dup) where
  pub copy_included_files-presence :
      (new old : Table Value) (m : Memory) (b : Bytes)
      → Option.map presence (zend_hash_find (copy_included_files zend_string_dup new old m).0 b)
        ≡ found_or
            (Option.map presence (zend_hash_find new b))
            (Option.map presence (zend_hash_find old b))
  unfolding copy_included_files zend_hash_find
  copy_included_files-presence new [] m b =
      sym (found_or-none (Option.map presence (zend_hash_find new b)))
  copy_included_files-presence new ((filename, v) ∷ old) m b =
      let (f, m1) = zend_string_dup filename m in
      copy_included_files-presence (zend_hash_add new f null) old m1 b
      ∙ map-add presence presence new filename f null v old b (keeps filename m) refl

  constant_shown-copy :
      (c : ClassConstant) (ce : ℕ) (m : Memory)
      → constant_shown (copy_class_constant zend_string_dup c ce m).0 ≡ constant_shown_for ce c
  unfolding copy_class_constant
  constant_shown-copy c ce m = rw (
    meaning-pht_zval_dup zend_string_dup keeps c.value m,
    key_bytes-dup_option zend_string_dup keeps c.doc_comment
        (pht_zval_dup zend_string_dup c.value m).1,
  )

  pub copy_class_constants-shown :
      (new old : Table ClassConstant) (ce : ℕ) (m : Memory) (b : Bytes)
      → Option.map constant_shown
          (zend_hash_find (copy_class_constants zend_string_dup new old ce m).0 b)
        ≡ found_or
            (Option.map constant_shown (zend_hash_find new b))
            (Option.map (constant_shown_for ce) (zend_hash_find old b))
  unfolding copy_class_constants zend_hash_find
  copy_class_constants-shown new [] ce m b =
      sym (found_or-none (Option.map constant_shown (zend_hash_find new b)))
  copy_class_constants-shown new ((key, c) ∷ old) ce m b =
      let (d, m1) = copy_class_constant zend_string_dup c ce m in
      copy_class_constants-shown (zend_hash_add new key d) old ce m1 b
      ∙ map-add constant_shown (constant_shown_for ce) new key key d c old b refl
          (constant_shown-copy c ce m)

chosen_table {ℓ κ} :
    {A : Type ℓ} (P : A → Type κ) (b : Bool) (x y : A)
    → (b ≡ true → P x)
    → (b ≡ false → P y)
    → P (if b then x else y)
chosen_table P true x y h k = h refl
chosen_table P false x y h k = k refl

-- A table that the engine's registration made.
abbrev pub Keyed : (constant_key : Str → ℕ → Bytes) → Table Constant → Type 0
Keyed constant_key [] = Unit {0}
Keyed constant_key ((key, c) ∷ t) = (key.bytes ≡ constant_key c.name c.flags) × Keyed constant_key t

-- Each key of `old` is in the table, or its lower-case form is.
abbrev pub Covers : (lower : Bytes → Bytes) → (t old : Table Constant) → Type 0
Covers lower t [] = Unit {0}
Covers lower t ((key, c) ∷ old) =
    (Present t key.bytes ⊎ Present t (lower key.bytes)) × Covers lower t old

-- What a constant says, apart from its name.
abbrev pub constant_content : Constant → Content × ℕ × ℕ
constant_content c = (meaning c.value, c.flags, c.module_number)

-- What zend_register_constant is documented to do: the table keeps what it has, and has the constant
-- under its key if it had none there.
abbrev pub IsRegistration :
    (constant_key : Str → ℕ → Bytes) → Constant → (t registered : Table Constant) → Type 0
IsRegistration constant_key c t registered =
    Extends t registered
    × Present registered (constant_key c.name c.flags)
    × ((b : Bytes) (v : Constant)
        → zend_hash_find registered b ≡ some v
        → (zend_hash_find t b ≡ some v)
          ⊎ ((constant_key c.name c.flags ≡ b) × (constant_content v ≡ constant_content c)))

-- The constant `v` says what a constant of `old` under this key says.
abbrev pub SaidBy : Bytes → Constant → Table Constant → Type 0
SaidBy b v [] = ⊥
SaidBy b v ((key, c) ∷ old) =
    ((key.bytes ≡ b) × (constant_content v ≡ constant_content c)) ⊎ SaidBy b v old

module _ (zend_string_dup : StringDup) (keeps : KeepsBytes zend_string_dup) (lower : Bytes → Bytes)
    (zend_string_tolower : Str → Memory → Str × Memory)
    (lowers : (s : Str) (m : Memory) → (zend_string_tolower s m).0.bytes ≡ lower s.bytes)
    (constant_key : Str → ℕ → Bytes)
    (zend_register_constant : Constant → Table Constant → Memory → Table Constant × Memory)
    (registers : (c : Constant) (t : Table Constant) (m : Memory)
      → IsRegistration constant_key c t (zend_register_constant c t m).0) where
  abbrev Taken : Table Constant → Str → Constant → Table Constant × Memory → Type 0
  Taken new key c s =
      Extends new s.0
      × (Present s.0 key.bytes ⊎ Present s.0 (lower key.bytes))
      × ((b : Bytes) (v : Constant)
          → zend_hash_find s.0 b ≡ some v
          → (zend_hash_find new b ≡ some v)
            ⊎ ((key.bytes ≡ b) × (constant_content v ≡ constant_content c)))

  constant_step-Taken :
      (key : Str) (c : Constant) (new : Table Constant) (m : Memory)
      → key.bytes ≡ constant_key c.name c.flags
      → Taken new key c
          (constant_step zend_string_dup zend_string_tolower zend_register_constant key c new m)
  unfolding constant_step copy_constant
  constant_step-Taken key c new m k =
      let (l, m1) = zend_string_tolower key m in
      let (d, m2) = copy_constant zend_string_dup c m1 in
      chosen_table (Taken new key c) (zend_hash_exists new key.bytes) _ _
        (λ h. ((λ b w e. e), inl (exists-Present new key.bytes h), (λ b v f. inl f)))
        (λ n.
          chosen_table (Taken new key c) (zend_hash_exists new l.bytes) _ _
            (λ h. (
              (λ b w e. e),
              inr (rw (← lowers key m) (exists-Present new l.bytes h)),
              (λ b v f. inl f),
            ))
            (λ n'.
              let (e, p, only) = registers d new m2 in
              let says : constant_content d ≡ constant_content c =
                rw (meaning-pht_zval_dup zend_string_dup keeps c.value m1) refl in
              (
                e,
                inl (subst (Present (zend_register_constant d new m2).0) (sym k) p),
                λ b v f. elim (only b v f) [
                  | inl there ↦ inl there
                  | inr (at, same) ↦ inr (k ∙ at, same ∙ says)
                ],
              )))

  Present-Extends : (t u : Table Constant) (b : Bytes) → Extends t u → Present t b → Present u b
  Present-Extends t u b e (v, is) = (v, e b v is)

  pub copy_global_constants-Covers :
      (new old : Table Constant) (m : Memory)
      → Keyed constant_key old
      → Extends new
          (copy_global_constants zend_string_dup zend_string_tolower zend_register_constant new old
            m).0
        × Covers lower
            (copy_global_constants zend_string_dup zend_string_tolower zend_register_constant new
              old m).0
            old
        × ((b : Bytes) (v : Constant)
            → zend_hash_find
                (copy_global_constants zend_string_dup zend_string_tolower zend_register_constant
                  new old m).0
                b
              ≡ some v
            → (zend_hash_find new b ≡ some v) ⊎ SaidBy b v old)
  unfolding copy_global_constants
  copy_global_constants-Covers new [] m k = ((λ b w h. h), tt, (λ b v f. inl f))
  copy_global_constants-Covers new ((key, c) ∷ old) m (k, ks) =
      let s =
        constant_step zend_string_dup zend_string_tolower zend_register_constant key c new m in
      let (e, p, only) = constant_step-Taken key c new m k in
      let (e', covers, only') = copy_global_constants-Covers s.0 old s.1 ks in
      (
        (λ b w h. e' b w (e b w h)),
        (
          elim p [
            | inl q ↦ inl (Present-Extends s.0 _ key.bytes e' q)
            | inr q ↦ inr (Present-Extends s.0 _ (lower key.bytes) e' q)
          ],
          covers,
        ),
        λ b v f. elim (only' b v f) [
          | inl mid ↦ elim (only b v mid) [ inl there ↦ inl there | inr said ↦ inr (inl said) ]
          | inr later ↦ inr (inr later)
        ],
      )
