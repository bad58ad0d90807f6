-- ===== src/Copy/Directives.antt =====
-- The ini directives after copying. About copy_ini_directives of src/pht_copy.c.
use mathlib.Core.Option
use pht.Common.{
  ℕ, ◌≡◌, ◌≢◌, refl, sym, ap, ◌∙◌, Bool, true, false, [], ◌∷◌, Option, none, some, if◌then◌else◌,
  Bool-cases, Option-cases, inl, inr, Run, ok, Returns,
}
use pht.PhtString.{Bytes}
use pht.Engine.{Str, StringDup, KeepsBytes}
use pht.Engine.Meaning.{key_bytes}
use pht.Copy.Tables.{Table, zend_hash_find, bytes_eq, bytes_eq-eq, bytes_eq_refl}
use pht.Copy.Constants.{
  IniEntry, Ini, write_found, same_value, on_differing, mark_modified, note_modified,
  change_directive, ini_step, copy_ini_directives,
}

-- What ini_get and ini_restore see of a directive, and whether it can be set.
abbrev pub Setting : Type 0
Setting = Option Bytes × Option Bytes × ℕ × ℕ × Bool

abbrev pub setting : IniEntry → Setting
setting e = (key_bytes e.value, key_bytes e.orig_value, e.modifiable, e.orig_modifiable, e.modified)

-- The directive of the new thread once it takes the value of the old thread.
abbrev pub setting_with : IniEntry → Str → Setting
setting_with e v =
    if e.modified
    then (some v.bytes, key_bytes e.orig_value, e.modifiable, e.orig_modifiable, true)
    else (some v.bytes, key_bytes e.value, e.modifiable, e.modifiable, true)

-- A directive that both threads have, with values that differ, takes the value of the old thread; any
-- other stays.
abbrev pub merged_values : IniEntry → Option Str → Option Str → Setting
merged_values e none v = setting e
merged_values e (some o) none = setting e
merged_values e (some o) (some v) = if same_value o v then setting e else setting_with e o

abbrev pub merged : IniEntry → Option IniEntry → Setting
merged e none = setting e
merged e (some o) = merged_values e o.value e.value

abbrev pub merged_at : Option IniEntry → Option IniEntry → Option Setting
merged_at none o = none
merged_at (some e) o = some (merged e o)

overwritten :
    {A : Type 0} (c d : Bool) (v x : A) (o : Option A)
    → c ≡ d
    → (if c then some v else o) ≡ (if d then some v else (if c then some x else o))
overwritten true true v x o e = refl
overwritten true false v x o e = absurd (cc e)
overwritten false true v x o e = absurd (cc e)
overwritten false false v x o e = refl

swapped :
    {A : Type 0} (c d : Bool) (v x : A) (o : Option A)
    → (c ≡ true → d ≡ true → ⊥)
    → (if c then some x else (if d then some v else o))
      ≡ (if d then some v else (if c then some x else o))
swapped true true v x o n = absurd (n refl refl)
swapped true false v x o n = refl
swapped false d v x o n = refl

find-write_found :
    {A : Type 0} (t : Table A) (k b : Bytes) (v w : A)
    → zend_hash_find t k ≡ some w
    → zend_hash_find (write_found t k v) b ≡ (if bytes_eq k b then some v else zend_hash_find t b)
unfolding write_found zend_hash_find
find-write_found [] k b v w h = absurd (cc h)
find-write_found ((k', x) ∷ t) k b v w h = elim (Bool-cases (bytes_eq k'.bytes k)) [
  | inl same ↦ rw same (
      overwritten (bytes_eq k'.bytes b) (bytes_eq k b) v x _
        (ap (λ y. bytes_eq y b) (bytes_eq-eq k'.bytes k same)))
  | inr other ↦
      rw (other, find-write_found t k b v w (rw other at h))
        (swapped (bytes_eq k'.bytes b) (bytes_eq k b) v x _ (λ c d.
          let e : k'.bytes ≡ k = bytes_eq-eq k'.bytes b c ∙ sym (bytes_eq-eq k b d) in
          let t : bytes_eq k'.bytes k ≡ true = ap (λ y. bytes_eq y k) e ∙ bytes_eq_refl k in
          absurd (cc (sym t ∙ other))))
]

-- Both values are there, and they are not the same.
abbrev pub Differ : Option Str → Option Str → Type 0
Differ none v = ⊥
Differ (some o) none = ⊥
Differ (some o) (some v) = same_value o v ≡ false

-- Every directive that copying changes has a handler.
abbrev pub Handled : (new old : Table IniEntry) → Type 0
Handled new old =
    (b : Bytes) (e o : IniEntry)
    → zend_hash_find new b ≡ some e
    → zend_hash_find old b ≡ some o
    → Differ o.value e.value
    → e.on_modify ≢ none

-- No two elements of the table have the same key.
abbrev pub DistinctKeys {ℓ} : {A : Type ℓ} → Table A → Type ℓ
DistinctKeys [] = Unit
DistinctKeys ((k, v) ∷ t) = (zend_hash_find t k.bytes ≡ none) × DistinctKeys t

setting-changed :
    (e : IniEntry) (o v : Str)
    → v.bytes ≡ o.bytes
    → setting (record (mark_modified e) { value = some v; modifiable = e.modifiable })
      ≡ setting_with e o
setting-changed e o v same = elim (Bool-cases e.modified) [
  | inl t ↦ rw (t, same)
  | inr f ↦ rw (f, same)
]

differing {ℓ} :
    {R : Type ℓ} (a b : Option Str) (stay : R) (go : Str → R) (o v : Str)
    → a ≡ some o
    → b ≡ some v
    → same_value o v ≡ false
    → on_differing a b stay go ≡ go o
differing a b stay go o v p q n = rw (p, q, n)

module _ (zend_string_dup : StringDup) (keeps : KeepsBytes zend_string_dup) {World : Type 0}
    (on_modify : ℕ → Str → World → World) where
  -- One directive is merged, and the others stay.
  abbrev Merges : Ini World → Bytes → IniEntry → Ini World → Type 0
  Merges s k old r =
      ((b : Bytes)
        → bytes_eq k b ≡ false
        → zend_hash_find r.directives b ≡ zend_hash_find s.directives b)
      × (Option.map setting (zend_hash_find r.directives k)
          ≡ merged_at (zend_hash_find s.directives k) (some old))

  stays :
      (m : Run (Ini World)) (s : Ini World) (k : Bytes) (old : IniEntry)
      → m ≡ ok s
      → Option.map setting (zend_hash_find s.directives k)
        ≡ merged_at (zend_hash_find s.directives k) (some old)
      → Returns m (Merges s k old)
  stays m s k old runs e = (s, runs, ((λ b n. refl), e))

  -- The directives after a change, whichever entry is written.
  written-Merges :
      (s r : Ini World) (k : Str) (old e e' : IniEntry)
      → r.directives ≡ write_found s.directives k.bytes e'
      → zend_hash_find s.directives k.bytes ≡ some e
      → setting e' ≡ merged e (some old)
      → Merges s k.bytes old r
  written-Merges s r k old e e' is at shows =
      let t = s.directives in
      (
        (λ b n. rw is (find-write_found t k.bytes b e' e at ∙ rw n)),
        rw (is, find-write_found t k.bytes k.bytes e' e at, bytes_eq_refl k.bytes, at)
            (ap some shows),
      )

  change_directive-Merges :
      (s : Ini World) (k : Str) (old e : IniEntry) (o : Str)
      → e.on_modify ≢ none
      → zend_hash_find s.directives k.bytes ≡ some e
      → merged e (some old) ≡ setting_with e o
      → Returns (change_directive zend_string_dup on_modify k o e s) (Merges s k.bytes old)
  unfolding change_directive
  change_directive-Merges s k old e o handled at takes =
      let (new_name, m1) = zend_string_dup k s.memory in
      let (w, m2) = zend_string_dup o m1 in
      let e' : IniEntry = record (mark_modified e) { value = some w; modifiable = e.modifiable } in
      elim (Option-cases e.on_modify) [
        | inl none' ↦ absurd (handled none')
        | inr (handler, is) ↦
            let r : Ini World = record {
              directives = write_found s.directives k.bytes e';
              modified_directives = note_modified k.bytes new_name e s.modified_directives;
              world = on_modify handler o s.world;
              memory = m2;
            } in
            (
              r,
              rw is,
              written-Merges s r k old e e' refl at
                  (setting-changed e o w (keeps o m1) ∙ sym takes),
            )
      ]

  ini_step-Merges :
      (s : Ini World) (k : Str) (old : IniEntry)
      → ((e : IniEntry)
          → zend_hash_find s.directives k.bytes ≡ some e
          → Differ old.value e.value
          → e.on_modify ≢ none)
      → Returns (ini_step zend_string_dup on_modify k old s) (Merges s k.bytes old)
  unfolding ini_step
  ini_step-Merges s k old handled =
      let stay = stays (ini_step zend_string_dup on_modify k old s) s k.bytes old in
      elim (Option-cases (zend_hash_find s.directives k.bytes)) [
        | inl missing ↦ stay (rw missing) (rw missing)
        | inr (e, at) ↦ elim (Option-cases old.value) [
          | inl gone ↦ stay (rw (at, gone)) (rw (at, gone))
          | inr (o, is_o) ↦ elim (Option-cases e.value) [
            | inl gone ↦ stay (rw (at, is_o, gone)) (rw (at, is_o, gone))
            | inr (v, is_v) ↦ elim (Bool-cases (same_value o v)) [
              | inl same ↦ stay (rw (at, is_o, is_v, same)) (rw (at, is_o, is_v, same))
              | inr differ ↦
                  let (r, runs, merges) =
                    change_directive-Merges s k old e o (handled e at (rw (is_o, is_v) differ)) at
                      (rw (is_o, is_v, differ)) in
                  (r, rw at (differing _ _ _ _ o v is_o is_v differ) ∙ runs, merges)
            ]
          ]
        ]
      ]

  unmerged : (o : Option IniEntry) → Option.map setting o ≡ merged_at o none
  unmerged none = refl
  unmerged (some e) = refl

  -- Where a directive that both threads have, with values that differ, has a handler in the new
  -- thread, and no name is twice in the old table, copy_ini_directives returns. Afterwards such a
  -- directive has the value of the old thread, may be set by whom it could be before, and
  -- remembers the value before its first change; every other directive is as it was.
  -- zend_string_dup is to keep the bytes of a string.
  pub copy_ini_directives-merged :
      (s : Ini World) (old : Table IniEntry)
      → Handled s.directives old
      → DistinctKeys old
      → Returns (copy_ini_directives zend_string_dup on_modify s old) (λ r.
        (b : Bytes)
        → Option.map setting (zend_hash_find r.directives b)
          ≡ merged_at (zend_hash_find s.directives b) (zend_hash_find old b))
  unfolding copy_ini_directives zend_hash_find
  copy_ini_directives-merged s [] handled d =
      (s, refl, λ b. unmerged (zend_hash_find s.directives b))
  copy_ini_directives-merged s ((k, old) ∷ rest) handled (d, ds) =
      let (r, runs, (others, here)) =
        ini_step-Merges s k old
          λ e at. handled k.bytes e old at (rw (bytes_eq_refl k.bytes) refl) in
      let handled' : Handled r.directives rest = λ b e o at found differ.
        elim (Bool-cases (bytes_eq k.bytes b)) [
          | inl same ↦
              let is : k.bytes ≡ b = bytes_eq-eq k.bytes b same in
              let gone : zend_hash_find rest b ≡ none = rw (← is) d in absurd (cc)
          | inr other ↦ handled b e o (sym (others b other) ∙ at) (rw other found) differ
        ] in
      let (r', runs', like) = copy_ini_directives-merged r rest handled' ds in
      (
        r',
        rw runs runs',
        λ b. like b ∙ elim (Bool-cases (bytes_eq k.bytes b)) [
          | inl same ↦
              let is : k.bytes ≡ b = bytes_eq-eq k.bytes b same in
              rw same (rw (← is, d) (sym (unmerged (zend_hash_find r.directives k.bytes)) ∙ here))
          | inr other ↦ rw (other, others b other)
        ],
      )
