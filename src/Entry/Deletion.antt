-- ===== src/Entry/Deletion.antt =====
-- pht_entry.c: the deletions that follow from the deletion of an entry.
use pht.Common.{
  ℕ, zero, suc, ◌+◌, ◌≤◌, ◌<◌, ◌≡◌, refl, ap, ◌==◌, List, [], ◌∷◌, ◌++◌, some, arith, length,
  length-append, append_assoc, append-nil, sym, ◌∙◌, ◌>>=◌, Bool-cases, inl, inr, Run, ok, fault,
  blocked, deref, Run-cases, bind-ok, deref-ok,
}
use pht.Mutex.{Mutex, unlock}
use pht.Entry.{
  Entry, Object, Heap, object_at, put_object, remove_object, refcount_of, set_count, lock_object,
  counted, decrement, contents, release, entry_delete_value, delete_entries, held, stored, settled,
  entry_delete,
}

module _ {F : Type 0} where
  abbrev held_run : Run (List (Entry F)) → ℕ
  held_run r = elim r [ ok entries ↦ length entries | fault ↦ 0 | blocked ↦ 0 ]

  pub contents-set_count :
      (m : Mutex) (n : ℕ) (o : Object F) → contents (set_count m n o) ≡ contents o
  unfolding contents set_count
  contents-set_count m n (Object.queue s) = refl
  contents-set_count m n (Object.hash_table s) = refl
  contents-set_count m n (Object.vector s) = refl
  contents-set_count m n (Object.atomic_integer s) = refl

  held-set_count : (m : Mutex) (n : ℕ) (o : Object F) → held (set_count m n o) ≡ held o
  unfolding contents set_count held
  held-set_count m n (Object.queue s) = refl
  held-set_count m n (Object.hash_table s) = refl
  held-set_count m n (Object.vector s) = refl
  held-set_count m n (Object.atomic_integer s) = refl

  stored-put_object :
      (a : ℕ) (o p : Object F) (h : Heap F)
      → object_at a h ≡ some o
      → held p ≡ held o
      → stored (put_object a p h) ≡ stored h
  unfolding object_at put_object stored
  stored-put_object a o p [] at e = cc
  stored-put_object a o p ((b, q) ∷ h) at e = ground (arith, stored-put_object a o p h, e)

  stored-remove_object :
      (a : ℕ) (o : Object F) (h : Heap F)
      → object_at a h ≡ some o
      → stored (remove_object a h) + held o ≡ stored h
  unfolding object_at remove_object stored
  stored-remove_object a o [] at = cc
  stored-remove_object a o ((b, q) ∷ h) at = ground (arith, stored-remove_object a o h)

  counted-held :
      (change : ℕ → ℕ) (self : ℕ) (o o' : Object F)
      → counted change self o ≡ ok o'
      → held o' ≡ held o
  unfolding counted
  counted-held change self o o' run =
      let (b, _, e) = bind-ok (lock_object self o) _ run in
      let same : set_count (unlock self b.1).1 (change (refcount_of o)) o ≡ o' = cc in
      rw (← same) (held-set_count (unlock self b.1).1 (change (refcount_of o)) o)

  held_of_contents : (o : Object F) {es : List (Entry F)} → contents o ≡ ok es → held o ≡ length es
  unfolding held
  held_of_contents o e = ap held_run e

  -- What one deletion hands on was stored in the object that it freed.
  release-stored :
      (self a : ℕ) (h h' : Heap F) (es : List (Entry F))
      → release self a h ≡ ok (es, h')
      → length es + stored h' ≤ stored h
  unfolding release
  release-stored self a h h' es run =
      let (o, e, run_1) = bind-ok (deref (object_at a h)) _ run in
      let at : object_at a h ≡ some o = deref-ok (object_at a h) e in
      let (o', counting, run_2) = bind-ok (counted decrement self o) _ run_1 in
      let same = counted-held decrement self o o' counting in
      elim (Bool-cases (refcount_of o' == 0)) [
        | inl last ↦
            let (entries, got, run_3) = bind-ok (contents o') _ (rw last at run_2) in
            let es_eq : entries ≡ es = cc in
            let h_eq : remove_object a h ≡ h' = cc in
            omega (
              arith,
              ap length es_eq,
              ap stored h_eq,
              stored-remove_object a o h at,
              held_of_contents o' got,
              same,
            )
        | inr more ↦
            let run_3 = rw more at run_2 in
            let es_eq : [] ≡ es = cc in
            let h_eq : put_object a o' h ≡ h' = cc in
            omega (arith, ap length es_eq, ap stored h_eq, stored-put_object a o o' h at same)
      ]

  entry_delete_value-stored :
      (self : ℕ) (e : Entry F) (h h' : Heap F) (es : List (Entry F))
      → entry_delete_value self e h ≡ ok (es, h')
      → length es + stored h' ≤ stored h
  unfolding entry_delete_value
  entry_delete_value-stored self (Entry.queue a) h h' es run = release-stored self a h h' es run
  entry_delete_value-stored self (Entry.hash_table a) h h' es run =
      release-stored self a h h' es run
  entry_delete_value-stored self (Entry.vector a) h h' es run = release-stored self a h h' es run
  entry_delete_value-stored self (Entry.atomic_integer a) h h' es run =
      release-stored self a h h' es run
  entry_delete_value-stored self e h h' es run =
      let es_eq : [] ≡ es = cc in
      let h_eq : h ≡ h' = cc in omega (arith, ap length es_eq, ap stored h_eq)

  -- With a round for each entry that waits or is stored, the deletions come to their end.
  delete_entries-some :
      (fuel self : ℕ) (es : List (Entry F)) (h : Heap F)
      → length es + stored h < fuel
      → (r : Run (Heap F)) × (delete_entries fuel self es h ≡ some r)
  unfolding delete_entries
  delete_entries-some zero self es h lt = elim lt [ ]
  delete_entries-some (suc fuel) self [] h lt = (ok h, refl)
  delete_entries-some (suc fuel) self (e ∷ es) h lt =
      elim (Run-cases (entry_delete_value self e h)) [
        | inl ((more, h'), run) ↦
            let less = entry_delete_value-stored self e h h' more run in
            let (r, rest) =
              delete_entries-some fuel self (more ++ es) h'
                (omega (arith, length-append more es, less)) in
            (r, rw run rest)
        | inr (inl run) ↦ (fault, rw run)
        | inr (inr run) ↦ (blocked, rw run)
      ]

  -- The fuel of `entry_delete` suffices on every heap: the deletion of an entry with all that it
  -- frees in turn ends.
  pub entry_delete_total :
      (self : ℕ) (e : Entry F) (h : Heap F)
      → (r : Run (Heap F)) × (delete_entries (stored h + 2) self (e ∷ []) h ≡ some r)
        × (entry_delete self e h ≡ r)
  unfolding entry_delete
  entry_delete_total self e h =
      let (r, run) = delete_entries-some (stored h + 2) self (e ∷ []) h (omega arith) in
      (r, run, ap settled run)

  -- What is left after the deletion of the first entries, and of all that they free in turn.
  abbrev Continues : ℕ → ℕ → List (Entry F) → Run (Heap F) → Run (Heap F) → Type 0
  Continues fuel self fs (ok h1) r = delete_entries fuel self fs h1 ≡ some r
  Continues fuel self fs fault r = r ≡ fault
  Continues fuel self fs blocked r = r ≡ blocked

  more_fuel :
      (fuel self : ℕ) (es : List (Entry F)) (h : Heap F) (r : Run (Heap F))
      → delete_entries fuel self es h ≡ some r
      → delete_entries (suc fuel) self es h ≡ some r
  unfolding delete_entries
  more_fuel zero self es h r run = absurd (cc run)
  more_fuel (suc fuel) self [] h r run = run
  more_fuel (suc fuel) self (e ∷ es) h r run = elim (Run-cases (entry_delete_value self e h)) [
    | inl ((more, h'), is) ↦ rw is (more_fuel fuel self (more ++ es) h' r (rw is at run))
    | inr (inl is) ↦ rw is (rw is at run)
    | inr (inr is) ↦ rw is (rw is at run)
  ]

  Continues-more :
      (fuel self : ℕ) (fs : List (Entry F)) (m r : Run (Heap F))
      → Continues fuel self fs m r
      → Continues (suc fuel) self fs m r
  Continues-more fuel self fs (ok h) r c = more_fuel fuel self fs h r c
  Continues-more fuel self fs fault r c = c
  Continues-more fuel self fs blocked r c = c

  delete_entries-append :
      (fuel self : ℕ) (es fs : List (Entry F)) (h : Heap F) (r : Run (Heap F))
      → delete_entries fuel self (es ++ fs) h ≡ some r
      → (m : Run (Heap F)) × (delete_entries fuel self es h ≡ some m) × Continues fuel self fs m r
  unfolding delete_entries
  delete_entries-append zero self es fs h r run = absurd (cc run)
  delete_entries-append (suc fuel) self [] fs h r run = (ok h, refl, run)
  delete_entries-append (suc fuel) self (e ∷ es) fs h r run =
      elim (Run-cases (entry_delete_value self e h)) [
        | inl ((more, h'), is) ↦
            let rest = rw (is, ← append_assoc more es fs) at run in
            let (m, runs, c) = delete_entries-append fuel self (more ++ es) fs h' r rest in
            (m, rw is runs, Continues-more fuel self fs m r c)
        | inr (inl is) ↦ let e : some fault ≡ some r = rw is at run in (fault, rw is refl, sym (cc))
        | inr (inr is) ↦
            let e : some blocked ≡ some r = rw is at run in (blocked, rw is refl, sym (cc))
      ]

  agree :
      (m n self : ℕ) (es : List (Entry F)) (h : Heap F) (r r' : Run (Heap F))
      → delete_entries m self es h ≡ some r
      → delete_entries n self es h ≡ some r'
      → r ≡ r'
  unfolding delete_entries
  agree zero n self es h r r' a b = absurd (cc a)
  agree (suc m) zero self es h r r' a b = absurd (cc b)
  agree (suc m) (suc n) self [] h r r' a b = cc
  agree (suc m) (suc n) self (e ∷ es) h r r' a b = elim (Run-cases (entry_delete_value self e h)) [
    | inl ((more, h'), is) ↦ agree m n self (more ++ es) h' r r' (rw is at a) (rw is at b)
    | inr (inl is) ↦
        let x : some fault ≡ some r = rw is at a in let y : some fault ≡ some r' = rw is at b in cc
    | inr (inr is) ↦
        let x : some blocked ≡ some r = rw is at a in
        let y : some blocked ≡ some r' = rw is at b in cc
  ]

  -- pht_entry_delete on one entry after the other, as the destructors of the structures call it.
  unfoldable pub delete_each : (self : ℕ) → List (Entry F) → Heap F → Run (Heap F)
  unfolding entry_delete
  delete_each self [] h = ok h
  delete_each self (e ∷ es) h = entry_delete self e h >>= λ h1. delete_each self es h1

  finishes :
      (fuel self : ℕ) (e : Entry F) (es : List (Entry F)) (h : Heap F) (m r : Run (Heap F))
      → entry_delete self e h ≡ m
      → Continues fuel self es m r
      → ((h1 : Heap F) → delete_entries fuel self es h1 ≡ some r → r ≡ delete_each self es h1)
      → r ≡ (entry_delete self e h >>= λ h1. delete_each self es h1)
  finishes fuel self e es h (ok h1) r is c ih = rw is (ih h1 c)
  finishes fuel self e es h fault r is c ih = rw is c
  finishes fuel self e es h blocked r is c ih = rw is c

  delete_entries-delete_each :
      (fuel self : ℕ) (es : List (Entry F)) (h : Heap F) (r : Run (Heap F))
      → delete_entries fuel self es h ≡ some r
      → r ≡ delete_each self es h
  unfolding delete_entries delete_each
  delete_entries-delete_each zero self [] h r run = absurd (cc run)
  delete_entries-delete_each (suc fuel) self [] h r run = cc
  delete_entries-delete_each fuel self (e ∷ es) h r run =
      let (m, runs, c) = delete_entries-append fuel self (e ∷ []) es h r run in
      let (r0, run0, is) = entry_delete_total self e h in
      let same = agree (stored h + 2) fuel self (e ∷ []) h r0 m run0 runs in
      finishes fuel self e es h m r (is ∙ same) c λ h1. delete_entries-delete_each fuel self es h1 r

  -- The recursion of pht_entry_delete_value: what a freed object held is deleted entry by entry.
  pub entry_delete_recursion :
      (self : ℕ) (e : Entry F) (h : Heap F)
      → entry_delete self e h ≡ (entry_delete_value self e h >>= λ r. delete_each self r.0 r.1)
  unfolding delete_entries
  entry_delete_recursion self e h =
      let (r, run, is) = entry_delete_total self e h in
      let two : stored h + 2 ≡ suc (suc (stored h)) = omega arith in
      let run' = rw two at run in
      elim (Run-cases (entry_delete_value self e h)) [
        | inl ((more, h'), step) ↦
            let next : delete_entries (suc (stored h)) self (more ++ []) h' ≡ some r =
              rw step at run' in
            rw step (
              is
              ∙ delete_entries-delete_each (suc (stored h)) self more h' r
                  (rw (append-nil more) at next))
        | inr (inl step) ↦ let x : some fault ≡ some r = rw step at run' in rw step (is ∙ sym (cc))
        | inr (inr step) ↦
            let x : some blocked ≡ some r = rw step at run' in rw step (is ∙ sym (cc))
      ]

  -- An entry whose deletion frees no shared structure leaves the heap alone.
  pub entry_delete-plain :
      (self : ℕ) (e : Entry F) (h : Heap F)
      → entry_delete_value self e h ≡ ok ([], h)
      → entry_delete self e h ≡ ok h
  unfolding entry_delete delete_entries
  entry_delete-plain self e h run =
      let two : stored h + 2 ≡ suc (suc (stored h)) = omega arith in rw (two, run)
