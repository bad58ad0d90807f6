-- ===== src/Extension/Interned.antt =====
-- pht.c: the common strings, and the handler of the server API, from start-up to shut-down.
use pht.Common.{
  ℕ, ◌+◌, ◌≤◌, ◌<◌, ◌≡◌, refl, sym, ◌∙◌, ◌⊎◌, inl, inr, ◌==◌, ==_refl, ==_iff, eq_false, ◌≢◌, true,
  false, Bool-cases, Option, none, some, Returns, bind-Returns, arith,
}
use pht.PhtString.{Bytes}
use pht.Classes.Registration.{Guards, register_classes-Guards}
use pht.Extension.{
  Text, Texts, Host, CommonStrings, put, zend_string_init, zend_string_free, intern, free_interned,
  module_startup, module_shutdown,
}

-- The strings of `m` at the addresses from `i` to `j`, counted from the first that `m0` never used,
-- are there; elsewhere it has what `m0` has.
record Between (m0 : Texts) (i j : ℕ) (m : Texts) : Type 0 where
  inside : (a : ℕ) → m0.next + i ≤ a → a < m0.next + j → (t : Text) × (m.texts a ≡ some t)
  outside : (a : ℕ) → (a < m0.next + i) ⊎ (m0.next + j ≤ a) → m.texts a ≡ m0.texts a

-- The blocks that were never used hold nothing.
abbrev pub Fresh : Texts → Type 0
Fresh m = (a : ℕ) → m.next ≤ a → m.texts a ≡ none

put-there : (p : ℕ) (o : Option Text) (m : Texts) → (put p o m).texts p ≡ o
put-there p o m = rw (==_refl p) refl

put-elsewhere : (p a : ℕ) (o : Option Text) (m : Texts) → p ≢ a → (put p o m).texts a ≡ m.texts a
put-elsewhere p a o m h = rw (eq_false p a h) refl

-- A string at `p` is written, which is inside or the next one.
put-Between :
    (m0 : Texts) (i j n p : ℕ) (t : Text) (m : Texts)
    → m0.next + i ≤ p
    → p < m0.next + n
    → (j ≡ n) ⊎ ((n ≡ j + 1) × (p ≡ m0.next + j))
    → Between m0 i j m
    → Between m0 i n (put p (some t) m)
put-Between m0 i j n p t m low high size h = record {
  inside = λ a l g. elim (Bool-cases (p == a)) [
    | inl e ↦ (t, rw e refl)
    | inr e ↦ let (u, there) = h.inside a l (ground (arith, size, g, e)) in (u, rw e there)
  ];
  outside = λ a o.
      put-elsewhere p a (some t) m (λ e. ground (arith, o, low, high, e))
      ∙ h.outside a (ground (arith, o, size));
}

abbrev Interned : Texts → ℕ → ℕ × Texts → Type 0
Interned m0 k r = (r.0 ≡ m0.next + k) × (r.1.next ≡ m0.next + (k + 1)) × Between m0 0 (k + 1) r.1

intern-Interned :
    (hash_func : Bytes → ℕ) (b : Bytes) (m0 : Texts) (k : ℕ) (m : Texts)
    → m.next ≡ m0.next + k
    → Between m0 0 k m
    → Returns (intern hash_func b m) (Interned m0 k)
unfolding intern zend_string_init
intern-Interned hash_func b m0 k m at h =
    let n = m.next in
    let t1 : Text = record { bytes = b; hash = none; interned = false } in
    let t2 : Text = record t1 { hash = some (hash_func b) } in
    let t3 : Text = record t2 { interned = true } in
    let m1 = put n (some t1) (record m { next = n + 1 }) in
    let m2 = put n (some t2) m1 in
    let m3 = put n (some t3) m2 in
    let low : m0.next + 0 ≤ n = omega (arith, at) in
    let high : n < m0.next + (k + 1) = omega (arith, at) in
    let h1 =
      put-Between m0 0 k (k + 1) n t1 (record m { next = n + 1 }) low high (inr (refl, at))
        (record { inside = h.inside; outside = h.outside }) in
    let h2 = put-Between m0 0 (k + 1) (k + 1) n t2 m1 low high (inl refl) h1 in
    let h3 = put-Between m0 0 (k + 1) (k + 1) n t3 m2 low high (inl refl) h2 in
    ((n, m3), rw (==_refl n, ==_refl n) refl, (at, omega (arith, at), h3))

free_interned-Between :
    (m0 : Texts) (i j p : ℕ) (m : Texts)
    → Fresh m0
    → i < j
    → p ≡ m0.next + i
    → Between m0 i j m
    → Returns (free_interned p m) (Between m0 (i + 1) j)
unfolding free_interned zend_string_free
free_interned-Between m0 i j p m fresh lt at h =
    let (t, found) = h.inside p (omega (arith, at)) (omega (arith, at, lt)) in
    let m1 = put p (some (record t { interned = false })) m in
    (
      put p none m1,
      rw (found, ==_refl p) refl,
      record {
        inside = λ a l g.
            let (u, there) = h.inside a (omega arith) g in
            let other : p ≢ a = λ e. omega (arith, e, l, at) in
            (u, put-elsewhere p a none m1 other ∙ put-elsewhere p a _ m other ∙ there);
        outside = λ a o. elim (Bool-cases (p == a)) [
          | inl e ↦ let same = (==_iff p a).0 e in rw e (sym (fresh a (omega (arith, same, at))))
          | inr e ↦ rw e (h.outside a (ground (arith, o, at, e)))
        ];
      },
    )

module _ {D : Type 0} where
  -- The eight strings stand one after the other behind what was there, and the handler is saved.
  abbrev Started : Host D → CommonStrings × Host D → Type 0
  Started h (c, h') =
      let n = h.memory.next in
      (c.construct ≡ n + 0)
      × (c.run ≡ n + 1)
      × (c.thread ≡ n + 2)
      × (c.value ≡ n + 3)
      × (c.queue ≡ n + 4)
      × (c.hash_table ≡ n + 5)
      × (c.vector ≡ n + 6)
      × (c.atomic_integer ≡ n + 7)
      × (h'.saved_deactivate ≡ h.deactivate)
      × Guards h'.classes
      × Between h.memory 0 8 h'.memory

  module_startup-Started :
      (hash_func : Bytes → ℕ) (h : Host D) → Returns (module_startup hash_func h) (Started h)
  unfolding module_startup
  module_startup-Started hash_func h =
      let m0 = h.memory in
      let none_yet : Between m0 0 0 m0 = record {
        inside = λ a l g. absurd (omega (arith, l, g));
        outside = λ a o. refl;
      } in
      bind-Returns _ _ (register_classes-Guards h.classes) λ classes guards.
        bind-Returns _ _ (intern-Interned hash_func _ m0 0 m0 (omega arith) none_yet)
          λ (p0, m1) (a0, n0, b0).
            bind-Returns _ _ (intern-Interned hash_func _ m0 1 m1 n0 b0) λ (p1, m2) (a1, n1, b1).
              bind-Returns _ _ (intern-Interned hash_func _ m0 2 m2 n1 b1) λ (p2, m3) (a2, n2, b2).
                bind-Returns _ _ (intern-Interned hash_func _ m0 3 m3 n2 b2)
                  λ (p3, m4) (a3, n3, b3).
                    bind-Returns _ _ (intern-Interned hash_func _ m0 4 m4 n3 b3)
                      λ (p4, m5) (a4, n4, b4).
                        bind-Returns _ _ (intern-Interned hash_func _ m0 5 m5 n4 b4)
                          λ (p5, m6) (a5, n5, b5).
                            bind-Returns _ _ (intern-Interned hash_func _ m0 6 m6 n5 b5)
                              λ (p6, m7) (a6, n6, b6).
                                bind-Returns _ _ (intern-Interned hash_func _ m0 7 m7 n6 b6)
                                  λ (p7, m8) (a7, n7, b7).
                                    (_, refl, (a0, a1, a2, a3, a4, a5, a6, a7, refl, guards, b7))

  -- Nothing remains of the strings, and the handler is back.
  abbrev pub Restored : Host D → Host D → Type 0
  Restored h h' = ((a : ℕ) → h'.memory.texts a ≡ h.memory.texts a) × (h'.deactivate ≡ h.deactivate)

  module_shutdown-Restored :
      (h : Host D) (r : CommonStrings × Host D)
      → Fresh h.memory
      → Started h r
      → Returns (module_shutdown r.0 r.1) (Restored h)
  unfolding module_shutdown
  module_shutdown-Restored h (c, h') fresh (a0, a1, a2, a3, a4, a5, a6, a7, saved, guards, b0) =
      let m0 = h.memory in
      bind-Returns _ _
        (free_interned-Between m0 0 8 c.construct h'.memory fresh (omega arith) a0 b0)
        λ m1 b1.
          bind-Returns _ _ (free_interned-Between m0 1 8 c.run m1 fresh (omega arith) a1 b1)
            λ m2 b2.
              bind-Returns _ _ (free_interned-Between m0 2 8 c.thread m2 fresh (omega arith) a2 b2)
                λ m3 b3.
                  bind-Returns _ _
                    (free_interned-Between m0 3 8 c.value m3 fresh (omega arith) a3 b3)
                    λ m4 b4.
                      bind-Returns _ _
                        (free_interned-Between m0 4 8 c.queue m4 fresh (omega arith) a4 b4)
                        λ m5 b5.
                          bind-Returns _ _
                            (free_interned-Between m0 5 8 c.hash_table m5 fresh (omega arith) a5 b5)
                            λ m6 b6.
                              bind-Returns _ _
                                (free_interned-Between m0 6 8 c.vector m6 fresh (omega arith) a6 b6)
                                λ m7 b7.
                                  bind-Returns _ _
                                    (free_interned-Between m0 7 8 c.atomic_integer m7 fresh
                                      (omega arith) a7 b7)
                                    λ m8 b8. (_, refl, (λ a. b8.outside a (ground arith), saved))

  -- Where memory that was never used holds nothing, the start of the module returns; from then on
  -- Threaded can be implemented by the classes of extensions and by no others. When the module is
  -- then shut down, that returns, no block of the common strings remains, every other persistent
  -- string is as before, and the server API has its deactivation handler back.
  pub module_startup-shutdown :
      (hash_func : Bytes → ℕ) (h : Host D)
      → Fresh h.memory
      → Returns
          (module_startup hash_func h)
          λ (c, h'). Guards h'.classes × Returns (module_shutdown c h') (Restored h)
  module_startup-shutdown hash_func h fresh =
      let (r, runs, s) = module_startup-Started hash_func h in
      let (a0, a1, a2, a3, a4, a5, a6, a7, saved, guards, b0) = s in
      (r, runs, (guards, module_shutdown-Restored h r fresh s))
