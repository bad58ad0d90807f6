-- ===== src/Extension.antt =====
-- pht.c: what the extension does when PHP loads it and when PHP unloads it.
pub mod Interned
use pht.Common.{
  ℕ, ◌+◌, ◌==◌, Bool, true, false, List, [], ◌∷◌, Option, none, some, if◌then◌else◌, Run, ok, ◌>>=◌,
  deref,
}
use pht.PhtString.{Bytes}
use pht.Classes.Registration.{Registry, register_classes}

-- A persistent zend_string: its bytes, its hash once that is known, and the flag IS_STR_INTERNED.
pub record Text : Type 0 where
  pub bytes : Bytes
  pub hash : Option ℕ
  pub interned : Bool

-- The blocks of the persistent strings. Those from `next` on were never used.
pub record Texts : Type 0 where
  pub texts : ℕ → Option Text
  pub next : ℕ

-- A block gets a new content, or is given back.
abbrev pub put : ℕ → Option Text → Texts → Texts
put p t m = record m { texts = λ a. if p == a then t else m.texts a }

-- common_strings_t: the addresses of the strings.
pub record CommonStrings : Type 0 where
  pub construct : ℕ
  pub run : ℕ
  pub thread : ℕ
  pub value : ℕ
  pub queue : ℕ
  pub hash_table : ℕ
  pub vector : ℕ
  pub atomic_integer : ℕ

-- What the extension writes outside its own objects. `deactivate` is the handler of the server API,
-- NULL after start-up; `D` stands for such handlers.
pub record Host (D : Type 0) : Type 0 where
  pub classes : Registry
  pub memory : Texts
  pub deactivate : Option D
  pub saved_deactivate : Option D

abbrev construct_name : Bytes
construct_name = 95 ∷ 95 ∷ 99 ∷ 111 ∷ 110 ∷ 115 ∷ 116 ∷ 114 ∷ 117 ∷ 99 ∷ 116 ∷ []

abbrev run_name : Bytes
run_name = 114 ∷ 117 ∷ 110 ∷ []

abbrev thread_name : Bytes
thread_name = 95 ∷ 84 ∷ 72 ∷ 82 ∷ 69 ∷ 65 ∷ 68 ∷ []

abbrev value_name : Bytes
value_name = 118 ∷ 97 ∷ 108 ∷ 117 ∷ 101 ∷ []

abbrev queue_class : Bytes
queue_class = 112 ∷ 104 ∷ 116 ∷ 92 ∷ 81 ∷ 117 ∷ 101 ∷ 117 ∷ 101 ∷ []

abbrev hash_table_class : Bytes
hash_table_class = 112 ∷ 104 ∷ 116 ∷ 92 ∷ 72 ∷ 97 ∷ 115 ∷ 104 ∷ 84 ∷ 97 ∷ 98 ∷ 108 ∷ 101 ∷ []

abbrev vector_class : Bytes
vector_class = 112 ∷ 104 ∷ 116 ∷ 92 ∷ 86 ∷ 101 ∷ 99 ∷ 116 ∷ 111 ∷ 114 ∷ []

abbrev atomic_integer_class : Bytes
atomic_integer_class =
    112 ∷ 104 ∷ 116 ∷ 92 ∷ 65 ∷ 116 ∷ 111 ∷ 109 ∷ 105 ∷ 99 ∷ 73 ∷ 110 ∷ 116 ∷ 101 ∷ 103 ∷ 101 ∷ 114
    ∷ []

-- zend_string_init with a persistent block.
unfoldable pub zend_string_init : Bytes → Texts → ℕ × Texts
zend_string_init b m = (
  m.next,
  put m.next (some (record { bytes = b; hash = none; interned = false }))
      (record m { next = m.next + 1 }),
)

-- A change of the string at an address.
abbrev pub change : ℕ → (Text → Text) → Texts → Run Texts
change p f m = deref (m.texts p) >>= λ t. ok (put p (some (f t)) m)

-- zend_string_free gives the block back, unless the string is interned.
unfoldable pub zend_string_free : ℕ → Texts → Run Texts
zend_string_free p m = deref (m.texts p) >>= λ t. if t.interned then ok m else ok (put p none m)

module _ (hash_func : Bytes → ℕ) where
  -- The three statements for one of the common strings.
  unfoldable pub intern : Bytes → Texts → Run (ℕ × Texts)
  unfolding zend_string_init
  intern b m = do
    let (p, m1) = zend_string_init b m
    m2 ← change p (λ t. record t { hash = some (hash_func t.bytes) }) m1
    m3 ← change p (λ t. record t { interned = true }) m2
    ok (p, m3)

  -- PHP_MINIT_FUNCTION
  unfoldable pub module_startup : {D : Type 0} → Host D → Run (CommonStrings × Host D)
  unfolding intern
  module_startup h = do
    classes ← register_classes h.classes
    (p1, m1) ← intern construct_name h.memory
    (p2, m2) ← intern run_name m1
    (p3, m3) ← intern thread_name m2
    (p4, m4) ← intern value_name m3
    (p5, m5) ← intern queue_class m4
    (p6, m6) ← intern hash_table_class m5
    (p7, m7) ← intern vector_class m6
    (p8, m8) ← intern atomic_integer_class m7
    ok (
      record {
        construct = p1;
        run = p2;
        thread = p3;
        value = p4;
        queue = p5;
        hash_table = p6;
        vector = p7;
        atomic_integer = p8;
      },
      record { classes = classes; memory = m8; deactivate = none; saved_deactivate = h.deactivate },
    )

-- The two statements for one of the common strings.
unfoldable pub free_interned : ℕ → Texts → Run Texts
unfolding zend_string_free
free_interned p m = do m1 ← change p (λ t. record t { interned = false }) m; zend_string_free p m1

-- PHP_MSHUTDOWN_FUNCTION
unfoldable pub module_shutdown : {D : Type 0} → CommonStrings → Host D → Run (Host D)
unfolding free_interned
module_shutdown c h = do
  m1 ← free_interned c.construct h.memory
  m2 ← free_interned c.run m1
  m3 ← free_interned c.thread m2
  m4 ← free_interned c.value m3
  m5 ← free_interned c.queue m4
  m6 ← free_interned c.hash_table m5
  m7 ← free_interned c.vector m6
  m8 ← free_interned c.atomic_integer m7
  ok (record h { memory = m8; deactivate = h.saved_deactivate })
