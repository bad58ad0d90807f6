-- ===== src/Engine.antt =====
-- The structures of PHP that src/pht_zend.c and src/pht_copy.c copy from one thread to another:
-- zend_string, zval, HashTable (here `Array`, to tell it from pht\HashTable) and zend_ast. Memory is
-- numbered: a structure carries the address of its block, and a copy takes the next free numbers,
-- as `emalloc` returns blocks that nothing else uses. Values are finite trees: an array that holds a
-- reference to itself is not among them.
pub mod Duplicate
pub mod Meaning
pub mod Owned
pub mod Growth
pub mod Isolation
use pht.Common.{ℕ, suc, ◌+◌, ◌-◌, ◌^◌, Bool, true, false, List, ◌∷◌, Option, ◌≡◌, ◌≤◌, ◌<◌, ◌⊎◌}
use pht.Common.Int.{ℤ}
use pht.PhtString.{Bytes}

-- zend_string. An interned one is shared by all and never freed.
pub record Str : Type 0 where
  pub address : ℕ
  pub bytes : Bytes
  pub interned : Bool

-- HT_INVALID_IDX
abbrev pub invalid_index : ℕ
invalid_index = 2 ^ 32 - 1

-- The fields of a HashTable besides its buckets. `hash` is the hash part of the data block, from its
-- lowest index on, so that `nTableMask` is minus its length; `data_block` is the block, `none` for the static
-- block of an empty table.
pub record Header : Type 0 where
  pub immutable : Bool
  pub packed : Bool
  pub static_keys : Bool
  pub initialized : Bool
  pub persistent : Bool
  pub apply_protection : Bool
  pub apply_count : ℕ
  pub table_size : ℕ
  pub elements : ℕ
  pub next_free : ℤ
  pub internal_pointer : ℕ
  pub destructor : ℕ
  pub data_block : Option ℕ
  pub hash : List ℕ

-- `nNumUsed` is the number of the buckets. A bucket is `indirect` when its zval points to a zval that
-- lies elsewhere, such as a compiled variable of a symbol table; `value` is that zval then. `next` is
-- the chain that `Z_NEXT` keeps. A reference is known by its address with what it refers to, an
-- object and a resource by their addresses.
mutual
  pub data Value : Type 0 where
    undef null false_value true_value : Value
    long : ℤ → Value
    double : ℕ → Value
    string : Str → Value
    array : Array → Value
    object resource : ℕ → Value
    reference : (address : ℕ) → Value → Value
    constant : Str → Value
    constant_ast : (address : ℕ) → Ast → Value

  pub data Array : Type 0 where
    table : (address : ℕ) → Header → Buckets → Array

  pub data Buckets : Type 0 where
    end : Buckets
    bucket :
        (indirect : Bool) (value : Value) (h : ℕ) (key : Option Str) (next : ℕ) → Buckets → Buckets

  pub data Ast : Type 0 where
    null_ast : Ast
    zval_node : (address attr : ℕ) → Value → Ast
    list_node : (address kind attr : ℕ) → Asts → Ast
    node : (address kind attr : ℕ) → Asts → Ast

  pub data Asts : Type 0 where
    no_more : Asts
    child : Ast → Asts → Asts

-- What the allocator and the reference counts record: the next free address, and the addresses whose
-- `GC_REFCOUNT` was raised, the last first.
pub record Memory : Type 0 where
  pub next : ℕ
  pub raised : List ℕ

-- emalloc: the block has the address `m.next`.
abbrev pub emalloc : Memory → Memory
emalloc m = record { next = m.next + 1; raised = m.raised }

-- GC_REFCOUNT(gc)++
abbrev pub raise : ℕ → Memory → Memory
raise a m = record { next = m.next; raised = a ∷ m.raised }

-- zend_string_dup(s, 0) is the engine's: a parameter of all that copies. It gives an interned string
-- back as it is, so that it can stand also where the type of a zval says that its string is interned.
abbrev pub StringDup : Type 0
StringDup = Str → Memory → Str × Memory

-- Its documented behaviour: the copy has the same bytes, and it is an interned string or a new
-- block.
abbrev pub KeepsBytes : StringDup → Type 0
KeepsBytes dup = (s : Str) (m : Memory) → (dup s m).0.bytes ≡ s.bytes

abbrev pub TakesFresh : StringDup → Type 0
TakesFresh dup =
    (s : Str) (m : Memory)
    → (m.next ≤ (dup s m).1.next)
      × (((dup s m).0.interned ≡ true)
          ⊎ ((m.next ≤ (dup s m).0.address) × ((dup s m).0.address < (dup s m).1.next)))

abbrev pub is_undef : Value → Bool
is_undef undef = true
is_undef _ = false

abbrev pub nothing_used : Buckets → Bool
nothing_used end = true
nothing_used _ = false

-- nNumUsed
abbrev pub num_used : Buckets → ℕ
num_used end = 0
num_used (bucket i v h k n r) = suc (num_used r)
