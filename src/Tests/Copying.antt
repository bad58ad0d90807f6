-- ===== src/Tests/Copying.antt =====
-- Copies of values, functions, classes and settings, on concrete inputs: a class `A` with a method, and
-- a class `B` that extends it, go to a new thread.
use pht.Common.{
  ℕ, ◌≡◌, refl, true, false, [], ◌∷◌, none, some, if◌then◌else◌, arith, inl, inr, Bool-cases,
  replicate,
}
use pht.Common.Int.{pos}
use pht.PhtString.{Bytes}
use pht.Engine.{
  Str, Header, Value, undef, long, string, array, table, Buckets, end, bucket, Memory, emalloc,
  StringDup, KeepsBytes, TakesFresh, invalid_index,
}
use pht.Engine.Duplicate.{pht_zval_dup, array_copied, hash_bucket}
use pht.Engine.Owned.{Fresh, Copyable, Static}
use pht.Engine.Isolation.{Fresh-pht_zval_dup}
use pht.Engine.Meaning.{meaning, meaning-pht_zval_dup}

-- zend_string_dup, zend_string_tolower, zend_lookup_class and zend_register_constant, as the engine
-- documents them.
abbrev pub zend_string_dup : StringDup
zend_string_dup s m =
    if s.interned
    then (s, m)
    else (record { address = m.next; bytes = s.bytes; interned = false }, emalloc m)

pub keeps : KeepsBytes zend_string_dup
keeps s m = ground arith

fresh : TakesFresh zend_string_dup
fresh s m = elim (Bool-cases s.interned) [ inl e ↦ ground arith | inr e ↦ ground arith ]

abbrev pub interned : Bytes → Str
interned b = record { address = 1; bytes = b; interned = true }

abbrev pub owned : ℕ → Bytes → Str
owned a b = record { address = a; bytes = b; interned = false }

abbrev pub memory : Memory
memory = record { next = 100; raised = [] }

-- The array ['a' => 7, 'b' => 'x'] with an element removed in between.
abbrev pub header : Header
header = record {
  immutable = false;
  packed = false;
  static_keys = false;
  initialized = true;
  persistent = false;
  apply_protection = true;
  apply_count = 0;
  table_size = 8;
  elements = 2;
  next_free = pos 0;
  internal_pointer = 2;
  destructor = 0;
  data_block = some 11;
  hash = replicate 8 invalid_index;
}

abbrev pub buckets : Buckets
buckets = bucket false (long (pos 7)) 9 (some (interned (97 ∷ []))) invalid_index (
    bucket false undef 3 none invalid_index (
      bucket false (string (owned 12 (120 ∷ []))) 10 (some (owned 13 (98 ∷ []))) invalid_index end))

abbrev pub pair : Value
pair = array (table 10 header buckets)

pair-Copyable : Copyable pair
unfolding Copyable Static
pair-Copyable =
    ((λ e. absurd (cc e)), ((λ e. refl), tt, tt, ((λ e. refl), tt, tt, ((λ e. refl), tt, tt, tt))))

meaning-pht_zval_dup_example : meaning (pht_zval_dup zend_string_dup pair memory).0 ≡ meaning pair
meaning-pht_zval_dup_example = meaning-pht_zval_dup zend_string_dup keeps pair memory

Fresh-pht_zval_dup_example :
    Fresh 100
      (pht_zval_dup zend_string_dup pair memory).1.next
      (pht_zval_dup zend_string_dup pair memory).0
Fresh-pht_zval_dup_example = Fresh-pht_zval_dup zend_string_dup fresh pair memory pair-Copyable

-- The copy has no place for the element that is gone, and its internal pointer moved with its element.
moved_up :
    (pht_zval_dup zend_string_dup pair memory).0
    ≡ array (
        table 100
          (record header {
            elements = 2;
            internal_pointer = 1;
            data_block = some 101;
            hash = invalid_index ∷ 0 ∷ 1 ∷ replicate 5 invalid_index;
          })
          (bucket false (long (pos 7)) 9 (some (interned (97 ∷ []))) invalid_index (
            bucket false
              (string (owned 102 (120 ∷ [])))
              10
              (some (owned 103 (98 ∷ [])))
              invalid_index
              end)))
unfolding pht_zval_dup array_copied hash_bucket
moved_up = refl
