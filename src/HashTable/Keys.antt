-- ===== src/HashTable/Keys.antt =====
-- Keys as a search compares them.
use pht.Common.{◌≡◌, refl, true, ==_refl, Option, none, some, arith, ℕ}
use pht.PhtString.{Bytes}
use pht.PhtString.Laws.{str_eq_refl, str_eq_symm, str_eq_trans}
use pht.HashTable.{Query, same_key}
use pht.HashTable.Slots.{has_key}

same_key_refl : (k : Option Bytes) → same_key k k ≡ true
unfolding same_key
same_key_refl none = refl
same_key_refl (some k) = str_eq_refl k

same_key_symm : (j k : Option Bytes) → same_key j k ≡ same_key k j
unfolding same_key
same_key_symm none none = refl
same_key_symm none (some k) = refl
same_key_symm (some j) none = refl
same_key_symm (some j) (some k) = str_eq_symm j k

same_key_trans :
    (i j k : Option Bytes) → same_key i j ≡ true → same_key j k ≡ true → same_key i k ≡ true
unfolding same_key
same_key_trans none none k h g = g
same_key_trans none (some j) k h g = cc
same_key_trans (some i) none k h g = cc
same_key_trans (some i) (some j) none h g = cc
same_key_trans (some i) (some j) (some k) h g = str_eq_trans i j k h g

same_key_congr : (j k l : Option Bytes) → same_key j k ≡ true → same_key k l ≡ same_key j l
same_key_congr j k l e =
    ground (arith, same_key_symm j k, same_key_trans j k l, same_key_trans k j l)

pub has_key_self : (q : Query) → has_key q q.key q.hash ≡ true
has_key_self q = rw (==_refl q.hash, same_key_refl q.key)

-- Whoever compares equal to a bucket compares with all others as the bucket does.
pub has_key_congr :
    (q q' : Query) (key : Option Bytes) (hash : ℕ)
    → has_key q key hash ≡ true
    → has_key q' q.key q.hash ≡ has_key q' key hash
has_key_congr q q' key hash e = ground (arith, same_key_congr key q.key q'.key)

-- Two queries that compare equal accept the same keys.
pub has_key_same :
    (q q' : Query)
    → has_key q' q.key q.hash ≡ true
    → (key : Option Bytes) (hash : ℕ) → has_key q' key hash ≡ has_key q key hash
has_key_same q q' e key hash =
    ground
      (arith, same_key_symm key q'.key, same_key_symm key q.key, same_key_congr q.key q'.key key)
