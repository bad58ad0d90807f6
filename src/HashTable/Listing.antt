-- ===== src/HashTable/Listing.antt =====
-- pht_hashtable.c: the walks over all buckets, for the property table and for destruction.
use pht.Common.{
  ◌≡◌, refl, ◌∙◌, List, [], ◌∷◌, Option, none, some, if◌then◌else◌, on_value, length, arith,
}
use pht.HashTable.{Bucket, Table, Query, matches, occupants, destroy, listed, to_zend_hashtable}
use pht.HashTable.Slots.{any_test, tally, has_key, find}
use pht.HashTable.Laws.{IsTable}

-- The first pair of a list under a key.
pub lookup : {Z : Type 0} → Query → List (Query × Z) → Option Z
lookup q [] = none
lookup q ((k, z) ∷ rest) = if has_key q k.key k.hash then some z else lookup q rest

module _ {V Z : Type 0} (convert : V → Z) where
  listed-find :
      (q : Query) (bs : List (Bucket V))
      → lookup q (listed convert bs) ≡ on_value (find q bs) none (λ v. some (convert v))
  unfolding lookup listed find matches
  listed-find q [] = refl
  listed-find q (b ∷ bs) = ground (arith, listed-find q bs)

  length-listed : (bs : List (Bucket V)) → length (listed convert bs) ≡ tally any_test bs
  unfolding listed tally
  length-listed [] = refl
  length-listed (b ∷ bs) = ground (arith, length-listed bs)

  length-occupants : (bs : List (Bucket V)) → length (occupants bs) ≡ tally any_test bs
  unfolding occupants tally
  length-occupants [] = refl
  length-occupants (b ∷ bs) = ground (arith, length-occupants bs)

  -- The property table of a well-formed table has as many pairs as the table counts, and under
  -- every key the converted value that the abstract map has, or nothing; destruction calls the
  -- destructor on as many values.
  pub to_zend_hashtable-find :
      (t : Table V)
      → IsTable t
      → (length (to_zend_hashtable convert t) ≡ t.used)
        × (length (destroy t) ≡ t.used)
        × ((q : Query)
            → lookup q (to_zend_hashtable convert t)
              ≡ on_value (find q t.values) none (λ v. some (convert v)))
  unfolding to_zend_hashtable destroy
  to_zend_hashtable-find t valid = (
    length-listed t.values ∙ valid.counted,
    length-occupants t.values ∙ valid.counted,
    λ q. listed-find q t.values,
  )
