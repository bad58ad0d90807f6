-- ===== src/Tests/Arrays.antt =====
-- src/ds/pht_vector.c on a vector of two entries, with and without a spare slot.
use pht.Common.{
  ℕ, ◌≡◌, refl, true, [], ◌∷◌, ◌++◌, List, fault, Returns, Ptr, null, ref, arith, ◌≤◌, ◌⊎◌, int_max,
}
use pht.Common.Int.{pos}
use pht.Vector
use pht.Vector.Laws.{Holds, Models}
use pht.Vector.Capacity.{push_all, push_all-init}
use pht.Vector.Shifts.{insert_at-Models, delete_at-Models, delete_at-full}

abbrev two : List (Ptr ℕ)
two = ref 7 ∷ ref 8 ∷ []

abbrev full : Vector.Vector ℕ
full = record { values = two; size = 2; used = 2 }

abbrev roomy : Vector.Vector ℕ
roomy = record { values = two ++ (null ∷ []); size = 3; used = 2 }

full-Holds : Holds full two []
full-Holds = record { values = refl; size = refl; used = refl }

roomy-Models : Models roomy two
roomy-Models = (null ∷ [], record { values = refl; size = refl; used = refl })

insert_at-Models_example :
    Returns
      (Vector.insert_at full (ref 9) (pos 1))
      (λ r. (r.0 ≡ true) × Models r.1 (ref 7 ∷ ref 9 ∷ ref 8 ∷ []))
insert_at-Models_example =
    insert_at-Models full (ref 7 ∷ []) (ref 8 ∷ []) (ref 9) ([], full-Holds) (omega arith)

delete_at-Models_example :
    Returns
      (Vector.delete_at roomy (pos 0))
      (λ r. (r.0 ≡ true) × (r.1 ≡ 7 ∷ []) × Models r.2 (ref 8 ∷ []))
delete_at-Models_example = delete_at-Models roomy [] (ref 8 ∷ []) 7 roomy-Models (omega arith)

delete_at-full_example : Vector.delete_at full (pos 0) ≡ fault
delete_at-full_example = delete_at-full full two 0 full-Holds (omega arith)

push_all-init_example :
    Returns (push_all {A = ℕ} (Vector.init 1) (ref 7 ∷ ref 8 ∷ ref 9 ∷ [])) (λ v.
      Models v (ref 7 ∷ ref 8 ∷ ref 9 ∷ []) × ((v.size ≤ 1) ⊎ (v.size ≤ 6)) × (v.size ≤ int_max))
push_all-init_example = push_all-init 1 (ref 7 ∷ ref 8 ∷ ref 9 ∷ []) (omega arith) (omega arith)
