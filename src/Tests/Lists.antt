-- ===== src/Tests/Lists.antt =====
-- src/ds/pht_queue.c on a queue of two elements, at the addresses 10 and 20.
use pht.Common.{ℕ, ◌≡◌, refl, [], ◌∷◌, none, some, Returns, arith, if◌then◌else◌, ◌==◌}
use pht.Queue
use pht.Queue.Chain.{Nodes, elements_of, has}
use pht.Queue.Laws.{Holds, Lists, destroy-Holds}

abbrev cells : Queue.Cells ℕ
cells a =
    if a == 10
    then some (record { element = 7; next = 20 })
    else if a == 20
    then some (record { element = 8; next = 0 })
    else none

abbrev pub pair : Queue.Queue ℕ
pair = record { cells = cells; elements = 10; last = 20; size = 2 }

abbrev nodes : Nodes ℕ
nodes = (10, 7) ∷ (20, 8) ∷ []

pair-Holds : Holds pair nodes
pair-Holds = record {
  linked = ((λ e. omega (arith, e)), refl, refl, ((λ e. omega (arith, e)), refl, refl, tt));
  elements = refl;
  last = refl;
  size = refl;
}

pair-Lists : Lists pair (7 ∷ 8 ∷ [])
pair-Lists = (nodes, pair-Holds, refl)

destroy-Holds_example : Returns (Queue.destroy pair) (λ s.
    (s.0 ≡ elements_of nodes) × ((p : ℕ) → s.1.cells p ≡ (if has p nodes then none else cells p)))
destroy-Holds_example = destroy-Holds pair nodes pair-Holds
