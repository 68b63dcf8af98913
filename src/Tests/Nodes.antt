-- ===== src/Tests/Nodes.antt =====
-- A list of one node, on a heap where all else is NULL.
use tele_sync.Prelude.{◌≡◌, refl, [], ◌∷◌, arith}
use tele_sync.LinkedList.{Heap, init_list_head, list_add, list_for_each}
use tele_sync.LinkedList.Shape.{mem, IsList}
use tele_sync.LinkedList.Sequences.{init_list_head-IsList, list_add-IsList, operations-IsList}

abbrev one_node : Heap
one_node = (list_add (init_list_head (record { prev = λ x. 0; next = λ x. 0 }) 1) 1 2).0

one_node-IsList : IsList one_node 1 (2 ∷ [])
unfolding mem
one_node-IsList =
    list_add-IsList (init_list_head (record { prev = λ x. 0; next = λ x. 0 }) 1) 1 2 []
      (init_list_head-IsList (record { prev = λ x. 0; next = λ x. 0 }) 1 refl) refl

operations-IsList_example : list_for_each 2 one_node 1 ≡ 2 ∷ []
unfolding mem
operations-IsList_example =
    (operations-IsList one_node 1 [] 2 [] 3 2 one_node-IsList refl (omega arith)).3
