-- ===== src/DecisionTree/Memory/Tests.antt =====
-- common/decision_tree.c: a free list of one node, at the address 100, and a node in use at 300.
use sabo.Base.{ℕ, ◌≡◌, refl, some, [], ◌∷◌, true, arith}
use sabo.LinkedList.{listm_head_init, listm_add_first}
use sabo.LinkedList.Seg.{NotIn}
use sabo.LinkedList.Objects.{list_head_init-Represents}
use sabo.DecisionTree.{alloc_node, free_node}
use sabo.DecisionTree.Memory.{
  TreeHeap, at_start, with_list, xzalloc_node, tree_init_node, tree_alloc_node, tree_free_node,
}
use sabo.DecisionTree.Memory.Copies.{copies}
use sabo.DecisionTree.Memory.Listed.{Listed, made-Listed, added-Listed, set_num-Listed}
use sabo.DecisionTree.Memory.Kept.{
  Implements, pool_of, tree_alloc_node-Implements, tree_free_node-Implements,
}

abbrev pub empty : TreeHeap
empty = record at_start { ctx = true; free_nodes = listm_head_init at_start.free_nodes 24 }

empty-Listed : Listed empty [] []
unfolding copies
empty-Listed = record {
  list = list_head_init-Represents 24 at_start.free_nodes.list_head at_start.store;
  once = λ x. omega arith;
  blocks = λ x. refl;
}

abbrev pub made : TreeHeap
unfolding tree_init_node xzalloc_node
made = tree_init_node 100 (xzalloc_node 100 empty)

abbrev pub idle : TreeHeap
idle = record (with_list (listm_add_first 100 (made.free_nodes, made.store)) made) {
  num_free_nodes = 1;
}

idle-Listed : Listed idle (100 ∷ []) []
unfolding made
idle-Listed =
    set_num-Listed (with_list (listm_add_first 100 (made.free_nodes, made.store)) made) 1 (100 ∷ [])
      [] (added-Listed made 100 [] [] [] (made-Listed empty 100 [] [] empty-Listed refl))

pub idle-ctx : idle.ctx ≡ true
unfolding made
idle-ctx = refl

pub idle-Implements : Implements idle (pool_of (100 ∷ []) []) []
idle-Implements = record {
  objects = 100 ∷ [];
  held = record { listed = idle-Listed; counted = refl; bounded = omega arith };
  pool = refl;
}

abbrev busy : TreeHeap
unfolding tree_init_node xzalloc_node
busy = tree_init_node 300 (xzalloc_node 300 idle)

busy-Implements : Implements busy (pool_of (100 ∷ []) (300 ∷ [])) (300 ∷ [])
unfolding busy made tree_init_node xzalloc_node
busy-Implements = record {
  objects = 100 ∷ [];
  held = record {
    listed = made-Listed idle 300 (100 ∷ []) [] idle-Listed refl;
    counted = refl;
    bounded = omega arith;
  };
  pool = refl;
}

tree_alloc_node-Implements_example :
    (node : ℕ) × (t' : TreeHeap) × (tree_alloc_node 500 busy ≡ some (node, t'))
    × NotIn node (300 ∷ [])
    × Implements t' (alloc_node (pool_of (100 ∷ []) (300 ∷ []))) (node ∷ 300 ∷ [])
unfolding busy made
tree_alloc_node-Implements_example =
    tree_alloc_node-Implements busy (pool_of (100 ∷ []) (300 ∷ [])) (300 ∷ []) 500 busy-Implements
      refl

tree_free_node-Implements_example :
    (t' : TreeHeap) × (tree_free_node (some 300) busy ≡ some t')
    × Implements t' (free_node (pool_of (100 ∷ []) (300 ∷ []))) []
tree_free_node-Implements_example =
    tree_free_node-Implements busy (pool_of (100 ∷ []) (300 ∷ [])) [] [] 300 busy-Implements
