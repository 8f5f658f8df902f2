-- ===== src/DecisionTree/Tests.antt =====
-- tests/common/test_decision_tree.c on the model, with an insertion sort for `qsort`.
use mathlib.Core.List.{reverse, reverse_perm}
use sabo.Base.{
  true, ◌≡◌, ◌≢◌, ◌≤◌, ◌-ℤ◌, refl, arith, some, none, ℕ, Option, List, [], ◌∷◌, map, if◌then◌else◌,
  ℤ, pos, ltb_ℤ,
}
use mathlib.Core.Option
use sabo.Process.{CoreProcess}
use sabo.DecisionTree.Loads.{Admits, put}
use sabo.DecisionTree.Over.{over}
use sabo.DecisionTree.Root.{Asks, Realises, root_loads}
use sabo.DecisionTree.Placement.{placement_optimal, placement_total, placement_sound}
use sabo.DecisionTree.Ties.{candidate_final}
use sabo.DecisionTree.Nodes.{Uses, compute_placement-Uses, init_nodes_list-Uses}
use sabo.DecisionTree.{
  Search, Recur, TreeInfo, accept_leaf, TreeProcess, TreeCtx, Pool, init_nodes_list,
  compute_placement, root_info, copy_processes, build_tree, rounds, round, visit, keep_leaf,
  propagate, update_node, dup_node, place, next_norme, update_core_list, update_core, alloc_node,
  free_node, free_option,
}

insert : TreeProcess → List TreeProcess → List TreeProcess
insert p [] = p ∷ []
insert p (q ∷ qs) = if ltb_ℤ q.num_threads p.num_threads then q ∷ insert p qs else p ∷ q ∷ qs

insertion_sort : List TreeProcess → List TreeProcess
unfolding insert
insertion_sort [] = []
insertion_sort (p ∷ ps) = insert p (insertion_sort ps)

abbrev process : ℤ → ℤ → ℤ → CoreProcess
process rank threads prev = record {
  node_rank = rank;
  world_rank = rank;
  socket_id = prev;
  num_threads = threads;
  prev_socket_id = prev;
  prev_num_threads = pos 12;
}

abbrev article : List CoreProcess
article =
    process (pos 0) (pos 14) (pos 0)
    ∷ process (pos 1) (pos 9) (pos 0)
    ∷ process (pos 2) (pos 13) (pos 1)
    ∷ process (pos 3) (pos 12) (pos 1)
    ∷ []

abbrev two_sockets : TreeCtx
two_sockets = record { num_sockets = 2; num_cores_per_socket = 24; num_processes = 4 }

-- What a run of the search computes with.
search : TreeCtx → List CoreProcess → Option (List CoreProcess × Pool)
unfolding compute_placement root_info copy_processes build_tree rounds round visit keep_leaf
    propagate update_node dup_node place next_norme update_core_list update_core alloc_node
    free_node free_option init_nodes_list insertion_sort
search ctx ps = compute_placement insertion_sort ctx init_nodes_list ps

sockets : Option (List CoreProcess × Pool) → Option (List ℤ × ℕ)
sockets = Option.map (λ (ps, p). (map (λ q. q.socket_id) ps, p.allocated))

-- The first two processes share socket 0, the other two socket 1; no node is lost.
article-sockets :
    sockets (search two_sockets article) ≡ some (pos 0 ∷ pos 0 ∷ pos 1 ∷ pos 1 ∷ [], 64)
unfolding sockets search ◌-ℤ◌
article-sockets = refl

-- Two processes of 3 and 1 threads for the 4 cores of two sockets.
abbrev small : TreeCtx
small = record { num_sockets = 2; num_cores_per_socket = 2; num_processes = 2 }

abbrev pair : List CoreProcess
pair = process (pos 0) (pos 3) (pos 1) ∷ process (pos 1) (pos 1) (pos 0) ∷ []

pair_sorted : insertion_sort (copy_processes 0 pair) ≡ reverse (copy_processes 0 pair)
unfolding insertion_sort copy_processes
pair_sorted = refl

pair_Asks : Asks insertion_sort small pair (1 ∷ 3 ∷ [])
unfolding insertion_sort copy_processes
pair_Asks = record {
  perm = rw pair_sorted (reverse_perm _);
  asks = refl;
  size = refl;
  cores = omega arith;
  range = omega arith;
}

placement_optimal_example :
    (path : List ℕ) × (result : List CoreProcess) × (pool' : Pool) × (compute_placement
        insertion_sort small init_nodes_list pair
      ≡ some (result, pool'))
    × Admits 2 (root_loads small) (1 ∷ 3 ∷ []) path
    × Realises pair_Asks path result
    × (over 2 2 (1 ∷ 3 ∷ []) path ≤ over 2 2 (1 ∷ 3 ∷ []) (0 ∷ 1 ∷ []))
unfolding put ◌-ℤ◌
placement_optimal_example =
    placement_optimal pair_Asks init_nodes_list (0 ∷ 1 ∷ []) (omega arith) (omega arith)
      (omega arith)

placement_total_example : compute_placement insertion_sort small init_nodes_list pair ≢ none
placement_total_example =
    placement_total pair_Asks init_nodes_list (omega arith) (omega arith) (omega arith)

-- Both change sockets, though their old sockets give no more overflow.
abbrev pair_result : List CoreProcess
pair_result =
    record (process (pos 0) (pos 3) (pos 1)) { socket_id = pos 0 }
    ∷ record (process (pos 1) (pos 1) (pos 0)) { socket_id = pos 1 }
    ∷ []

full_pool : Pool
unfolding init_nodes_list
full_pool = init_nodes_list

pair_run :
    compute_placement insertion_sort small init_nodes_list pair ≡ some (pair_result, full_pool)
unfolding search full_pool ◌-ℤ◌
pair_run = refl

placement_sound_example :
    (path : List ℕ) × Admits 2 (root_loads small) (1 ∷ 3 ∷ []) path
    × Realises pair_Asks path pair_result
placement_sound_example =
    placement_sound pair_Asks init_nodes_list full_pool pair_result (omega arith) pair_run

compute_placement-Uses_example : Uses 0 full_pool
compute_placement-Uses_example =
    compute_placement-Uses insertion_sort small 0 init_nodes_list full_pool pair pair_result
      init_nodes_list-Uses.0 pair_run

-- The father of the leaves that place the second process, with the first one on socket 1.
abbrev before_last : Search
before_last = record {
  node = record {
    info = update_node (dup_node (root_info insertion_sort small pair)) 1;
    best = none;
  };
  pool = init_nodes_list;
  has_child = true;
}

abbrev no_recursion : Recur
no_recursion c father p = (father, p)

abbrev first_leaf : TreeInfo
first_leaf = update_node (dup_node before_last.node.info) 0

candidate_final_example :
    (rounds small no_recursion 1 1 (accept_leaf first_leaf before_last)).node
    ≡ (accept_leaf first_leaf before_last).node
unfolding search ◌-ℤ◌
candidate_final_example =
    candidate_final small no_recursion first_leaf before_last 1 1 (omega arith) (omega arith)
