-- ===== src/DecisionTree.antt =====
-- common/decision_tree.c: the branch and cut search that assigns each process of a node to a socket.
-- Nodes are values. A node that the source passes by pointer and updates is returned, and the
-- `father` link is the caller's node, which `propagate` updates. `best` is a leaf, or NULL. Of the
-- pool of nodes the model keeps the sizes: the free list, its counter, and the nodes allocated.
-- Arrays indexed by a socket are functions. Array reads past the end, which the source does not
-- check, leave the node as it is.
mod Tests
pub mod Loads
mod Climb
pub mod Reps
mod Optimal
mod Norm
mod Leaf
mod Cases
mod Sound
pub mod Exists
mod Assign
mod Over
pub mod Root
pub mod Placement
mod Ties
mod Nodes
pub mod Memory
use sabo.Base.{
  ℕ, zero, suc, ◌+◌, ◌-◌, Bool, true, false, not, ◌&&◌, Option, none, some, List, [], ◌∷◌, ltb, leb,
  ◌==◌, if◌then◌else◌, get_elem?, set, take, ℤ, pos, negsuc, ◌+ℤ◌, ◌-ℤ◌, ltb_ℤ, eqb_ℤ,
}
use sabo.Process.{CoreProcess}

abbrev pub int_min : ℤ
int_min = negsuc 2_147_483_647

abbrev pub node_threshold : ℕ
node_threshold = 64

pub record TreeProcess : Type 0 where
  pub core_process : ℕ
  pub num_threads : ℤ
  pub socket_id : ℤ
  pub prev_socket_id : ℤ
  pub rank : ℤ

-- A node without its links.
pub record TreeInfo : Type 0 where
  pub min : ℤ
  pub norme : ℤ
  pub num_socket_changes : ℕ
  pub placed_num_processes : ℕ
  pub depth : ℕ
  pub processes : List TreeProcess
  pub num_free_cores : ℕ → ℤ

pub record TreeNode : Type 0 where
  pub info : TreeInfo
  pub open info use *
  pub best : Option TreeInfo

pub record TreeCtx : Type 0 where
  pub num_sockets : ℕ
  pub num_cores_per_socket : ℕ
  pub num_processes : ℕ

pub record Pool : Type 0 where
  pub free_nodes : ℕ
  pub num_free_nodes : ℕ
  pub allocated : ℕ

unfoldable pub alloc_node : Pool → Pool
alloc_node p =
    if ltb 0 p.free_nodes
    then record p { free_nodes = p.free_nodes - 1; num_free_nodes = p.num_free_nodes - 1 }
    else record p { allocated = p.allocated + 1 }

unfoldable pub free_node : Pool → Pool
free_node p =
    if ltb p.num_free_nodes node_threshold
    then record p { free_nodes = p.free_nodes + 1; num_free_nodes = p.num_free_nodes + 1 }
    else record p { allocated = p.allocated - 1 }

-- `tree_free_node` of a pointer that may be NULL.
unfoldable pub free_option : Option TreeInfo → Pool → Pool
unfolding free_node
free_option none p = p
free_option (some _) p = free_node p

fill_pool : ℕ → Pool → Pool
unfolding free_node
fill_pool zero p = p
fill_pool (suc n) p = fill_pool n (free_node (record p { allocated = p.allocated + 1 }))

unfoldable pub init_nodes_list : Pool
unfolding fill_pool
init_nodes_list =
    fill_pool node_threshold (record { free_nodes = 0; num_free_nodes = 0; allocated = 0 })

fini_loop : ℕ → Pool → Pool
fini_loop zero p = p
fini_loop (suc n) p =
    fini_loop n (record p { free_nodes = p.free_nodes - 1; allocated = p.allocated - 1 })

-- The loop runs until the free list is empty; its counter is not touched.
unfoldable pub fini_nodes_list : Pool → Pool
unfolding fini_loop
fini_nodes_list p = fini_loop p.free_nodes p

abbrev pub update : (ℕ → ℤ) → ℕ → ℤ → ℕ → ℤ
update f s v q = if s == q then v else f q

unfoldable pub copy_processes : ℕ → List CoreProcess → List TreeProcess
copy_processes i [] = []
copy_processes i (p ∷ ps) =
    record {
      core_process = i;
      num_threads = p.num_threads;
      socket_id = negsuc 0;
      prev_socket_id = p.prev_socket_id;
      rank = p.node_rank;
    }
    ∷ copy_processes (i + 1) ps

-- `sort` is the C library's `qsort` by `num_threads`.
unfoldable pub root_info :
    (List TreeProcess → List TreeProcess) → TreeCtx → List CoreProcess → TreeInfo
root_info sort ctx ps = record {
  min = int_min;
  norme = int_min;
  num_socket_changes = 0;
  placed_num_processes = 0;
  depth = 0;
  processes = sort (copy_processes 0 ps);
  num_free_cores = λ _. pos ctx.num_cores_per_socket;
}

unfoldable pub dup_node : TreeInfo → TreeInfo
dup_node node = record node { depth = node.depth + 1 }

-- Line 253 on: the norm takes in a socket that has no free core left.
unfoldable pub next_norme : ℤ → ℤ → ℤ
next_norme norme free =
    if ltb_ℤ (pos 0) free then norme else if eqb_ℤ int_min norme then free else norme +ℤ free

unfoldable pub place : TreeInfo → ℕ → TreeProcess → TreeInfo
place node s p =
    let free = node.num_free_cores s -ℤ p.num_threads in
    record node {
      norme = next_norme node.norme free;
      num_socket_changes =
          if eqb_ℤ p.prev_socket_id (pos s)
          then node.num_socket_changes
          else node.num_socket_changes + 1;
      placed_num_processes = node.placed_num_processes + 1;
      processes = set node.processes node.placed_num_processes (record p { socket_id = pos s });
      num_free_cores = update node.num_free_cores s free;
    }

unfoldable pub update_node : TreeInfo → ℕ → TreeInfo
update_node node s = elim (get_elem? node.processes node.placed_num_processes) [
  | none ↦ node
  | some p ↦ place node s p
]

-- What the loop over the sockets keeps: `node`, the pool, and whether `child_node` is allocated.
pub record Search : Type 0 where
  pub node : TreeNode
  pub pool : Pool
  pub has_child : Bool

-- Lines 335-341: the leaf becomes the candidate, and the old one is used for the next child.
unfoldable pub accept_leaf : TreeInfo → Search → Search
accept_leaf leaf s = record s {
  node = record {
    info = record (s.node.info) { min = leaf.min; num_socket_changes = leaf.num_socket_changes };
    best = some leaf;
  };
  has_child = elim s.node.best [ none ↦ false | some _ ↦ true ];
}

-- Lines 322-341: a complete placement, its `min` set to its norm.
unfoldable pub keep_leaf : TreeInfo → Search → Search
unfolding accept_leaf
keep_leaf leaf s = elim s.node.best [
  | none ↦ accept_leaf leaf s
  | some b ↦ if leb b.num_socket_changes leaf.num_socket_changes then s else accept_leaf leaf s
]

-- Lines 346-362, with `father` the caller's node.
unfoldable pub propagate : TreeNode → TreeNode × Pool → TreeNode × Pool
propagate father (node, pool) =
    if ltb_ℤ father.min node.min
    then (
      record { info = record (father.info) { min = node.min }; best = node.best },
      free_option father.best pool,
    )
    else (father, free_option node.best pool)

abbrev pub Recur : Type 0
Recur = TreeInfo → TreeNode → Pool → TreeNode × Pool

-- Lines 298-341, for the child that takes the next process to a socket. `recur` is the recursive
-- call on a child: it updates the father and the pool.
unfoldable pub visit : TreeCtx → Recur → TreeInfo → Search → Search
visit ctx recur child s =
    if not (eqb_ℤ child.norme int_min) && ltb_ℤ child.norme s.node.min
    then s
    else if ctx.num_processes - child.placed_num_processes == 0
    then (if ltb_ℤ child.norme s.node.min
        then s
        else keep_leaf (record child { min = child.norme }) s)
    else (let (n, p) = recur child s.node s.pool in record s { node = n; pool = p })

-- One round of the loop, for socket `i`.
unfoldable pub round : TreeCtx → Recur → ℕ → Search → Search
round ctx recur i s =
    let s' = if s.has_child then s else record s { pool = alloc_node s.pool; has_child = true } in
    if ltb_ℤ (s.node.num_free_cores i) (pos 0)
    then s'
    else visit ctx recur (update_node (dup_node s.node.info) i) s'

unfoldable pub rounds : TreeCtx → Recur → ℕ → ℕ → Search → Search
rounds ctx recur zero i s = s
rounds ctx recur (suc n) i s = rounds ctx recur n (i + 1) (round ctx recur i s)

-- `tree_build_tree_recursive` up to line 347; `propagate` is the rest. The first number bounds the
-- depth of the recursion; each level places one process, so the number of processes is enough.
unfoldable pub build_tree : TreeCtx → ℕ → TreeInfo → Pool → TreeNode × Pool
build_tree ctx zero info pool = (record { info = info; best = none }, pool)
build_tree ctx (suc fuel) info pool =
    let recur : Recur = λ child father p. propagate father (build_tree ctx fuel child p) in
    let s = rounds ctx recur ctx.num_sockets 0 (record {
      node = record { info = info; best = none };
      pool = alloc_node pool;
      has_child = true;
    }) in
    (s.node, if s.has_child then free_node s.pool else s.pool)

-- One pass of `tree_update_core_processes_list`.
unfoldable pub update_core : TreeProcess → List CoreProcess → List CoreProcess
update_core t ps = elim (get_elem? ps t.core_process) [
  | none ↦ ps
  | some p ↦
      set ps t.core_process (record p { socket_id = t.socket_id; prev_socket_id = p.socket_id })
]

unfoldable pub update_core_list : List TreeProcess → List CoreProcess → List CoreProcess
update_core_list [] ps = ps
update_core_list (t ∷ ts) ps = update_core_list ts (update_core t ps)

-- `none` is the fatal error of line 401.
unfoldable pub compute_placement :
    (List TreeProcess → List TreeProcess)
    → TreeCtx
    → Pool
    → List CoreProcess
    → Option (List CoreProcess × Pool)
compute_placement sort ctx pool ps =
    let (root, pool') =
      build_tree ctx ctx.num_processes (root_info sort ctx ps) (alloc_node pool) in
    elim root.best [
      | none ↦ none
      | some b ↦ some (
        update_core_list (take b.placed_num_processes b.processes) ps,
        free_node (free_node pool'),
      )
    ]
