-- ===== src/DecisionTree/Memory.antt =====
-- common/decision_tree.c, lines 74-159 and 421-442: the nodes of the tree in memory, with their free
-- list as the intrusive list of LinkedList. A node is its address; for each the flags in `blocks` say
-- which of its blocks are allocated. The addresses that `malloc` returns are arguments. `none` is a
-- second `free` of a block, a failed assertion, or a loop that does not end within the fuel.
pub mod Copies
pub mod Listed
pub mod Kept
pub mod Lifetime
pub mod Tests
use mathlib.Core.Option
use sabo.Base.{
  ℕ, zero, suc, ◌+◌, ◌-◌, Bool, true, false, not, Option, none, some, ltb, if◌then◌else◌, write,
}
use sabo.LinkedList.{
  ListmHead, Store, void2node, empty_head, listm_head_init, listm_get_first, listm_remove,
  listm_add_first,
}
use sabo.Core.Memory.{free}
use sabo.DecisionTree.{node_threshold}

-- The blocks of a node: the node itself and its two arrays.
pub record NodeBlocks : Type 0 where
  pub node : Bool
  pub processes : Bool
  pub sockets : Bool

abbrev pub no_blocks : NodeBlocks
no_blocks = record { node = false; processes = false; sockets = false }

abbrev pub all_blocks : NodeBlocks
all_blocks = record { node = true; processes = true; sockets = true }

-- `struct tree_ctx` with its free list; `ctx` says whether it is allocated.
pub record TreeHeap : Type 0 where
  pub ctx : Bool
  pub free_nodes : ListmHead
  pub num_free_nodes : ℕ
  pub store : Store
  pub blocks : ℕ → NodeBlocks

abbrev pub at_start : TreeHeap
at_start = record {
  ctx = false;
  free_nodes = record { list_head = empty_head; offset = 0 };
  num_free_nodes = 0;
  store = λ a. record { previous = none; next = none };
  blocks = λ a. no_blocks;
}

abbrev pub set_blocks : ℕ → NodeBlocks → TreeHeap → TreeHeap
set_blocks node b t = record t { blocks = write t.blocks node b }

-- The free list after an operation on it.
abbrev pub with_list : ListmHead × Store → TreeHeap → TreeHeap
with_list (h, m) t = record t { free_nodes = h; store = m }

-- `xzalloc` of a node: its links are null.
unfoldable pub xzalloc_node : ℕ → TreeHeap → TreeHeap
xzalloc_node node t = record t {
  blocks = write t.blocks node (record (t.blocks node) { node = true });
  store =
      write t.store (void2node t.free_nodes.offset node) (record { previous = none; next = none });
}

unfoldable pub tree_init_node : ℕ → TreeHeap → TreeHeap
tree_init_node node t =
    set_blocks node (record (t.blocks node) { processes = true; sockets = true }) t

unfoldable pub tree_fini_node : ℕ → TreeHeap → Option TreeHeap
tree_fini_node node t = elim (free (t.blocks node).processes) [
  | none ↦ none
  | some p ↦
      Option.map (λ d. set_blocks node (record (t.blocks node) { processes = p; sockets = d }) t)
        (free (t.blocks node).sockets)
]

-- `xfree` of a node.
unfoldable pub xfree_node : ℕ → TreeHeap → Option TreeHeap
xfree_node node t =
    Option.map (λ n. set_blocks node (record (t.blocks node) { node = n }) t)
      (free (t.blocks node).node)

-- `tree_fini_node` and `xfree`
unfoldable pub release_node : ℕ → TreeHeap → Option TreeHeap
release_node node t = elim (tree_fini_node node t) [ none ↦ none | some t' ↦ xfree_node node t' ]

-- `new_node` is the address of a node that is allocated here.
unfoldable pub tree_alloc_node : ℕ → TreeHeap → Option (ℕ × TreeHeap)
tree_alloc_node new_node t = elim (listm_get_first t.free_nodes) [
  | none ↦ some (new_node, tree_init_node new_node (xzalloc_node new_node t))
  | some node ↦
      let removed = with_list (listm_remove node (t.free_nodes, t.store)) t in
      if (t.blocks node).processes
      then some (node, record removed { num_free_nodes = t.num_free_nodes - 1 })
      else none
]

unfoldable pub tree_free_node : Option ℕ → TreeHeap → Option TreeHeap
tree_free_node none t = some t
tree_free_node (some node) t =
    if ltb t.num_free_nodes node_threshold
    then some (record (with_list (listm_add_first node (t.free_nodes, t.store)) t) {
      num_free_nodes = t.num_free_nodes + 1;
    })
    else release_node node t

-- The `for` loop of `tree_init_nodes_list`, from `i` on; `new_node i` is the address of the node.
unfoldable pub init_nodes_loop : (ℕ → ℕ) → ℕ → ℕ → TreeHeap → Option TreeHeap
init_nodes_loop new_node i zero t = some t
init_nodes_loop new_node i (suc n) t =
    elim (tree_free_node (some (new_node i))
      (tree_init_node (new_node i) (xzalloc_node (new_node i) t))) [
        | none ↦ none
        | some t' ↦ init_nodes_loop new_node (i + 1) n t'
      ]

-- `offset` is that of the list node in `struct tree_node`.
unfoldable pub tree_init_nodes_list : ℕ → (ℕ → ℕ) → TreeHeap → Option TreeHeap
tree_init_nodes_list offset new_node t =
    init_nodes_loop new_node 0 node_threshold
      (record t { free_nodes = listm_head_init t.free_nodes offset; num_free_nodes = 0 })

-- The `while` loop of `tree_fini_nodes_list`.
unfoldable pub fini_nodes_loop : ℕ → TreeHeap → Option TreeHeap
fini_nodes_loop zero t = none
fini_nodes_loop (suc fuel) t = elim (listm_get_first t.free_nodes) [
  | none ↦ some t
  | some ptr ↦ elim (release_node ptr (with_list (listm_remove ptr (t.free_nodes, t.store)) t)) [
    | none ↦ none
    | some t' ↦ fini_nodes_loop fuel t'
  ]
]

unfoldable pub tree_fini_nodes_list : ℕ → TreeHeap → Option TreeHeap
tree_fini_nodes_list fuel t = if not t.ctx then some t else fini_nodes_loop fuel t

-- The memory side of `decision_tree_init`.
unfoldable pub init_tree_ctx : ℕ → (ℕ → ℕ) → TreeHeap → Option TreeHeap
init_tree_ctx offset new_node t =
    if t.ctx then some t else tree_init_nodes_list offset new_node (record t { ctx = true })

-- The context is freed too, if it is there.
unfoldable pub decision_tree_fini : ℕ → TreeHeap → Option TreeHeap
decision_tree_fini fuel t =
    Option.map {A = TreeHeap} (λ (t' : TreeHeap). record t' { ctx = false })
      (tree_fini_nodes_list fuel t)
