-- ===== src/Core/Memory/Program.antt =====
-- core/sabo.c, lines 847-889: `sabo_core_init` and `sabo_core_fini` on all that the program keeps: the
-- topology and its table of the cores (common/topo.c), the nodes of the decision tree and the blocks
-- of the context.
use mathlib.Core.Option
use sabo.Base.{ℕ, Bool, true, false, Option, none, some, if◌then◌else◌}
use sabo.DecisionTree.Memory.{TreeHeap, at_start, init_tree_ctx, decision_tree_fini}
use sabo.Core.Memory.{Heap, nothing, core_init, init_context, fini_context}

-- `core_id_by_socket` says whether `sabo_topo_core_id_by_socket` and its rows are allocated, which the
-- first call of `topo_get_socket_core_id` does.
pub record Program : Type 0 where
  pub topology : Bool
  pub core_id_by_socket : Bool
  pub tree : TreeHeap
  pub context : Heap

abbrev pub not_started : Program
not_started = record {
  topology = false;
  core_id_by_socket = false;
  tree = at_start;
  context = nothing;
}

-- How a call ends: with a fatal error, with a block freed twice or a loop without end, or as it should.
pub data Outcome : Type 0 where
  fatal_error : Outcome
  failed : Outcome
  finished : Program → Outcome

-- What becomes of the topology; `none` is the fatal error. The table of the cores stays.
abbrev pub topo_fini : Bool → Option Bool
topo_fini topology = if topology then some false else none

-- `sabo_core_init`, which calls `topo_init`.
unfoldable pub sabo_core_init : ℕ → Program → Program
sabo_core_init num_sockets p = record p {
  topology = true;
  context = core_init num_sockets p.context;
}

-- `core_init_context`, which calls `decision_tree_init` the first time.
unfoldable pub core_init_context : ℕ → (ℕ → ℕ) → ℕ → Program → Option Program
core_init_context offset new_node node_comm_size p =
    if p.context.init_once then some p else elim (init_context node_comm_size p.context) [
      | none ↦ none
      | some h ↦
          Option.map {A = TreeHeap} (λ (t : TreeHeap). record p { context = h; tree = t })
            (init_tree_ctx offset new_node p.tree)
    ]

unfoldable pub sabo_core_fini : ℕ → Program → Outcome
sabo_core_fini fuel p = elim (topo_fini p.topology) [
  | none ↦ fatal_error
  | some topology ↦ elim (decision_tree_fini fuel p.tree) [
    | none ↦ failed
    | some t ↦ elim (fini_context p.context) [
      | none ↦ failed
      | some h ↦ finished (record p { topology = topology; tree = t; context = h })
    ]
  ]
]
