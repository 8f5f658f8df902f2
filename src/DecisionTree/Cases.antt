-- ===== src/DecisionTree/Cases.antt =====
-- One rule for each branching step of the search: what holds on every branch holds of the result.
use sabo.Base.{ℕ, ◌-◌, ◌≡◌, ◌≢◌, pos, ◌≤ℤ◌, ◌<ℤ◌, arith, if◌then◌else◌, true}
use sabo.DecisionTree.{
  TreeInfo, TreeNode, TreeCtx, Pool, Search, Recur, update_node, dup_node, accept_leaf, keep_leaf,
  free_option, propagate, visit, round, alloc_node,
}

pub keep_leaf_cases :
    (P : Search → Type 0) (leaf : TreeInfo) (s : Search)
    → P s
    → P (accept_leaf leaf s)
    → P (keep_leaf leaf s)
unfolding keep_leaf
keep_leaf_cases P leaf s old new = ground arith

pub propagate_cases :
    (P : TreeNode × Pool → Type 0) (father : TreeNode) (r : TreeNode × Pool)
    → P (father, free_option r.0.best r.1)
    → (father.min <ℤ r.0.min
        → P (
          record { info = record (father.info) { min = r.0.min }; best = r.0.best },
          free_option father.best r.1,
        ))
    → P (propagate father r)
unfolding propagate
propagate_cases P father (node, p) old new = ground arith

pub visit_cases :
    (P : Search → Type 0) (ctx : TreeCtx) (recur : Recur) (child : TreeInfo) (s : Search)
    → P s
    → (ctx.num_processes - child.placed_num_processes ≡ 0
        → P (keep_leaf (record child { min = child.norme }) s))
    → (ctx.num_processes - child.placed_num_processes ≢ 0
        → P (record s {
          node = (recur child s.node s.pool).0;
          pool = (recur child s.node s.pool).1;
        }))
    → P (visit ctx recur child s)
unfolding visit
visit_cases P ctx recur child s cut leaf deeper = ground arith

pub round_cases :
    (P : Search → Type 0) (ctx : TreeCtx) (recur : Recur) (i : ℕ) (s : Search)
    → ((s' : Search) → s'.node ≡ s.node → P s')
    → ((s' : Search)
        → s'.node ≡ s.node
        → pos 0 ≤ℤ s.node.num_free_cores i
        → P (visit ctx recur (update_node (dup_node s.node.info) i) s'))
    → P (round ctx recur i s)
unfolding round
round_cases P ctx recur i s skip go = ground (
  arith,
  skip (if s.has_child then s else record s { pool = alloc_node s.pool; has_child = true }),
  go (if s.has_child then s else record s { pool = alloc_node s.pool; has_child = true }),
)
