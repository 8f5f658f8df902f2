-- ===== src/DecisionTree/Climb.antt =====
-- The loop over the sockets in common/decision_tree.c: `min` and the rest of the father.
use sabo.Base.{ℕ, zero, suc, ◌+◌, ◌≡◌, refl, true, arith, ◌≤ℤ◌}
use sabo.DecisionTree.{
  TreeInfo, TreeNode, TreeCtx, Pool, Search, Recur, keep_leaf, propagate, visit, round, rounds,
  update_node, dup_node, alloc_node,
}

-- `b` is `a` but for a `min` that is no lower, and for its count of socket changes.
pub record Up (a b : TreeInfo) : Type 0 where
  pub norme : b.norme ≡ a.norme
  pub placed : b.placed_num_processes ≡ a.placed_num_processes
  pub processes : b.processes ≡ a.processes
  pub free : b.num_free_cores ≡ a.num_free_cores
  pub min : a.min ≤ℤ b.min

pub Up-refl : (a : TreeInfo) → Up a a
Up-refl a = record { norme = refl; placed = refl; processes = refl; free = refl; min = omega arith }

pub Up-trans : {a b c : TreeInfo} → Up a b → Up b c → Up a c
Up-trans u v = record {
  norme = cc;
  placed = cc;
  processes = cc;
  free = cc;
  min = omega (arith, u.min, v.min);
}

pub propagate-Up :
    (father : TreeNode) (r : TreeNode × Pool) → Up father.info (propagate father r).0.info
unfolding propagate
propagate-Up father (node, p) = ground arith

pub propagate-min :
    (father : TreeNode) (r : TreeNode × Pool) → r.0.min ≤ℤ (propagate father r).0.min
unfolding propagate
propagate-min father (node, p) = ground arith

keep_leaf-Up :
    (leaf : TreeInfo) (s : Search)
    → s.node.min ≤ℤ leaf.min
    → Up s.node.info (keep_leaf leaf s).node.info
unfolding keep_leaf
keep_leaf-Up leaf s h = ground arith

module _ (ctx : TreeCtx) (recur : Recur)
    (up : (child : TreeInfo) (father : TreeNode) (p : Pool)
      → Up father.info (recur child father p).0.info) where
  pub visit-Up :
      (child : TreeInfo) (s : Search) → Up s.node.info (visit ctx recur child s).node.info
  unfolding visit
  visit-Up child s =
      ground (arith, up child s.node s.pool, keep_leaf-Up (record child { min = child.norme }) s)

  pub round-Up : (i : ℕ) (s : Search) → Up s.node.info (round ctx recur i s).node.info
  unfolding round
  round-Up i s = ground (
    arith,
    visit-Up (update_node (dup_node s.node.info) i) s,
    visit-Up (update_node (dup_node s.node.info) i)
        (record s { pool = alloc_node s.pool; has_child = true }),
  )

  pub rounds-Up : (n i : ℕ) (s : Search) → Up s.node.info (rounds ctx recur n i s).node.info
  unfolding rounds
  rounds-Up zero i s = Up-refl s.node.info
  rounds-Up (suc n) i s = Up-trans (round-Up i s) (rounds-Up n (i + 1) (round ctx recur i s))
