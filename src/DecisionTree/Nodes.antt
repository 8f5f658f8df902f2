-- ===== src/DecisionTree/Nodes.antt =====
-- The pool of nodes of common/decision_tree.c, from the start of the program to its end.
use sabo.Base.{
  ℕ, zero, suc, ◌+◌, ◌≤◌, ◌≡◌, refl, List, arith, Option, none, some, Option-cases, inl, inr, Bool,
  true, false, Bool-cases, pos, ltb_ℤ, if◌then◌else◌,
}
use sabo.Process.{CoreProcess}
use sabo.DecisionTree.{
  TreeProcess, TreeInfo, TreeNode, TreeCtx, Pool, Search, Recur, alloc_node, free_node, free_option,
  init_nodes_list, update_node, dup_node, accept_leaf, propagate, visit, round, rounds, build_tree,
  root_info, compute_placement,
}
use sabo.DecisionTree.Cases.{keep_leaf_cases, propagate_cases, visit_cases}
use sabo.DecisionTree.Optimal.{explore, start}

-- `u` nodes are in use; the free list holds the others, at most 64, and its counter is right.
pub record Uses (u : ℕ) (p : Pool) : Type 0 where
  pub counted : p.num_free_nodes ≡ p.free_nodes
  pub bounded : p.free_nodes ≤ 64
  pub total : p.allocated ≡ p.free_nodes + u

alloc_node-Uses : (u : ℕ) (p : Pool) → Uses u p → Uses (u + 1) (alloc_node p)
unfolding alloc_node
alloc_node-Uses u p v = ground arith

free_node-Uses : (u : ℕ) (p : Pool) → Uses (u + 1) p → Uses u (free_node p)
unfolding free_node
free_node-Uses u p v = ground arith

Uses-eq : {u v : ℕ} {p : Pool} → u ≡ v → Uses u p → Uses v p
Uses-eq e h = record { counted = h.counted; bounded = h.bounded; total = omega (arith, h.total) }

abbrev held : Option TreeInfo → ℕ
held none = 0
held (some _) = 1

abbrev child : Bool → ℕ
child true = 1
child false = 0

free_option-Uses :
    (u : ℕ) (o : Option TreeInfo) (p : Pool) → Uses (u + held o) p → Uses u (free_option o p)
unfolding free_option
free_option-Uses u none p v = record {
  counted = v.counted;
  bounded = v.bounded;
  total = omega arith;
}
free_option-Uses u (some b) p v = free_node-Uses u p v

propagate-Uses :
    (u : ℕ) (father : TreeNode) (r : TreeNode × Pool)
    → Uses (u + held father.best + held r.0.best) r.1
    → Uses (u + held (propagate father r).0.best) (propagate father r).1
propagate-Uses u father r v =
    propagate_cases (λ q. Uses (u + held q.0.best) q.1) father r
      (free_option-Uses (u + held father.best) r.0.best r.1 v)
      (λ h.
        free_option-Uses (u + held r.0.best) father.best r.1
          (record { counted = v.counted; bounded = v.bounded; total = omega (arith, v.total) }))

module _ (ctx : TreeCtx) (recur : Recur) (u : ℕ)
    (deeper : (v : ℕ) (c : TreeInfo) (father : TreeNode) (p : Pool)
      → Uses (v + held father.best) p
      → Uses (v + held (recur c father p).0.best) (recur c father p).1) where
  abbrev Balanced : Search → Type 0
  Balanced st = Uses (u + held st.node.best + child st.has_child) st.pool

  visit-Balanced :
      (c : TreeInfo) (st : Search)
      → st.has_child ≡ true
      → Balanced st
      → Balanced (visit ctx recur c st)
  unfolding accept_leaf
  visit-Balanced c st h v =
      visit_cases Balanced ctx recur c st v
        (λ z. keep_leaf_cases Balanced (record c { min = c.norme }) st v (ground arith))
        (λ z.
          Uses-eq (omega arith)
            (deeper (u + child st.has_child) c st.node st.pool (Uses-eq (omega arith) v)))

  -- The state of a round that has its child node.
  abbrev prepared : Search → Search
  prepared st =
      if st.has_child then st else record st { pool = alloc_node st.pool; has_child = true }

  prepared-Balanced :
      (st : Search) → Balanced st → Balanced (prepared st) × ((prepared st).has_child ≡ true)
  prepared-Balanced st v = elim (Bool-cases st.has_child) [
    | inl e ↦ rw e (rw e at v, refl)
    | inr e ↦ rw e (
      Uses-eq (ground arith)
          (alloc_node-Uses (u + held st.node.best + child st.has_child) st.pool v),
      refl,
    )
  ]

  round-Balanced : (i : ℕ) (st : Search) → Balanced st → Balanced (round ctx recur i st)
  unfolding round
  round-Balanced i st v =
      let (w, h) = prepared-Balanced st v in
      elim (Bool-cases (ltb_ℤ (st.node.num_free_cores i) (pos 0))) [
        | inl e ↦ rw (e, round) w
        | inr e ↦
            rw (e, round) (visit-Balanced (update_node (dup_node st.node.info) i) (prepared st) h w)
      ]

  rounds-Balanced : (n i : ℕ) (st : Search) → Balanced st → Balanced (rounds ctx recur n i st)
  unfolding rounds
  rounds-Balanced zero i st v = v
  rounds-Balanced (suc n) i st v =
      rounds-Balanced n (i + 1) (round ctx recur i st) (round-Balanced i st v)

release :
    (u : ℕ) (b : Bool) (p : Pool) → Uses (u + child b) p → Uses u (if b then free_node p else p)
release u true p v = free_node-Uses u p v
release u false p v = Uses-eq (omega arith) v

build_tree-Uses :
    (ctx : TreeCtx) (fuel u : ℕ) (info : TreeInfo) (pool : Pool)
    → Uses u pool
    → Uses (u + held (build_tree ctx fuel info pool).0.best) (build_tree ctx fuel info pool).1
unfolding build_tree
build_tree-Uses ctx zero u info pool v = Uses-eq (omega arith) v
build_tree-Uses ctx (suc fuel) u info pool v =
    let st = rounds ctx (explore ctx fuel) ctx.num_sockets 0 (start info pool) in
    release (u + held st.node.best) st.has_child st.pool (
      rounds-Balanced ctx (explore ctx fuel) u
        (λ w c father p h.
          propagate-Uses w father (build_tree ctx fuel c p)
            (build_tree-Uses ctx fuel (w + held father.best) c p h))
        ctx.num_sockets 0 (start info pool) (Uses-eq (omega arith) (alloc_node-Uses u pool v)))

-- A successful run gives back every node that it took from the pool or allocated, and keeps the
-- free list at 64 nodes at most and its counter right.
pub compute_placement-Uses :
    (sort : List TreeProcess → List TreeProcess) (ctx : TreeCtx) (u : ℕ) (pool pool' : Pool)
    (ps result : List CoreProcess)
    → Uses u pool
    → compute_placement sort ctx pool ps ≡ some (result, pool')
    → Uses u pool'
unfolding compute_placement
compute_placement-Uses sort ctx u pool pool' ps result v h =
    let t = build_tree ctx ctx.num_processes (root_info sort ctx ps) (alloc_node pool) in
    let w : Uses (u + 1 + held t.0.best) t.1 =
      build_tree-Uses ctx ctx.num_processes (u + 1) (root_info sort ctx ps) (alloc_node pool)
        (alloc_node-Uses u pool v) in
    elim (Option-cases t.0.best) [
      | inl e ↦ absurd (ground arith)
      | inr (b, e) ↦
          let e' : free_node (free_node t.1) ≡ pool' = ground arith in
          rw (← e') (free_node-Uses u (free_node t.1) (free_node-Uses (u + 1) t.1 (rw e at w)))
    ]

-- The pool starts with 64 free nodes and none in use.
pub init_nodes_list-Uses : Uses 0 init_nodes_list × (init_nodes_list.free_nodes ≡ 64)
unfolding init_nodes_list
init_nodes_list-Uses = (omega arith, refl)
