-- ===== src/DecisionTree/Sound.antt =====
-- The candidate that the search of common/decision_tree.c keeps.
use mathlib.Core.Path.{subst, subst₂}
use sabo.Base.{
  ℕ, zero, suc, ◌+◌, ◌<◌, ◌≤◌, ◌≡◌, refl, ap, ◌∙◌, List, [], ◌∷◌, arith, ℤ, pos, pos_part, neg_part,
  ◌≤ℤ◌, ◌<ℤ◌, ◌-◌, Option, none, some, length,
}
use sabo.DecisionTree.{
  TreeProcess, TreeInfo, TreeNode, TreeCtx, Pool, Search, update_node, dup_node, accept_leaf,
  keep_leaf, propagate, visit, round, rounds, build_tree,
}
use sabo.DecisionTree.Cases.{keep_leaf_cases, propagate_cases, visit_cases, round_cases}
use sabo.DecisionTree.Loads.{Loads, put}
use sabo.DecisionTree.Climb.{Up, Up-refl, Up-trans, visit-Up}
use sabo.DecisionTree.Reps.{Reps, Reps-Up, child-Reps}
use sabo.DecisionTree.Leaf.{Leaf, Leaf-nil, Leaf-cons, Placed, child-Placed}
use sabo.DecisionTree.Optimal.{explore, explore-Up, start}

-- With no candidate `min` is still `m`.
abbrev pub Keeps :
    TreeCtx → ℕ → List TreeProcess → Loads → List ℕ → ℤ → Option TreeInfo → ℤ → Type 0
Keeps ctx k ps l ts m none min = min ≡ m
Keeps ctx k ps l ts m (some b) min = Leaf ctx k ps l ts b × (b.min ≡ min)

module _ (ctx : TreeCtx) (info : TreeInfo) (l : Loads) (ts : List ℕ) where
  abbrev pub Sound : TreeNode → Type 0
  Sound n = Keeps ctx info.placed_num_processes info.processes l ts info.min n.best n.min

  keep_leaf-Sound :
      (leaf : TreeInfo) (st : Search)
      → Leaf ctx info.placed_num_processes info.processes l ts leaf
      → Sound st.node
      → Sound (keep_leaf leaf st).node
  unfolding accept_leaf
  keep_leaf-Sound leaf st h v = keep_leaf_cases (λ s. Sound s.node) leaf st v (h, refl)

  -- The father takes over the child's candidate with the child's `min`.
  propagate-Sound :
      (father : TreeNode) (r : TreeNode × Pool)
      → Sound father
      → Keeps ctx info.placed_num_processes info.processes l ts father.min r.0.best r.0.min
      → Sound (propagate father r).0
  propagate-Sound father r v w =
      propagate_cases (λ q. Sound q.0) father r v λ h. raised r.0.best w h
    where
      raised :
          (o : Option TreeInfo)
          → Keeps ctx info.placed_num_processes info.processes l ts father.min o r.0.min
          → father.min <ℤ r.0.min
          → Keeps ctx info.placed_num_processes info.processes l ts info.min o r.0.min
      raised none e h = absurd (omega (arith, ap pos_part e, ap neg_part e))
      raised (some b) e h = e

Leaf-Up :
    {ctx : TreeCtx} {a b c : TreeInfo} {l : Loads} {ts : List ℕ}
    → Up a b
    → Leaf ctx b.placed_num_processes b.processes l ts c
    → Leaf ctx a.placed_num_processes a.processes l ts c
Leaf-Up {ctx} {c} {l} {ts} u leaf = subst₂ (λ k ps. Leaf ctx k ps l ts c) u.placed u.processes leaf

-- A child with no process left is a leaf.
finished :
    (ctx : TreeCtx) (node child : TreeInfo) (l : Loads) (i t : ℕ) (ts : List ℕ)
    → Placed node child i
    → Reps ctx child (put l i t) ts
    → i < ctx.num_sockets
    → pos 0 ≤ℤ l.free i
    → ctx.num_processes - child.placed_num_processes ≡ 0
    → Leaf ctx node.placed_num_processes node.processes l
        (t ∷ ts)
        (record child { min = child.norme })
finished ctx node child l i t [] d r h f e =
    Leaf-cons ctx node child l i t [] (record child { min = child.norme }) d h f
      (Leaf-nil ctx (record child { min = child.norme }) (put l i t)
        (record { norme = r.norme; free = r.free; rest = r.rest; size = r.size }) refl)
finished ctx node child l i t (t' ∷ ts) d r h f e = absurd (omega (arith, r.size))

-- The child's candidate is one of the father's.
Keeps-cons :
    (ctx : TreeCtx) (info node child : TreeInfo) (l : Loads) (i t : ℕ) (ts : List ℕ)
    → Up info node
    → Placed node child i
    → i < ctx.num_sockets
    → pos 0 ≤ℤ l.free i
    → (m min : ℤ) (o : Option TreeInfo) → child.min ≡ m
    → Keeps ctx child.placed_num_processes child.processes (put l i t) ts child.min o min
    → Keeps ctx info.placed_num_processes info.processes l (t ∷ ts) m o min
Keeps-cons ctx info node child l i t ts u d h f m min none e k = k ∙ e
Keeps-cons ctx info node child l i t ts u d h f m min (some b) e k =
    (Leaf-Up u (Leaf-cons ctx node child l i t ts b d h f k.0), k.1)

module _ (ctx : TreeCtx) (fuel : ℕ) (info : TreeInfo) (l : Loads) (t : ℕ) (ts : List ℕ)
    (r : Reps ctx info l (t ∷ ts))
    (deeper : (child : TreeInfo) (p : Pool) (i : ℕ)
      → 0 < length ts
      → Reps ctx child (put l i t) ts
      → Sound ctx child (put l i t) ts (build_tree ctx fuel child p).0) where
  -- What holds of the father throughout the loop.
  abbrev Looped : Search → Type 0
  Looped st = Up info st.node.info × Sound ctx info l (t ∷ ts) st.node

  visit-Looped :
      (i : ℕ) (st st' : Search)
      → i < ctx.num_sockets
      → pos 0 ≤ℤ l.free i
      → Looped st
      → st'.node ≡ st.node
      → Looped (visit ctx (explore ctx fuel) (update_node (dup_node st.node.info) i) st')
  visit-Looped i st st' h f v e =
      let child = update_node (dup_node st.node.info) i in
      let r' = Reps-Up v.0 r in
      let rc = child-Reps ctx st.node.info l i t ts r' in
      let d = child-Placed ctx st.node.info l i t ts r' in
      let w : Sound ctx info l (t ∷ ts) st'.node = rw e v.1 in
      (
        Up-trans v.0 (
            subst (λ n. Up n.info (visit ctx (explore ctx fuel) child st').node.info) e
              (visit-Up ctx (explore ctx fuel) (explore-Up ctx fuel) child st')),
        visit_cases (λ s. Sound ctx info l (t ∷ ts) s.node) ctx (explore ctx fuel) child st' w
            (λ z.
              keep_leaf-Sound ctx info l (t ∷ ts) (record child { min = child.norme }) st'
                (Leaf-Up v.0 (finished ctx st.node.info child l i t ts d rc h f z)) w)
            (λ z.
              propagate-Sound ctx info l (t ∷ ts) st'.node (build_tree ctx fuel child st'.pool) w (
                Keeps-cons ctx info st.node.info child l i t ts v.0 d h f _ _ _ (rw e d.min)
                  (deeper child st'.pool i (omega (arith, rc.size)) rc))),
      )

  round-Looped :
      (i : ℕ) (st : Search)
      → i < ctx.num_sockets
      → Looped st
      → Looped (round ctx (explore ctx fuel) i st)
  round-Looped i st h v =
      round_cases Looped ctx (explore ctx fuel) i st (λ st' e. rw e v)
        (λ st' e f. visit-Looped i st st' h (rw (v.0.free, r.free) at f) v e)

  rounds-Looped :
      (n i : ℕ) (st : Search)
      → i + n ≤ ctx.num_sockets
      → Looped st
      → Looped (rounds ctx (explore ctx fuel) n i st)
  unfolding rounds
  rounds-Looped zero i st h v = v
  rounds-Looped (suc n) i st h v =
      rounds-Looped n (i + 1) (round ctx (explore ctx fuel) i st) (omega arith)
        (round-Looped i st (omega arith) v)

-- With enough fuel.
pub build_tree-Sound :
    (ctx : TreeCtx) (fuel : ℕ) (info : TreeInfo) (pool : Pool) (l : Loads) (ts : List ℕ)
    → 0 < length ts
    → length ts ≤ fuel
    → Reps ctx info l ts
    → Sound ctx info l ts (build_tree ctx fuel info pool).0
unfolding build_tree
build_tree-Sound ctx fuel info pool l [] p q r = absurd (omega arith)
build_tree-Sound ctx zero info pool l (t ∷ ts) p q r = absurd (omega arith)
build_tree-Sound ctx (suc fuel) info pool l (t ∷ ts) p q r =
    (rounds-Looped ctx fuel info l t ts r
      (λ child pool' i p' r'.
        build_tree-Sound ctx fuel child pool' (put l i t) ts p' (omega arith) r')
      ctx.num_sockets 0 (start info pool) (omega arith) (Up-refl info, refl)).1
