-- ===== src/DecisionTree/Optimal.antt =====
-- The `min` that the search of common/decision_tree.c ends with, and admitted placements.
use sabo.Base.{
  ≤ℤ_trans, ℕ, zero, suc, ◌+◌, ◌<◌, ◌≤◌, ◌≡◌, refl, inl, inr, true, List, [], ◌∷◌, arith, ◌==◌,
  if◌then◌else◌, ℤ, pos, ◌≤ℤ◌, none, Bool-cases, ==_iff, length,
}
use sabo.DecisionTree.{
  TreeInfo, TreeNode, TreeCtx, Pool, Search, Recur, keep_leaf, propagate, visit, round, rounds,
  build_tree, update_node, dup_node, alloc_node,
}
use sabo.DecisionTree.Loads.{Loads, put, final, Admits, InRange, norme-final, put-InRange}
use sabo.DecisionTree.Climb.{Up, propagate-Up, propagate-min, round-Up, rounds-Up}
use sabo.DecisionTree.Reps.{Reps, Reps-Up, child-Reps}

abbrev pub last : ℕ → List ℕ → ℕ
last s [] = s
last s (r ∷ rs) = last r rs

module _ (ctx : TreeCtx) (recur : Recur) where
  pub round-visit :
      (i : ℕ) (st : Search)
      → pos 0 ≤ℤ st.node.num_free_cores i
      → (st' : Search) × (st'.node ≡ st.node)
        × (round ctx recur i st ≡ visit ctx recur (update_node (dup_node st.node.info) i) st')
  unfolding round
  round-visit i st h = (
    if st.has_child then st else record st { pool = alloc_node st.pool; has_child = true },
    ground arith,
    ground arith,
  )

  -- A child that is cut off, or explored.
  visit-reach :
      (child : TreeInfo) (st : Search) (l : Loads) (t : ℕ) (ts ss : List ℕ)
      → Reps ctx child l (t ∷ ts)
      → Admits ctx.num_sockets l (t ∷ ts) ss
      → InRange l (t ∷ ts)
      → (final l (t ∷ ts) ss).norme ≤ℤ (recur child st.node st.pool).0.min
      → (final l (t ∷ ts) ss).norme ≤ℤ (visit ctx recur child st).node.min
  unfolding visit
  visit-reach child st l t ts ss r a w h =
      ground (arith, norme-final ctx.num_sockets l (t ∷ ts) ss a w)

  -- The first complete placement of a father is taken, unless it is worse than `min`.
  visit-leaf :
      (child : TreeInfo) (st : Search) (l : Loads)
      → Reps ctx child l []
      → st.node.best ≡ none
      → l.norme ≤ℤ (visit ctx recur child st).node.min
  unfolding visit keep_leaf
  visit-leaf child st l r h = ground arith

module _ (ctx : TreeCtx) (recur : Recur) where
  round-leaf :
      (i t : ℕ) (st : Search) (l : Loads)
      → Reps ctx st.node.info l (t ∷ [])
      → pos 0 ≤ℤ l.free i
      → st.node.best ≡ none
      → (put l i t).norme ≤ℤ (round ctx recur i st).node.min
  round-leaf i t st l r h e =
      let (st', same, eq) = round-visit ctx recur i st (rw r.free h) in
      rw eq (
        visit-leaf ctx recur (update_node (dup_node st.node.info) i) st' (put l i t)
          (child-Reps ctx st.node.info l i t [] r) (rw same e))

  round-inner :
      (i t t' : ℕ) (ts ss : List ℕ) (st : Search) (l : Loads)
      → Reps ctx st.node.info l (t ∷ t' ∷ ts)
      → Admits ctx.num_sockets l (t ∷ t' ∷ ts) (i ∷ ss)
      → InRange l (t ∷ t' ∷ ts)
      → ((child : TreeInfo) (father : TreeNode) (p : Pool)
          → Reps ctx child (put l i t) (t' ∷ ts)
          → (final (put l i t) (t' ∷ ts) ss).norme ≤ℤ (recur child father p).0.min)
      → (final (put l i t) (t' ∷ ts) ss).norme ≤ℤ (round ctx recur i st).node.min
  round-inner i t t' ts ss st l r a w hit =
      let (st', same, eq) = round-visit ctx recur i st (rw r.free a.1) in
      let child = child-Reps ctx st.node.info l i t (t' ∷ ts) r in
      rw eq (
        visit-reach ctx recur (update_node (dup_node st.node.info) i) st' (put l i t) t' ts ss child
          a.2 (put-InRange l i t (t' ∷ ts) a.1 w) (hit _ st'.node st'.pool child))

module _ (ctx : TreeCtx) (recur : Recur) (target : ℤ)
    (up : (child : TreeInfo) (father : TreeNode) (p : Pool)
      → Up father.info (recur child father p).0.info) where
  abbrev Reached : Search → Type 0
  Reached st = target ≤ℤ st.node.min

  rounds-stay : (n i : ℕ) (st : Search) → Reached st → Reached (rounds ctx recur n i st)
  rounds-stay n i st h = omega (arith, (rounds-Up ctx recur up n i st).min)

  rounds-first :
      (n : ℕ) (st : Search)
      → 0 < n
      → Reached (round ctx recur 0 st)
      → Reached (rounds ctx recur n 0 st)
  unfolding rounds
  rounds-first zero st p h = absurd (omega arith)
  rounds-first (suc n) st p h = rounds-stay n (0 + 1) (round ctx recur 0 st) h

  rounds-reach :
      (l : Loads) (ts : List ℕ) (s n i : ℕ) (st : Search)
      → ((st' : Search) → Reps ctx st'.node.info l ts → Reached (round ctx recur s st'))
      → Reps ctx st.node.info l ts
      → i ≤ s
      → s < i + n
      → Reached (rounds ctx recur n i st)
  unfolding rounds
  rounds-reach l ts s zero i st hit r p q = absurd (omega arith)
  rounds-reach l ts s (suc n) i st hit r p q = elim (Bool-cases (s == i)) [
    | inl e ↦ rounds-stay n (i + 1) (round ctx recur i st) (rw ((==_iff s i).0 e) at (hit st r))
    | inr e ↦
        rounds-reach l ts s n (i + 1) (round ctx recur i st) hit
          (Reps-Up (round-Up ctx recur up i st) r) (ground arith) (omega arith)
  ]

abbrev pub explore : TreeCtx → ℕ → Recur
explore ctx fuel child father p = propagate father (build_tree ctx fuel child p)

pub explore-Up :
    (ctx : TreeCtx) (fuel : ℕ) (child : TreeInfo) (father : TreeNode) (p : Pool)
    → Up father.info (explore ctx fuel child father p).0.info
explore-Up ctx fuel child father p = propagate-Up father (build_tree ctx fuel child p)

abbrev pub start : TreeInfo → Pool → Search
start info pool = record {
  node = record { info = info; best = none };
  pool = alloc_node pool;
  has_child = true;
}

-- With enough fuel.
pub build_tree-reach :
    (ctx : TreeCtx) (fuel : ℕ) (info : TreeInfo) (pool : Pool) (l : Loads) (t : ℕ) (ts : List ℕ)
    (s : ℕ) (ss : List ℕ)
    → length ts < fuel
    → Reps ctx info l (t ∷ ts)
    → Admits ctx.num_sockets l (t ∷ ts) (s ∷ ss)
    → InRange l (t ∷ ts)
    → last s ss ≡ 0
    → (final l (t ∷ ts) (s ∷ ss)).norme ≤ℤ (build_tree ctx fuel info pool).0.min
unfolding build_tree final
build_tree-reach ctx zero info pool l t ts s ss f r a w e = absurd (omega arith)
build_tree-reach ctx (suc fuel) info pool l t [] s [] f r a w e =
    rounds-first ctx (explore ctx fuel) (put l s t).norme (explore-Up ctx fuel) ctx.num_sockets
      (start info pool) (omega arith)
      (rw e (round-leaf ctx (explore ctx fuel) 0 t (start info pool) l r (rw e at a.1) refl))
build_tree-reach ctx (suc fuel) info pool l t [] s (s' ∷ ss) f r a w e = absurd a.2
build_tree-reach ctx (suc fuel) info pool l t (t' ∷ ts) s [] f r a w e = absurd a.2
build_tree-reach ctx (suc fuel) info pool l t (t' ∷ ts) s (s' ∷ ss) f r a w e =
    rounds-reach ctx (explore ctx fuel) (final l (t ∷ t' ∷ ts) (s ∷ s' ∷ ss)).norme
      (explore-Up ctx fuel) l (t ∷ t' ∷ ts) s ctx.num_sockets 0 (start info pool)
      (λ st' r'.
        round-inner ctx (explore ctx fuel) s t t' ts (s' ∷ ss) st' l r' a w λ child father p r''.
          ≤ℤ_trans (final (put l s t) (t' ∷ ts) (s' ∷ ss)).norme (build_tree ctx fuel child p).0.min
            (explore ctx fuel child father p).0.min
            (build_tree-reach ctx fuel child p (put l s t) t' ts s' ss (omega arith) r'' a.2
              (put-InRange l s t (t' ∷ ts) a.1 w) e)
            (propagate-min father (build_tree ctx fuel child p)))
      r (omega arith) (omega (arith, a.0))
