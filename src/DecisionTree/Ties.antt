-- ===== src/DecisionTree/Ties.antt =====
-- tree_build_tree_recursive (common/decision_tree.c): complete placements with one father.
use sabo.Base.{
  ℕ, zero, suc, ◌+◌, ◌<◌, ◌≤◌, ◌≡◌, refl, ◌∙◌, List, [], ◌∷◌, arith, some, length, get_elem?,
}
use sabo.DecisionTree.{
  TreeInfo, TreeCtx, Search, Recur, update_node, dup_node, place, accept_leaf, keep_leaf, visit,
  round, rounds,
}
use sabo.DecisionTree.Cases.{round_cases}

get_elem?-some {ℓ} :
    {A : Type ℓ} (xs : List A) (i : ℕ) → i < length xs → (a : A) × (get_elem? xs i ≡ some a)
get_elem?-some [] i h = absurd (omega arith)
get_elem?-some (x ∷ xs) zero h = (x, refl)
get_elem?-some (x ∷ xs) (suc i) h = get_elem?-some xs i (omega arith)

child_changes :
    (node : TreeInfo) (i : ℕ)
    → node.placed_num_processes < length node.processes
    → ((update_node (dup_node node) i).placed_num_processes ≡ node.placed_num_processes + 1)
      × (node.num_socket_changes ≤ (update_node (dup_node node) i).num_socket_changes)
unfolding update_node dup_node place
child_changes node i h =
    let (p, e) = get_elem?-some node.processes node.placed_num_processes h in
    rw (e, update_node) (refl, ground arith)

-- The father of leaves only, with a candidate that has no more changes than the father counts.
record Settled (ctx : TreeCtx) (b : TreeInfo) (st : Search) : Type 0 where
  last : st.node.placed_num_processes + 1 ≡ ctx.num_processes
  bound : st.node.placed_num_processes < length st.node.processes
  best : st.node.best ≡ some b
  changes : b.num_socket_changes ≤ st.node.num_socket_changes

module _ (ctx : TreeCtx) (recur : Recur) (b : TreeInfo) where
  visit-Settled :
      (i : ℕ) (st st' : Search)
      → Settled ctx b st
      → st'.node ≡ st.node
      → (visit ctx recur (update_node (dup_node st.node.info) i) st').node ≡ st.node
  unfolding visit keep_leaf
  visit-Settled i st st' v e = ground (arith, child_changes st.node.info i v.bound)

  round-Settled : (i : ℕ) (st : Search) → Settled ctx b st → (round ctx recur i st).node ≡ st.node
  round-Settled i st v =
      round_cases (λ s. s.node ≡ st.node) ctx recur i st (λ st' e. e)
        (λ st' e f. visit-Settled i st st' v e)

  rounds-Settled :
      (n i : ℕ) (st : Search) → Settled ctx b st → (rounds ctx recur n i st).node ≡ st.node
  unfolding rounds
  rounds-Settled zero i st v = refl
  rounds-Settled (suc n) i st v =
      let e = round-Settled i st v in
      rounds-Settled n (i + 1) (round ctx recur i st) (record {
        last = rw e v.last;
        bound = rw e v.bound;
        best = rw e v.best;
        changes = rw e v.changes;
      })
      ∙ e

-- Under a father with one process left to place, once a leaf is accepted as candidate the rounds
-- for the other sockets change nothing: a leaf that needs fewer socket changes does not replace it.
pub candidate_final :
    (ctx : TreeCtx) (recur : Recur) (leaf : TreeInfo) (st : Search) (n i : ℕ)
    → st.node.placed_num_processes + 1 ≡ ctx.num_processes
    → st.node.placed_num_processes < length st.node.processes
    → (rounds ctx recur n i (accept_leaf leaf st)).node ≡ (accept_leaf leaf st).node
unfolding accept_leaf
candidate_final ctx recur leaf st n i h k =
    rounds-Settled ctx recur leaf n i (accept_leaf leaf st)
      (record { last = h; bound = k; best = refl; changes = omega arith })
