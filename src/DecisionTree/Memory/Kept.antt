-- ===== src/DecisionTree/Memory/Kept.antt =====
-- common/decision_tree.c: the free list in memory holds what the counts of the pool say.
use sabo.Base.{
  ℕ, suc, ◌+◌, ◌-◌, ◌≤◌, ◌≡◌, refl, ap, ◌∙◌, some, List, [], ◌∷◌, ◌++◌, length, ltb, arith,
  Bool-cases, inl, inr,
}
use sabo.LinkedList.{listm_remove, listm_add_first}
use sabo.LinkedList.Seg.{NotIn}
use sabo.DecisionTree.{Pool, alloc_node, free_node, node_threshold}
use sabo.DecisionTree.Memory.Copies.{copies-NotIn, copies_self}
use sabo.DecisionTree.Memory.Listed.{
  Listed, get_first-some, get_first-none, made-Listed, used-all, removed-Listed, added-Listed,
  released-Listed, set_num-Listed,
}
use sabo.DecisionTree.Memory.{
  no_blocks, TreeHeap, with_list, xzalloc_node, tree_init_node, tree_alloc_node, tree_free_node,
}

-- The free list has at most 64 nodes too, and its counter is right.
pub record Held (t : TreeHeap) (objects : List ℕ) (in_use : List ℕ) : Type 0 where
  pub listed : Listed t objects in_use
  pub counted : t.num_free_nodes ≡ length objects
  pub bounded : length objects ≤ 64

-- The counts of the pool.
abbrev pub pool_of : List ℕ → List ℕ → Pool
pool_of objects in_use = record {
  free_nodes = length objects;
  num_free_nodes = length objects;
  allocated = length objects + length in_use;
}

pub record Implements (t : TreeHeap) (p : Pool) (in_use : List ℕ) : Type 0 where
  pub objects : List ℕ
  pub held : Held t objects in_use
  pub pool : p ≡ pool_of objects in_use

alloc-at :
    (t : TreeHeap) (p : Pool) (in_use : List ℕ) (new_node : ℕ) (objects : List ℕ)
    → Held t objects in_use
    → p ≡ pool_of objects in_use
    → t.blocks new_node ≡ no_blocks
    → (node : ℕ) × (t' : TreeHeap) × (tree_alloc_node new_node t ≡ some (node, t'))
      × NotIn node in_use
      × Implements t' (alloc_node p) (node ∷ in_use)
unfolding tree_alloc_node alloc_node tree_init_node xzalloc_node
alloc-at t p in_use new_node [] h q e =
    let made = made-Listed t new_node [] in_use h.listed e in
    (
      new_node,
      tree_init_node new_node (xzalloc_node new_node t),
      rw (tree_alloc_node, get_first-none t.free_nodes t.store h.listed.list) refl,
      copies-NotIn new_node in_use
          (let k = made.once new_node in omega (arith, k, copies_self new_node in_use)),
      record {
        objects = [];
        held = record { listed = made; counted = h.counted; bounded = omega arith };
        pool = ap alloc_node q ∙ ground arith;
      },
    )
alloc-at t p in_use new_node (n ∷ rest) h q e =
    let first = get_first-some t.free_nodes t.store n rest h.listed.list in
    let removed = removed-Listed t n rest in_use h.listed in
    let alive = used-all t n (n ∷ rest) in_use h.listed (omega (arith, copies_self n rest)) in
    let t1 = with_list (listm_remove n (t.free_nodes, t.store)) t in
    (
      n,
      record t1 { num_free_nodes = t.num_free_nodes - 1 },
      rw (tree_alloc_node, first, ap (λ b. b.processes) alive) refl,
      copies-NotIn n in_use (let k = removed.once n in omega (arith, k, copies_self n in_use)),
      record {
        objects = rest;
        held = record {
          listed = set_num-Listed t1 (t.num_free_nodes - 1) rest (n ∷ in_use) removed;
          counted = omega (arith, h.counted);
          bounded = omega (arith, h.bounded);
        };
        pool = ap alloc_node q ∙ ground arith;
      },
    )

-- A call of `tree_alloc_node` on a tree that implements the pool `p`, with an address of which
-- nothing is allocated at hand, gives a node that was not in use and implements `alloc_node p`.
pub tree_alloc_node-Implements :
    (t : TreeHeap) (p : Pool) (in_use : List ℕ) (new_node : ℕ)
    → Implements t p in_use
    → t.blocks new_node ≡ no_blocks
    → (node : ℕ) × (t' : TreeHeap) × (tree_alloc_node new_node t ≡ some (node, t'))
      × NotIn node in_use
      × Implements t' (alloc_node p) (node ∷ in_use)
tree_alloc_node-Implements t p in_use new_node i e =
    alloc-at t p in_use new_node i.objects i.held i.pool e

length-middle : (n : ℕ) (a b : List ℕ) → length (a ++ n ∷ b) ≡ suc (length (a ++ b))
length-middle n [] b = refl
length-middle n (x ∷ a) b = ap suc (length-middle n a b)

-- The same for a node in use that is given back with `tree_free_node`, and the pool after `free_node`:
-- it goes into the free list, or its blocks are freed where the list is full.
pub tree_free_node-Implements :
    (t : TreeHeap) (p : Pool) (a b : List ℕ) (node : ℕ)
    → Implements t p (a ++ node ∷ b)
    → (t' : TreeHeap) × (tree_free_node (some node) t ≡ some t')
      × Implements t' (free_node p) (a ++ b)
unfolding tree_free_node free_node
tree_free_node-Implements t p a b node i =
    let h = i.held in
    let size = length-middle node a b in
    elim (Bool-cases (ltb t.num_free_nodes node_threshold)) [
      | inl c ↦
          let t1 = with_list (listm_add_first node (t.free_nodes, t.store)) t in
          (
            record t1 { num_free_nodes = t.num_free_nodes + 1 },
            rw (tree_free_node, c) refl,
            record {
              objects = node ∷ i.objects;
              held = record {
                listed =
                    set_num-Listed t1 (t.num_free_nodes + 1) (node ∷ i.objects) (a ++ b)
                      (added-Listed t node i.objects a b h.listed);
                counted = omega (arith, h.counted);
                bounded = ground (arith, c, h.counted);
              };
              pool = ap free_node i.pool ∙ ground (arith, c, h.counted, size);
            },
          )
      | inr c ↦
          let (t', e, ctx, num, listed) = released-Listed t node i.objects a b h.listed in
          (
            t',
            rw (tree_free_node, c) e,
            record {
              objects = i.objects;
              held = record { listed = listed; counted = num ∙ h.counted; bounded = h.bounded };
              pool = ap free_node i.pool ∙ ground (arith, c, h.counted, size);
            },
          )
    ]
