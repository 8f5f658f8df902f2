-- ===== src/DecisionTree/Memory/Lifetime.antt =====
-- common/decision_tree.c: the memory of the tree from `decision_tree_init` to `decision_tree_fini`.
use sabo.Base.{
  ℕ, zero, suc, ◌+◌, ◌≤◌, ◌<◌, ◌≡◌, refl, sym, ap, ◌∙◌, true, false, none, some, List, [], ◌∷◌,
  length, ltb, arith,
}
use sabo.LinkedList.{listm_head_init, listm_get_first, listm_remove, listm_add_first}
use sabo.LinkedList.Objects.{list_head_init-Represents}
use sabo.DecisionTree.{Pool, node_threshold, init_nodes_list, fill_pool, fini_loop, fini_nodes_list}
use sabo.DecisionTree.Memory.{
  no_blocks, TreeHeap, with_list, xzalloc_node, tree_init_node, tree_free_node, init_nodes_loop,
  tree_init_nodes_list, fini_nodes_loop, tree_fini_nodes_list, init_tree_ctx, decision_tree_fini,
}
use sabo.DecisionTree.Memory.Copies.{copies}
use sabo.DecisionTree.Memory.Listed.{
  owned, Listed, get_first-some, get_first-none, made-Listed, made_other, removed-Listed,
  added-Listed, released-Listed, set_num-Listed,
}
use sabo.DecisionTree.Memory.Kept.{Held, Implements}

-- The free list after `n` nodes more.
record Filled (n : ℕ) (t : TreeHeap) (objects : List ℕ) (t' : TreeHeap) : Type 0 where
  objects' : List ℕ
  held : Held t' objects' []
  size : length objects' ≡ n + length objects
  ctx : t'.ctx ≡ t.ctx

init_nodes_loop-Filled :
    (new_node : ℕ → ℕ) (i n : ℕ) (t : TreeHeap) (objects : List ℕ)
    → ((j k : ℕ) → new_node j ≡ new_node k → j ≡ k)
    → ((j : ℕ) → i ≤ j → t.blocks (new_node j) ≡ no_blocks)
    → n + length objects ≤ 64
    → Held t objects []
    → (t' : TreeHeap) × (init_nodes_loop new_node i n t ≡ some t') × Filled n t objects t'
unfolding init_nodes_loop tree_free_node tree_init_node xzalloc_node
init_nodes_loop-Filled new_node i zero t objects distinct fresh room h =
    (t, refl, record { objects' = objects; held = h; size = omega arith; ctx = refl })
init_nodes_loop-Filled new_node i (suc n) t objects distinct fresh room h =
    let x = new_node i in
    let t1 = tree_init_node x (xzalloc_node x t) in
    let t2 = with_list (listm_add_first x (t1.free_nodes, t1.store)) t1 in
    let space : ltb t.num_free_nodes node_threshold ≡ true = ground (arith, h.counted, room) in
    let made = made-Listed t x objects [] h.listed (fresh i (omega arith)) in
    let h2 : Held (record t2 { num_free_nodes = t.num_free_nodes + 1 }) (x ∷ objects) [] = record {
      listed =
          set_num-Listed t2 (t.num_free_nodes + 1) (x ∷ objects) []
            (added-Listed t1 x objects [] [] made);
      counted = omega (arith, h.counted);
      bounded = omega (arith, room);
    } in
    let (t', e, f) =
      init_nodes_loop-Filled new_node (i + 1) n
        (record t2 { num_free_nodes = t.num_free_nodes + 1 }) (x ∷ objects) distinct
        (λ j k.
          made_other t x (new_node j) (λ s. let same = distinct i j s in omega (arith, same, k))
          ∙ fresh j (omega (arith, k)))
        (omega (arith, room)) h2 in
    (
      t',
      rw (init_nodes_loop, space) e,
      record { objects' = f.objects'; held = f.held; size = omega (arith, f.size); ctx = f.ctx },
    )

fini_nodes_loop-Listed :
    (fuel : ℕ) (t : TreeHeap) (objects in_use : List ℕ)
    → length objects < fuel
    → Listed t objects in_use
    → (t' : TreeHeap) × (fini_nodes_loop fuel t ≡ some t') × Listed t' [] in_use
unfolding fini_nodes_loop
fini_nodes_loop-Listed zero t objects in_use k h = absurd (omega (arith, k))
fini_nodes_loop-Listed (suc fuel) t [] in_use k h =
    (t, rw (fini_nodes_loop, get_first-none t.free_nodes t.store h.list) refl, h)
fini_nodes_loop-Listed (suc fuel) t (n ∷ rest) in_use k h =
    let t1 = with_list (listm_remove n (t.free_nodes, t.store)) t in
    let (t2, e2, ctx, num, listed) =
      released-Listed t1 n rest [] in_use (removed-Listed t n rest in_use h) in
    let (t', e, l) = fini_nodes_loop-Listed fuel t2 rest in_use (omega (arith, k)) listed in
    (t', rw (fini_nodes_loop, get_first-some t.free_nodes t.store n rest h.list, e2) e, l)

full-pool :
    (n : ℕ)
    → n ≡ 64
    → init_nodes_list ≡ record { free_nodes = n; num_free_nodes = n; allocated = n + 0 }
unfolding init_nodes_list fill_pool
full-pool n e = sym (ap (λ m. record { free_nodes = m; num_free_nodes = m; allocated = m + 0 }) e)

-- Where no node is allocated and `malloc` returns different addresses, the first
-- `decision_tree_init` succeeds and implements the pool `init_nodes_list` of 64 free nodes.
pub init_tree_ctx-Implements :
    (offset : ℕ) (new_node : ℕ → ℕ) (t : TreeHeap)
    → ((j k : ℕ) → new_node j ≡ new_node k → j ≡ k)
    → ((x : ℕ) → t.blocks x ≡ no_blocks)
    → t.ctx ≡ false
    → (t' : TreeHeap) × (init_tree_ctx offset new_node t ≡ some t')
      × (t'.ctx ≡ true)
      × Implements t' init_nodes_list []
unfolding init_tree_ctx tree_init_nodes_list copies
init_tree_ctx-Implements offset new_node t distinct clean off =
    let t0 = record t {
      ctx = true;
      free_nodes = listm_head_init t.free_nodes offset;
      num_free_nodes = 0;
    } in
    let empty : Held t0 [] [] = record {
      listed = record {
        list = list_head_init-Represents offset t.free_nodes.list_head t.store;
        once = λ x. omega arith;
        blocks = clean;
      };
      counted = refl;
      bounded = omega arith;
    } in
    let (t', e, f) =
      init_nodes_loop-Filled new_node 0 node_threshold t0 [] distinct (λ j k. clean (new_node j))
        (omega arith) empty in
    (
      t',
      rw (init_tree_ctx, off) e,
      f.ctx,
      record {
        objects = f.objects';
        held = f.held;
        pool = full-pool (length f.objects') (omega (arith, f.size));
      },
    )

fini_loop-allocated :
    (n : ℕ) (p : Pool) (u : ℕ) → p.allocated ≡ n + u → (fini_loop n p).allocated ≡ u
unfolding fini_loop
fini_loop-allocated zero p u e = omega (arith, e)
fini_loop-allocated (suc n) p u e = fini_loop-allocated n _ u (omega (arith, e))

decision_tree_fini-some :
    (fuel : ℕ) (t t' : TreeHeap)
    → t.ctx ≡ true
    → fini_nodes_loop fuel t ≡ some t'
    → decision_tree_fini fuel t ≡ some (record t' { ctx = false })
unfolding decision_tree_fini tree_fini_nodes_list
decision_tree_fini-some fuel t t' on e = simp (decision_tree_fini, tree_fini_nodes_list, on, e) refl

-- On a tree that implements the pool `p`, with fuel for one more round than there are free nodes,
-- `decision_tree_fini` ends: every block of a free node is freed, once, and so is the context; the
-- nodes in use stay allocated, and they are as many as `fini_nodes_list p` counts.
pub decision_tree_fini-frees :
    (fuel : ℕ) (t : TreeHeap) (p : Pool) (in_use : List ℕ)
    → Implements t p in_use
    → t.ctx ≡ true
    → p.free_nodes < fuel
    → (t' : TreeHeap) × (decision_tree_fini fuel t ≡ some t')
      × (t'.ctx ≡ false)
      × (listm_get_first t'.free_nodes ≡ none)
      × ((x : ℕ) → t'.blocks x ≡ owned (copies x in_use))
      × ((fini_nodes_list p).allocated ≡ length in_use)
unfolding fini_nodes_list copies
decision_tree_fini-frees fuel t p in_use i on k =
    let (t', e, l) =
      fini_nodes_loop-Listed fuel t i.objects in_use
        (let size = ap (λ (q : Pool). q.free_nodes) i.pool in omega (arith, size, k))
        i.held.listed in
    (
      record t' { ctx = false },
      decision_tree_fini-some fuel t t' on e,
      refl,
      get_first-none t'.free_nodes t'.store l.list,
      λ x. l.blocks x ∙ ap owned {x = copies x [] + copies x in_use} (omega arith),
      fini_loop-allocated p.free_nodes p (length in_use) (
          let size = ap (λ (q : Pool). q.free_nodes) i.pool in
          let all = ap (λ (q : Pool). q.allocated) i.pool in omega (arith, size, all)),
    )
