-- ===== src/DecisionTree/Memory/Listed.antt =====
-- common/decision_tree.c: the operations on the free list in memory, and what is allocated.
use mathlib.Core.Path.{subst}
use sabo.Base.{
  ℕ, zero, suc, ◌+◌, ◌≤◌, ◌<◌, ◌≡◌, ◌≢◌, refl, sym, ap, ◌∙◌, true, false, none, some, List, [], ◌∷◌,
  ◌++◌, map, arith, write, write_other,
}
use native.Mathlib.Decide.{ℕ_discrete}
use sabo.LinkedList.{
  Store, ListHead, ListmHead, ListNode, void2node, listm_get_first, listm_remove, listm_add_first,
}
use sabo.LinkedList.Seg.{NotIn, Represents, Seg-Agree, Agree-Apart, NotIn-Apart, NotIn-map}
use sabo.LinkedList.Objects.{list_add_first-Represents}
use sabo.LinkedList.Remove.{list_remove-Represents}
use sabo.DecisionTree.Memory.Copies.{copies, copies-NotIn, copies_self, copies_other, copies-middle}
use sabo.DecisionTree.Memory.{
  NodeBlocks, no_blocks, all_blocks, TreeHeap, set_blocks, with_list, xzalloc_node, tree_init_node,
  tree_fini_node, xfree_node, release_node,
}

-- The blocks of an address that `n` owners hold.
abbrev pub owned : ℕ → NodeBlocks
owned zero = no_blocks
owned (suc n) = all_blocks

-- The free list in memory holds the nodes `objects`; those and the nodes `in_use` are all different,
-- and what is allocated is their blocks.
pub record Listed (t : TreeHeap) (objects : List ℕ) (in_use : List ℕ) : Type 0 where
  pub list : Represents t.free_nodes.offset (t.free_nodes.list_head, t.store) objects
  pub once : (x : ℕ) → copies x objects + copies x in_use ≤ 1
  pub blocks : (x : ℕ) → t.blocks x ≡ owned (copies x objects + copies x in_use)

pub get_first-some :
    (h : ListmHead) (m : Store) (x : ℕ) (xs : List ℕ)
    → Represents h.offset (h.list_head, m) (x ∷ xs)
    → listm_get_first h ≡ some x
get_first-some h m x xs r = rw (r.linked.chain.0) (ap some (omega arith))

pub get_first-none :
    (h : ListmHead) (m : Store) → Represents h.offset (h.list_head, m) [] → listm_get_first h ≡ none
get_first-none h m r = rw (r.linked.chain.0) refl

-- A write to a node that is not in the list.
Represents-write :
    (offset x : ℕ) (l : ListHead) (m : Store) (v : ListNode) (objects : List ℕ)
    → NotIn x objects
    → Represents offset (l, m) objects
    → Represents offset (l, write m (void2node offset x) v) objects
Represents-write offset x l m v objects k r =
    let a = void2node offset x in
    let xs = map (void2node offset) objects in
    record {
      linked = record {
        nodup = r.linked.nodup;
        chain =
            Seg-Agree m (write m a v) none l.first xs l.last none
              (Agree-Apart m (write m a v) xs (a ∷ []) (λ b h. write_other m v h.0)
                (NotIn-Apart a xs (NotIn-map offset x objects k)))
              r.linked.chain;
      };
    }

fresh-copies : (n : ℕ) → no_blocks ≡ owned n → n ≡ 0
fresh-copies zero e = refl
fresh-copies (suc n) e = (let off = ap (λ (b : NodeBlocks). b.node) e in cc)

used-blocks : (n : ℕ) → 0 < n → owned n ≡ all_blocks
used-blocks zero h = absurd (omega arith)
used-blocks (suc n) h = refl

made_self : (t : TreeHeap) (x : ℕ) → (tree_init_node x (xzalloc_node x t)).blocks x ≡ all_blocks
unfolding tree_init_node xzalloc_node
made_self t x = ground arith

pub made_other :
    (t : TreeHeap) (x y : ℕ) → x ≢ y → (tree_init_node x (xzalloc_node x t)).blocks y ≡ t.blocks y
unfolding tree_init_node xzalloc_node
made_other t x y h = write_other (xzalloc_node x t).blocks _ h ∙ write_other t.blocks _ h

-- A node that is made at an address without blocks is in use.
pub made-Listed :
    (t : TreeHeap) (x : ℕ) (objects in_use : List ℕ)
    → Listed t objects in_use
    → t.blocks x ≡ no_blocks
    → Listed (tree_init_node x (xzalloc_node x t)) objects (x ∷ in_use)
unfolding copies tree_init_node xzalloc_node
made-Listed t x objects in_use h e =
    let fresh : copies x objects + copies x in_use ≡ 0 = fresh-copies _ (sym e ∙ h.blocks x) in
    record {
      list =
          Represents-write t.free_nodes.offset x t.free_nodes.list_head t.store _ objects
            (copies-NotIn x objects (omega (arith, fresh))) h.list;
      once = λ y. elim (ℕ_discrete x y) [
        | yes s ↦
            subst (λ z. copies z objects + copies z (x ∷ in_use) ≤ 1) s
              (omega (arith, fresh, copies_self x in_use))
        | no s ↦ omega (arith, h.once y, copies_other x y in_use s)
      ];
      blocks = λ y. elim (ℕ_discrete x y) [
        | yes s ↦
            subst
              (λ z.
                (tree_init_node x (xzalloc_node x t)).blocks z
                ≡ owned (copies z objects + copies z (x ∷ in_use)))
              s (made_self t x ∙ sym (used-blocks _ (omega (arith, copies_self x in_use))))
        | no s ↦
            made_other t x y s ∙ h.blocks y ∙ ap owned (omega (arith, copies_other x y in_use s))
      ];
    }

-- What is left of a node that is released.
record Released (x : ℕ) (t t' : TreeHeap) : Type 0 where
  ctx : t'.ctx ≡ t.ctx
  free_nodes : t'.free_nodes ≡ t.free_nodes
  num_free_nodes : t'.num_free_nodes ≡ t.num_free_nodes
  store : t'.store ≡ t.store
  gone : t'.blocks x ≡ no_blocks
  others : (y : ℕ) → x ≢ y → t'.blocks y ≡ t.blocks y

tree_fini_node-some :
    (x : ℕ) (t : TreeHeap)
    → (t.blocks x).processes ≡ true
    → (t.blocks x).sockets ≡ true
    → tree_fini_node x t
      ≡ some (set_blocks x (record (t.blocks x) { processes = false; sockets = false }) t)
unfolding tree_fini_node
tree_fini_node-some x t p s = rw (tree_fini_node, p, s) refl

xfree_node-some :
    (x : ℕ) (t : TreeHeap)
    → (t.blocks x).node ≡ true
    → xfree_node x t ≡ some (set_blocks x (record (t.blocks x) { node = false }) t)
unfolding xfree_node
xfree_node-some x t n = simp n refl

release_node-Released :
    (x : ℕ) (t : TreeHeap)
    → t.blocks x ≡ all_blocks
    → (t' : TreeHeap) × (release_node x t ≡ some t') × Released x t t'
unfolding release_node
release_node-Released x t e =
    let t1 = set_blocks x (record (t.blocks x) { processes = false; sockets = false }) t in
    let fini = tree_fini_node-some x t (ap (λ b. b.processes) e) (ap (λ b. b.sockets) e) in
    (
      set_blocks x (record (t1.blocks x) { node = false }) t1,
      rw (release_node, fini) (xfree_node-some x t1 (ground (arith, e))),
      record {
        ctx = refl;
        free_nodes = refl;
        num_free_nodes = refl;
        store = refl;
        gone = ground (arith, e);
        others = λ y h. write_other t1.blocks _ h ∙ write_other t.blocks _ h;
      },
    )

pub used-all :
    (t : TreeHeap) (x : ℕ) (objects in_use : List ℕ)
    → Listed t objects in_use
    → 0 < copies x objects + copies x in_use
    → t.blocks x ≡ all_blocks
used-all t x objects in_use h k = h.blocks x ∙ used-blocks _ k

-- The first node of the free list goes out of it.
pub removed-Listed :
    (t : TreeHeap) (n : ℕ) (rest in_use : List ℕ)
    → Listed t (n ∷ rest) in_use
    → Listed (with_list (listm_remove n (t.free_nodes, t.store)) t) rest (n ∷ in_use)
unfolding copies
removed-Listed t n rest in_use h =
    let alone : copies n rest ≡ 0 = omega (arith, h.once n, copies_self n rest) in
    record {
      list =
          (list_remove-Represents t.free_nodes.offset n n (t.free_nodes.list_head, t.store) [] rest
            h.list (copies-NotIn n rest alone)).0;
      once = λ y. omega (arith, h.once y);
      blocks = λ y. h.blocks y ∙ ap owned (omega arith);
    }

-- A node in use is put into the free list.
pub added-Listed :
    (t : TreeHeap) (n : ℕ) (objects a b : List ℕ)
    → Listed t objects (a ++ n ∷ b)
    → Listed (with_list (listm_add_first n (t.free_nodes, t.store)) t) (n ∷ objects) (a ++ b)
unfolding copies
added-Listed t n objects a b h =
    let absent : copies n objects ≡ 0 =
      omega (arith, h.once n, copies-middle n n a b, copies_self n (a ++ b)) in
    record {
      list =
          list_add_first-Represents t.free_nodes.offset n (t.free_nodes.list_head, t.store) objects
            h.list (copies-NotIn n objects absent);
      once = λ y. let e = copies-middle y n a b in omega (arith, h.once y, e);
      blocks = λ y. let e = copies-middle y n a b in h.blocks y ∙ ap owned (omega (arith, e));
    }

unowned :
    {t : TreeHeap} (n : ℕ) (objects a b : List ℕ)
    → Listed t objects (a ++ n ∷ b)
    → 0 ≡ copies n objects + copies n (a ++ b)
unowned n objects a b h = omega (arith, h.once n, copies-middle n n a b, copies_self n (a ++ b))

-- A node in use is released.
pub released-Listed :
    (t : TreeHeap) (n : ℕ) (objects a b : List ℕ)
    → Listed t objects (a ++ n ∷ b)
    → (t' : TreeHeap) × (release_node n t ≡ some t')
      × (t'.ctx ≡ t.ctx)
      × (t'.num_free_nodes ≡ t.num_free_nodes)
      × Listed t' objects (a ++ b)
unfolding copies
released-Listed t n objects a b h =
    let middle = λ (y : ℕ). copies-middle y n a b in
    let (t', e, r) =
      release_node-Released n t
        (used-all t n objects (a ++ n ∷ b) h (omega (arith, middle n, copies_self n (a ++ b)))) in
    (
      t',
      e,
      r.ctx,
      r.num_free_nodes,
      record {
        list =
            subst (λ f. Represents f.offset (f.list_head, t'.store) objects) (sym r.free_nodes)
              (subst (λ m. Represents t.free_nodes.offset (t.free_nodes.list_head, m) objects)
                (sym r.store) h.list);
        once = λ y. omega (arith, h.once y, middle y);
        blocks = λ y. elim (ℕ_discrete n y) [
          | yes s ↦
              subst (λ z. t'.blocks z ≡ owned (copies z objects + copies z (a ++ b))) s
                (r.gone ∙ ap owned (unowned n objects a b h))
          | no s ↦
              r.others y s
              ∙ h.blocks y
              ∙ ap owned (omega (arith, middle y, copies_other n y (a ++ b) s))
        ];
      },
    )

pub set_num-Listed :
    (t : TreeHeap) (k : ℕ) (objects in_use : List ℕ)
    → Listed t objects in_use
    → Listed (record t { num_free_nodes = k }) objects in_use
set_num-Listed t k objects in_use h = record { list = h.list; once = h.once; blocks = h.blocks }
