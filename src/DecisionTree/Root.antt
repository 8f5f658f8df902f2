-- ===== src/DecisionTree/Root.antt =====
-- The search of common/decision_tree.c from the root: what its candidate stands for, and what the whole function makes of it.
use mathlib.Core.List.{Perm, Nodup}
use mathlib.Core.List.Perm
use sabo.Base.{
  ℕ, zero, suc, ◌*◌, ◌<◌, ◌≤◌, ◌≡◌, ◌≢◌, refl, ◌∙◌, List, [], ◌∷◌, map, arith, pos, pos_part,
  neg_part, ◌≤ℤ◌, ap, length, Option, none, some, Option-cases, inl, inr, get_elem?, take,
}
use sabo.Process.{CoreProcess}
use sabo.DecisionTree.{
  TreeProcess, TreeInfo, TreeNode, TreeCtx, Pool, int_min, copy_processes, root_info, build_tree,
  update_core_list, compute_placement, alloc_node, free_node,
}
use sabo.DecisionTree.Loads.{Loads, final, Admits, InRange, sum, swap, final-rename, Admits-rename}
use sabo.DecisionTree.Norm.{overflow, spare, NormIs, final-NormIs, final-cores, norme-overflow}
use sabo.DecisionTree.Reps.{Reps, threads}
use sabo.DecisionTree.Leaf.{Leaf, core_processes}
use sabo.DecisionTree.Optimal.{last, build_tree-reach}
use sabo.DecisionTree.Exists.{final-InRange, last-lt, last-map}
use sabo.DecisionTree.Assign.{
  moved, get_elem?-map, map-get_elem?, take-all, copy_processes-Nodup, update_core_list-moved,
}
use sabo.DecisionTree.Sound.{Keeps, build_tree-Sound}

-- Every socket has all its cores.
abbrev pub root_loads : TreeCtx → Loads
root_loads ctx = record { norme = int_min; free = λ _. pos ctx.num_cores_per_socket }

pub overflow-root : (n c : ℕ) → overflow n (λ _. pos c) ≡ 0
unfolding overflow
overflow-root zero c = refl
overflow-root (suc n) c = omega (arith, overflow-root n c)

pub spare-root : (n c : ℕ) → spare n (λ _. pos c) ≡ n * c
unfolding spare
spare-root zero c = omega arith
spare-root (suc n) c = omega (arith, spare-root n c)

-- Whatever socket the path ends on: an exchange of sockets makes that socket 0.
reach-any :
    (ctx : TreeCtx) (info : TreeInfo) (pool : Pool) (ts ss : List ℕ)
    → Reps ctx info (root_loads ctx) ts
    → Admits ctx.num_sockets (root_loads ctx) ts ss
    → InRange (root_loads ctx) ts
    → length ts ≤ ctx.num_processes
    → 0 < length ts
    → (final (root_loads ctx) ts ss).norme ≤ℤ (build_tree ctx ctx.num_processes info pool).0.min
reach-any ctx info pool [] ss r a w f h = absurd (omega arith)
reach-any ctx info pool (t ∷ ts) [] r a w f h = absurd a
reach-any ctx info pool (t ∷ ts) (s ∷ ss) r a w f h =
    let e = last s ss in
    let at_zero : last (swap e s) (map (swap e) ss) ≡ 0 = last-map (swap e) s ss ∙ ground arith in
    rw (← (ap (λ (l : Loads). l.norme) (final-rename e (root_loads ctx) (t ∷ ts) (s ∷ ss)))) (
      build_tree-reach ctx ctx.num_processes info pool (root_loads ctx) t ts (swap e s)
        (map (swap e) ss) (omega arith) r
        (Admits-rename ctx.num_sockets e (root_loads ctx) (t ∷ ts) (s ∷ ss)
          (last-lt ctx.num_sockets (root_loads ctx) (t ∷ ts) s ss a) a)
        w at_zero)

-- The processes `ps` ask for `ts` threads, in the order in which `sort` puts them, on a machine
-- with a core.
pub record Asks (sort : List TreeProcess → List TreeProcess) (ctx : TreeCtx) (ps : List CoreProcess)
    (ts : List ℕ) : Type 0 where
  pub perm : Perm (sort (copy_processes 0 ps)) (copy_processes 0 ps)
  pub asks : threads (sort (copy_processes 0 ps)) ≡ map pos ts
  pub size : length ts ≡ ctx.num_processes
  pub cores : 0 < ctx.num_cores_per_socket
  pub range : sum ts < 2_147_483_648

module _ {sort : List TreeProcess → List TreeProcess} {ctx : TreeCtx} {ps : List CoreProcess}
    {ts : List ℕ} (q : Asks sort ctx ps ts) where
  root-Reps : Reps ctx (root_info sort ctx ps) (root_loads ctx) ts
  unfolding root_info
  root-Reps = record { norme = refl; free = refl; rest = q.asks; size = omega (arith, q.size) }

  root-NormIs : NormIs ctx.num_sockets (root_loads ctx)
  root-NormIs = record {
    unset = λ e s h. omega (arith, q.cores);
    none_over = λ e. overflow-root ctx.num_sockets ctx.num_cores_per_socket;
    nonpos = refl;
    norm = λ e. absurd (e refl);
  }

  root-InRange : InRange (root_loads ctx) ts
  root-InRange = (q.range, inl refl)

  abbrev pub found : Pool → TreeNode
  found pool = (build_tree ctx ctx.num_processes (root_info sort ctx ps) pool).0

  -- By symmetry the path may end on any socket.
  root-reach :
      (pool : Pool) (ss : List ℕ)
      → Admits ctx.num_sockets (root_loads ctx) ts ss
      → 0 < length ts
      → (final (root_loads ctx) ts ss).norme ≤ℤ (found pool).min
  root-reach pool ss a h =
      reach-any ctx (root_info sort ctx ps) pool ts ss root-Reps a root-InRange
        (omega (arith, q.size)) h

  -- The norm of an admitted placement of at least as many threads as there are cores.
  norme-full :
      (ss : List ℕ)
      → Admits ctx.num_sockets (root_loads ctx) ts ss
      → 0 < ctx.num_sockets
      → ctx.num_sockets * ctx.num_cores_per_socket ≤ sum ts
      → ((final (root_loads ctx) ts ss).norme ≢ int_min)
        × (pos_part (final (root_loads ctx) ts ss).norme ≡ 0)
        × (neg_part (final (root_loads ctx) ts ss).norme
            ≡ overflow ctx.num_sockets (final (root_loads ctx) ts ss).free)
  norme-full ss a h e =
      norme-overflow ctx.num_sockets (final (root_loads ctx) ts ss) h
        (final-NormIs ctx.num_sockets (root_loads ctx) ts ss a root-InRange root-NormIs)
        (omega (
          arith,
          final-cores ctx.num_sockets (root_loads ctx) ts ss a,
          overflow-root ctx.num_sockets ctx.num_cores_per_socket,
          spare-root ctx.num_sockets ctx.num_cores_per_socket,
        ))

  pub root-Sound :
      (pool : Pool)
      → 0 < length ts
      → Keeps ctx 0
          (sort (copy_processes 0 ps))
          (root_loads ctx)
          ts
          int_min
          (found pool).best
          (found pool).min
  unfolding root_info
  root-Sound pool h =
      build_tree-Sound ctx ctx.num_processes (root_info sort ctx ps) pool (root_loads ctx) ts h
        (omega (arith, q.size)) root-Reps

  -- A candidate at the root, with the placement that it stands for.
  abbrev pub Chosen : TreeInfo → Type 0
  Chosen b = Leaf ctx 0 (sort (copy_processes 0 ps)) (root_loads ctx) ts b

  pub root-Chosen :
      (pool : Pool) (ss : List ℕ)
      → Admits ctx.num_sockets (root_loads ctx) ts ss
      → 0 < length ts
      → 0 < ctx.num_sockets
      → ctx.num_sockets * ctx.num_cores_per_socket ≤ sum ts
      → (o : Option TreeInfo) → (found pool).best ≡ o
      → (b : TreeInfo) × (o ≡ some b)
        × (leaf : Chosen b) × (overflow ctx.num_sockets (final (root_loads ctx) ts leaf.path).free
            ≤ overflow ctx.num_sockets (final (root_loads ctx) ts ss).free)
  root-Chosen pool ss a h n full none e =
      let v = rw e at (root-Sound pool h) in
      absurd (
        ground (
          arith,
          v,
          norme-full ss a n full,
          final-InRange ctx.num_sockets (root_loads ctx) ts ss a root-InRange,
          root-reach pool ss a h,
        ))
  root-Chosen pool ss a h n full (some b) e =
      let (leaf, m) = rw e at (root-Sound pool h) in
      (
        b,
        refl,
        leaf,
        ground (
          arith,
          m,
          leaf.min,
          leaf.reps.norme,
          norme-full ss a n full,
          norme-full leaf.path leaf.admits n full,
          root-reach pool ss a h,
        ),
      )

  -- `result` has each process on the socket that `path` names for it, with its old socket as the
  -- previous one, and is otherwise `ps`.
  abbrev pub Realises : List ℕ → List CoreProcess → Type 0
  Realises path result =
      (k s : ℕ) (t : TreeProcess) (p : CoreProcess)
      → get_elem? (sort (copy_processes 0 ps)) k ≡ some t
      → get_elem? path k ≡ some s
      → get_elem? ps t.core_process ≡ some p
      → get_elem? result t.core_process ≡ some (moved (pos s) p)

  pub Chosen-Realises :
      (b : TreeInfo) (leaf : Chosen b)
      → Realises leaf.path (update_core_list (take b.placed_num_processes b.processes) ps)
  Chosen-Realises b leaf k s t p ht hs hp =
      let all = take-all b.placed_num_processes b.processes leaf.reps.rest in
      let (u, hu, eu) =
        get_elem?-map (λ (x : TreeProcess). x.core_process) b.processes k t.core_process
          (rw leaf.core_eq (
            map-get_elem? (λ (x : TreeProcess). x.core_process) (sort (copy_processes 0 ps)) k t
              ht)) in
      let (v, hv, ev) =
        get_elem?-map (λ (x : TreeProcess). x.socket_id) b.processes k (pos s)
          (rw leaf.sockets_eq (map-get_elem? pos leaf.path k s hs)) in
      let same : u ≡ v = cc in
      let distinct : Nodup (core_processes b.processes) =
        rw leaf.core_eq (Perm.nodup (Perm.map _ (Perm.symm q.perm)) (copy_processes-Nodup 0 ps)) in
      rw (all, ← eu, ← ev, ← same)
        (update_core_list-moved b.processes ps k u p distinct hu (rw eu hp))

  -- A run of the whole function, from its candidate.
  pub run-Chosen :
      (pool : Pool) (b : TreeInfo)
      → (found (alloc_node pool)).best ≡ some b
      → compute_placement sort ctx pool ps
        ≡ some (
          update_core_list (take b.placed_num_processes b.processes) ps,
          free_node (
              free_node
                (build_tree ctx ctx.num_processes (root_info sort ctx ps) (alloc_node pool)).1),
        )
  unfolding compute_placement
  run-Chosen pool b e = rw (e, compute_placement)

  pub run-inv :
      (pool pool' : Pool) (result : List CoreProcess)
      → compute_placement sort ctx pool ps ≡ some (result, pool')
      → (b : TreeInfo) × ((found (alloc_node pool)).best ≡ some b)
        × (result ≡ update_core_list (take b.placed_num_processes b.processes) ps)
  unfolding compute_placement
  run-inv pool pool' result h = elim (Option-cases (found (alloc_node pool)).best) [
    | inl e ↦ absurd (ground arith)
    | inr (b, e) ↦ (b, e, ground arith)
  ]
