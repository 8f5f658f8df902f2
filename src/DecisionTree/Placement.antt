-- ===== src/DecisionTree/Placement.antt =====
-- decision_tree_compute_placement (common/decision_tree.c): the placement that it gives.
use sabo.Base.{ℕ, ◌*◌, ◌<◌, ◌≤◌, ◌≡◌, ◌≢◌, refl, List, [], ◌∷◌, arith, length, none, some}
use sabo.Process.{CoreProcess}
use sabo.DecisionTree.{TreeProcess, TreeCtx, Pool, compute_placement, alloc_node}
use sabo.DecisionTree.Loads.{Loads, Admits, sum}
use sabo.DecisionTree.Exists.{AllPositive, Admits-exists}
use sabo.DecisionTree.Over.{over, overflow-final}
use sabo.DecisionTree.Root.{
  root_loads, Asks, Realises, found, root-Chosen, root-Sound, Chosen-Realises, run-Chosen, run-inv,
  overflow-root, spare-root,
}

some_socket : (n : ℕ) (l : Loads) (ts ss : List ℕ) → Admits n l ts ss → 0 < length ts → 0 < n
some_socket n l [] ss a h = absurd (omega arith)
some_socket n l (t ∷ ts) [] a h = absurd a
some_socket n l (t ∷ ts) (s ∷ ss) a h = omega (arith, a.0)

-- If the processes ask for at least as many threads as there are cores, and some placement `ss`
-- never puts a process on an overloaded socket, then the function succeeds; its result realises
-- such a placement too, and leaves no more threads without a core than `ss` does.
pub placement_optimal :
    {sort : List TreeProcess → List TreeProcess} {ctx : TreeCtx} {ps : List CoreProcess}
    {ts : List ℕ} (q : Asks sort ctx ps ts) (pool : Pool) (ss : List ℕ)
    → Admits ctx.num_sockets (root_loads ctx) ts ss
    → 0 < length ts
    → ctx.num_sockets * ctx.num_cores_per_socket ≤ sum ts
    → (path : List ℕ) × (result : List CoreProcess) × (pool' : Pool) × (compute_placement sort ctx
          pool ps
        ≡ some (result, pool'))
      × Admits ctx.num_sockets (root_loads ctx) ts path
      × Realises q path result
      × (over ctx.num_sockets ctx.num_cores_per_socket ts path
          ≤ over ctx.num_sockets ctx.num_cores_per_socket ts ss)
placement_optimal {ctx} {ts} q pool ss a h full =
    let (b, e, leaf, best) =
      root-Chosen q (alloc_node pool) ss a h
        (some_socket ctx.num_sockets (root_loads ctx) ts ss a h) full
        (found q (alloc_node pool)).best refl in
    (
      leaf.path,
      _,
      _,
      run-Chosen q pool b e,
      leaf.admits,
      Chosen-Realises q b leaf,
      omega (
        arith,
        best,
        overflow-final ctx.num_sockets ctx.num_cores_per_socket (root_loads ctx) ts ss (λ s. refl),
        overflow-final ctx.num_sockets ctx.num_cores_per_socket (root_loads ctx) ts leaf.path
            (λ s. refl),
      ),
    )

-- If every process asks for a thread, and all together for exactly the cores of the node, then the
-- function succeeds, whatever the pool: the fatal error is not reached.
pub placement_total :
    {sort : List TreeProcess → List TreeProcess} {ctx : TreeCtx} {ps : List CoreProcess}
    {ts : List ℕ} (q : Asks sort ctx ps ts) (pool : Pool)
    → AllPositive ts
    → 0 < length ts
    → sum ts ≡ ctx.num_sockets * ctx.num_cores_per_socket
    → compute_placement sort ctx pool ps ≢ none
placement_total {ctx} {ts} q pool p h e failed =
    let (ss, a) = Admits-exists ctx.num_sockets (root_loads ctx) ts p (
      omega (
        arith,
        overflow-root ctx.num_sockets ctx.num_cores_per_socket,
        spare-root ctx.num_sockets ctx.num_cores_per_socket,
      )) in
    let r = placement_optimal q pool ss a h (omega arith) in absurd (cc (r.3))

-- Whenever the function succeeds its result realises a placement of every process that never puts
-- one on an overloaded socket: each gets a socket of the node, and keeps its old one as previous.
pub placement_sound :
    {sort : List TreeProcess → List TreeProcess} {ctx : TreeCtx} {ps : List CoreProcess}
    {ts : List ℕ} (q : Asks sort ctx ps ts) (pool pool' : Pool) (result : List CoreProcess)
    → 0 < length ts
    → compute_placement sort ctx pool ps ≡ some (result, pool')
    → (path : List ℕ) × Admits ctx.num_sockets (root_loads ctx) ts path × Realises q path result
placement_sound q pool pool' result h e =
    let (b, eb, er) = run-inv q pool pool' result e in
    let (leaf, m) = rw eb at (root-Sound q (alloc_node pool) h) in
    (leaf.path, leaf.admits, rw er (Chosen-Realises q b leaf))
