-- ===== src/DecisionTree/Leaf.antt =====
-- A complete placement that the search can reach from a node.
use mathlib.Core.List.{append_assoc}
use native.Mathlib.Numerals.{add-one}
use sabo.Base.{
  ℕ, zero, suc, ◌<◌, ◌≡◌, refl, ap, ◌∙◌, List, [], ◌∷◌, ◌++◌, map, arith, ℤ, pos, ◌≤ℤ◌, some,
  get_elem?, set, take, drop,
}
use sabo.DecisionTree.{TreeProcess, TreeInfo, TreeCtx, update_node, dup_node, place}
use sabo.DecisionTree.Loads.{Loads, put, final, Admits}
use sabo.DecisionTree.Reps.{Reps, threads, next_process}

abbrev pub sockets : List TreeProcess → List ℤ
sockets ps = map (λ p. p.socket_id) ps

abbrev pub core_processes : List TreeProcess → List ℕ
core_processes ps = map (λ p. p.core_process) ps

-- `b` places the processes of `ps` from the `k`-th on along `path`, and changes nothing else.
pub record Leaf (ctx : TreeCtx) (k : ℕ) (ps : List TreeProcess) (l : Loads) (ts : List ℕ)
    (b : TreeInfo) : Type 0 where
  pub path : List ℕ
  pub admits : Admits ctx.num_sockets l ts path
  pub reps : Reps ctx b (final l ts path) []
  pub min : b.min ≡ b.norme
  pub sockets_eq : sockets b.processes ≡ sockets (take k ps) ++ map pos path
  pub core_eq : core_processes b.processes ≡ core_processes ps

sockets-take_all :
    (k : ℕ) (ps : List TreeProcess)
    → threads (drop k ps) ≡ []
    → sockets ps ≡ sockets (take k ps) ++ []
sockets-take_all zero [] h = refl
sockets-take_all zero (p ∷ ps) h = absurd (cc)
sockets-take_all (suc k) [] h = refl
sockets-take_all (suc k) (p ∷ ps) h = ap (◌∷◌ p.socket_id) (sockets-take_all k ps h)

pub Leaf-nil :
    (ctx : TreeCtx) (b : TreeInfo) (l : Loads)
    → Reps ctx b l []
    → b.min ≡ b.norme
    → Leaf ctx b.placed_num_processes b.processes l [] b
unfolding final
Leaf-nil ctx b l r e = record {
  path = [];
  admits = tt;
  reps = r;
  min = e;
  sockets_eq = sockets-take_all b.placed_num_processes b.processes r.rest;
  core_eq = refl;
}

sockets-take-set :
    (k : ℕ) (ps : List TreeProcess) (p q : TreeProcess)
    → get_elem? ps k ≡ some p
    → sockets (take (suc k) (set ps k q)) ≡ sockets (take k ps) ++ q.socket_id ∷ []
sockets-take-set k [] p q h = absurd (cc)
sockets-take-set zero (x ∷ ps) p q h = refl
sockets-take-set (suc k) (x ∷ ps) p q h = ap (◌∷◌ x.socket_id) (sockets-take-set k ps p q h)

core_processes-set :
    (k : ℕ) (ps : List TreeProcess) (p q : TreeProcess)
    → get_elem? ps k ≡ some p
    → q.core_process ≡ p.core_process
    → core_processes (set ps k q) ≡ core_processes ps
core_processes-set k [] p q h e = refl
core_processes-set zero (x ∷ ps) p q h e = cc
core_processes-set (suc k) (x ∷ ps) p q h e =
    ap (◌∷◌ x.core_process) (core_processes-set k ps p q h e)

-- The processes after one more placement.
pub record Placed (node child : TreeInfo) (i : ℕ) : Type 0 where
  pub placed : child.placed_num_processes ≡ suc node.placed_num_processes
  pub sockets_eq :
      sockets (take child.placed_num_processes child.processes)
      ≡ sockets (take node.placed_num_processes node.processes) ++ pos i ∷ []
  pub core_eq : core_processes child.processes ≡ core_processes node.processes
  pub min : child.min ≡ node.min

pub child-Placed :
    (ctx : TreeCtx) (node : TreeInfo) (l : Loads) (i t : ℕ) (ts : List ℕ)
    → Reps ctx node l (t ∷ ts)
    → Placed node (update_node (dup_node node) i) i
unfolding update_node dup_node place
child-Placed ctx node l i t ts r =
    let (p, e, et, rest) = next_process node.placed_num_processes t ts node.processes r.rest in
    rw (e, update_node)
      (record {
        placed = omega arith;
        sockets_eq = rw add-one (
            sockets-take-set node.placed_num_processes node.processes p
              (record p { socket_id = pos i }) e);
        core_eq =
            core_processes-set node.placed_num_processes node.processes p
              (record p { socket_id = pos i }) e refl;
        min = refl;
      })

pub Leaf-cons :
    (ctx : TreeCtx) (node child : TreeInfo) (l : Loads) (i t : ℕ) (ts : List ℕ) (b : TreeInfo)
    → Placed node child i
    → i < ctx.num_sockets
    → pos 0 ≤ℤ l.free i
    → Leaf ctx child.placed_num_processes child.processes (put l i t) ts b
    → Leaf ctx node.placed_num_processes node.processes l (t ∷ ts) b
unfolding final
Leaf-cons ctx node child l i t ts b d h f leaf = record {
  path = i ∷ leaf.path;
  admits = (h, f, leaf.admits);
  reps = leaf.reps;
  min = leaf.min;
  sockets_eq =
      leaf.sockets_eq
      ∙ rw d.sockets_eq (
          append_assoc (sockets (take node.placed_num_processes node.processes)) (pos i ∷ [])
            (map pos leaf.path));
  core_eq = leaf.core_eq ∙ d.core_eq;
}
