-- ===== src/DecisionTree/Reps.antt =====
-- The nodes of the search of common/decision_tree.c and the loads they stand for.
use native.Mathlib.Numerals.{add-one}
use sabo.Base.{
  ℕ, zero, suc, ◌+◌, ◌≡◌, refl, List, [], ◌∷◌, map, arith, ℤ, pos, some, get_elem?, set, drop,
  length,
}
use sabo.DecisionTree.{TreeProcess, TreeInfo, TreeCtx, update_node, dup_node, place}
use sabo.DecisionTree.Loads.{Loads, put}
use sabo.DecisionTree.Climb.{Up}

abbrev pub threads : List TreeProcess → List ℤ
threads ps = map (λ p. p.num_threads) ps

-- `ts` are the thread counts of the processes still to be placed.
pub record Reps (ctx : TreeCtx) (node : TreeInfo) (l : Loads) (ts : List ℕ) : Type 0 where
  pub norme : node.norme ≡ l.norme
  pub free : node.num_free_cores ≡ l.free
  pub rest : threads (drop node.placed_num_processes node.processes) ≡ map pos ts
  pub size : node.placed_num_processes + length ts ≡ ctx.num_processes

pub Reps-Up :
    {ctx : TreeCtx} {a b : TreeInfo} {l : Loads} {ts : List ℕ}
    → Up a b
    → Reps ctx a l ts
    → Reps ctx b l ts
Reps-Up {ts} u r = record {
  norme = cc (u.norme, r.norme);
  free = cc (u.free, r.free);
  rest = rw (u.placed, u.processes) r.rest;
  size = rw u.placed r.size;
}

-- The next process, and what is left behind it whatever is written at its place.
pub next_process :
    (k t : ℕ) (ts : List ℕ) (ps : List TreeProcess)
    → threads (drop k ps) ≡ map pos (t ∷ ts)
    → (p : TreeProcess) × (get_elem? ps k ≡ some p)
      × (p.num_threads ≡ pos t)
      × ((q : TreeProcess) → threads (drop (suc k) (set ps k q)) ≡ map pos ts)
next_process zero t ts [] h = absurd (cc)
next_process (suc k) t ts [] h = absurd (cc)
next_process zero t ts (p ∷ ps) h = (p, refl, cc, λ q. cc)
next_process (suc k) t ts (p ∷ ps) h = next_process k t ts ps h

pub child-Reps :
    (ctx : TreeCtx) (node : TreeInfo) (l : Loads) (i t : ℕ) (ts : List ℕ)
    → Reps ctx node l (t ∷ ts)
    → Reps ctx (update_node (dup_node node) i) (put l i t) ts
unfolding update_node dup_node place put
child-Reps ctx node l i t ts r =
    go (next_process node.placed_num_processes t ts node.processes r.rest)
  where
    go :
        (p : TreeProcess) × (get_elem? node.processes node.placed_num_processes ≡ some p)
          × (p.num_threads ≡ pos t)
          × ((q : TreeProcess)
              → threads (
                  drop
                    (suc node.placed_num_processes)
                    (set node.processes node.placed_num_processes q))
                ≡ map pos ts)
        → Reps ctx (update_node (dup_node node) i) (put l i t) ts
    go (p, e, et, rest) =
        rw (e, update_node)
          (record {
            norme = cc (r.norme, r.free, et);
            free = cc (r.norme, r.free, et);
            rest = rw add-one (rest (record p { socket_id = pos i }));
            size = omega (arith, r.size);
          })
