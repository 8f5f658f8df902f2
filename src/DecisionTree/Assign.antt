-- ===== src/DecisionTree/Assign.antt =====
-- tree_update_core_processes_list (common/decision_tree.c): the sockets that it writes.
use native.Mathlib.Bridge.{le_prop}
use mathlib.Core.Logic.Or
use mathlib.Core.List.{
  Mem, Nodup, Nodup-cons, Nodup-nil, not-mem-nil, mem-cons, mem-cons_self, mem-cons_of_mem,
}
use mathlib.Core.Path.{subst}
use sabo.Base.{
  ℕ, zero, suc, ◌+◌, ◌<◌, ◌≤◌, ◌≡◌, ◌≢◌, refl, ap, ◌∙◌, List, [], ◌∷◌, map, arith, ℤ, length, some,
  get_elem?, get_elem?-set_self, get_elem?-set_ne, take, drop, Option-cases, inl, inr,
}
use sabo.Process.{CoreProcess}
use sabo.DecisionTree.{TreeProcess, copy_processes, update_core, update_core_list}
use sabo.DecisionTree.Leaf.{core_processes}
use sabo.DecisionTree.Reps.{threads}

abbrev pub moved : ℤ → CoreProcess → CoreProcess
moved s p = record p { socket_id = s; prev_socket_id = p.socket_id }

pub get_elem?-lt {ℓ} :
    {A : Type ℓ} (xs : List A) (i : ℕ) (a : A) → get_elem? xs i ≡ some a → i < length xs
get_elem?-lt [] i a h = absurd (cc)
get_elem?-lt (x ∷ xs) zero a h = omega arith
get_elem?-lt (x ∷ xs) (suc i) a h = omega (arith, get_elem?-lt xs i a h)

-- An element of an image comes from one.
pub get_elem?-map {ℓ κ} :
    {A : Type ℓ} {B : Type κ} (f : A → B) (xs : List A) (i : ℕ) (b : B)
    → get_elem? (map f xs) i ≡ some b
    → (a : A) × (get_elem? xs i ≡ some a) × (f a ≡ b)
get_elem?-map f [] i b h = absurd (cc)
get_elem?-map f (x ∷ xs) zero b h = (x, refl, cc)
get_elem?-map f (x ∷ xs) (suc i) b h = get_elem?-map f xs i b h

pub map-get_elem? {ℓ κ} :
    {A : Type ℓ} {B : Type κ} (f : A → B) (xs : List A) (i : ℕ) (a : A)
    → get_elem? xs i ≡ some a
    → get_elem? (map f xs) i ≡ some (f a)
map-get_elem? f [] i a h = absurd (cc)
map-get_elem? f (x ∷ xs) zero a h = cc
map-get_elem? f (x ∷ xs) (suc i) a h = map-get_elem? f xs i a h

update_core_self :
    (t : TreeProcess) (ps : List CoreProcess) (p : CoreProcess)
    → get_elem? ps t.core_process ≡ some p
    → get_elem? (update_core t ps) t.core_process ≡ some (moved t.socket_id p)
unfolding update_core
update_core_self t ps p h =
    rw (h, update_core)
      (get_elem?-set_self ps t.core_process (moved t.socket_id p)
        (get_elem?-lt ps t.core_process p h))

update_core-other :
    (t : TreeProcess) (ps : List CoreProcess) (j : ℕ)
    → t.core_process ≢ j
    → get_elem? (update_core t ps) j ≡ get_elem? ps j
unfolding update_core
update_core-other t ps j h = elim (Option-cases (get_elem? ps t.core_process)) [
  | inl e ↦ rw (e, update_core)
  | inr (p, e) ↦ rw (e, update_core) (get_elem?-set_ne ps (moved t.socket_id p) h)
]

list-other :
    (ts : List TreeProcess) (ps : List CoreProcess) (j : ℕ)
    → ¬ Mem j (core_processes ts)
    → get_elem? (update_core_list ts ps) j ≡ get_elem? ps j
unfolding update_core_list
list-other [] ps j h = refl
list-other (t ∷ ts) ps j h =
    list-other ts (update_core t ps) j (λ m. h (mem-cons_of_mem _ m))
    ∙ update_core-other t ps j (λ e. h (rw e mem-cons_self))

get_elem?-Mem :
    (ts : List TreeProcess) (k : ℕ) (t : TreeProcess)
    → get_elem? ts k ≡ some t
    → Mem t.core_process (core_processes ts)
get_elem?-Mem [] k t h = absurd (cc)
get_elem?-Mem (x ∷ ts) zero t h =
    let same : x ≡ t = cc in
    subst (λ (y : TreeProcess). Mem y.core_process (core_processes (x ∷ ts))) same mem-cons_self
get_elem?-Mem (x ∷ ts) (suc k) t h = mem-cons_of_mem _ (get_elem?-Mem ts k t h)

-- Each process is moved once.
pub update_core_list-moved :
    (ts : List TreeProcess) (ps : List CoreProcess) (k : ℕ) (t : TreeProcess) (p : CoreProcess)
    → Nodup (core_processes ts)
    → get_elem? ts k ≡ some t
    → get_elem? ps t.core_process ≡ some p
    → get_elem? (update_core_list ts ps) t.core_process ≡ some (moved t.socket_id p)
unfolding update_core_list
update_core_list-moved [] ps k t p n h e = absurd (cc)
update_core_list-moved (x ∷ ts) ps zero t p n h e =
    let same : x ≡ t = cc in
    subst
      (λ (y : TreeProcess).
        get_elem? ps y.core_process ≡ some p
        → get_elem? (update_core_list ts (update_core x ps)) y.core_process
          ≡ some (moved y.socket_id p))
      same
      (λ e'.
        list-other ts (update_core x ps) x.core_process (Nodup-cons.0 n).0
        ∙ update_core_self x ps p e')
      e
update_core_list-moved (x ∷ ts) ps (suc k) t p n h e =
    update_core_list-moved ts (update_core x ps) k t p (Nodup-cons.0 n).1 h (
      update_core-other x ps t.core_process
        (λ same. (Nodup-cons.0 n).0 (rw same (get_elem?-Mem ts k t h)))
      ∙ e)

copied-le : (i j : ℕ) (ps : List CoreProcess) → Mem j (core_processes (copy_processes i ps)) → i ≤ j
unfolding copy_processes
copied-le i j [] m = absurd (not-mem-nil m)
copied-le i j (p ∷ ps) m =
    Or.elim le_prop (mem-cons.0 m) (λ e. omega arith) (λ r. omega (arith, copied-le (i + 1) j ps r))

pub copy_processes-Nodup :
    (i : ℕ) (ps : List CoreProcess) → Nodup (core_processes (copy_processes i ps))
unfolding copy_processes
copy_processes-Nodup i [] = Nodup-nil
copy_processes-Nodup i (p ∷ ps) =
    Nodup-cons.1
      (λ m. absurd (omega (arith, copied-le (i + 1) i ps m)), copy_processes-Nodup (i + 1) ps)

pub take-all : (k : ℕ) (ps : List TreeProcess) → threads (drop k ps) ≡ [] → take k ps ≡ ps
take-all zero [] h = refl
take-all zero (p ∷ ps) h = absurd (cc)
take-all (suc k) [] h = refl
take-all (suc k) (p ∷ ps) h = ap (◌∷◌ p) (take-all k ps h)
