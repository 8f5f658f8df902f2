-- ===== src/Core/Balance/Placed.antt =====
-- core/sabo.c: the thread counts computed from the times can be placed on the sockets.
use mathlib.Core.List.{Perm, foldr}
use mathlib.Core.List.Perm
use native.Mathlib.Nat.{ℕ_set}
use sabo.Base.{
  ℕ, suc, ◌+◌, ◌*◌, ◌<◌, ◌≡◌, ◌≢◌, refl, sym, ap, ◌∙◌, none, some, List, [], ◌∷◌, map, length, ℤ,
  pos, pos_part, neg_part, int_laws, parts_apart, eq_of_parts, true, ltb_ℤ, if◌then◌else◌, arith,
}
use sabo.Process.{CoreProcess}
use sabo.DecisionTree.{TreeProcess, TreeCtx, Pool, copy_processes, compute_placement}
use sabo.DecisionTree.Loads.{sum}
use sabo.DecisionTree.Reps.{threads}
use sabo.DecisionTree.Exists.{AllPositive}
use sabo.DecisionTree.Root.{Asks}
use sabo.DecisionTree.Placement.{placement_total}
use sabo.Core.Steps.{Doubles, CoreCounters, CoreCtx, compute_new_threads_distribution}
use sabo.Core.Steps.Total.{total, AllFit, distribution-total}
use sabo.Core.Steps.Sizes.{length-distribution}
use sabo.Core.Context.{Member}
use sabo.Core.Balance.{prepare_member, with_counters}

weigh : (ℤ → ℕ) → List ℤ → ℕ
weigh w xs = foldr (λ x n. w x + n) 0 xs

Perm-weigh : (w : ℤ → ℕ) {xs ys : List ℤ} → Perm xs ys → weigh w xs ≡ weigh w ys
unfolding weigh
Perm-weigh w p = Perm.foldr-eq ℕ_set (λ x n. w x + n) (λ x y n. omega arith) p 0

-- One for a number that is not positive.
nonpositive : ℤ → ℕ
nonpositive x = if ltb_ℤ (pos 0) x then 0 else 1

one : ℤ → ℕ
one x = 1

-- Positive numbers, as a list over ℕ.
record Positive (xs : List ℤ) : Type 0 where
  ts : List ℕ
  numbers : xs ≡ map pos ts
  same_sum : sum ts ≡ weigh pos_part xs
  same_length : length ts ≡ weigh one xs
  positive : AllPositive ts

weigh-Positive : (xs : List ℤ) → weigh nonpositive xs ≡ 0 → Positive xs
unfolding weigh nonpositive one
weigh-Positive [] h = record {
  ts = [];
  numbers = refl;
  same_sum = refl;
  same_length = refl;
  positive = tt;
}
weigh-Positive (x ∷ xs) h =
    let r = weigh-Positive xs (omega arith) in
    let here : ltb_ℤ (pos 0) x ≡ true = ground arith in
    let number : x ≡ pos (pos_part x) =
      eq_of_parts x (pos (pos_part x)) (ground (arith, parts_apart x)) in
    record {
      ts = pos_part x ∷ r.ts;
      numbers = ap (λ y. y ∷ xs) number ∙ ap (λ ys. pos (pos_part x) ∷ ys) r.numbers;
      same_sum = omega (arith, r.same_sum);
      same_length = omega (arith, r.same_length);
      positive = (ground (arith, parts_apart x), r.positive);
    }

module _ {D : Type 0} where
  length-map : (ms : List (Member D)) → length (map (λ m. m.counters) ms) ≡ length ms
  length-map [] = refl
  length-map (m ∷ ms) = ap suc (length-map ms)

  abbrev pub prepared : List (Member D) → List (CoreCounters D) → List CoreProcess
  prepared ms cs = map (λ m. m.place) (map prepare_member (with_counters ms cs))

  asked : (i : ℕ) → List (Member D) → List (CoreCounters D) → List ℤ
  asked i ms cs = threads (copy_processes i (prepared ms cs))

  record Facts (xs : List ℤ) (cs : List (CoreCounters D)) : Type 0 where
    none_bad : weigh nonpositive xs ≡ 0
    all_threads : pos (weigh pos_part xs) ≡ total 0 cs
    size : weigh one xs ≡ length cs

  asked-Facts :
      (ctx : CoreCtx) (i : ℕ) (ms : List (Member D)) (cs : List (CoreCounters D))
      → length cs ≡ length ms
      → AllFit ctx 0 cs
      → Facts (asked i ms cs) cs
  unfolding asked copy_processes weigh nonpositive one total
  asked-Facts ctx i [] [] h f = record { none_bad = refl; all_threads = refl; size = refl }
  asked-Facts ctx i [] (c ∷ cs) h f = absurd (omega arith)
  asked-Facts ctx i (m ∷ ms) [] h f = absurd (omega arith)
  asked-Facts ctx i (m ∷ ms) (c ∷ cs) h f =
      let r = asked-Facts ctx (i + 1) ms cs (omega arith) f.1 in
      let here : ltb_ℤ (pos 0) (c.num_threads 0) ≡ true = ground (arith, f.0.0) in
      record {
        none_bad = rw here (omega (arith, r.none_bad));
        all_threads =
            let number : c.num_threads 0 ≡ pos (pos_part (c.num_threads 0)) =
              eq_of_parts _ _ (ground (arith, f.0.0, parts_apart (c.num_threads 0))) in
            omega (
              int_laws,
              ap pos_part r.all_threads,
              ap neg_part r.all_threads,
              ap pos_part number,
              ap neg_part number,
            );
        size = omega (arith, r.size);
      }

  -- If the computation of the thread counts succeeds on processes of the node, and gives out exactly
  -- as many threads as the node has cores, then the placement of the processes succeeds: the fatal
  -- error of the decision tree is not reached. The sorting of the processes is any permutation.
  pub distribution-placed :
      (doubles : Doubles D) (machine : CoreCtx) (tree : TreeCtx) (pool : Pool)
      (sort : List TreeProcess → List TreeProcess) (ms : List (Member D))
      (cs : List (CoreCounters D))
      → ((ps : List TreeProcess) → Perm (sort ps) ps)
      → 0 < machine.num_cores_per_socket
      → machine.num_cores < 2_147_483_648
      → machine.num_cores ≡ tree.num_sockets * tree.num_cores_per_socket
      → tree.num_cores_per_socket ≡ machine.num_cores_per_socket
      → tree.num_processes ≡ length ms
      → 0 < length ms
      → compute_new_threads_distribution doubles machine (map (λ m. m.counters) ms) ≡ some cs
      → total 0 cs ≡ pos machine.num_cores
      → compute_placement sort tree pool (prepared ms cs) ≢ none
  unfolding asked one
  distribution-placed doubles machine tree pool sort ms cs perm hc range cores per size some_one e
        exact =
      let (fit, enough) = distribution-total doubles machine (map (λ m. m.counters) ms) cs e in
      let same_size : length cs ≡ length ms =
        length-distribution doubles machine (map (λ m. m.counters) ms) cs e ∙ length-map ms in
      let facts = asked-Facts machine 0 ms cs same_size fit in
      let reorder =
        Perm.map (λ (p : TreeProcess). p.num_threads) (perm (copy_processes 0 (prepared ms cs))) in
      let r =
        weigh-Positive (threads (sort (copy_processes 0 (prepared ms cs))))
          (Perm-weigh nonpositive reorder ∙ facts.none_bad) in
      let all : sum r.ts ≡ machine.num_cores =
        r.same_sum ∙ Perm-weigh pos_part reorder ∙ ap pos_part (facts.all_threads ∙ exact) in
      let count : length r.ts ≡ length ms =
        r.same_length ∙ Perm-weigh one reorder ∙ facts.size ∙ same_size in
      let q : Asks sort tree (prepared ms cs) r.ts = record {
        perm = perm (copy_processes 0 (prepared ms cs));
        asks = r.numbers;
        size = count ∙ sym size;
        cores = omega arith;
        range = omega arith;
      } in
      placement_total q pool r.positive (omega arith) (all ∙ cores)
