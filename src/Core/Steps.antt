-- ===== src/Core/Steps.antt =====
-- core/sabo.c, lines 378-576: how many threads each process should have, from the times of the last
-- steps. `D` is the C type `double`, with its operations as the parameter `Doubles`. `none` is a
-- failed assertion. Arrays indexed by a step are functions; the array of processes is a list.
pub mod Total
pub mod Sizes
pub mod Tests
use sabo.Base.{
  write, ℕ, zero, suc, ◌+◌, Bool, true, false, Option, none, some, List, [], ◌∷◌, length, get_elem?,
  set, if◌then◌else◌, ◌==◌, ℤ, pos, negsuc, pos_part, ◌+ℤ◌, ◌-ℤ◌, ltb_ℤ, eqb_ℤ,
}
use mathlib.Core.Option

-- What the code uses of `double`; `floor` is `(int) floor(x)` and `of_int` the cast.
pub record Doubles (D : Type 0) : Type 0 where
  pub of_int : ℤ → D
  pub floor : D → ℤ
  pub add : D → D → D
  pub sub : D → D → D
  pub mul : D → D → D
  pub div : D → D → D
  pub lt : D → D → Bool

-- `struct core_counters`
pub record CoreCounters (D : Type 0) : Type 0 where
  pub delta : ℕ → D
  pub elapsed : ℕ → D
  pub num_threads : ℕ → ℤ

-- The fields of `struct core_ctx` that the computation reads.
pub record CoreCtx : Type 0 where
  pub num_cores : ℕ
  pub num_cores_per_socket : ℕ
  pub window : ℕ

module _ {D : Type 0} (doubles : Doubles D) where
  unfoldable pub compute_step_sum : ℕ → D → List (CoreCounters D) → D
  compute_step_sum step sum [] = sum
  compute_step_sum step sum (p ∷ ps) = compute_step_sum step (doubles.add sum (p.elapsed step)) ps

  -- Whether `p` takes the place of the process `m` found before it.
  unfoldable pub takes_over : ℕ → CoreCounters D → CoreCounters D → Bool
  takes_over idx m p =
      if doubles.lt (p.delta idx) (m.delta idx)
      then false
      else if doubles.lt (m.delta idx) (p.delta idx)
      then true
      else if ltb_ℤ (m.num_threads idx) (p.num_threads idx)
      then false
      else true

  -- The loop: `m` stands at `best` and the next process at `i`.
  unfoldable pub search_loop : ℕ → ℕ → CoreCounters D → ℕ → List (CoreCounters D) → ℕ
  search_loop idx best m i [] = best
  search_loop idx best m i (p ∷ ps) =
      let stay = search_loop idx best m (i + 1) ps in
      let move = search_loop idx i p (i + 1) ps in if takes_over idx m p then move else stay

  -- The position of the process found. There is always one: the process itself.
  unfoldable pub search_step_max_delta : ℕ → List (CoreCounters D) → ℕ
  search_step_max_delta idx [] = 0
  search_step_max_delta idx (p ∷ ps) = search_loop idx 0 p 1 ps

  unfoldable pub update_step_process_counters : CoreCtx → ℕ → D → CoreCounters D → CoreCounters D
  update_step_process_counters ctx step sum p =
      let tmp =
        doubles.mul (doubles.div (p.elapsed step) sum) (doubles.of_int (pos ctx.num_cores)) in
      let n = doubles.floor tmp in
      let delta = doubles.sub tmp (doubles.of_int n) in
      let n1 = if eqb_ℤ (pos 0) n then n +ℤ pos 1 else n in
      let delta1 = if eqb_ℤ (pos 0) n then doubles.of_int (pos 0) else delta in
      let cap = ltb_ℤ (pos ctx.num_cores_per_socket) n1 in
      record p {
        num_threads = write p.num_threads step (if cap then pos ctx.num_cores_per_socket else n1);
        delta = write p.delta step (if cap then doubles.of_int (negsuc 0) else delta1);
      }

  -- The processes updated, and the threads given to them.
  unfoldable pub update_loop :
      CoreCtx → ℕ → D → ℤ → List (CoreCounters D) → List (CoreCounters D) × ℤ
  update_loop ctx step sum num_cores [] = ([], num_cores)
  update_loop ctx step sum num_cores (p ∷ ps) =
      let p' = update_step_process_counters ctx step sum p in
      let (ps', n) = update_loop ctx step sum (num_cores +ℤ p'.num_threads step) ps in (p' ∷ ps', n)

  unfoldable pub update_step_processes_counters :
      CoreCtx → ℕ → List (CoreCounters D) → List (CoreCounters D) × ℤ
  update_step_processes_counters ctx step ps =
      update_loop ctx step (compute_step_sum step (doubles.of_int (pos 0)) ps) (pos 0) ps

  -- One more thread for a process, lines 484-492.
  unfoldable pub one_more : CoreCtx → ℕ → CoreCounters D → Option (CoreCounters D)
  one_more ctx step p =
      let n = p.num_threads step +ℤ pos 1 in
      let over = ltb_ℤ (pos ctx.num_cores_per_socket) n in
      if over
      then none
      else some (record p {
        delta =
            write p.delta step (if over then doubles.of_int (negsuc 0) else doubles.of_int (pos 0));
        num_threads = write p.num_threads step n;
      })

  unfoldable pub give_one : CoreCtx → ℕ → List (CoreCounters D) → Option (List (CoreCounters D))
  give_one ctx step ps =
      let k = search_step_max_delta step ps in
      elim (get_elem? ps k) [
        | none ↦ none
        | some p ↦ Option.map (λ p'. set ps k p') (one_more ctx step p)
      ]

  unfoldable pub dispatch_loop :
      CoreCtx → ℕ → ℕ → List (CoreCounters D) → Option (List (CoreCounters D))
  dispatch_loop ctx step zero ps = some ps
  dispatch_loop ctx step (suc n) ps = elim (give_one ctx step ps) [
    | none ↦ none
    | some ps' ↦ dispatch_loop ctx step n ps'
  ]

  -- The loop does not run where `remaining` is negative.
  unfoldable pub dispatch_unused_cores :
      CoreCtx → ℤ → ℕ → List (CoreCounters D) → Option (List (CoreCounters D))
  dispatch_unused_cores ctx remaining step ps = dispatch_loop ctx step (pos_part remaining) ps

  unfoldable pub step_loop :
      CoreCtx → ℕ → ℕ → List (CoreCounters D) → Option (List (CoreCounters D))
  step_loop ctx i zero ps = some ps
  step_loop ctx i (suc n) ps =
      let (ps', given) = update_step_processes_counters ctx i ps in
      elim (dispatch_unused_cores ctx (pos ctx.num_cores -ℤ given) i ps') [
        | none ↦ none
        | some ps'' ↦ step_loop ctx (i + 1) n ps''
      ]

  unfoldable pub compute_step_num_threads :
      CoreCtx → List (CoreCounters D) → Option (List (CoreCounters D))
  compute_step_num_threads ctx ps = step_loop ctx 0 ctx.window ps

  unfoldable pub avg_loop : CoreCounters D → ℕ → ℕ → D → D
  avg_loop p i zero avg = avg
  avg_loop p i (suc n) avg =
      avg_loop p (i + 1) n (doubles.add avg (doubles.of_int (p.num_threads i)))

  unfoldable pub compute_step_process_avg : CoreCtx → CoreCounters D → Option (CoreCounters D)
  compute_step_process_avg ctx p =
      let avg =
        doubles.div (avg_loop p 0 ctx.window (doubles.of_int (pos 0)))
          (doubles.of_int (pos ctx.window)) in
      let n = doubles.floor avg in
      let delta =
        if eqb_ℤ (pos ctx.num_cores_per_socket) n
        then doubles.of_int (negsuc 0)
        else doubles.sub avg (doubles.of_int n) in
      if ltb_ℤ (pos ctx.num_cores_per_socket) n
      then none
      else if ltb_ℤ (pos 0) n
      then some (record p { num_threads = write p.num_threads 0 n; delta = write p.delta 0 delta })
      else none

  -- The processes with their averages, and the threads given to them.
  unfoldable pub average_loop :
      CoreCtx → ℤ → List (CoreCounters D) → Option (List (CoreCounters D) × ℤ)
  average_loop ctx allocate [] = some ([], allocate)
  average_loop ctx allocate (p ∷ ps) = elim (compute_step_process_avg ctx p) [
    | none ↦ none
    | some p' ↦
        Option.map (λ (ps', n). (p' ∷ ps', n)) (average_loop ctx (allocate +ℤ p'.num_threads 0) ps)
  ]

  unfoldable pub compute_average_step_num_threads :
      CoreCtx → List (CoreCounters D) → Option (List (CoreCounters D))
  compute_average_step_num_threads ctx ps = elim (average_loop ctx (pos 0) ps) [
    | none ↦ none
    | some (ps', allocate) ↦ dispatch_unused_cores ctx (pos ctx.num_cores -ℤ allocate) 0 ps'
  ]

  unfoldable pub compute_new_threads_distribution :
      CoreCtx → List (CoreCounters D) → Option (List (CoreCounters D))
  compute_new_threads_distribution ctx ps = elim (compute_step_num_threads ctx ps) [
    | none ↦ none
    | some ps' ↦ compute_average_step_num_threads ctx ps'
  ]
