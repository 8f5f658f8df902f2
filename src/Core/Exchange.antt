-- ===== src/Core/Exchange.antt =====
-- core/sabo.c, lines 326-362 and 578-619: the counters of all processes, and whether a new
-- distribution of the threads is worth it.
pub mod Received
pub mod Speedup
use sabo.Base.{
  ℕ, zero, suc, ◌+◌, ◌-◌, ◌*◌, Bool, true, false, List, [], ◌∷◌, ltb, if◌then◌else◌, ◌==◌, ℤ, pos,
  ◌+ℤ◌,
}
use sabo.Core.Steps.{Doubles, CoreCounters}
use sabo.Core.Context.{Member, Context, Comm}

-- What the code does with doubles besides arithmetic: the conversion to `int`, the bytes of two `int`
-- read as a double, `fabs` and the constant SABO_REBALANCING_THRESHOLD. `behind` is what the memory
-- has behind an array of thread counts, as `int`.
pub record Casts (D : Type 0) : Type 0 where
  pub to_int : D → ℤ
  pub of_bytes : ℤ → ℤ → D
  pub behind : ℕ → ℤ
  pub abs : D → D
  pub threshold : D

module _ {D : Type 0} (doubles : Doubles D) (casts : Casts D) where
  abbrev pub with_elapsed : ℕ → (ℕ → D) → ℕ → Member D → Member D
  with_elapsed window buffer idx p = record p {
    counters = record (p.counters) {
      elapsed = λ j. if ltb j window then buffer (idx + j) else p.counters.elapsed j;
    };
  }

  abbrev pub with_num_threads : ℕ → (ℕ → D) → ℕ → Member D → Member D
  with_num_threads window buffer idx p = record p {
    counters = record (p.counters) {
      num_threads =
          λ j. if ltb j window then casts.to_int (buffer (idx + j)) else p.counters.num_threads j;
    };
  }

  -- Lines 344-350, with `idx` where the process starts in the buffer.
  unfoldable pub take_elapsed : ℕ → (ℕ → D) → ℕ → List (Member D) → List (Member D)
  take_elapsed window buffer idx [] = []
  take_elapsed window buffer idx (p ∷ ps) =
      with_elapsed window buffer idx p ∷ take_elapsed window buffer (idx + window) ps

  -- Lines 354-360.
  unfoldable pub take_num_threads : ℕ → (ℕ → D) → ℕ → List (Member D) → List (Member D)
  take_num_threads window buffer idx [] = []
  take_num_threads window buffer idx (p ∷ ps) =
      with_num_threads window buffer idx p ∷ take_num_threads window buffer (idx + window) ps

  -- `process` after the loop: its last process, or `p` where there is none.
  unfoldable pub last_process : Member D → List (Member D) → Member D
  last_process p [] = p
  last_process p (q ∷ qs) = last_process q qs

  -- The memory from the thread counts of a process on: `window` of them are allocated.
  abbrev pub memory_at : ℕ → (ℕ → ℤ) → ℕ → ℤ
  memory_at window num_threads k = if ltb k window then num_threads k else casts.behind (k - window)

  -- `(double*) process->counters.num_threads`, of which the exchange reads `window` doubles.
  abbrev pub as_doubles : ℕ → (ℕ → ℤ) → ℕ → D
  as_doubles window num_threads k =
      casts.of_bytes (memory_at window num_threads (2 * k))
        (memory_at window num_threads (2 * k + 1))

  -- `mine` is `myprocess`. The elapsed time of the exchange is left out.
  unfoldable pub exchange_process_step_data :
      Comm D → ℕ → Member D → List (Member D) → List (Member D)
  exchange_process_step_data comm window mine ps =
      let ps' = take_elapsed window (comm.allgather 0 mine.counters.elapsed) 0 ps in
      let process = last_process mine ps' in
      take_num_threads window (comm.allgather 1 (as_doubles window process.counters.num_threads)) 0
        ps'

  -- The sums of `core_estimate_speedup`.
  pub record Sums : Type 0 where
    pub proc_num_threads : ℤ
    pub total_num_threads : ℤ
    pub total_time : D
    pub proc_time : D

  -- Lines 594-600, where `mine` says whether the process is the calling one.
  unfoldable pub add_times : Bool → (ℕ → D) → ℕ → ℕ → Sums → Sums
  add_times mine elapsed step zero s = s
  add_times mine elapsed step (suc n) s = add_times mine elapsed (step + 1) n (record s {
    total_time = doubles.add s.total_time (elapsed step);
    proc_time = if mine then doubles.add s.proc_time (elapsed step) else s.proc_time;
  })

  unfoldable pub add_process_sums : ℕ → Bool → Member D → Sums → Sums
  add_process_sums window mine p s = add_times mine p.counters.elapsed 0 window (record s {
    total_num_threads = s.total_num_threads +ℤ p.place.num_threads;
    proc_num_threads =
        if mine then s.proc_num_threads +ℤ p.place.num_threads else s.proc_num_threads;
  })

  unfoldable pub speedup_loop : ℕ → ℕ → ℕ → List (Member D) → Sums → Sums
  speedup_loop window rank i [] s = s
  speedup_loop window rank i (p ∷ ps) s =
      speedup_loop window rank (i + 1) ps (add_process_sums window (i == rank) p s)

  abbrev pub no_sums : Sums
  no_sums = record {
    proc_num_threads = pos 0;
    total_num_threads = pos 0;
    total_time = doubles.of_int (pos 0);
    proc_time = doubles.of_int (pos 0);
  }

  -- Whether the rebalancing is cancelled.
  unfoldable pub close_gains : Sums → Bool
  close_gains s =
      let gain_proc = doubles.div s.proc_time (doubles.of_int s.proc_num_threads) in
      let gain_tot = doubles.div s.total_time (doubles.of_int s.total_num_threads) in
      doubles.lt (casts.abs (doubles.sub gain_tot gain_proc)) (doubles.mul gain_tot casts.threshold)

  unfoldable pub estimate_speedup : ℕ → ℕ → List (Member D) → Bool
  estimate_speedup window rank ps = close_gains (speedup_loop window rank 0 ps no_sums)
