-- ===== src/Ompt/Regions.antt =====
-- ompt/sabo_ompt.c: the times of a sequence of parallel regions.
use sabo.Base.{write, ℕ, ◌+◌, ◌≡◌, true, false, Option, none, some, List, [], ◌∷◌}
use sabo.Core.Steps.{Doubles}
use sabo.Ompt.{
  OmptState, state_overhead, set_reenter, add_elapsed, on_ompt_callback_sync_region,
  on_ompt_callback_parallel_begin, on_ompt_callback_parallel_end,
}

-- A region: when it begins, when the worker is seen to wait at a barrier (each callback of a sync
-- region in the state of overhead, which there may be any number of), and when it ends.
pub record Region (D : Type 0) : Type 0 where
  pub began : D
  pub waits : List D
  pub ended : D

module _ {D : Type 0} (doubles : Doubles D) (worker : ℕ) where
  -- The callbacks of the worker at barriers.
  abbrev pub run_barriers : List D → OmptState D → OmptState D
  run_barriers [] st = st
  run_barriers (w ∷ ws) st =
      run_barriers ws (on_ompt_callback_sync_region doubles 2 state_overhead worker w st)

  -- The callbacks of a region, without implicit balancing.
  abbrev pub run_region : Region D → OmptState D → Option (OmptState D)
  run_region r st = elim (on_ompt_callback_parallel_begin doubles 0 r.began st) [
    | none ↦ none
    | some st1 ↦
        on_ompt_callback_parallel_end doubles (λ s. s) false 0 r.ended (run_barriers r.waits st1)
  ]

  abbrev pub run_regions : List (Region D) → OmptState D → Option (OmptState D)
  run_regions [] st = some st
  run_regions (r ∷ rs) st = elim (run_region r st) [ none ↦ none | some st' ↦ run_regions rs st' ]

  -- The time from the beginning of a region to each of its barriers, on top of `t`.
  abbrev pub barrier_time : D → D → List D → D
  barrier_time began t [] = t
  barrier_time began t (w ∷ ws) = barrier_time began (doubles.add t (doubles.sub w began)) ws

  -- The time of all regions, on top of `t`.
  abbrev pub total_time : D → List (Region D) → D
  total_time t [] = t
  total_time t (r ∷ rs) = total_time (barrier_time r.began t r.waits) rs

  -- The time of the last region, or `t` where there is none.
  abbrev pub last_time : D → List (Region D) → D
  last_time t [] = t
  last_time t (r ∷ rs) = last_time (doubles.sub r.ended r.began) rs

  -- What a region leaves.
  record Ran (r : Region D) (st st' : OmptState D) : Type 0 where
    master : st'.ompt_data.elapsed 0 ≡ doubles.sub r.ended r.began
    other :
        st'.ompt_data.elapsed worker ≡ barrier_time r.began (st.ompt_data.elapsed worker) r.waits
    idle_master : st'.reenter 0 ≡ false
    idle_worker : st'.reenter worker ≡ false

  -- The states after each callback of a region, where no other callback is running.
  abbrev begun : D → OmptState D → OmptState D
  begun now st = set_reenter doubles 0 false (record st {
    ompt_data = record (st.ompt_data) { start = now; num_calls = st.ompt_data.num_calls + 1 };
    reenter = write st.reenter 0 true;
  })

  abbrev at_barrier : D → OmptState D → OmptState D
  at_barrier now st =
      set_reenter doubles worker false
        (add_elapsed doubles worker now (set_reenter doubles worker true st))

  abbrev over : D → OmptState D → OmptState D
  over now st = set_reenter doubles 0 false (record st {
    ompt_data = record (st.ompt_data) {
      elapsed = write st.ompt_data.elapsed 0 (doubles.sub now st.ompt_data.start);
    };
    reenter = write st.reenter 0 true;
  })

  -- What the barriers of a region leave.
  record Waited (ws : List D) (st st' : OmptState D) : Type 0 where
    start : st'.ompt_data.start ≡ st.ompt_data.start
    time :
        st'.ompt_data.elapsed worker
        ≡ barrier_time st.ompt_data.start (st.ompt_data.elapsed worker) ws
    idle_master : st'.reenter 0 ≡ false
    idle_worker : st'.reenter worker ≡ false
