-- ===== src/Ompt.antt =====
-- ompt/sabo_ompt.c: the callbacks that measure the time of the threads in parallel regions, and
-- core/sabo.c, lines 755-779: the sum of the times of a step. The time and the number of the
-- thread, which the code asks the runtime for, are arguments; `none` is a failed assertion. The
-- flag against reentrance is one for each thread.
mod Regions
mod Tests
use sabo.Base.{
  write, ℕ, zero, suc, ◌+◌, ◌%◌, Bool, true, false, not, ◌||◌, Option, none, some, ◌==◌,
  if◌then◌else◌, ltb, pos,
}
use sabo.Core.Steps.{Doubles}

pub record OmptThreadsData (D : Type 0) : Type 0 where
  pub start : D
  pub elapsed : ℕ → D
  pub num_calls : ℕ

pub record OmptState (D : Type 0) : Type 0 where
  pub ompt_data : OmptThreadsData D
  pub reenter : ℕ → Bool

-- `ompt_state_overhead`
abbrev pub state_overhead : ℕ
state_overhead = 257

module _ {D : Type 0} (doubles : Doubles D) where
  abbrev pub set_reenter : ℕ → Bool → OmptState D → OmptState D
  set_reenter tid b st = record st { reenter = write st.reenter tid b }

  -- `elapsed[tid] += now - start`
  abbrev pub add_elapsed : ℕ → D → OmptState D → OmptState D
  add_elapsed tid now st = record st {
    ompt_data = record (st.ompt_data) {
      elapsed =
          write st.ompt_data.elapsed tid
            (doubles.add (st.ompt_data.elapsed tid) (doubles.sub now st.ompt_data.start));
    };
  }

  unfoldable pub on_ompt_callback_sync_region : ℕ → ℕ → ℕ → D → OmptState D → OmptState D
  on_ompt_callback_sync_region kind thread_state tid now st =
      if st.reenter tid
      then st
      else (let entered = set_reenter tid true st in
          let added =
            if not ((kind == 2) || (kind == 9))
            then entered
            else if not (thread_state == state_overhead)
            then entered
            else if tid == 0
            then entered
            else add_elapsed tid now entered in
          set_reenter tid false added)

  unfoldable pub on_ompt_callback_parallel_begin : ℕ → D → OmptState D → Option (OmptState D)
  on_ompt_callback_parallel_begin tid now st =
      if st.reenter tid
      then some st
      else if not (tid == 0)
      then none
      else some (
          set_reenter tid false (record st {
            ompt_data = record (st.ompt_data) {
              start = now;
              num_calls = st.ompt_data.num_calls + 1;
            };
            reenter = write st.reenter tid true;
          }))

  -- `balanced` is `sabo_omp_balanced`, which runs where `implicit_balancing` is enabled.
  unfoldable pub on_ompt_callback_parallel_end :
      (OmptState D → OmptState D) → Bool → ℕ → D → OmptState D → Option (OmptState D)
  on_ompt_callback_parallel_end balanced implicit_balancing tid now st =
      if st.reenter tid
      then some st
      else if not (tid == 0)
      then none
      else (let ended = record st {
        ompt_data = record (st.ompt_data) {
          elapsed = write st.ompt_data.elapsed 0 (doubles.sub now st.ompt_data.start);
        };
        reenter = write st.reenter tid true;
      } in
          some (set_reenter tid false (if implicit_balancing then balanced ended else ended)))

  sum_loop : (ℕ → D) → ℕ → ℕ → D → D
  sum_loop elapsed i zero sum = sum
  sum_loop elapsed i (suc n) sum = sum_loop elapsed (i + 1) n (doubles.add sum (elapsed i))

  -- The times of the steps after the sum is written.
  unfoldable pub gather_ompt_counters : ℕ → ℕ → ℕ → OmptThreadsData D → (ℕ → D) → ℕ → D
  unfolding sum_loop
  gather_ompt_counters num_cores window step d counters =
      write counters (step % window) (sum_loop d.elapsed 0 num_cores (doubles.of_int (pos 0)))

  unfoldable pub reset_ompt_data : ℕ → OmptThreadsData D → OmptThreadsData D
  reset_ompt_data num_cores d = record d {
    elapsed = λ i. if ltb i num_cores then doubles.of_int (pos 0) else d.elapsed i;
  }
