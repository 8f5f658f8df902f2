-- ===== src/Core/Adjust/Stuck.antt =====
-- `core_adjust_list_num_threads` where a loop changes nothing and does not end.
use sabo.Base.{
  ℕ, zero, suc, ◌≡◌, refl, List, [], ◌∷◌, arith, none, ℤ, pos, ◌<ℤ◌, ltb_ℤ, eqb_ℤ, true, false,
}
use sabo.Process.{CoreProcess}
use sabo.Core.Adjust.{take_loop, give_loop, adjust_list_num_threads, take_round, give_round}

take_loop-stuck :
    (fuel : ℕ) (p : CoreProcess) (ps : List CoreProcess) (free : ℤ)
    → p.num_threads ≡ pos 1
    → free <ℤ pos 0
    → take_loop fuel (p ∷ ps) free ≡ none
unfolding take_loop take_round
take_loop-stuck zero p ps free one h = refl
take_loop-stuck (suc fuel) p ps free one h =
    let e : ltb_ℤ free (pos 0) ≡ true = ground arith in
    let one' : eqb_ℤ (pos 1) p.num_threads ≡ true = ground arith in
    rw (one', e) (take_loop-stuck fuel p ps free one h)

give_loop-stuck : (fuel : ℕ) (free : ℤ) → pos 0 <ℤ free → give_loop fuel [] free ≡ none
unfolding give_loop give_round
give_loop-stuck zero free h = refl
give_loop-stuck (suc fuel) free h =
    let e : ltb_ℤ (pos 0) free ≡ true = ground arith in rw e (give_loop-stuck fuel free h)

empty_hangs :
    (fuel : ℕ) (free : ℤ)
    → pos 0 <ℤ free
    → adjust_list_num_threads fuel (record { num_free_cores = free; processes = [] }) ≡ none
unfolding adjust_list_num_threads take_loop
empty_hangs zero free h = refl
empty_hangs (suc fuel) free h =
    let e : ltb_ℤ free (pos 0) ≡ false = ground arith in
    rw (adjust_list_num_threads, e, give_loop-stuck (suc fuel) free h) refl

-- No fuel is enough where threads are too many and the first process has one thread, nor where
-- cores are free on a socket without a process.
pub adjust_list_hangs :
    (fuel : ℕ) (p : CoreProcess) (ps : List CoreProcess) (free : ℤ)
    → (p.num_threads ≡ pos 1
        → free <ℤ pos 0
        → adjust_list_num_threads fuel (record { num_free_cores = free; processes = p ∷ ps })
          ≡ none)
      × (pos 0 <ℤ free
          → adjust_list_num_threads fuel (record { num_free_cores = free; processes = [] }) ≡ none)
unfolding adjust_list_num_threads
adjust_list_hangs fuel p ps free = (
  λ one h. rw (adjust_list_num_threads, take_loop-stuck fuel p ps free one h) refl,
  λ h. empty_hangs fuel free h,
)
