-- ===== src/Ompt/Tests.antt =====
-- Two parallel regions, with times in whole numbers for `double`.
use sabo.Base.{◌≡◌, refl, List, [], ◌∷◌, false, ℤ, pos, ◌+ℤ◌, ◌-ℤ◌, ltb_ℤ}
use sabo.Core.Steps.{Doubles}
use sabo.Ompt.{OmptState, gather_ompt_counters, sum_loop}
use sabo.Ompt.Regions.{Region, total_time, last_time}

abbrev whole : Doubles ℤ
whole = record {
  of_int = λ n. n;
  floor = λ n. n;
  add = λ a b. a +ℤ b;
  sub = λ a b. a -ℤ b;
  mul = λ a b. a;
  div = λ a b. a;
  lt = ltb_ℤ;
}

abbrev fresh : OmptState ℤ
fresh = record {
  ompt_data = record { start = pos 0; elapsed = λ _. pos 0; num_calls = 0 };
  reenter = λ _. false;
}

abbrev two_regions : List (Region ℤ)
two_regions =
    record { began = pos 10; waits = pos 14 ∷ []; ended = pos 15 }
    ∷ record { began = pos 20; waits = pos 21 ∷ pos 22 ∷ []; ended = pos 23 }
    ∷ []

-- The worker has 4 + (1 + 2), the master 3 and not 5 + 3.
times-two_regions :
    (total_time whole 1 (pos 0) two_regions ≡ pos 7)
    × (last_time whole 1 (pos 0) two_regions ≡ pos 3)
unfolding ◌+ℤ◌ ◌-ℤ◌
times-two_regions = (refl, refl)

-- A step of two threads is the sum of their times.
sum-two_threads :
    gather_ompt_counters whole 2 3 7
      (record { start = pos 0; elapsed = λ i. pos 5; num_calls = 0 })
      (λ _. pos 0)
      1
    ≡ pos 10
unfolding gather_ompt_counters sum_loop ◌+ℤ◌
sum-two_threads = refl
