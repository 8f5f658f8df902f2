-- ===== src/Core/Steps/Tests.antt =====
-- Three processes on a node of one socket, with fixed-point numbers of three decimals for `double`.
use sabo.Base.{
  ℕ, ◌*◌, ◌/◌, ◌+◌, ◌≡◌, refl, List, [], ◌∷◌, map, Option, none, some, ℤ, pos, negsuc, pos_part,
  ◌+ℤ◌, ◌-ℤ◌, ◌≤ℤ◌, ltb_ℤ,
}
use mathlib.Core.Option
use sabo.Core.Steps.{
  Doubles, CoreCounters, CoreCtx, compute_step_sum, takes_over, search_loop, search_step_max_delta,
  update_step_process_counters, update_loop, update_step_processes_counters, one_more, give_one,
  dispatch_loop, dispatch_unused_cores, step_loop, compute_step_num_threads, avg_loop,
  compute_step_process_avg, average_loop, compute_average_step_num_threads,
  compute_new_threads_distribution,
}
use sabo.Core.Steps.Total.{AllFit, total, distribution-total}

abbrev whole : ℤ → ℤ
whole (pos n) = pos (n / 1000)
whole (negsuc n) = negsuc (n / 1000)

abbrev scaled : ℤ → ℤ
scaled (pos n) = pos (n * 1000)
scaled (negsuc n) = negsuc (n * 1000 + 999)

-- Products and quotients of numbers that are not negative.
abbrev pub fixed_point : Doubles ℤ
fixed_point = record {
  of_int = scaled;
  floor = whole;
  add = λ a b. a +ℤ b;
  sub = λ a b. a -ℤ b;
  mul = λ a b. pos (pos_part a * pos_part b / 1000);
  div = λ a b. pos (pos_part a * 1000 / pos_part b);
  lt = ltb_ℤ;
}

abbrev pub measured : ℕ → CoreCounters ℤ
measured time = record {
  delta = λ _. pos 0;
  elapsed = λ _. pos (time * 1000);
  num_threads = λ _. pos 0;
}

abbrev pub node : CoreCtx
node = record { num_cores = 4; num_cores_per_socket = 4; window = 1 }

unfoldable pub distribute : CoreCtx → List (CoreCounters ℤ) → Option (List (CoreCounters ℤ))
unfolding compute_step_sum takes_over search_loop search_step_max_delta update_step_process_counters
    update_loop update_step_processes_counters one_more give_one dispatch_loop dispatch_unused_cores
    step_loop compute_step_num_threads avg_loop compute_step_process_avg average_loop
    compute_average_step_num_threads compute_new_threads_distribution
distribute ctx ps = compute_new_threads_distribution fixed_point ctx ps

threads_of : Option (List (CoreCounters ℤ)) → Option (List ℤ)
threads_of = Option.map (map (λ p. p.num_threads 0))

-- The core that is left goes to the process with the larger remainder.
balanced_run :
    threads_of (distribute node (measured 10 ∷ measured 29 ∷ [])) ≡ some (pos 1 ∷ pos 3 ∷ [])
unfolding distribute threads_of ◌+ℤ◌ ◌-ℤ◌
balanced_run = refl

-- Two processes with little work get a thread each, and the node has one thread too many.
crowded_run :
    threads_of (distribute node (measured 1 ∷ measured 1 ∷ measured 18 ∷ []))
    ≡ some (pos 1 ∷ pos 1 ∷ pos 3 ∷ [])
unfolding distribute threads_of ◌+ℤ◌ ◌-ℤ◌
crowded_run = refl

abbrev pub or_empty : {A : Type 0} → Option (List A) → List A
or_empty none = []
or_empty (some xs) = xs

crowded : List (CoreCounters ℤ)
unfolding distribute
crowded = or_empty (distribute node (measured 1 ∷ measured 1 ∷ measured 18 ∷ []))

crowded-some :
    compute_new_threads_distribution fixed_point node (measured 1 ∷ measured 1 ∷ measured 18 ∷ [])
    ≡ some crowded
unfolding distribute crowded ◌+ℤ◌ ◌-ℤ◌
crowded-some = refl

distribution-total_example : AllFit node 0 crowded × (pos 4 ≤ℤ total 0 crowded)
distribution-total_example =
    distribution-total fixed_point node (measured 1 ∷ measured 1 ∷ measured 18 ∷ []) crowded
      crowded-some

-- Averages of one and of two threads, for four cores.
abbrev asking : List (CoreCounters ℤ)
asking =
    record { delta = λ _. pos 0; elapsed = λ _. pos 0; num_threads = λ _. pos 1 }
    ∷ record { delta = λ _. pos 0; elapsed = λ _. pos 0; num_threads = λ _. pos 2 }
    ∷ []

averages : Option (List (CoreCounters ℤ) × ℤ)
unfolding average_loop compute_step_process_avg avg_loop
averages = average_loop fixed_point node (pos 0) asking

averaged : List (CoreCounters ℤ)
averaged = or_empty (Option.map (λ r. r.0) averages)

averaged-some : average_loop fixed_point node (pos 0) asking ≡ some (averaged, pos 3)
unfolding averages averaged ◌+ℤ◌ ◌-ℤ◌
averaged-some = refl

dispatched : List (CoreCounters ℤ)
unfolding distribute
dispatched = or_empty (compute_average_step_num_threads fixed_point node asking)

dispatched-some : compute_average_step_num_threads fixed_point node asking ≡ some dispatched
unfolding distribute dispatched ◌+ℤ◌ ◌-ℤ◌
dispatched-some = refl
