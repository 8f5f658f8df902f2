-- ===== src/Core/Adjust/Tests.antt =====
-- The fit of threads to cores on small sockets.
use sabo.Base.{
  ◌<ℤ◌, ◌≡◌, refl, List, [], ◌∷◌, arith, Option, none, some, ℤ, pos, negsuc, ◌+ℤ◌, ◌-ℤ◌, map,
}
use mathlib.Core.Option
use sabo.Process.{CoreProcess}
use sabo.Core.Adjust.{
  SocketData, adjust_list_num_threads, take_loop, give_loop, take_round, give_round,
}
use sabo.Core.Adjust.Spread.{Spread, adjust_list_spreads}
use sabo.Core.Adjust.Rounds.{threads}
use sabo.Core.Adjust.Stuck.{adjust_list_hangs}

abbrev process : ℤ → ℤ → CoreProcess
process rank threads = record {
  node_rank = rank;
  world_rank = rank;
  socket_id = pos 0;
  num_threads = threads;
  prev_socket_id = pos 0;
  prev_num_threads = threads;
}

-- Two processes of three threads on a socket of three cores.
abbrev overloaded : SocketData
overloaded = record {
  num_free_cores = negsuc 2;
  processes = process (pos 0) (pos 3) ∷ process (pos 1) (pos 3) ∷ [];
}

threads_of : Option SocketData → Option (ℤ × List ℤ)
threads_of = Option.map (λ d. (d.num_free_cores, map (λ p. p.num_threads) d.processes))

overloaded_run :
    threads_of (adjust_list_num_threads 5 overloaded) ≡ some (negsuc 0, pos 2 ∷ pos 2 ∷ [])
unfolding threads_of adjust_list_num_threads take_loop give_loop take_round give_round ◌+ℤ◌ ◌-ℤ◌
overloaded_run = refl

adjust_list_spreads_example :
    (r : SocketData) × (adjust_list_num_threads 5 overloaded ≡ some r) × Spread overloaded r
adjust_list_spreads_example =
    adjust_list_spreads 5 2 overloaded (omega arith) (omega arith, (omega arith, tt)) (omega arith)
      (omega arith)

-- One thread and three threads on a socket of three cores, and a socket of cores only.
adjust_list_hangs_example :
    (pos 1 ≡ pos 1
      → negsuc 0 <ℤ pos 0
      → adjust_list_num_threads 100 (record {
        num_free_cores = negsuc 0;
        processes = process (pos 0) (pos 1) ∷ process (pos 1) (pos 3) ∷ [];
      })
        ≡ none)
    × (pos 0 <ℤ negsuc 0
        → adjust_list_num_threads 100 (record { num_free_cores = negsuc 0; processes = [] }) ≡ none)
adjust_list_hangs_example =
    adjust_list_hangs 100 (process (pos 0) (pos 1)) (process (pos 1) (pos 3) ∷ []) (negsuc 0)

abbrev three : SocketData
three = record {
  num_free_cores = pos 0;
  processes = process (pos 4) (pos 3) ∷ process (pos 5) (pos 2) ∷ process (pos 7) (pos 1) ∷ [];
}
