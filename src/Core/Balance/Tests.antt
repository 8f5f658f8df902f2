-- ===== src/Core/Balance/Tests.antt =====
-- core/sabo.c: a balancing step of two processes on a node of one socket of four cores.
use mathlib.Core.List.Perm
use sabo.Base.{
  ℕ, suc, ◌+◌, ◌*◌, ◌<◌, ◌≤◌, ◌≡◌, ◌≢◌, refl, true, false, none, some, List, [], ◌∷◌, map,
  get_elem?, ℤ, pos, negsuc, ◌+ℤ◌, ◌-ℤ◌, arith,
}
use sabo.Process.{CoreProcess}
use sabo.DecisionTree.{TreeCtx, compute_placement, init_nodes_list}
use sabo.Core.Adjust.{
  SocketData, compute_first_core_id, adjust_num_threads, adjust_list_num_threads, take_loop,
  give_loop, take_round,
}
use sabo.Core.Steps.{CoreCounters, compute_new_threads_distribution}
use sabo.Core.Steps.Tests.{fixed_point, measured, node, distribute, or_empty}
use sabo.Core.Steps.Total.{total}
use sabo.Core.Context.{Member, Binding, Context, Comm, core_init, init_process}
use sabo.Core.Exchange.{Casts, last_process, as_doubles, exchange_process_step_data}
use sabo.Core.Exchange.Received.{exchange-received}
use sabo.Core.Balance.{Runtime, new_cores, omp_balanced, gather_own, leave}
use sabo.Core.Balance.Leaves.{omp_balanced-Left}
use sabo.Core.Balance.Cores.{OnSocket}
use sabo.Core.Balance.Apart.{dispatched-apart}
use sabo.Core.Balance.Weighs.{weigh, of_rank}
use sabo.Core.Dispatch.{skip_compute, dispatch_processes, socket_loop, add_to_socket}
use sabo.Core.Balance.Placed.{prepared, distribution-placed}

abbrev member : ℕ → ℤ → Member ℤ
member time threads = record {
  place = record ((init_process fixed_point).place) { node_rank = pos 0; num_threads = threads };
  counters = measured time;
}

abbrev two : List (Member ℤ)
two = member 10 (pos 2) ∷ member 29 (pos 2) ∷ []

counted : List (CoreCounters ℤ)
unfolding distribute
counted = or_empty (distribute node (map (λ m. m.counters) two))

counted-some :
    compute_new_threads_distribution fixed_point node (map (λ m. m.counters) two) ≡ some counted
unfolding distribute counted ◌+ℤ◌ ◌-ℤ◌
counted-some = refl

abbrev one_socket : TreeCtx
one_socket = record { num_sockets = 1; num_cores_per_socket = 4; num_processes = 2 }

distribution-placed_example :
    compute_placement (λ ps. ps) one_socket init_nodes_list (prepared two counted) ≢ none
unfolding counted distribute ◌+ℤ◌ ◌-ℤ◌ total
distribution-placed_example =
    distribution-placed fixed_point node one_socket init_nodes_list (λ ps. ps) two counted
      (λ ps. Perm.refl ps) (omega arith) (omega arith) (omega arith) refl refl (omega arith)
      counted-some refl

-- A gather that returns what is sent, whoever reads it.
abbrev comm : Comm ℤ
comm = record {
  is_initialized = true;
  node_rank = 1;
  node_size = 2;
  world_rank_from_node_rank = λ i. pos (i + 10);
  allgather = λ n sent i. sent 0 +ℤ pos i;
}

abbrev casts : Casts ℤ
casts = record {
  to_int = λ x. x;
  of_bytes = λ a b. a;
  behind = λ k. pos 7;
  abs = λ x. x;
  threshold = pos 100;
}

abbrev runtime : Runtime
runtime = record {
  stepbal = pos 5;
  periodic = true;
  omp_num_threads = pos 2;
  no_rebalance = true;
  sort_tree = λ ps. ps;
  sort_by_num_threads = λ ps. ps;
  sort_by_rank = λ ps. ps;
  socket_core_id = λ s c. c;
  rebalance = λ b. b;
  fuel = 20;
}

abbrev started : Context ℤ
unfolding core_init
started = core_init fixed_point 1 4 1 false

exchange-received_example :
    (p' : Member ℤ) × (get_elem?
        (exchange_process_step_data fixed_point casts comm 1 (member 10 (pos 2)) two)
        1
      ≡ some p')
    × (p'.counters.elapsed 0 ≡ pos 10000 +ℤ pos (1 * 1 + 0))
    × (p'.counters.num_threads 0
        ≡ as_doubles fixed_point casts 1
            (last_process fixed_point casts (member 10 (pos 2)) two).counters.num_threads
            0
          +ℤ pos (1 * 1 + 0))
    × (p'.place ≡ (member 29 (pos 2)).place)
    × ((k : ℕ)
        → 1 ≤ 2 * k
        → as_doubles fixed_point casts 1
            (last_process fixed_point casts (member 10 (pos 2)) two).counters.num_threads
            k
          ≡ pos 7)
exchange-received_example =
    exchange-received fixed_point casts comm 1 1 0 (member 10 (pos 2)) (member 29 (pos 2)) two refl
      (omega arith)

abbrev after_step : Context ℤ
unfolding core_init
after_step = leave fixed_point (gather_own fixed_point started)

-- The first of five steps does not balance.
started-step : omp_balanced fixed_point casts runtime comm started ≡ some after_step
unfolding omp_balanced core_init skip_compute
started-step = refl

omp_balanced-Left_example :
    (after_step.step ≡ suc started.step)
    × (after_step.machine ≡ started.machine)
    × ((i : ℕ) → i < 4 → after_step.ompt.elapsed i ≡ pos 0)
unfolding core_init
omp_balanced-Left_example =
    omp_balanced-Left fixed_point casts runtime comm started after_step started-step

abbrev placed : ℤ → ℤ → CoreProcess
placed rank threads = record {
  node_rank = rank;
  world_rank = rank;
  socket_id = pos 0;
  num_threads = threads;
  prev_socket_id = pos 0;
  prev_num_threads = pos 1;
}

abbrev bound : Binding
bound = record { cur_core_id = λ _. negsuc 0; new_core_id = λ _. pos 0 }

abbrev two_placed : List CoreProcess
two_placed = placed (pos 0) (pos 3) ∷ placed (pos 1) (pos 3) ∷ []

-- The two threads too many are taken, one from each.
abbrev fitted_socket : SocketData
fitted_socket = record {
  num_free_cores = pos 0;
  processes = placed (pos 0) (pos 2) ∷ placed (pos 1) (pos 2) ∷ [];
}

two_placed-sent :
    dispatch_processes (λ ps. ps) 1 4 two_placed
    ≡ some (record { num_free_cores = negsuc 1; processes = two_placed } ∷ [])
unfolding dispatch_processes socket_loop add_to_socket ◌+ℤ◌ ◌-ℤ◌
two_placed-sent = refl

two_placed-fit :
    adjust_num_threads 20 (record { num_free_cores = negsuc 1; processes = two_placed } ∷ [])
    ≡ some (fitted_socket ∷ [])
unfolding adjust_num_threads adjust_list_num_threads take_loop give_loop take_round ◌+ℤ◌ ◌-ℤ◌
two_placed-fit = refl

two_placed-ranks : (rank : ℤ) → weigh (of_rank rank) two_placed ≤ 1
unfolding weigh
two_placed-ranks rank = ground arith

dispatched-apart_example :
    OnSocket 4 (compute_first_core_id fitted_socket (pos 0) +ℤ pos 1)
    × OnSocket 4 (compute_first_core_id fitted_socket (pos 1) +ℤ pos 0)
    × ((new_cores runtime
            (placed (pos 0) (pos 2))
            (compute_first_core_id fitted_socket (pos 0))
            bound).new_core_id
          1
        ≢ (new_cores runtime
              (placed (pos 1) (pos 2))
              (compute_first_core_id fitted_socket (pos 1))
              bound).new_core_id
            0)
dispatched-apart_example =
    dispatched-apart runtime 1 4 0 two_placed _ (fitted_socket ∷ []) fitted_socket [] [] []
      (placed (pos 0) (pos 2)) (placed (pos 1) (pos 2)) bound bound 1 0 (λ xs. Perm.refl xs)
      (λ xs. Perm.refl xs) (λ x y hx hy e. e)
      (omega arith, omega arith, (omega arith, omega arith, tt)) two_placed-ranks
      (omega arith, (omega arith, tt)) (omega arith) two_placed-sent two_placed-fit refl
      (omega arith) refl (omega arith) (omega arith)
