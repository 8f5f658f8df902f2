-- ===== src/Core/Context.antt =====
-- core/sabo.c: the context of a process (lines 40-61) and how it is made (lines 75-99, 116-202 and
-- 847-868), with `decision_tree_init` (common/decision_tree.c). The binding and the OpenMP
-- timers of `struct core_process` are used for the calling process only, and stand in the context.
-- Memory from `xzalloc` is zero, and freed memory is not accessed.
pub mod Made
use sabo.Base.{
  ℕ, zero, suc, ◌+◌, ◌*◌, Bool, true, false, Option, none, some, List, [], ◌∷◌, get_elem?, set, ltb,
  if◌then◌else◌, ℤ, pos, negsuc,
}
use mathlib.Core.Option
use sabo.Process.{CoreProcess}
use sabo.DecisionTree.{TreeCtx, Pool, init_nodes_list}
use sabo.Core.Adjust.{SocketData}
use sabo.Core.Steps.{Doubles, CoreCounters, CoreCtx}
use sabo.Ompt.{OmptThreadsData}

-- `struct core_process`: its placement and its counters.
pub record Member (D : Type 0) : Type 0 where
  pub place : CoreProcess
  pub counters : CoreCounters D

-- `struct sys_bind_data` of each thread.
pub record Binding : Type 0 where
  pub cur_core_id : ℕ → ℤ
  pub new_core_id : ℕ → ℤ

-- `struct core_ctx`; `sockets` is its `data`; `own` is `myprocess` until the array of processes is made, and `myprocess` is
-- the entry `node_rank` of the array from then on.
pub record Context (D : Type 0) : Type 0 where
  pub machine : CoreCtx
  pub num_sockets : ℕ
  pub implicit_balancing : Bool
  pub init_once : Bool
  pub node_rank : ℕ
  pub step : ℕ
  pub own : Member D
  pub processes : List (Member D)
  pub sockets : List SocketData
  pub tree : Option (TreeCtx × Pool)
  pub binding : Binding
  pub ompt : OmptThreadsData D

-- What the code asks the communication layer for.
pub record Comm (D : Type 0) : Type 0 where
  pub is_initialized : Bool
  pub node_rank : ℕ
  pub node_size : ℕ
  pub world_rank_from_node_rank : ℕ → ℤ
  pub allgather : ℕ → (ℕ → D) → ℕ → D  -- the n-th call of the step, and what is sent

module _ {D : Type 0} (doubles : Doubles D) where
  -- `xzalloc` of doubles
  abbrev pub zeros : ℕ → D
  zeros _ = doubles.of_int (pos 0)

  abbrev pub init_process : Member D
  init_process = record {
    place = record {
      node_rank = negsuc 0;
      world_rank = negsuc 0;
      socket_id = negsuc 0;
      num_threads = negsuc 0;
      prev_socket_id = negsuc 0;
      prev_num_threads = negsuc 0;
    };
    counters = record { delta = zeros; elapsed = zeros; num_threads = λ _. pos 0 };
  }

  abbrev pub fresh_ompt : OmptThreadsData D
  fresh_ompt = record { start = doubles.of_int (pos 0); elapsed = zeros; num_calls = 0 }

  -- `sabo_core_init`; the sizes are those that the topology and the environment give.
  unfoldable pub core_init : ℕ → ℕ → ℕ → Bool → Context D
  core_init num_sockets num_cores_per_socket window implicit = record {
    machine = record {
      num_cores = num_sockets * num_cores_per_socket;
      num_cores_per_socket = num_cores_per_socket;
      window = window;
    };
    num_sockets = num_sockets;
    implicit_balancing = implicit;
    init_once = false;
    node_rank = 0;
    step = 0;
    own = init_process;
    processes = [];
    sockets = [];
    tree = none;
    binding = record { cur_core_id = λ _. pos 0; new_core_id = λ _. pos 0 };
    ompt = fresh_ompt;
  }

  -- Lines 156-168, from process `i` on.
  unfoldable pub members : Comm D → ℤ → ℕ → ℕ → List (Member D)
  members comm omp_num_threads i zero = []
  members comm omp_num_threads i (suc n) =
      record init_process {
        place = record (init_process.place) {
          node_rank = pos i;
          world_rank = comm.world_rank_from_node_rank i;
          num_threads = omp_num_threads;
        };
      }
      ∷ members comm omp_num_threads (i + 1) n

  -- `decision_tree_init`: the context that there is stays.
  unfoldable pub decision_tree_init : ℕ → ℕ → ℕ → Option (TreeCtx × Pool) → Option (TreeCtx × Pool)
  decision_tree_init num_sockets num_cores_per_socket num_processes (some tree) = some tree
  decision_tree_init num_sockets num_cores_per_socket num_processes none = some (
    record {
      num_sockets = num_sockets;
      num_cores_per_socket = num_cores_per_socket;
      num_processes = num_processes;
    },
    init_nodes_list,
  )

  abbrev pub empty_sockets : ℕ → List SocketData
  empty_sockets zero = []
  empty_sockets (suc n) = record { num_free_cores = pos 0; processes = [] } ∷ empty_sockets n

  -- The first `n` entries of `from`, and what was in `to` behind them.
  abbrev pub copied : ℕ → (ℕ → D) → (ℕ → D) → ℕ → D
  copied n from to i = if ltb i n then from i else to i

  -- Lines 170-176 and 199, with `core_discover_placement`: what the calling process takes over.
  abbrev pub take_over : Context D → ℤ → Member D → Member D
  take_over st omp_num_threads p = record p {
    place = record (p.place) { socket_id = negsuc 0; num_threads = omp_num_threads };
    counters = record (p.counters) {
      elapsed = copied st.machine.window st.own.counters.elapsed p.counters.elapsed;
    };
  }

  -- Lines 145-201, where `p` is the process of the calling one in the new array.
  abbrev pub with_processes : Comm D → ℤ → Context D → Member D → Context D
  with_processes comm omp_num_threads st p = record st {
    init_once = true;
    node_rank = comm.node_rank;
    processes =
        set (members comm omp_num_threads 0 comm.node_size) comm.node_rank
          (take_over st omp_num_threads p);
    sockets = empty_sockets st.num_sockets;
    tree = decision_tree_init st.num_sockets st.machine.num_cores_per_socket comm.node_size st.tree;
    binding = record {
      cur_core_id = λ i. if ltb i st.machine.num_cores then negsuc 0 else pos 0;
      new_core_id = λ _. pos 0;
    };
    ompt = record fresh_ompt {
      elapsed = copied st.machine.window st.ompt.elapsed fresh_ompt.elapsed;
    };
  }

  -- `none` is an access out of the array of processes, or, where the window is longer than the number
  -- of cores, out of the times of the threads (line 174).
  unfoldable pub init_context : Comm D → ℤ → Context D → Option (Context D)
  init_context comm omp_num_threads st =
      let ps = members comm omp_num_threads 0 comm.node_size in
      if st.init_once
      then some st
      else if ltb st.machine.num_cores st.machine.window
      then none
      else Option.map (with_processes comm omp_num_threads st) (get_elem? ps comm.node_rank)
