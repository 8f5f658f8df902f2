-- ===== src/Core/Balance.antt =====
-- core/sabo.c, lines 719-766 and 788-836: the cores of the calling process, and a whole balancing
-- step. `none` is a failed assertion, the fatal error of the placement, an access out of an array,
-- or a loop that does not end within the fuel. The array of a socket holds pointers to the processes,
-- so what the adjustment writes there is written back by rank. Clocks and log lines are left out.
mod Leaves
mod Cores
mod Placed
mod Weighs
mod Apart
mod Tests
use mathlib.Core.Option
use sabo.Base.{
  ℕ, zero, suc, ◌+◌, Bool, true, false, not, ◌&&◌, Option, none, some, List, [], ◌∷◌, map,
  get_elem?, set, write, if◌then◌else◌, ℤ, pos, pos_part, ltb, ltb_ℤ, eqb_ℤ, ◌+ℤ◌, ◌==◌,
}
use sabo.Process.{CoreProcess}
use sabo.DecisionTree.{TreeProcess, TreeCtx, Pool, compute_placement}
use sabo.Core.Adjust.{SocketData, set_threads, adjust_num_threads, compute_first_core_id}
use sabo.Core.Steps.{Doubles, CoreCounters, CoreCtx, compute_new_threads_distribution}
use sabo.Core.Dispatch.{prepare_process, dispatch_processes, skip_compute}
use sabo.Core.Context.{Member, Binding, Context, Comm, init_context}
use sabo.Core.Exchange.{Casts, exchange_process_step_data, estimate_speedup}
use sabo.Ompt.{OmptThreadsData, gather_ompt_counters, reset_ompt_data}

-- The environment, the C library's `qsort` with its three comparisons, the topology, the binding of
-- the threads, and the fuel of the adjustment. `socket_core_id` stands for the cores of a socket: for
-- another position the code fails an assertion or reads out of its table.
pub record Runtime : Type 0 where
  pub stepbal : ℤ
  pub periodic : Bool
  pub omp_num_threads : ℤ
  pub no_rebalance : Bool
  pub sort_tree : List TreeProcess → List TreeProcess
  pub sort_by_num_threads : List CoreProcess → List CoreProcess
  pub sort_by_rank : List CoreProcess → List CoreProcess
  pub socket_core_id : ℤ → ℤ → ℤ
  pub rebalance : Binding → Binding
  pub fuel : ℕ

module _ (runtime : Runtime) where
  -- Lines 744-749: the cores of a process that starts at the core `start` of its socket.
  unfoldable pub new_cores : CoreProcess → ℤ → Binding → Binding
  new_cores p start b = record b {
    new_core_id = λ i.
        if ltb i (pos_part p.num_threads)
        then runtime.socket_core_id p.socket_id (start +ℤ pos i)
        else b.new_core_id i;
  }

  -- Whether the placement is the one that the process has (lines 737-739).
  unfoldable pub nothing_to_do : CoreProcess → ℤ → Binding → Bool
  nothing_to_do p start b =
      eqb_ℤ p.num_threads p.prev_num_threads
      && eqb_ℤ (b.cur_core_id 0) start
      && eqb_ℤ p.socket_id p.prev_socket_id

  -- The sockets and the binding after `core_apply_new_placement`.
  unfoldable pub apply_new_placement :
      CoreProcess → List SocketData → Binding → Option (List SocketData × Binding)
  apply_new_placement p sockets b =
      let k = pos_part p.socket_id in
      if ltb_ℤ p.socket_id (pos 0) then none else elim (get_elem? sockets k) [
        | none ↦ none
        | some d ↦
            let d' = record d { processes = runtime.sort_by_rank d.processes } in
            let start = compute_first_core_id d' p.node_rank in
            let b' = new_cores p start b in
            some (
              set sockets k d',
              if nothing_to_do p start b
                  then b
                  else if runtime.no_rebalance
                  then b'
                  else runtime.rebalance b',
            )
      ]

-- The threads of the process of this rank on one of the sockets.
unfoldable pub threads_on : List CoreProcess → CoreProcess → CoreProcess
threads_on [] p = p
threads_on (q ∷ qs) p =
    let rest = threads_on qs p in
    if eqb_ℤ q.node_rank p.node_rank then set_threads p q.num_threads else rest

module _ {D : Type 0} where
  -- What the adjustment wrote through the pointers of the sockets.
  unfoldable pub written_back : List SocketData → Member D → Member D
  written_back [] m = m
  written_back (d ∷ ds) m = written_back ds (record m { place = threads_on d.processes m.place })

  abbrev pub with_counters : List (Member D) → List (CoreCounters D) → List (Member D)
  with_counters [] cs = []
  with_counters (m ∷ ms) [] = m ∷ ms
  with_counters (m ∷ ms) (c ∷ cs) = record m { counters = c } ∷ with_counters ms cs

  abbrev pub with_places : List (Member D) → List CoreProcess → List (Member D)
  with_places [] ps = []
  with_places (m ∷ ms) [] = m ∷ ms
  with_places (m ∷ ms) (p ∷ ps) = record m { place = p } ∷ with_places ms ps

  abbrev pub prepare_member : Member D → Member D
  prepare_member m = record m { place = prepare_process m.place (m.counters.num_threads 0) }

  abbrev pub modify : ℕ → (Member D → Member D) → List (Member D) → List (Member D)
  modify k f [] = []
  modify zero f (m ∷ ms) = f m ∷ ms
  modify (suc k) f (m ∷ ms) = m ∷ modify k f ms

  -- A write to `myprocess`.
  abbrev pub update_mine : (Member D → Member D) → Context D → Context D
  update_mine f st =
      if st.init_once
      then record st { processes = modify st.node_rank f st.processes }
      else record st { own = f st.own }

module _ {D : Type 0} (doubles : Doubles D) where
  -- `core_gather_ompt_counters` on `myprocess`.
  abbrev pub gather_own : Context D → Context D
  gather_own st =
      update_mine
        (λ m. record m {
          counters = record (m.counters) {
            elapsed =
                gather_ompt_counters doubles st.machine.num_cores st.machine.window st.step st.ompt
                  m.counters.elapsed;
          };
        })
        st

  -- From the label LEAVE on.
  abbrev pub leave : Context D → Context D
  leave st = record st {
    step = suc st.step;
    ompt = reset_ompt_data doubles st.machine.num_cores st.ompt;
  }

module _ {D : Type 0} (doubles : Doubles D) (casts : Casts D) (runtime : Runtime) where
  -- The new thread counts, placement and sockets, lines 814-823: the processes, the pool of the
  -- decision tree and the sockets after them.
  unfoldable pub place_processes :
      CoreCtx
      → ℕ
      → TreeCtx
      → Pool
      → List (Member D)
      → Option (List (Member D) × Pool × List SocketData)
  place_processes machine num_sockets tree pool ms =
      elim (compute_new_threads_distribution doubles machine (map (λ m. m.counters) ms)) [
        | none ↦ none
        | some cs ↦
            let prepared = map prepare_member (with_counters ms cs) in
            elim (compute_placement runtime.sort_tree tree pool (map (λ m. m.place) prepared)) [
              | none ↦ none
              | some (ps, pool') ↦
                  Option.map (λ sockets. (with_places prepared ps, pool', sockets))
                    (dispatch_processes runtime.sort_by_num_threads num_sockets
                      machine.num_cores_per_socket ps)
            ]
      ]

  -- What lines 814-829 change: the processes, the decision tree, the sockets and the binding.
  unfoldable pub new_placement :
      Context D → Option (List (Member D) × Option (TreeCtx × Pool) × List SocketData × Binding)
  new_placement st = elim st.tree [
    | none ↦ none
    | some (tree, pool) ↦ elim (place_processes st.machine st.num_sockets tree pool st.processes) [
      | none ↦ none
      | some (ms, pool', sockets) ↦ elim (adjust_num_threads runtime.fuel sockets) [
        | none ↦ none
        | some sockets' ↦
            let ms' = map (written_back sockets') ms in
            elim (get_elem? ms' st.node_rank) [
              | none ↦ none
              | some mine ↦
                  Option.map (λ (ds, b). (ms', some (tree, pool'), ds, b))
                    (apply_new_placement runtime mine.place sockets' st.binding)
            ]
      ]
    ]
  ]

  unfoldable pub rebalance_threads : Context D → Option (Context D)
  rebalance_threads st =
      Option.map
        (λ (ms, tree, ds, b). record st { processes = ms; tree = tree; sockets = ds; binding = b })
        (new_placement st)

  -- Lines 806-829, where the step is one of those that balance.
  unfoldable pub balance_now : Comm D → Context D → Option (Context D)
  balance_now comm st = elim (init_context doubles comm runtime.omp_num_threads st) [
    | none ↦ none
    | some st1 ↦ elim (get_elem? st1.processes st1.node_rank) [
      | none ↦ none
      | some mine ↦
          let ps =
            exchange_process_step_data doubles casts comm st1.machine.window mine st1.processes in
          let st2 = record st1 { processes = ps } in
          if estimate_speedup doubles casts st1.machine.window st1.node_rank ps
          then some st2
          else rebalance_threads st2
    ]
  ]

  -- `__sabo_omp_balanced__`; with a window of 0, a division by zero.
  unfoldable pub omp_balanced : Comm D → Context D → Option (Context D)
  omp_balanced comm st =
      let st1 = gather_own doubles st in
      if st.machine.window == 0
      then none
      else if not comm.is_initialized
      then some (leave doubles st1)
      else elim (skip_compute runtime.stepbal runtime.periodic st1.machine.window st1.step) [
        | none ↦ none
        | some true ↦ some (leave doubles st1)
        | some false ↦ Option.map (leave doubles) (balance_now comm st1)
      ]
