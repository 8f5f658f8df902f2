-- ===== src/Lib.antt =====
-- SABO balances the OpenMP threads of the MPI processes of a node. Each process calls
-- `__sabo_omp_balanced__` (core/sabo.c) once for each step of the application. The call sums the
-- time that the OMPT callbacks (ompt/sabo_ompt.c) measured, exchanges the times of the last steps
-- with the other processes of the node (common/comm.c, over MPI or over the shared memory of
-- modules/module_shm.c), computes from them how many threads each process should have, assigns the
-- processes to sockets (common/decision_tree.c), fits the threads of each socket to its cores, and
-- binds the threads of its own process to cores. Every process computes the same placement.
--
-- Files:
-- - Base, Base/Tests, Base/Lists, Base/Family, Base/Int: shared names, Boolean tests, lists over the
--   native numbers, arrays as functions, and signed integers for the C type `int`, without overflow.
-- - Process: `struct core_process` of core/sabo_internal.h, its ranks and its placement.
-- - DecisionTree and its children: common/decision_tree.c. `compute_placement` is
--   `decision_tree_compute_placement`, `build_tree` the recursion `tree_build_tree_recursive`, with
--   `rounds` its loop over the sockets, `visit` the body for one child, `keep_leaf` and `accept_leaf`
--   the lines on a complete placement and `propagate` the end of the function. `qsort` is the
--   parameter `sort`; of it the theorems assume that it returns a permutation (the field `perm` of
--   `Asks` in DecisionTree/Root). The recursion is on fuel: each level places one process, so the
--   number of the processes is enough. Loads and Norm describe
--   placements and their cost without reference to the search; Leaf, Reps, Climb, Cases, Sound and
--   Optimal relate the nodes of the search to them; Root, Assign and Over lift that to the
--   result; Placement states it. Nodes is on the pool of nodes, Ties on equal placements.
-- - DecisionTree/Memory and its children: the same file, the nodes at their addresses with the free
--   list of LinkedList. Copies and Listed are on the list and the
--   blocks, Kept on the pool that they implement,
--   Lifetime on `decision_tree_init` and `decision_tree_fini`, whose loop is on fuel, one more than the
--   nodes of the list. `malloc` is the addresses that it returns.
-- - Core/Adjust and its children: core/sabo.c, `core_adjust_list_num_threads` and
--   `core_compute_first_core_id`. The two `while` loops run on fuel. Spread is on the cases
--   where some is enough, Stuck on those where none is.
-- - Core/Steps and its children: core/sabo.c, `core_compute_new_threads_distribution`: the shares of
--   the cores that each process should have, for each step and on average. The type `double` is the
--   parameter `Doubles`, of which nothing is assumed. A failed assertion is `none`.
-- - Core/Context and Context/Made: core/sabo.c, `struct core_ctx`, `sabo_core_init` and
--   `core_init_context`. Core/Exchange and its children: `sabo_exchange_process_step_data` (Received)
--   and `core_estimate_speedup` (Speedup); the communication is the parameter `Comm`.
-- - Core/Balance and its children: core/sabo.c, `core_apply_new_placement` (Cores; Weighs and
--   Apart follow the processes of a socket from the dispatch to there) and
--   `__sabo_omp_balanced__` (Leaves and Placed), which calls the operations of the other files of Core
--   and of DecisionTree. The environment, the sorts, the topology and the binding of the threads are
--   the parameter `Runtime`. The sockets point to the processes of the context in the code; here the
--   thread counts are written back by rank (`written_back`).
-- - Core/Dispatch and its children: core/sabo.c, `core_dispatch_processes` (Sockets) and
--   `core_skip_compute` (Skip).
-- - LinkedList and its children: common/list.c and common/list.h, over a store of nodes. Seg says
--   when a head and a store hold a sequence of objects; Link is on the conditional writes at an end,
--   Insert, After and Remove on the nodes, Objects and Walk on the objects.
-- - Env and its children: common/env.c. Each getter is `query` on its static variable; Kept is on
--   what later calls of the getters that keep their value return, Init on `env_variables_init`.
-- - Slurm and its children: tools/slurm_variables_parser.c, a program of its own. Digits is on
--   numbers, Entries on the parser, Node on the number of tasks of a node. The loop over the entries
--   is on fuel, one more than the length of the text, and each entry has a character or more.
-- - Ompt and Ompt/Regions: ompt/sabo_ompt.c, its three callbacks (Regions runs them without implicit
--   balancing), and `core_gather_ompt_counters`
--   and `sabo_core_reset_ompt_data` of core/sabo.c.
-- - SharedMemory and its children: modules/module_shm.c, the processes of a node over an array of
--   words, from their registration on. A process is where it stands in the code (`Pc`) and its private
--   data; `Move` has a constructor for each access to the shared area, in the order of the code, and
--   `Step` picks a process. All accesses take effect in one order, a `memcpy` as one step, which the
--   relaxed atomics of the code do not ask for. The area of the model has no end; `mapped_words` is what
--   is mapped.
--   The header of the file has the layout of the area. Invariant says what holds at any time, Moves, Opening
--   and Contents keep it over a move, Preservation over a run; Safety is on the barrier and the
--   gather, Ranks on the tables of ranks, Mapping on the size of the area.
-- - SyncFile and its children: modules/module_shm.c, how process 0 creates the shared area and the
--   others find it through a file, as a step relation up to the registration, where SharedMemory
--   starts. Invariant is on all interleavings, Safety on what the clients find, also on a node with
--   files of a former run.
-- - Topo and its children: common/topo.c; hwloc is the parameter `Hwloc`. Table is on machines whose
--   sockets have the same number of cores.
-- - Binding and its children: common/binding.c, common/hwloc_binding.c, intel/sabo_intel_omp.c and
--   core/sabo_omp.c; hwloc and the kernel are the parameter `HwlocBinding`, a parallel region is a list
--   of threads in the order in which they run. Team is on such a region, Placed on its use by
--   `core_apply_new_placement`.
-- - IntelBinding and its children: intel/intel_binding.c; the Intel runtime is the parameter `Kmp`.
-- - Log and its children: common/log.c and the macros of common/log.h. Lines is on what a sequence of
--   messages shows. `do_log` is on fuel 2: the level of its inner call is a known one.
-- - Core/Memory and its children: the blocks that the context of core/sabo.c owns (Freed), and
--   `sabo_core_init` and `sabo_core_fini` on these, the decision tree and the topology (Program).
-- - Communication and its children: common/comm.c and modules/module_mpi.c, built with MPI, whose calls
--   are the parameter `Mpi`; a buffer is its contents, and Buffers is on their lengths.
--   Session is on the start and one exchange, Application on a run from `MPI_Init_thread` to `MPI_Finalize`.
-- - Format and its children: tools/format_check.c, a program of its own: Lines is on the scan of a
--   line, Files on a whole file.
-- - The files called Tests: runs of the model and instances of the theorems.
--
-- Not modelled: the time that the log lines and the balancing read; failures of system calls other
-- than those that the state of the model causes; the wrappers of malloc and the statistics printed at
-- the end; the registration of the callbacks and what hwloc, MPI, the kernel and the OpenMP runtimes do
-- in their calls. In the search of the decision tree a node is a value without its pointers,
-- and the updates of `father` are returned.
pub mod Base
pub mod Process
pub mod DecisionTree
pub mod Core
pub mod LinkedList
pub mod Env
pub mod Slurm
pub mod Ompt
pub mod SharedMemory
pub mod Format
pub mod Topo
pub mod Communication
pub mod Binding
pub mod IntelBinding
pub mod SyncFile
pub mod Log
