-- ===== src/Binding.antt =====
-- common/binding.c, common/hwloc_binding.c, intel/sabo_intel_omp.c and core/sabo_omp.c: the binding of
-- the threads of a process to cores. hwloc and the kernel are the parameter `HwlocBinding`; a parallel
-- region runs its body once for each thread of its team, in any order, each on its own entry of the
-- array `binding`. The log lines are counted where they are errors, the clock is left out.
mod Team
mod Placed
mod Tests
use sabo.Base.{
  ℕ, ◌+◌, Bool, true, false, not, Option, none, some, List, [], ◌∷◌, write, if◌then◌else◌, ℤ, pos,
  negsuc, eqb_ℤ,
}

-- `struct sys_bind_data`; `mask` is its `data`, a set of processors.
pub record BindData (S : Type 0) : Type 0 where
  pub cur_core_id : ℤ
  pub new_core_id : ℤ
  pub mask : Option S

-- `has_topology` says that the topology is loaded, `core_obj` is the core of an index, `get_rc` and
-- `set_rc` are what the kernel answers when a thread asks for its processors or for new ones.
pub record HwlocBinding (S Core : Type 0) : Type 0 where
  pub has_topology : Bool
  pub core_obj : ℤ → Option Core
  pub cpuset : Core → S
  pub singlify : S → S
  pub empty : S
  pub get_rc : ℕ → ℤ
  pub set_rc : ℕ → S → ℤ

-- The processors of each thread, and the number of errors that are logged.
pub record Threads (S : Type 0) : Type 0 where
  pub bound : ℕ → S
  pub errors : ℕ

-- A process: the number of threads of its next regions, its threads, and its array `binding`.
pub record OmpProcess (S : Type 0) : Type 0 where
  pub omp_num_threads : ℤ
  pub threads : Threads S
  pub binding : ℕ → BindData S

module _ {S : Type 0} where
  abbrev pub error : Threads S → Threads S
  error ts = record ts { errors = ts.errors + 1 }

  -- A parallel region whose threads take their turns in the order of the list.
  unfoldable pub parallel : (ℕ → OmpProcess S → OmpProcess S) → List ℕ → OmpProcess S → OmpProcess S
  parallel body [] st = st
  parallel body (t ∷ ts) st = parallel body ts (body t st)

module _ {S Core : Type 0} (hwloc : HwlocBinding S Core) where
  abbrev pub sys_bind_data_alloc : BindData S → BindData S
  sys_bind_data_alloc d = record d { mask = some (hwloc.empty) }

  -- `sabo_hwloc_get_thread_affinity`. The mask that is allocated is always overwritten.
  unfoldable pub get_thread_affinity : ℕ → BindData S → Threads S → BindData S × Threads S
  get_thread_affinity tid d ts =
      if not hwloc.has_topology
      then (d, error ts)
      else if eqb_ℤ (pos 0) (hwloc.get_rc tid)
      then (record d { mask = some (ts.bound tid) }, ts)
      else (record d { mask = some (hwloc.empty) }, error ts)

  abbrev pub with_mask : ℕ → BindData S → Threads S → BindData S × Threads S
  with_mask tid d ts = elim d.mask [ some m ↦ (d, ts) | none ↦ get_thread_affinity tid d ts ]

  -- The thread asks for the processors `cpuset`.
  abbrev pub bind_thread : ℕ → S → Threads S → Threads S
  bind_thread tid cpuset ts =
      if eqb_ℤ (pos 0) (hwloc.set_rc tid cpuset)
      then record ts { bound = write ts.bound tid cpuset }
      else error ts

  -- From the search of the core on.
  unfoldable pub move_to_core : ℕ → BindData S → Threads S → BindData S × Threads S
  move_to_core tid d ts = elim (hwloc.core_obj d.new_core_id) [
    | none ↦ (d, error ts)
    | some core ↦
        let cpuset = hwloc.singlify (hwloc.cpuset core) in
        (
          record { cur_core_id = d.new_core_id; new_core_id = negsuc 0; mask = some cpuset },
          bind_thread tid cpuset ts,
        )
  ]

  -- `sabo_hwloc_set_thread_affinity`
  unfoldable pub set_thread_affinity : ℕ → BindData S → Threads S → BindData S × Threads S
  set_thread_affinity tid d ts =
      if not hwloc.has_topology
      then (d, error ts)
      else (let (d', ts') = with_mask tid d ts in move_to_core tid d' ts')

  abbrev pub on_thread :
      (ℕ → BindData S → Threads S → BindData S × Threads S) → ℕ → OmpProcess S → OmpProcess S
  on_thread f tid st =
      let (d, ts) = f tid (st.binding tid) st.threads in
      record st { threads = ts; binding = write st.binding tid d }

  abbrev pub read_thread : ℕ → OmpProcess S → OmpProcess S
  read_thread = on_thread get_thread_affinity

  abbrev pub move_thread : ℕ → OmpProcess S → OmpProcess S
  move_thread = on_thread set_thread_affinity

  -- `sabo_omp_discover`
  unfoldable pub omp_discover : List ℕ → OmpProcess S → OmpProcess S
  omp_discover team st = parallel read_thread team st

  -- `sabo_omp_rebalance`, with the number of threads of the process.
  unfoldable pub omp_rebalance : ℤ → List ℕ → OmpProcess S → OmpProcess S
  omp_rebalance num_threads team st =
      parallel move_thread team (record st { omp_num_threads = num_threads })
