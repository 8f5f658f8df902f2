-- ===== src/Binding/Placed.antt =====
-- core_apply_new_placement (core/sabo.c), topo_get_socket_core_id (common/topo.c) and
-- sabo_hwloc_set_thread_affinity (common/hwloc_binding.c): the core that a thread of a placed process
-- is bound to.
use sabo.Base.{
  ℕ, ◌+◌, ◌<◌, ◌≡◌, sym, ap, ◌∙◌, true, some, List, ◌∷◌, ◌++◌, ltb, ℤ, pos, pos_part, ◌+ℤ◌, ◌↔◌,
  arith,
}
use sabo.Process.{CoreProcess}
use sabo.Core.Context
use sabo.Core.Balance.{Runtime, new_cores}
use sabo.Topo.{Hwloc}
use sabo.Topo.Table.{Uniform, processor}
use sabo.Binding.{HwlocBinding, OmpProcess, omp_rebalance}
use sabo.Binding.Team.{Outside, bound_after, omp_rebalance-bound}

module _ {Package Core S : Type 0} (topo : Hwloc Package Core) (n k : ℕ) (u : Uniform topo n k)
    (runtime : Runtime) (hwloc : HwlocBinding S Core) where
  new_cores-processor :
      (p : CoreProcess) (old : Context.Binding) (s start i : ℕ)
      → ((l : ℕ) → l < k → runtime.socket_core_id (pos s) (pos l) ≡ processor topo n k u s l)
      → p.socket_id ≡ pos s
      → i < pos_part p.num_threads
      → start + i < k
      → (new_cores runtime p (pos start) old).new_core_id i ≡ processor topo n k u s (start + i)
  unfolding new_cores ◌+ℤ◌
  new_cores-processor p old s start i answers on_socket inside fits =
      let here : ltb i (pos_part p.num_threads) ≡ true = ground arith in
      let sum : pos start +ℤ pos i ≡ pos (start + i) = ground arith in
      simp (new_cores, here, on_socket, sum) (answers (start + i) fits)

  -- Where `topo_get_socket_core_id` answers with the processor of a core of the socket, hwloc has a
  -- core of the index `processor`, no two cores have the same processor, and the kernel accepts what
  -- it is asked for: thread `i` of a process that starts at the core `start` of its socket is bound to
  -- the processor of its core, `start + i` on that socket, exactly if the core of that index is this
  -- core. The number of a processor is taken for the index of a core.
  pub placement-index :
      (p : CoreProcess) (old : Context.Binding) (s start i : ℕ) (before after : List ℕ)
      → (num_threads : ℤ) (st : OmpProcess S) (core : Core)
      → ((l : ℕ) → l < k → runtime.socket_core_id (pos s) (pos l) ≡ processor topo n k u s l)
      → p.socket_id ≡ pos s
      → i < pos_part p.num_threads
      → start + i < k
      → (st.binding i).new_core_id ≡ (new_cores runtime p (pos start) old).new_core_id i
      → hwloc.has_topology ≡ true
      → hwloc.core_obj (processor topo n k u s (start + i)) ≡ some core
      → ((c c' : Core)
          → hwloc.singlify (hwloc.cpuset c) ≡ hwloc.singlify (hwloc.cpuset c')
          → c ≡ c')
      → hwloc.set_rc i (hwloc.singlify (hwloc.cpuset core)) ≡ pos 0
      → Outside i (before ++ after)
      → ((omp_rebalance hwloc num_threads (before ++ i ∷ after) st).threads.bound i
          ≡ hwloc.singlify (hwloc.cpuset (u.core s (start + i))))
        ↔ (core ≡ u.core s (start + i))
  placement-index p old s start i before after num_threads st core answers on_socket inside fits
        same e found distinct accepted once =
      let at_core : hwloc.core_obj (st.binding i).new_core_id ≡ some core =
        ap hwloc.core_obj (same ∙ new_cores-processor p old s start i answers on_socket inside fits)
        ∙ found in
      let bound = (omp_rebalance-bound hwloc num_threads before after i st core e at_core once).1 in
      let moved : bound_after hwloc i core (st.threads.bound i)
          ≡ hwloc.singlify (hwloc.cpuset core) =
        ground (arith, accepted) in
      let there = bound ∙ moved in
      (
        λ h. distinct core (u.core s (start + i)) (sym there ∙ h),
        λ h. there ∙ ap (λ c. hwloc.singlify (hwloc.cpuset c)) h,
      )
