-- ===== src/Topo.antt =====
-- common/topo.c: the numbers of sockets and cores, and the cores of a socket. hwloc is the parameter
-- `Hwloc`; -2 stands in a static variable that is not set yet, as in the code. `none` is a fatal
-- error, a failed assertion or an access out of the table. Log lines are left out.
pub mod Table
mod Tests
use sabo.Base.{
  ℕ, zero, suc, ◌+◌, Bool, true, false, not, Option, none, some, List, [], ◌∷◌, get_elem?,
  if◌then◌else◌, ℤ, pos, negsuc, pos_part, ltb_ℤ, eqb_ℤ,
}
use mathlib.Core.Option

-- `Package` and `Core` are the objects that hwloc returns; `first_cpu` is the first processor of the
-- set of a core, after `hwloc_bitmap_singlify`.
pub record Hwloc (Package : Type 0) (Core : Type 0) : Type 0 where
  pub num_packages : ℤ
  pub num_cores : ℤ
  pub package_obj : ℕ → Option Package
  pub cores_inside : Package → ℤ
  pub core_inside : Package → ℕ → Option Core
  pub first_cpu : Core → ℤ
  pub package_of_core : ℤ → Option ℤ

-- The static variables; `loaded` says that `sabo_topology` is not NULL.
pub record Topology : Type 0 where
  pub loaded : Bool
  pub num_sockets : ℤ
  pub num_cores : ℤ
  pub num_cores_per_socket : ℤ
  pub core_id_by_socket : Option (List (List ℤ))

abbrev pub uninitialized : ℤ
uninitialized = negsuc 1

module _ {Package Core : Type 0} (hwloc : Hwloc Package Core) where
  unfoldable pub get_num_sockets : Topology → Option (ℤ × Topology)
  get_num_sockets t =
      if not t.loaded
      then none
      else if not (eqb_ℤ uninitialized t.num_sockets)
      then some (t.num_sockets, t)
      else some (hwloc.num_packages, record t { num_sockets = hwloc.num_packages })

  unfoldable pub get_num_cores : Topology → Option (ℤ × Topology)
  get_num_cores t =
      if not t.loaded
      then none
      else if not (eqb_ℤ uninitialized t.num_cores)
      then some (t.num_cores, t)
      else some (hwloc.num_cores, record t { num_cores = hwloc.num_cores })

  -- `topo_get_socket_id_from_core_id`, where the two searches of hwloc are one.
  unfoldable pub get_socket_id_from_core_id : ℤ → Topology → Option ℤ
  get_socket_id_from_core_id core_id t =
      if not t.loaded then none else hwloc.package_of_core core_id

  -- The loop over the sockets from `i` on.
  unfoldable pub per_socket_loop : ℕ → ℕ → ℤ → Option ℤ
  per_socket_loop i zero found = some found
  per_socket_loop i (suc n) found = elim (hwloc.package_obj i) [
    | none ↦ none
    | some p ↦
        let num_cores = hwloc.cores_inside p in
        if eqb_ℤ uninitialized found
        then per_socket_loop (i + 1) n num_cores
        else if not (eqb_ℤ found num_cores)
        then some (negsuc 0)
        else per_socket_loop (i + 1) n found
  ]

  -- `topo_get_num_cores_per_socket`, with the number of the sockets.
  unfoldable pub query_cores_per_socket : ℤ → Topology → Option (ℤ × Topology)
  query_cores_per_socket n t =
      if not (eqb_ℤ uninitialized t.num_cores_per_socket)
      then some (t.num_cores_per_socket, t)
      else Option.map (λ k. (k, record t { num_cores_per_socket = k }))
          (per_socket_loop 0 (pos_part n) uninitialized)

  unfoldable pub get_num_cores_per_socket : Topology → Option (ℤ × Topology)
  get_num_cores_per_socket t = elim (get_num_sockets t) [
    | none ↦ none
    | some (n, t1) ↦ query_cores_per_socket n t1
  ]

  -- The cores of a socket from `j` on.
  unfoldable pub fill_row : Package → ℕ → ℕ → Option (List ℤ)
  fill_row p j zero = some []
  fill_row p j (suc n) = elim (hwloc.core_inside p j) [
    | none ↦ none
    | some c ↦ Option.map (λ row. hwloc.first_cpu c ∷ row) (fill_row p (j + 1) n)
  ]

  -- The sockets from `i` on.
  unfoldable pub fill_table : ℕ → ℕ → Topology → Option (List (List ℤ) × Topology)
  fill_table i zero t = some ([], t)
  fill_table i (suc n) t = elim (get_num_cores_per_socket t) [
    | none ↦ none
    | some (count, t1) ↦ elim (hwloc.package_obj i) [
      | none ↦ none
      | some p ↦ elim (fill_row p 0 (pos_part count)) [
        | none ↦ none
        | some row ↦ Option.map (λ (rows, t2). (row ∷ rows, t2)) (fill_table (i + 1) n t1)
      ]
    ]
  ]

  abbrev pub entry : List (List ℤ) → ℕ → ℕ → Option ℤ
  entry rows i j = elim (get_elem? rows i) [ none ↦ none | some row ↦ get_elem? row j ]

  -- Lines 70-73, where there is a table.
  unfoldable pub read_table : List (List ℤ) → ℤ → ℤ → Topology → Option (ℤ × Topology)
  read_table rows socket_id local_core_id t = elim (get_num_cores_per_socket t) [
    | none ↦ none
    | some (count, t1) ↦
        if not (ltb_ℤ local_core_id count)
        then none
        else Option.map (λ id. (id, t1)) (entry rows (pos_part socket_id) (pos_part local_core_id))
  ]

  -- Lines 75-118, where there is none. The core is not compared with the number of cores.
  unfoldable pub make_table : ℤ → ℤ → ℤ → Topology → Option (ℤ × Topology)
  make_table num_sockets socket_id local_core_id t = elim (fill_table 0 (pos_part num_sockets) t) [
    | none ↦ none
    | some (rows, t1) ↦
        Option.map (λ id. (id, record t1 { core_id_by_socket = some rows }))
          (entry rows (pos_part socket_id) (pos_part local_core_id))
  ]

  unfoldable pub get_socket_core_id : ℤ → ℤ → Topology → Option (ℤ × Topology)
  get_socket_core_id socket_id local_core_id t = elim (get_num_sockets t) [
    | none ↦ none
    | some (n, t1) ↦
        if ltb_ℤ socket_id (pos 0)
        then none
        else if not (ltb_ℤ socket_id n)
        then none
        else if ltb_ℤ local_core_id (pos 0)
        then none
        else elim t1.core_id_by_socket [
          | some rows ↦ read_table rows socket_id local_core_id t1
          | none ↦ make_table n socket_id local_core_id t1
        ]
  ]

  -- The static variables once hwloc has loaded the topology.
  abbrev pub loaded_topology : Topology
  loaded_topology = record {
    loaded = true;
    num_sockets = uninitialized;
    num_cores = uninitialized;
    num_cores_per_socket = uninitialized;
    core_id_by_socket = none;
  }

  -- `topo_init`; too few sockets or cores are only reported.
  unfoldable pub topo_init : Option Topology
  topo_init = elim (get_num_cores loaded_topology) [
    | none ↦ none
    | some (num_cores, t0) ↦ if ltb_ℤ num_cores (pos 0) then none else elim (get_num_sockets t0) [
      | none ↦ none
      | some (n, t1) ↦ elim (get_num_cores_per_socket t1) [
        | none ↦ none
        | some (k, t2) ↦ Option.map (λ r. r.1) (get_socket_core_id (pos 0) (pos 0) t2)
      ]
    ]
  ]

  -- `topo_get_thread_cpubind`, with what `hwloc_get_cpubind` returns, the number of cores in the set
  -- that it gives, and the first processor of that set.
  unfoldable pub get_thread_cpubind : ℤ → ℤ → ℤ → Option ℤ
  get_thread_cpubind rc num_cores first =
      if not (eqb_ℤ (pos 0) rc)
      then none
      else if ltb_ℤ (pos 1) num_cores
      then some (negsuc 0)
      else some first
