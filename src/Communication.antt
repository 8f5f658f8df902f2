-- ===== src/Communication.antt =====
-- common/comm.c and modules/module_mpi.c, with SABO_USE_MPI: the cached ranks and sizes, the buffers,
-- the communicator of the node, and the order of the calls at the start and at the end. MPI is the
-- parameter `Mpi`. `none` is a failed assertion, a call through a null pointer, a fatal error or a
-- write out of a buffer.
mod Buffers
mod Session
mod Application
mod Tests
use sabo.Base.{
  ℕ, zero, suc, ◌+◌, ◌*◌, Bool, true, false, not, ◌||◌, Option, none, some, List, [], ◌∷◌, ◌++◌,
  length, get_elem?, drop, if◌then◌else◌, ℤ, pos, negsuc, pos_part, ltb, ltb_ℤ, eqb_ℤ,
}
use mathlib.Core.Option

-- What the calls of MPI give to this process: `none` where they return an error. `translate` gives
-- the ranks in the world of ranks in the node, and `allgather` what all the processes of the node
-- send, where this one sends the given doubles. The calls on groups of processes and the release of the
-- communicator are taken to succeed.
pub record Mpi (D : Type 0) : Type 0 where
  pub world_rank : Option ℤ
  pub world_size : Option ℤ
  pub node_rank : Option ℤ
  pub node_size : Option ℤ
  pub split : Bool
  pub translate : List ℤ → Option (List ℤ)
  pub init_thread : Bool
  pub finalize : Bool
  pub allgather : List D → ℕ → Option (List D)

-- The static variables of both files. `loaded` says that `__sabo_module_funcs` is set, `node_comm`
-- that the communicator is not MPI_COMM_NULL; a buffer is its contents.
pub record Layer (D : Type 0) : Type 0 where
  pub loaded : Bool
  pub initialized : Bool
  pub node_comm : Bool
  pub translate_node_rank : Option (List ℤ)
  pub world_rank : ℤ
  pub world_size : ℤ
  pub node_rank : ℤ
  pub node_size : ℤ
  pub buffer_window : ℤ
  pub recv_buffer : Option (List D)
  pub send_buffer : Option (List D)

abbrev pub undef_value : ℤ
undef_value = negsuc 0

-- The ranks from `i` on.
unfoldable pub ranks_from : ℕ → ℕ → List ℤ
ranks_from i zero = []
ranks_from i (suc n) = pos i ∷ ranks_from (i + 1) n

module _ {D : Type 0} where
  -- `xzalloc`, where `z` is the double whose bytes are zero.
  unfoldable pub zeroed : D → ℕ → List D
  zeroed z zero = []
  zeroed z (suc n) = z ∷ zeroed z n

  abbrev pub started : Layer D
  started = record {
    loaded = false;
    initialized = false;
    node_comm = false;
    translate_node_rank = none;
    world_rank = undef_value;
    world_size = undef_value;
    node_rank = undef_value;
    node_size = undef_value;
    buffer_window = undef_value;
    recv_buffer = none;
    send_buffer = none;
  }

  abbrev pub comm_load_module_mpi : Layer D → Layer D
  comm_load_module_mpi st = record st { loaded = true }

  abbrev pub comm_unload_module_mpi : Layer D → Layer D
  comm_unload_module_mpi st = record st { loaded = false }

  abbrev pub comm_is_initialized : Layer D → Bool
  comm_is_initialized st = if st.loaded then st.initialized else false

  -- A getter of comm.c: its static variable, or else what the function of the module answers.
  abbrev pub cached : Layer D → ℤ → Option ℤ → Option ℤ
  cached st value answer =
      if not (eqb_ℤ undef_value value) then some value else if st.loaded then answer else none

  -- The first test of both getters of buffers.
  abbrev pub take_window : ℤ → Layer D → Layer D
  take_window window st = record st {
    buffer_window = if eqb_ℤ undef_value st.buffer_window then window else st.buffer_window;
  }

  -- What `sent` is when it is written over the start of `buffer`.
  unfoldable pub overwrite : List D → List D → Option (List D)
  overwrite sent buffer =
      if ltb (length buffer) (length sent) then none else some (sent ++ drop (length sent) buffer)

module _ {D : Type 0} (mpi : Mpi D) where
  -- The functions of module_mpi.c.
  abbrev pub mpi_get_world_rank : Layer D → Option ℤ
  mpi_get_world_rank st = mpi.world_rank

  abbrev pub mpi_get_world_size : Layer D → Option ℤ
  mpi_get_world_size st = mpi.world_size

  abbrev pub mpi_get_node_rank : Layer D → Option ℤ
  mpi_get_node_rank st = if st.node_comm then mpi.node_rank else none

  abbrev pub mpi_get_node_size : Layer D → Option ℤ
  mpi_get_node_size st = if st.node_comm then mpi.node_size else none

  abbrev pub mpi_get_world_rank_from_node_rank : ℤ → Layer D → Option ℤ
  mpi_get_world_rank_from_node_rank rank st =
      if not st.node_comm then none else elim st.translate_node_rank [
        | none ↦ none
        | some ranks ↦ get_elem? ranks (pos_part rank)
      ]

  abbrev pub mpi_allgather : List D → ℕ → Layer D → Option (List D)
  mpi_allgather sbuf count st = if not st.node_comm then none else mpi.allgather sbuf count

  abbrev pub pmpi_init_thread : Layer D → Option (Layer D)
  pmpi_init_thread st = if mpi.init_thread then some (record st { initialized = true }) else none

  abbrev pub pmpi_finalize : Layer D → Option (Layer D)
  pmpi_finalize st = if mpi.finalize then some (record st { initialized = false }) else none

  unfoldable pub comm_get_world_rank : Layer D → Option (ℤ × Layer D)
  comm_get_world_rank st =
      Option.map (λ v. (v, record st { world_rank = v }))
        (cached st st.world_rank (mpi_get_world_rank st))

  unfoldable pub comm_get_world_size : Layer D → Option (ℤ × Layer D)
  comm_get_world_size st =
      Option.map (λ v. (v, record st { world_size = v }))
        (cached st st.world_size (mpi_get_world_size st))

  unfoldable pub comm_get_node_rank : Layer D → Option (ℤ × Layer D)
  comm_get_node_rank st =
      Option.map (λ v. (v, record st { node_rank = v }))
        (cached st st.node_rank (mpi_get_node_rank st))

  unfoldable pub comm_get_node_size : Layer D → Option (ℤ × Layer D)
  comm_get_node_size st =
      Option.map (λ v. (v, record st { node_size = v }))
        (cached st st.node_size (mpi_get_node_size st))

  -- The table of the ranks, `mpi_alloc_node_comm` after the split.
  unfoldable pub translate_ranks : Layer D → Option (Layer D)
  translate_ranks st = elim (mpi_get_node_size st) [
    | none ↦ none
    | some n ↦
        Option.map (λ ranks. record st { translate_node_rank = some ranks })
          (mpi.translate (ranks_from 0 (pos_part n)))
  ]

  unfoldable pub mpi_alloc_node_comm : Layer D → Option (Layer D)
  mpi_alloc_node_comm st = if st.node_comm then some st else elim (mpi_get_world_rank st) [
    | none ↦ none
    | some r ↦ if mpi.split then translate_ranks (record st { node_comm = true }) else none
  ]

  unfoldable pub mpi_free_node_comm : Layer D → Option (Layer D)
  mpi_free_node_comm st =
      if st.node_comm
      then some (record st { node_comm = false; translate_node_rank = none })
      else some st

  -- `comm_init`; the functions of the module are called through `__sabo_module_funcs`.
  unfoldable pub comm_init : Layer D → Option (Layer D)
  comm_init st = elim (comm_get_world_rank st) [
    | none ↦ none
    | some (a, t1) ↦ elim (comm_get_world_size t1) [
      | none ↦ none
      | some (b, t2) ↦ elim (if t2.loaded then mpi_alloc_node_comm t2 else none) [
        | none ↦ none
        | some t3 ↦ elim (comm_get_node_rank t3) [
          | none ↦ none
          | some (c, t4) ↦ Option.map (λ r. r.1) (comm_get_node_size t4)
        ]
      ]
    ]
  ]

  unfoldable pub comm_fini : Layer D → Option (Layer D)
  comm_fini st =
      if st.loaded
      then mpi_free_node_comm
          (record st { recv_buffer = none; send_buffer = none; buffer_window = undef_value })
      else none

  -- `MPI_Init`, where `sabo_module_mpi_pmpi_init` is a fatal error.
  unfoldable pub mpi_init : Layer D → Option (Layer D)
  mpi_init st = none

  unfoldable pub mpi_init_thread : Layer D → Option (Layer D)
  mpi_init_thread st = elim (pmpi_init_thread (comm_load_module_mpi st)) [
    | none ↦ none
    | some st' ↦ comm_init st'
  ]

  -- `MPI_Finalize`; `sabo_module_mpi_pmpi_finalize` is called through a table of its own.
  unfoldable pub mpi_finalize : Layer D → Option (Layer D)
  mpi_finalize st = elim (comm_fini st) [ none ↦ none | some st' ↦ pmpi_finalize st' ]

  unfoldable pub comm_get_world_rank_from_node_rank : ℤ → Layer D → Option ℤ
  comm_get_world_rank_from_node_rank rank st = elim (mpi_get_node_size st) [
    | none ↦ none
    | some n ↦
        if not st.loaded || (ltb_ℤ rank (pos 0) || not (ltb_ℤ rank n))
        then none
        else mpi_get_world_rank_from_node_rank rank st
  ]

  -- `comm_allgather` into the receive buffer.
  unfoldable pub comm_allgather : List D → ℕ → Layer D → Option (Layer D)
  comm_allgather sbuf count st =
      if not st.loaded then none else elim (mpi_allgather sbuf count st) [
        | none ↦ none
        | some sent ↦ elim st.recv_buffer [
          | none ↦ none
          | some buffer ↦
              Option.map (λ b. record st { recv_buffer = some b }) (overwrite sent buffer)
        ]
      ]

module _ {D : Type 0} (mpi : Mpi D) (z : D) where
  -- A size or a window that is negative counts as 0 in the number of doubles.
  unfoldable pub comm_get_recv_buffer : ℤ → Layer D → Option (List D × Layer D)
  comm_get_recv_buffer window st =
      let st1 = take_window window st in
      elim st.recv_buffer [
        | some buffer ↦ if eqb_ℤ window st1.buffer_window then some (buffer, st1) else none
        | none ↦
            Option.map
              (λ (n, st2).
                let buffer = zeroed z (pos_part n * pos_part window) in
                (buffer, record st2 { recv_buffer = some buffer }))
              (comm_get_node_size mpi st1)
      ]

  -- The new buffer is stored as the receive buffer.
  unfoldable pub comm_get_send_buffer : ℤ → Layer D → Option (List D × Layer D)
  comm_get_send_buffer window st =
      let st1 = take_window window st in
      elim st.send_buffer [
        | some buffer ↦ if eqb_ℤ window st1.buffer_window then some (buffer, st1) else none
        | none ↦
            let buffer = zeroed z (pos_part window) in
            some (buffer, record st1 { recv_buffer = some buffer })
      ]

  -- Lines 336-342 of core/sabo.c: the buffer, then the exchange of one counter of this process.
  unfoldable pub exchange_counter : ℕ → List D → Layer D → Option (Layer D)
  exchange_counter window sbuf st = elim (comm_get_recv_buffer (pos window) st) [
    | none ↦ none
    | some (b, st') ↦ comm_allgather mpi sbuf window st'
  ]
