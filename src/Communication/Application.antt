-- ===== src/Communication/Application.antt =====
-- common/comm.c and modules/module_mpi.c: an application, from MPI_Init_thread to MPI_Finalize.
use sabo.Base.{
  ℕ, ◌≡◌, refl, true, false, Option, none, some, List, [], ◌∷◌, map, Bool, if◌then◌else◌,
}
use mathlib.Core.Option
use sabo.Communication.{
  Mpi, Layer, undef_value, started, comm_is_initialized, mpi_free_node_comm, comm_fini,
  mpi_init_thread, mpi_finalize, exchange_counter,
}
use sabo.Communication.Session.{
  Serves, Session, opened, opened-Session, mpi_init_thread-opened, exchange_counter-Session,
}

module _ {D : Type 0} (mpi : Mpi D) (z : D) (w : ℕ) where
  -- The exchanges of `sends`, in order, and what the receive buffer holds after each.
  unfoldable pub exchanges : List (List D) → Layer D → Option (List (Option (List D)) × Layer D)
  exchanges [] st = some ([], st)
  exchanges (sbuf ∷ sends) st = elim (exchange_counter mpi z w sbuf st) [
    | none ↦ none
    | some st' ↦ Option.map (λ (got, t). (st'.recv_buffer ∷ got, t)) (exchanges sends st')
  ]

  -- The application: MPI_Init_thread, the exchanges, MPI_Finalize.
  unfoldable pub application : List (List D) → Option (List (Option (List D)) × Layer D)
  application sends = elim (mpi_init_thread mpi started) [
    | none ↦ none
    | some st ↦ elim (exchanges sends st) [
      | none ↦ none
      | some (got, st') ↦ Option.map (λ t. (got, t)) (mpi_finalize mpi st')
    ]
  ]

-- What MPI_Finalize leaves.
pub record Closed {D : Type 0} (st : Layer D) : Type 0 where
  pub not_initialized : comm_is_initialized st ≡ false
  pub node_comm : st.node_comm ≡ false
  pub table : st.translate_node_rank ≡ none
  pub recv_buffer : st.recv_buffer ≡ none
  pub send_buffer : st.send_buffer ≡ none
  pub window : st.buffer_window ≡ undef_value

never : (b : Bool) → (if b then false else false) ≡ false
never true = refl
never false = refl

module _ {D : Type 0} (mpi : Mpi D) (z : D) (n w : ℕ) (s : Serves mpi n) where
  abbrev pub answers : List (List D) → List (Option (List D))
  answers sends = map (λ sbuf. some (s.answer sbuf w)) sends

  exchanges-Session :
      (sends : List (List D)) (st : Layer D)
      → Session n w st
      → (st' : Layer D) × (exchanges mpi z w sends st ≡ some (answers sends, st')) × Session n w st'
  unfolding exchanges
  exchanges-Session [] st v = (st, refl, v)
  exchanges-Session (sbuf ∷ sends) st v =
      let (t, e, v', held) = exchange_counter-Session mpi z n w s st sbuf v in
      let (t', e', v'') = exchanges-Session sends t v' in
      (t', simp (exchanges, e, e', held) refl, v'')

  mpi_finalize-Closed :
      (st : Layer D)
      → Session n w st
      → (st' : Layer D) × (mpi_finalize mpi st ≡ some st') × Closed st'
  unfolding mpi_finalize comm_fini mpi_free_node_comm
  mpi_finalize-Closed st v = (
    record st {
      recv_buffer = none;
      send_buffer = none;
      buffer_window = undef_value;
      node_comm = false;
      translate_node_rank = none;
      initialized = false;
    },
    simp (mpi_finalize, comm_fini, mpi_free_node_comm, v.loaded, v.node_comm, s.finalize) refl,
    record {
      not_initialized = never st.loaded;
      node_comm = refl;
      table = refl;
      recv_buffer = refl;
      send_buffer = refl;
      window = refl;
    },
  )

  -- On a node where the calls of MPI succeed and an exchange gives a window of each process, an
  -- application that starts MPI with MPI_Init_thread, exchanges counters any number of times with the
  -- same window and finalises MPI fails no assertion and writes out of no buffer; the receive buffer
  -- holds after each exchange exactly what the exchange gave, and at the end the buffers, the window,
  -- the communicator and the table of ranks are reset and the layer is not initialised.
  pub application-answers :
      (sends : List (List D))
      → (st : Layer D) × (application mpi z w sends ≡ some (answers sends, st)) × Closed st
  unfolding application
  application-answers sends =
      let (t, e, v) = exchanges-Session sends (opened mpi n s) (opened-Session mpi z n w s) in
      let (t', e', c) = mpi_finalize-Closed t v in
      (t', simp (application, mpi_init_thread-opened mpi n s, e, e') refl, c)
