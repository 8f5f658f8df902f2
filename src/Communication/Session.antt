-- ===== src/Communication/Session.antt =====
-- common/comm.c and modules/module_mpi.c: the start of MPI, and one exchange.
use sabo.Base.{
  ℕ, ◌*◌, ◌<◌, ◌≤◌, ◌≡◌, refl, ap, sym, ◌∙◌, true, false, none, some, List, length, eqb_ℤ, ℤ, pos,
  ◌⊎◌, inl, inr, arith, Option-cases, some-injective, none-some,
}
use sabo.Communication.{
  Mpi, Layer, undef_value, ranks_from, zeroed, started, comm_get_world_rank, comm_get_world_size,
  comm_get_node_rank, comm_get_node_size, translate_ranks, mpi_alloc_node_comm, comm_init,
  mpi_init_thread, comm_get_recv_buffer, comm_get_send_buffer, overwrite, comm_allgather,
  mpi_allgather, exchange_counter, take_window,
}
use sabo.Communication.Buffers.{length-zeroed, overwrite-whole, overwrite-short, less}

-- The calls of MPI succeed on a node of `n` processes; `answer` is what an exchange gives.
pub record Serves {D : Type 0} (mpi : Mpi D) (n : ℕ) : Type 0 where
  pub rank_in_world : ℤ
  pub size_of_world : ℤ
  pub rank_on_node : ℤ
  pub ranks : List ℤ
  pub answer : List D → ℕ → List D
  pub world_rank : mpi.world_rank ≡ some rank_in_world
  pub world_size : mpi.world_size ≡ some size_of_world
  pub node_rank : mpi.node_rank ≡ some rank_on_node
  pub node_size : mpi.node_size ≡ some (pos n)
  pub split : mpi.split ≡ true
  pub translate : mpi.translate (ranks_from 0 n) ≡ some ranks
  pub init_thread : mpi.init_thread ≡ true
  pub finalize : mpi.finalize ≡ true
  pub allgather : (sbuf : List D) (w : ℕ) → mpi.allgather sbuf w ≡ some (answer sbuf w)
  pub length-answer : (sbuf : List D) (w : ℕ) → length (answer sbuf w) ≡ n * w

module _ {D : Type 0} (mpi : Mpi D) (n : ℕ) (s : Serves mpi n) where
  -- The static variables after MPI_Init_thread.
  abbrev pub opened : Layer D
  opened = record started {
    loaded = true;
    initialized = true;
    node_comm = true;
    translate_node_rank = some s.ranks;
    world_rank = s.rank_in_world;
    world_size = s.size_of_world;
    node_rank = s.rank_on_node;
    node_size = pos n;
  }

  pub mpi_init_thread-opened : mpi_init_thread mpi started ≡ some opened
  unfolding mpi_init_thread comm_init comm_get_world_rank comm_get_world_size comm_get_node_rank
      comm_get_node_size mpi_alloc_node_comm translate_ranks
  mpi_init_thread-opened =
      rw
        (
          mpi_init_thread, comm_init, comm_get_world_rank, comm_get_world_size, mpi_alloc_node_comm,
          translate_ranks, comm_get_node_rank, comm_get_node_size, s.init_thread, s.world_rank,
          s.world_size, s.world_rank, s.split, s.node_size, s.translate, s.node_rank, s.node_size,
        )
        refl

-- What holds between MPI_Init_thread and MPI_Finalize, with `w` as the only window asked for and no
-- call for the send buffer.
pub record Session {D : Type 0} (n w : ℕ) (st : Layer D) : Type 0 where
  pub loaded : st.loaded ≡ true
  pub initialized : st.initialized ≡ true
  pub node_comm : st.node_comm ≡ true
  pub node_size : st.node_size ≡ pos n
  pub window : (st.buffer_window ≡ undef_value) ⊎ (st.buffer_window ≡ pos w)
  pub unsent : st.send_buffer ≡ none
  pub buffer : (b : List D) → st.recv_buffer ≡ some b → length b ≡ n * w

module _ {D : Type 0} (mpi : Mpi D) (z : D) (n w : ℕ) (s : Serves mpi n) where
  pub opened-Session : Session n w (opened mpi n s)
  opened-Session = record {
    loaded = refl;
    initialized = refl;
    node_comm = refl;
    node_size = refl;
    window = inl refl;
    unsent = refl;
    buffer = λ b e. absurd (none-some e);
  }

  take_window-same :
      (st : Layer D)
      → (st.buffer_window ≡ undef_value) ⊎ (st.buffer_window ≡ pos w)
      → (take_window (pos w) st).buffer_window ≡ pos w
  take_window-same st h = elim h [
    | inl e ↦ ground (arith, e)
    | inr e ↦ let used : eqb_ℤ undef_value st.buffer_window ≡ false = ground (arith, e) in rw used e
  ]

  comm_get_node_size-known :
      (st : Layer D)
      → st.node_size ≡ pos n
      → comm_get_node_size mpi st ≡ some (pos n, record st { node_size = pos n })
  unfolding comm_get_node_size
  comm_get_node_size-known st e =
      let known : eqb_ℤ undef_value st.node_size ≡ false = ground (arith, e) in
      simp (comm_get_node_size, known) (ap (λ x. some (x, record st { node_size = x })) e)

  -- The buffer has a window for each process of the node.
  comm_get_recv_buffer-Session :
      (st : Layer D)
      → Session n w st
      → (b : List D) × (st' : Layer D) × (comm_get_recv_buffer mpi z (pos w) st ≡ some (b, st'))
        × Session n w st'
        × (st'.recv_buffer ≡ some b)
  unfolding comm_get_recv_buffer
  comm_get_recv_buffer-Session st v = elim (Option-cases st.recv_buffer) [
    | inr (b, e) ↦
        let same : eqb_ℤ (pos w) (take_window (pos w) st).buffer_window ≡ true =
          ground (arith, take_window-same st v.window) in
        (
          b,
          take_window (pos w) st,
          simp (comm_get_recv_buffer, e, same) refl,
          record {
            loaded = v.loaded;
            initialized = v.initialized;
            node_comm = v.node_comm;
            node_size = v.node_size;
            window = inr (take_window-same st v.window);
            unsent = v.unsent;
            buffer = v.buffer;
          },
          e,
        )
    | inl e ↦
        let known =
          comm_get_node_size-known (record (take_window (pos w) st) { recv_buffer = none })
            v.node_size in
        (
          zeroed z (n * w),
          record (take_window (pos w) st) {
            node_size = pos n;
            recv_buffer = some (zeroed z (n * w));
          },
          simp (comm_get_recv_buffer, e, known) refl,
          record {
            loaded = v.loaded;
            initialized = v.initialized;
            node_comm = v.node_comm;
            node_size = refl;
            window = inr (take_window-same st v.window);
            unsent = v.unsent;
            buffer = λ b' e'.
                ap length (sym (some-injective (zeroed z (n * w)) b' e')) ∙ length-zeroed z (n * w);
          },
          refl,
        )
  ]

  comm_allgather-Session :
      (st : Layer D) (b : List D) (sbuf : List D)
      → Session n w st
      → st.recv_buffer ≡ some b
      → comm_allgather mpi sbuf w st ≡ some (record st { recv_buffer = some (s.answer sbuf w) })
  unfolding comm_allgather
  comm_allgather-Session st b sbuf v e =
      let whole : overwrite (s.answer sbuf w) b ≡ some (s.answer sbuf w) =
        overwrite-whole (s.answer sbuf w) b (s.length-answer sbuf w ∙ sym (v.buffer b e)) in
      simp (comm_allgather, v.loaded, v.node_comm, s.allgather sbuf w, e, whole) refl

  -- An exchange of one counter of every process.
  pub exchange_counter-Session :
      (st : Layer D) (sbuf : List D)
      → Session n w st
      → (st' : Layer D) × (exchange_counter mpi z w sbuf st ≡ some st')
        × Session n w st'
        × (st'.recv_buffer ≡ some (s.answer sbuf w))
  unfolding exchange_counter
  exchange_counter-Session st sbuf v =
      let (b, t, e, v', held) = comm_get_recv_buffer-Session st v in
      (
        record t { recv_buffer = some (s.answer sbuf w) },
        simp (exchange_counter, e) (comm_allgather-Session t b sbuf v' held),
        record {
          loaded = v'.loaded;
          initialized = v'.initialized;
          node_comm = v'.node_comm;
          node_size = v'.node_size;
          window = v'.window;
          unsent = v'.unsent;
          buffer = λ b' e'.
              ap length (sym (some-injective (s.answer sbuf w) b' e')) ∙ s.length-answer sbuf w;
        },
        refl,
      )

  -- Between MPI_Init_thread and MPI_Finalize, on a node where the calls of MPI succeed, with two
  -- processes or more and a window that is not empty, which all calls for the receive buffer have
  -- asked for: a first call for the send buffer succeeds and makes the receive buffer one window long.
  -- An exchange after it then finds that buffer (the assertion on the window holds), the call of MPI
  -- succeeds and answers with more than a window, and this does not fit: it is written out of the
  -- buffer.
  pub comm_get_send_buffer-overrun :
      (st : Layer D) (sbuf : List D)
      → Session n w st
      → 2 ≤ n
      → 0 < w
      → (r : List D × Layer D) × (comm_get_send_buffer mpi z (pos w) st ≡ some r)
        × (length r.0 ≡ w)
        × (comm_get_recv_buffer mpi z (pos w) r.1 ≡ some r)
        × (mpi_allgather mpi sbuf w r.1 ≡ some (s.answer sbuf w))
        × (w < length (s.answer sbuf w))
        × (overwrite (s.answer sbuf w) r.0 ≡ none)
        × (exchange_counter mpi z w sbuf r.1 ≡ none)
  unfolding comm_get_send_buffer exchange_counter comm_get_recv_buffer comm_allgather
  comm_get_send_buffer-overrun st sbuf v two some_window =
      let sent : Layer D = record (take_window (pos w) st) { recv_buffer = some (zeroed z w) } in
      let opened_window = take_window-same st v.window in
      let known = take_window-same sent (inr opened_window) in
      let same : eqb_ℤ (pos w) (take_window (pos w) sent).buffer_window ≡ true =
        ground (arith, known) in
      let short : overwrite (s.answer sbuf w) (zeroed z w) ≡ none =
        overwrite-short (s.answer sbuf w) (zeroed z w)
          (grind (arith, length-zeroed z w, s.length-answer sbuf w, less n w two some_window)) in
      (
        (zeroed z w, sent),
        simp (comm_get_send_buffer, v.unsent) refl,
        length-zeroed z w,
        simp (comm_get_recv_buffer, same)
            (ap (λ x. some (zeroed z w, record sent { buffer_window = x }))
              (known ∙ sym opened_window)),
        simp (v.node_comm, s.allgather sbuf w) refl,
        omega (arith, s.length-answer sbuf w, less n w two some_window),
        short,
        simp
            (
              exchange_counter,
              comm_get_recv_buffer,
              comm_allgather,
              same,
              v.loaded,
              v.node_comm,
              s.allgather sbuf w,
              short,
            )
            refl,
      )
