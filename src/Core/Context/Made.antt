-- ===== src/Core/Context/Made.antt =====
-- core_init_context (core/sabo.c): the processes that it makes.
use native.Mathlib.Decide.{ℕ_discrete}
use sabo.Base.{
  ltb, ◌≤◌, ℕ, zero, suc, ◌+◌, ◌<◌, ◌≡◌, refl, ap, ◌∙◌, false, some, get_elem?, set, length,
  length-set, get_elem?-set_self, get_elem?-set_ne, ℤ, pos, negsuc, arith,
}
use mathlib.Core.Path.{subst}
use sabo.Core.Steps.{Doubles}
use sabo.Core.Context.{
  Member, Context, Comm, init_process, members, take_over, with_processes, init_context,
}

module _ {D : Type 0} (doubles : Doubles D) (comm : Comm D) (omp_num_threads : ℤ) where
  abbrev made : ℕ → Member D
  made i = record (init_process doubles) {
    place = record ((init_process doubles).place) {
      node_rank = pos i;
      world_rank = comm.world_rank_from_node_rank i;
      num_threads = omp_num_threads;
    };
  }

  length-members : (i n : ℕ) → length (members doubles comm omp_num_threads i n) ≡ n
  unfolding members
  length-members i zero = refl
  length-members i (suc n) = ap suc (length-members (i + 1) n)

  members-get :
      (i n k : ℕ)
      → k < n
      → get_elem? (members doubles comm omp_num_threads i n) k ≡ some (made (i + k))
  unfolding members
  members-get i zero k h = absurd (omega arith)
  members-get i (suc n) zero h = ap (λ j. some (made j)) (omega arith)
  members-get i (suc n) (suc k) h =
      members-get (i + 1) n k (omega arith) ∙ ap (λ j. some (made j)) (omega arith)

  -- The process of rank `i` has its ranks, the threads of the environment, and no socket yet.
  pub record Placed (i : ℕ) (p : Member D) : Type 0 where
    pub node_rank : p.place.node_rank ≡ pos i
    pub world_rank : p.place.world_rank ≡ comm.world_rank_from_node_rank i
    pub num_threads : p.place.num_threads ≡ omp_num_threads
    pub no_socket : p.place.socket_id ≡ negsuc 0
    pub no_previous : p.place.prev_socket_id ≡ negsuc 0

  made-Placed : (i : ℕ) → Placed i (made i)
  made-Placed i = record {
    node_rank = refl;
    world_rank = refl;
    num_threads = refl;
    no_socket = refl;
    no_previous = refl;
  }

  pub record Initialised (st st' : Context D) : Type 0 where
    pub size : length st'.processes ≡ comm.node_size
    pub each :
        (i : ℕ)
        → i < comm.node_size
        → (p : Member D) × (get_elem? st'.processes i ≡ some p) × Placed i p
    pub own :
        (p : Member D) × (get_elem? st'.processes st'.node_rank ≡ some p)
        × ((j : ℕ) → j < st.machine.window → p.counters.elapsed j ≡ st.own.counters.elapsed j)
    pub once : init_context doubles comm omp_num_threads st' ≡ some st'

  -- Where the context has no processes yet, the calling process has a rank within the node, and the
  -- window is not longer than the number of cores, the
  -- initialisation succeeds: there is a process for each rank, each with its ranks and the number of
  -- threads of the environment and on no socket, that of the calling process keeps the times of the
  -- steps so far, and a second initialisation changes nothing.
  pub init_context-Initialised :
      (st : Context D)
      → st.init_once ≡ false
      → comm.node_rank < comm.node_size
      → st.machine.window ≤ st.machine.num_cores
      → (st' : Context D) × (init_context doubles comm omp_num_threads st ≡ some st')
        × Initialised st st'
  unfolding init_context
  init_context-Initialised st fresh h short =
      let room : ltb st.machine.num_cores st.machine.window ≡ false = ground (arith, short) in
      let rank = comm.node_rank in
      let ps = members doubles comm omp_num_threads 0 comm.node_size in
      let mine = take_over doubles st omp_num_threads (made (0 + rank)) in
      let at_rank = members-get 0 comm.node_size rank h in
      let inside : rank < length ps = omega (arith, length-members 0 comm.node_size) in
      let own_place : Placed (0 + rank) mine = record {
        node_rank = refl;
        world_rank = refl;
        num_threads = refl;
        no_socket = refl;
        no_previous = refl;
      } in
      let from_zero : (i : ℕ) → 0 + i ≡ i = λ i. omega arith in
      (
        with_processes doubles comm omp_num_threads st (made (0 + rank)),
        rw (init_context, fresh, room, at_rank) refl,
        record {
          size = length-set ps rank mine ∙ length-members 0 comm.node_size;
          each = λ i b. elim (ℕ_discrete rank i) [
            | yes e ↦ (
              mine,
              subst (λ k. get_elem? (set ps rank mine) k ≡ some mine) e
                  (get_elem?-set_self ps rank mine inside),
              subst (λ k. Placed k mine) (from_zero rank ∙ e) own_place,
            )
            | no ne ↦ (
              made (0 + i),
              get_elem?-set_ne ps mine ne ∙ members-get 0 comm.node_size i b,
              rw (from_zero i) (made-Placed i),
            )
          ];
          own = (mine, get_elem?-set_self ps rank mine inside, λ j b. ground arith);
          once = refl;
        },
      )
