-- ===== src/Communication/Tests.antt =====
-- common/comm.c and modules/module_mpi.c: two processes, of which the other sends one more.
use sabo.Base.{
  ◌<◌, ℕ, zero, suc, ◌+◌, ◌*◌, ◌≡◌, refl, ap, true, none, some, List, [], ◌∷◌, ◌++◌, map, length,
  length-append, pos, arith,
}
use sabo.Communication.{
  Mpi, Layer, comm_get_send_buffer, comm_get_recv_buffer, mpi_allgather, overwrite,
  exchange_counter,
}
use sabo.Communication.Session.{Serves, opened, opened-Session, comm_get_send_buffer-overrun}
use sabo.Communication.Application.{application, application-answers, Closed}

abbrev pad : ℕ → List ℕ → List ℕ
pad zero xs = []
pad (suc w) [] = 0 ∷ pad w []
pad (suc w) (x ∷ xs) = x ∷ pad w xs

length-pad : (w : ℕ) (xs : List ℕ) → length (pad w xs) ≡ w
length-pad zero xs = refl
length-pad (suc w) [] = ap suc (length-pad w [])
length-pad (suc w) (x ∷ xs) = ap suc (length-pad w xs)

abbrev both : List ℕ → ℕ → List ℕ
both xs w = pad w xs ++ pad w (map (λ x. x + 1) xs)

abbrev mpi : Mpi ℕ
mpi = record {
  world_rank = some (pos 2);
  world_size = some (pos 4);
  node_rank = some (pos 0);
  node_size = some (pos 2);
  split = true;
  translate = λ ranks. some (pos 2 ∷ pos 3 ∷ []);
  init_thread = true;
  finalize = true;
  allgather = λ sbuf w. some (both sbuf w);
}

length-both : (xs : List ℕ) (w : ℕ) → length (both xs w) ≡ 2 * w
length-both xs w = omega (
  arith,
  length-append (pad w xs) (pad w (map (λ x. x + 1) xs)),
  length-pad w xs,
  length-pad w (map (λ x. x + 1) xs),
)

mpi-Serves : Serves mpi 2
mpi-Serves = record {
  rank_in_world = pos 2;
  size_of_world = pos 4;
  rank_on_node = pos 0;
  ranks = pos 2 ∷ pos 3 ∷ [];
  answer = both;
  world_rank = refl;
  world_size = refl;
  node_rank = refl;
  node_size = refl;
  split = refl;
  translate = refl;
  init_thread = refl;
  finalize = refl;
  allgather = λ sbuf w. refl;
  length-answer = length-both;
}

application-answers_example :
    (st : Layer ℕ) × (application mpi 0 2 ((5 ∷ 6 ∷ []) ∷ (1 ∷ 1 ∷ []) ∷ [])
      ≡ some (some (5 ∷ 6 ∷ 6 ∷ 7 ∷ []) ∷ some (1 ∷ 1 ∷ 2 ∷ 2 ∷ []) ∷ [], st))
    × Closed st
unfolding mpi-Serves
application-answers_example =
    application-answers mpi 0 2 2 mpi-Serves ((5 ∷ 6 ∷ []) ∷ (1 ∷ 1 ∷ []) ∷ [])

comm_get_send_buffer-overrun_example :
    (r : List ℕ × Layer ℕ) × (comm_get_send_buffer mpi 0 (pos 2) (opened mpi 2 mpi-Serves) ≡ some r)
    × (length r.0 ≡ 2)
    × (comm_get_recv_buffer mpi 0 (pos 2) r.1 ≡ some r)
    × (mpi_allgather mpi (5 ∷ 6 ∷ []) 2 r.1 ≡ some (mpi-Serves.answer (5 ∷ 6 ∷ []) 2))
    × (2 < length (mpi-Serves.answer (5 ∷ 6 ∷ []) 2))
    × (overwrite (mpi-Serves.answer (5 ∷ 6 ∷ []) 2) r.0 ≡ none)
    × (exchange_counter mpi 0 2 (5 ∷ 6 ∷ []) r.1 ≡ none)
comm_get_send_buffer-overrun_example =
    comm_get_send_buffer-overrun mpi 0 2 2 mpi-Serves (opened mpi 2 mpi-Serves) (5 ∷ 6 ∷ [])
      (opened-Session mpi 0 2 2 mpi-Serves) (omega arith) (omega arith)
