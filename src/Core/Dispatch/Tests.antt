-- ===== src/Core/Dispatch/Tests.antt =====
-- Three processes on two sockets of four cores.
use sabo.Base.{
  suc, ◌<◌, ℕ, ◌≡◌, ◌↔◌, ◌≤◌, ◌%◌, ◌+◌, refl, List, [], ◌∷◌, map, Option, some, get_elem?, ℤ, pos,
  negsuc, ◌+ℤ◌, ◌-ℤ◌, true, false, arith,
}
use mathlib.Core.Option
use sabo.Process.{CoreProcess}
use sabo.Core.Adjust.{SocketData}
use sabo.Core.Adjust.Rounds.{threads}
use sabo.Core.Dispatch.{dispatch_processes, socket_loop, add_to_socket, skip_compute}
use sabo.Core.Dispatch.Sockets.{on_socket, dispatch_processes-sockets}
use sabo.Core.Dispatch.Skip.{skip_compute-due}

abbrev process : ℤ → ℤ → ℤ → CoreProcess
process rank socket n = record {
  node_rank = rank;
  world_rank = rank;
  socket_id = socket;
  num_threads = n;
  prev_socket_id = socket;
  prev_num_threads = n;
}

abbrev three : List CoreProcess
three =
    process (pos 0) (pos 1) (pos 3)
    ∷ process (pos 1) (pos 0) (pos 4)
    ∷ process (pos 2) (pos 1) (pos 2)
    ∷ []

abbrev unsorted : List CoreProcess → List CoreProcess
unsorted ps = ps

free_cores : Option (List SocketData) → Option (List ℤ)
free_cores = Option.map (map (λ d. d.num_free_cores))

three_run : free_cores (dispatch_processes unsorted 2 4 three) ≡ some (pos 0 ∷ negsuc 0 ∷ [])
unfolding free_cores dispatch_processes socket_loop add_to_socket ◌-ℤ◌
three_run = refl

dispatch_processes-sockets_example :
    (sockets : List SocketData) × (d : SocketData) × (dispatch_processes unsorted 2 4 three
      ≡ some sockets)
    × (get_elem? sockets 1 ≡ some d)
    × (d.processes ≡ unsorted (on_socket 1 three))
    × (d.num_free_cores +ℤ threads (on_socket 1 three) ≡ pos 4)
dispatch_processes-sockets_example =
    dispatch_processes-sockets unsorted 2 4 1 three
      (omega arith, omega arith, (omega arith, omega arith, (omega arith, omega arith, tt)))
      (omega arith)

abbrev five : ℕ
five = 5

skip_compute-due_example :
    (0 < five
      → (skip_compute (pos five) true 3 9 ≡ some false) ↔ (((9 + 1) % five ≡ 0) × (3 ≤ 9 + 1)))
    × ((skip_compute (pos five) false 3 9 ≡ some false) ↔ ((suc 8 ≡ five) × (3 ≤ five + 1)))
skip_compute-due_example = skip_compute-due five 3 9
