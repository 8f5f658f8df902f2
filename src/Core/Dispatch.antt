-- ===== src/Core/Dispatch.antt =====
-- core/sabo.c, lines 230-237, 270-324: the new thread counts, the processes of each socket, and the
-- steps at which the threads are balanced. `sort` is the C library's `qsort`. `none` is a failed
-- assertion, or a division by zero.
pub mod Sockets
mod Skip
mod Tests
use sabo.Base.{
  ℕ, zero, suc, ◌+◌, ◌%◌, Bool, true, false, not, Option, none, some, List, [], ◌∷◌, ◌++◌, map,
  get_elem?, set, ltb, ◌==◌, if◌then◌else◌, ℤ, pos, pos_part, neg_part, ◌-ℤ◌, ltb_ℤ, eqb_ℤ,
}
use mathlib.Core.Option
use sabo.Process.{CoreProcess}
use sabo.Core.Adjust.{SocketData}

-- One process of the loop; `n` is the first of its computed thread counts.
abbrev pub prepare_process : CoreProcess → ℤ → CoreProcess
prepare_process p n = record p { prev_num_threads = p.num_threads; num_threads = n }

abbrev pub reset_sockets : ℕ → ℕ → List SocketData
reset_sockets zero cores = []
reset_sockets (suc n) cores =
    record { num_free_cores = pos cores; processes = [] } ∷ reset_sockets n cores

abbrev pub add_process : CoreProcess → SocketData → SocketData
add_process p d = record {
  num_free_cores = d.num_free_cores -ℤ p.num_threads;
  processes = d.processes ++ p ∷ [];
}

unfoldable pub add_to_socket : CoreProcess → List SocketData → Option (List SocketData)
add_to_socket p sockets =
    if ltb_ℤ p.socket_id (pos 0) then none else elim (get_elem? sockets (pos_part p.socket_id)) [
      | none ↦ none
      | some d ↦ some (set sockets (pos_part p.socket_id) (add_process p d))
    ]

unfoldable pub socket_loop : List CoreProcess → List SocketData → Option (List SocketData)
socket_loop [] sockets = some sockets
socket_loop (p ∷ ps) sockets = elim (add_to_socket p sockets) [
  | none ↦ none
  | some sockets' ↦ socket_loop ps sockets'
]

abbrev pub sort_socket : (List CoreProcess → List CoreProcess) → SocketData → SocketData
sort_socket sort d = record d { processes = sort d.processes }

unfoldable pub dispatch_processes :
    (List CoreProcess → List CoreProcess) → ℕ → ℕ → List CoreProcess → Option (List SocketData)
dispatch_processes sort num_sockets cores ps =
    Option.map (map (sort_socket sort)) (socket_loop ps (reset_sockets num_sockets cores))

-- Whether no balancing is done at a step. C's remainder is 0 for the same numbers whatever the sign.
unfoldable pub skip_compute : ℤ → Bool → ℕ → ℕ → Option Bool
skip_compute stepbal periodic window step =
    let size = pos_part stepbal + neg_part stepbal in
    let due =
      if periodic
      then (if size == 0 then none else some ((step + 1) % size == 0))
      else some (eqb_ℤ (pos step) stepbal) in
    Option.map (λ compute. if not compute then true else ltb (step + 1) window) due
