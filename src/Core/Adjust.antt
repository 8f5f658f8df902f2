-- ===== src/Core/Adjust.antt =====
-- core/sabo.c, lines 33-38, 672-717: the processes of a socket, the fit of their thread counts to its
-- cores, and the first core of each. A process is on one socket only, so the array of pointers is
-- the list of the processes. The two `while` loops take fuel; `none` means that it ran out.
pub mod Rounds
pub mod Fit
mod Spread
mod Stuck
pub mod Ranges
mod Tests
use sabo.Base.{
  ℕ, zero, suc, ◌+◌, List, [], ◌∷◌, Option, none, some, if◌then◌else◌, ℤ, pos, ◌+ℤ◌, ◌-ℤ◌, ltb_ℤ,
  eqb_ℤ,
}
use mathlib.Core.Option
use sabo.Process.{CoreProcess}

-- `struct core_socket_data`; `num_processes` is the length of the list.
pub record SocketData : Type 0 where
  pub num_free_cores : ℤ
  pub processes : List CoreProcess

abbrev pub set_threads : CoreProcess → ℤ → CoreProcess
set_threads p n = record p { num_threads = n }

-- The `for` loop of lines 675-683: it stops at the first process with one thread.
unfoldable pub take_round : List CoreProcess → ℤ → List CoreProcess × ℤ
take_round [] free = ([], free)
take_round (p ∷ ps) free =
    let rest = take_round ps (free +ℤ pos 1) in
    if eqb_ℤ (pos 1) p.num_threads
    then (p ∷ ps, free)
    else (set_threads p (p.num_threads -ℤ pos 1) ∷ rest.0, rest.1)

-- The `for` loop of lines 687-692.
unfoldable pub give_round : List CoreProcess → ℤ → List CoreProcess × ℤ
give_round [] free = ([], free)
give_round (p ∷ ps) free =
    let rest = give_round ps (free -ℤ pos 1) in
    (set_threads p (p.num_threads +ℤ pos 1) ∷ rest.0, rest.1)

unfoldable pub take_loop : ℕ → List CoreProcess → ℤ → Option (List CoreProcess × ℤ)
take_loop zero ps free = none
take_loop (suc fuel) ps free =
    let rest = take_loop fuel (take_round ps free).0 (take_round ps free).1 in
    if ltb_ℤ free (pos 0) then rest else some (ps, free)

unfoldable pub give_loop : ℕ → List CoreProcess → ℤ → Option (List CoreProcess × ℤ)
give_loop zero ps free = none
give_loop (suc fuel) ps free =
    let rest = give_loop fuel (give_round ps free).0 (give_round ps free).1 in
    if ltb_ℤ (pos 0) free then rest else some (ps, free)

unfoldable pub adjust_list_num_threads : ℕ → SocketData → Option SocketData
adjust_list_num_threads fuel d = elim (take_loop fuel d.processes d.num_free_cores) [
  | none ↦ none
  | some (ps, free) ↦
      Option.map (λ (qs, f). record { num_free_cores = f; processes = qs }) (give_loop fuel ps free)
]

unfoldable pub adjust_num_threads : ℕ → List SocketData → Option (List SocketData)
adjust_num_threads fuel [] = some []
adjust_num_threads fuel (d ∷ ds) = elim (adjust_list_num_threads fuel d) [
  | none ↦ none
  | some d' ↦ Option.map (λ ds'. d' ∷ ds') (adjust_num_threads fuel ds)
]

first_core_loop : List CoreProcess → ℤ → ℤ → ℤ
first_core_loop [] rank start = start
first_core_loop (p ∷ ps) rank start =
    let rest = first_core_loop ps rank (start +ℤ p.num_threads) in
    if eqb_ℤ p.node_rank rank then start else rest

unfoldable pub compute_first_core_id : SocketData → ℤ → ℤ
unfolding first_core_loop
compute_first_core_id d rank = first_core_loop d.processes rank (pos 0)
