-- ===== src/Core/Balance/Cores.antt =====
-- core_apply_new_placement (core/sabo.c): the cores of the processes of a socket.
use sabo.Base.{
  ℕ, ◌<◌, ◌≡◌, ◌≢◌, sym, ap, ◌∙◌, true, List, ◌∷◌, ◌++◌, ltb, ℤ, pos, pos_part, neg_part, ◌+ℤ◌,
  ◌≤ℤ◌, ◌<ℤ◌, int_laws, parts_apart, arith,
}
use sabo.Process.{CoreProcess}
use sabo.Core.Adjust.{SocketData, compute_first_core_id}
use sabo.Core.Adjust.Rounds.{AllAtLeast, threads}
use sabo.Core.Adjust.Ranges.{Absent, threads-nonneg, first_core_ranges}
use sabo.Core.Balance.{Runtime, new_cores}
use sabo.Core.Context.{Binding}

starts_apart : (a b n : ℤ) (i j : ℕ) → a +ℤ n ≤ℤ b → i < pos_part n → a +ℤ pos i ≢ b +ℤ pos j
starts_apart a b n i j h k e = omega (int_laws, h, parts_apart n, ap pos_part e, ap neg_part e)

-- Position `x` on a socket is one of its cores.
abbrev pub OnSocket : ℕ → ℤ → Type 0
OnSocket cores x = (pos 0 ≤ℤ x) × (x <ℤ pos cores)

-- Two processes `p` and `q` of a socket, whatever the bindings that they had, are given different
-- cores of the socket for all their threads, where different cores of the socket have different
-- numbers, the threads of the socket fit its cores, no process of the socket before one of them has
-- its rank, and the others have a thread or more.
pub new_cores-apart :
    (runtime : Runtime) (cores : ℕ) (a b c : List CoreProcess) (p q : CoreProcess) (free : ℤ)
    (old_p old_q : Binding) (i j : ℕ)
    → Absent p.node_rank a
    → Absent q.node_rank (a ++ p ∷ b)
    → AllAtLeast 1 a
    → AllAtLeast 1 b
    → AllAtLeast 1 c
    → p.socket_id ≡ q.socket_id
    → threads (a ++ p ∷ (b ++ q ∷ c)) ≤ℤ pos cores
    → ((x y : ℤ)
        → OnSocket cores x
        → OnSocket cores y
        → runtime.socket_core_id q.socket_id x ≡ runtime.socket_core_id q.socket_id y
        → x ≡ y)
    → i < pos_part p.num_threads
    → j < pos_part q.num_threads
    → let d : SocketData = record { num_free_cores = free; processes = a ++ p ∷ (b ++ q ∷ c) } in
      OnSocket cores (compute_first_core_id d p.node_rank +ℤ pos i)
      × OnSocket cores (compute_first_core_id d q.node_rank +ℤ pos j)
      × ((new_cores runtime p (compute_first_core_id d p.node_rank) old_p).new_core_id i
          ≢ (new_cores runtime q (compute_first_core_id d q.node_rank) old_q).new_core_id j)
unfolding new_cores
new_cores-apart runtime cores a b c p q free old_p old_q i j ha hb ta tb tc same fits distinct hi
      hj =
    let d : SocketData = record { num_free_cores = free; processes = a ++ p ∷ (b ++ q ∷ c) } in
    let (start, before, within) = first_core_ranges a b c p q free ha hb tb tc in
    let first_p = compute_first_core_id d p.node_rank in
    let first_q = compute_first_core_id d q.node_rank in
    let low : pos 0 ≤ℤ first_p = rw start (threads-nonneg a ta) in
    let np = parts_apart p.num_threads in
    let nq = parts_apart q.num_threads in
    let on_p : OnSocket cores (first_p +ℤ pos i) =
      (omega (int_laws, low), omega (int_laws, low, before, within, fits, hi, hj, np, nq)) in
    let on_q : OnSocket cores (first_q +ℤ pos j) = (
      omega (int_laws, low, before, hi, np),
      omega (int_laws, low, before, within, fits, hi, hj, np, nq),
    ) in
    let inside_p : ltb i (pos_part p.num_threads) ≡ true = ground arith in
    let inside_q : ltb j (pos_part q.num_threads) ≡ true = ground arith in
    (
      on_p,
      on_q,
      λ e.
          let cores_e =
            sym (ap (λ s. runtime.socket_core_id s (first_p +ℤ pos i)) same)
            ∙ rw (inside_p, inside_q) at e in
          starts_apart first_p first_q p.num_threads i j before hi (distinct _ _ on_p on_q cores_e),
    )
