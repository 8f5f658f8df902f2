-- ===== src/Core/Balance/Apart.antt =====
-- core/sabo.c: the cores of the threads of a node, from the dispatch of its processes on the sockets
-- to the placement of each of them.
use mathlib.Core.List.{Perm}
use mathlib.Core.Path.{subst}
use sabo.Base.{
  neg_part, int_laws, ◌+ℤ◌, ◌≤ℤ◌, ap, ℕ, ◌+◌, ◌<◌, ◌≤◌, ◌≡◌, ◌≢◌, refl, sym, ◌∙◌, some, List, ◌∷◌,
  ◌++◌, get_elem?, ℤ, pos, pos_part, arith, some-injective, eq_of_parts,
}
use sabo.Process.{CoreProcess}
use sabo.Core.Adjust.{
  SocketData, adjust_list_num_threads, adjust_num_threads, compute_first_core_id,
}
use sabo.Core.Adjust.Rounds.{AllAtLeast, threads}
use sabo.Core.Adjust.Ranges.{Absent}
use sabo.Core.Dispatch.{dispatch_processes}
use sabo.Core.Dispatch.Sockets.{on_socket, AllOnNode, dispatch_processes-sockets}
use sabo.Core.Context.{Binding}
use sabo.Core.Balance.{Runtime, new_cores}
use sabo.Core.Balance.Cores.{OnSocket, new_cores-apart}
use sabo.Core.Balance.Weighs.{
  weigh, Perm-weigh, weigh-append, of_rank, off_socket, with_fewer, AllAtLeast-weigh,
  weigh-AllAtLeast, weigh-Absent, weigh-on_socket, on_socket-le, adjust_list-weigh,
  adjust_list-running, adjust_num_threads-get, adjust_list-conserved, Perm-threads,
}

-- The facts on a list of processes that its order does not change.
record Settled (s : ℕ) (ps : List CoreProcess) : Type 0 where
  one_each : (rank : ℤ) → weigh (of_rank rank) ps ≤ 1
  here : weigh (off_socket s) ps ≡ 0
  running : AllAtLeast 1 ps

Perm-Settled : (s : ℕ) {ps qs : List CoreProcess} → Perm ps qs → Settled s qs → Settled s ps
Perm-Settled s {ps} {qs} perm h = record {
  one_each = λ rank. let e = Perm-weigh (of_rank rank) perm in omega (arith, e, h.one_each rank);
  here = Perm-weigh (off_socket s) perm ∙ h.here;
  running =
      weigh-AllAtLeast 1 ps (Perm-weigh (with_fewer 1) perm ∙ AllAtLeast-weigh 1 qs h.running);
}

on_socket-Settled :
    (s : ℕ) (ps : List CoreProcess)
    → ((rank : ℤ) → weigh (of_rank rank) ps ≤ 1)
    → AllAtLeast 1 ps
    → Settled s (on_socket s ps)
on_socket-Settled s ps one run = record {
  one_each = λ rank. let le = on_socket-le (of_rank rank) s ps in omega (arith, le, one rank);
  here = weigh-on_socket s ps;
  running =
      let le = on_socket-le (with_fewer 1) s ps in
      weigh-AllAtLeast 1 (on_socket s ps) (omega (arith, le, AllAtLeast-weigh 1 ps run));
}

adjust-Settled :
    (fuel s : ℕ) (d r : SocketData)
    → adjust_list_num_threads fuel d ≡ some r
    → Settled s d.processes
    → Settled s r.processes
adjust-Settled fuel s d r e h = record {
  one_each = λ rank.
      let same = adjust_list-weigh (of_rank rank) (λ p n. refl) fuel d r e in
      omega (arith, same, h.one_each rank);
  here = adjust_list-weigh (off_socket s) (λ p n. refl) fuel d r e ∙ h.here;
  running = adjust_list-running fuel d r h.running e;
}

-- Two processes of a settled list.
record Two (a b c : List CoreProcess) (p q : CoreProcess) : Type 0 where
  before_p : Absent p.node_rank a
  before_q : Absent q.node_rank (a ++ p ∷ b)
  between : AllAtLeast 1 b
  after : AllAtLeast 1 c
  ahead : AllAtLeast 1 a
  same_socket : p.socket_id ≡ q.socket_id

split-weigh :
    (w : CoreProcess → ℕ) (a b c : List CoreProcess) (p q : CoreProcess)
    → weigh w (a ++ p ∷ (b ++ q ∷ c)) ≡ weigh w a + (w p + (weigh w b + (w q + weigh w c)))
unfolding weigh
split-weigh w a b c p q =
    let e = weigh-append w a (p ∷ (b ++ q ∷ c)) in
    let f = weigh-append w b (q ∷ c) in omega (arith, e, f)

before-weigh :
    (w : CoreProcess → ℕ) (a b : List CoreProcess) (p : CoreProcess)
    → weigh w (a ++ p ∷ b) ≡ weigh w a + (w p + weigh w b)
unfolding weigh
before-weigh w a b p = weigh-append w a (p ∷ b)

of_rank_self : (p : CoreProcess) → of_rank p.node_rank p ≡ 1
of_rank_self p = ground arith

off_socket-here :
    (s : ℕ) (p : CoreProcess) (n : ℕ) → off_socket s p ≡ n → n ≡ 0 → p.socket_id ≡ pos s
off_socket-here s p n e z = eq_of_parts p.socket_id (pos s) (ground (arith, e, z))

Settled-Two :
    (s : ℕ) (a b c : List CoreProcess) (p q : CoreProcess)
    → Settled s (a ++ p ∷ (b ++ q ∷ c))
    → Two a b c p q
Settled-Two s a b c p q h =
    let all = λ (w : CoreProcess → ℕ). split-weigh w a b c p q in
    let fewer = AllAtLeast-weigh 1 (a ++ p ∷ (b ++ q ∷ c)) h.running in
    record {
      before_p =
          weigh-Absent p.node_rank a
            (omega (arith, all (of_rank p.node_rank), h.one_each p.node_rank, of_rank_self p));
      before_q = weigh-Absent q.node_rank (a ++ p ∷ b) (
          omega (
            arith,
            all (of_rank q.node_rank),
            before-weigh (of_rank q.node_rank) a b p,
            h.one_each q.node_rank,
            of_rank_self q,
          ));
      between = weigh-AllAtLeast 1 b (omega (arith, all (with_fewer 1), fewer));
      ahead = weigh-AllAtLeast 1 a (omega (arith, all (with_fewer 1), fewer));
      after = weigh-AllAtLeast 1 c (omega (arith, all (with_fewer 1), fewer));
      same_socket =
          off_socket-here s p _ refl (omega (arith, all (off_socket s), h.here))
          ∙ sym (off_socket-here s q _ refl (omega (arith, all (off_socket s), h.here)));
    }

-- The processes `ps` of a node, each on one of its `n` sockets, no two of one rank and each with a
-- thread or more, are dispatched on the sockets and their threads fitted to the `cores` cores of
-- each. Where the fit leaves no thread too many on a socket, any two processes `p` and `q` of the
-- socket, in the order of their ranks and whatever the bindings that they had, are given cores of the
-- socket, that is positions from 0 to `cores` without it, and different ones for all their threads.
-- This is for sorts that are permutations, and where different cores of the socket have different
-- numbers.
pub dispatched-apart :
    (runtime : Runtime) (n cores s : ℕ) (ps : List CoreProcess) (sockets fitted : List SocketData)
    (r : SocketData) (a b c : List CoreProcess) (p q : CoreProcess) (old_p old_q : Binding)
    (i j : ℕ)
    → ((xs : List CoreProcess) → Perm (runtime.sort_by_num_threads xs) xs)
    → ((xs : List CoreProcess) → Perm (runtime.sort_by_rank xs) xs)
    → ((x y : ℤ)
        → OnSocket cores x
        → OnSocket cores y
        → runtime.socket_core_id q.socket_id x ≡ runtime.socket_core_id q.socket_id y
        → x ≡ y)
    → AllOnNode n ps
    → ((rank : ℤ) → weigh (of_rank rank) ps ≤ 1)
    → AllAtLeast 1 ps
    → s < n
    → dispatch_processes runtime.sort_by_num_threads n cores ps ≡ some sockets
    → adjust_num_threads runtime.fuel sockets ≡ some fitted
    → get_elem? fitted s ≡ some r
    → pos 0 ≤ℤ r.num_free_cores
    → a ++ p ∷ (b ++ q ∷ c) ≡ runtime.sort_by_rank r.processes
    → i < pos_part p.num_threads
    → j < pos_part q.num_threads
    → let d : SocketData = record r { processes = runtime.sort_by_rank r.processes } in
      OnSocket cores (compute_first_core_id d p.node_rank +ℤ pos i)
      × OnSocket cores (compute_first_core_id d q.node_rank +ℤ pos j)
      × ((new_cores runtime p (compute_first_core_id d p.node_rank) old_p).new_core_id i
          ≢ (new_cores runtime q (compute_first_core_id d q.node_rank) old_q).new_core_id j)
dispatched-apart runtime n cores s ps sockets fitted r a b c p q old_p old_q i j by_threads by_rank
      distinct on_node one run inside sent fit found room order hi hj =
    let (sockets', d, sent', at_s, holds, left) =
      dispatch_processes-sockets runtime.sort_by_num_threads n cores s ps on_node inside in
    let same = some-injective sockets' sockets (sym sent' ∙ sent) in
    let at_s' = subst (λ ds. get_elem? ds s ≡ some d) same at_s in
    let fit_s = adjust_num_threads-get runtime.fuel s sockets fitted d r fit at_s' found in
    let here = on_socket-Settled s ps one run in
    let first : Settled s d.processes =
      subst (Settled s) (sym holds) (Perm-Settled s (by_threads (on_socket s ps)) here) in
    let fitted_s = adjust-Settled runtime.fuel s d r fit_s first in
    let sorted = Perm-Settled s (by_rank r.processes) fitted_s in
    let all_d : threads d.processes ≡ threads (on_socket s ps) =
      ap threads holds
      ∙ Perm-threads (by_threads (on_socket s ps))
          (Perm-Settled s (by_threads (on_socket s ps)) here).running here.running in
    let all_r : threads (a ++ p ∷ (b ++ q ∷ c)) ≡ threads r.processes =
      ap threads order ∙ Perm-threads (by_rank r.processes) sorted.running fitted_s.running in
    let same_sum = adjust_list-conserved runtime.fuel d r fit_s in
    let fits : threads (a ++ p ∷ (b ++ q ∷ c)) ≤ℤ pos cores = omega (
      int_laws,
      room,
      ap pos_part all_d,
      ap neg_part all_d,
      ap pos_part all_r,
      ap neg_part all_r,
      ap pos_part same_sum,
      ap neg_part same_sum,
      ap pos_part left,
      ap neg_part left,
    ) in
    let two = Settled-Two s a b c p q (subst (Settled s) (sym order) sorted) in
    subst
      (λ l.
        let d : SocketData = record { num_free_cores = r.num_free_cores; processes = l } in
        OnSocket cores (compute_first_core_id d p.node_rank +ℤ pos i)
        × OnSocket cores (compute_first_core_id d q.node_rank +ℤ pos j)
        × ((new_cores runtime p (compute_first_core_id d p.node_rank) old_p).new_core_id i
            ≢ (new_cores runtime q (compute_first_core_id d q.node_rank) old_q).new_core_id j))
      order
      (new_cores-apart runtime cores a b c p q r.num_free_cores old_p old_q i j two.before_p
        two.before_q two.ahead two.between two.after two.same_socket fits distinct hi hj)
