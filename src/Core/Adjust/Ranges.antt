-- ===== src/Core/Adjust/Ranges.antt =====
-- The cores that `core_compute_first_core_id` gives to the processes of a socket.
use sabo.Base.{
  ◌≡◌, ◌≢◌, ◌∙◌, refl, List, [], ◌∷◌, ◌++◌, arith, ℤ, pos, ◌+ℤ◌, ◌≤ℤ◌, eqb_ℤ, false, true, int_laws,
  eq_of_parts, ap,
}
use mathlib.Core.List.{append_assoc}
use sabo.Process.{CoreProcess}
use sabo.Core.Adjust.{SocketData, first_core_loop, compute_first_core_id}
use sabo.Core.Adjust.Rounds.{threads, AllAtLeast}

-- No process of the list has the rank.
abbrev pub Absent : ℤ → List CoreProcess → Type 0
Absent rank [] = Unit {0}
Absent rank (p ∷ ps) = (p.node_rank ≢ rank) × Absent rank ps

rank-apart : (a b : ℤ) → a ≢ b → eqb_ℤ a b ≡ false
rank-apart a b h = ground (arith, eq_of_parts a b)

rank_self : (a : ℤ) → eqb_ℤ a a ≡ true
rank_self a = ground arith

first_core_loop-at :
    (pre post : List CoreProcess) (p : CoreProcess) (start : ℤ)
    → Absent p.node_rank pre
    → first_core_loop (pre ++ p ∷ post) p.node_rank start ≡ start +ℤ threads pre
unfolding first_core_loop threads
first_core_loop-at [] post p start h = rw (rank_self p.node_rank) (omega int_laws)
first_core_loop-at (q ∷ pre) post p start h =
    rw (rank-apart q.node_rank p.node_rank h.0)
      (first_core_loop-at pre post p (start +ℤ q.num_threads) h.1 ∙ omega int_laws)

threads-append : (ps qs : List CoreProcess) → threads (ps ++ qs) ≡ threads ps +ℤ threads qs
unfolding threads
threads-append [] qs = omega int_laws
threads-append (p ∷ ps) qs = rw (threads-append ps qs) (omega int_laws)

pub threads-nonneg : (ps : List CoreProcess) → AllAtLeast 1 ps → pos 0 ≤ℤ threads ps
unfolding threads
threads-nonneg [] h = omega arith
threads-nonneg (p ∷ ps) h = let ih = threads-nonneg ps h.1 in omega (int_laws, ih, h.0)

first_core-at :
    (pre post : List CoreProcess) (p : CoreProcess) (free : ℤ) (ps : List CoreProcess)
    → pre ++ p ∷ post ≡ ps
    → Absent p.node_rank pre
    → compute_first_core_id (record { num_free_cores = free; processes = ps }) p.node_rank
      ≡ threads pre
unfolding compute_first_core_id
first_core-at pre post p free ps e h =
    rw⁻¹ e (first_core_loop-at pre post p (pos 0) h ∙ omega int_laws)

-- The cores of a process start where those of the processes before it end, and end before those of
-- a later process and within the threads of the socket.
pub first_core_ranges :
    (a b c : List CoreProcess) (p q : CoreProcess) (free : ℤ)
    → Absent p.node_rank a
    → Absent q.node_rank (a ++ p ∷ b)
    → AllAtLeast 1 b
    → AllAtLeast 1 c
    → let d : SocketData = record { num_free_cores = free; processes = a ++ p ∷ (b ++ q ∷ c) } in
      (compute_first_core_id d p.node_rank ≡ threads a)
      × (compute_first_core_id d p.node_rank +ℤ p.num_threads
          ≤ℤ compute_first_core_id d q.node_rank)
      × (compute_first_core_id d q.node_rank +ℤ q.num_threads ≤ℤ threads d.processes)
unfolding threads
first_core_ranges a b c p q free ha hb tb tc =
    let ps = a ++ p ∷ (b ++ q ∷ c) in
    let start : compute_first_core_id (record { num_free_cores = free; processes = ps }) p.node_rank
        ≡ threads a =
      first_core-at a (b ++ q ∷ c) p free ps refl ha in
    let next : compute_first_core_id (record { num_free_cores = free; processes = ps }) q.node_rank
        ≡ threads a +ℤ (p.num_threads +ℤ threads b) =
      first_core-at (a ++ p ∷ b) c q free ps (append_assoc a (p ∷ b) (q ∷ c)) hb
      ∙ threads-append a (p ∷ b) in
    let all : threads ps
        ≡ threads a +ℤ (p.num_threads +ℤ (threads b +ℤ (q.num_threads +ℤ threads c))) =
      threads-append a (p ∷ (b ++ q ∷ c))
      ∙ ap (λ t. threads a +ℤ (p.num_threads +ℤ t)) (threads-append b (q ∷ c)) in
    let nb = threads-nonneg b tb in
    let nc = threads-nonneg c tc in
    rw (start, next, all) (refl, omega (int_laws, nb), omega (int_laws, nc))
