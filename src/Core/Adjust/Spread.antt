-- ===== src/Core/Adjust/Spread.antt =====
-- `core_adjust_list_num_threads` where both loops end.
use sabo.Base.{
  ℕ, zero, suc, ◌+◌, ◌*◌, ◌%◌, ◌<◌, ◌≤◌, ◌≡◌, ◌∙◌, ap, sym, refl, List, arith, length, some, ℤ, pos,
  pos_part, neg_part, ◌+ℤ◌, ltb_ℤ, Bool-cases, inl, inr,
}
use native.Mathlib.Nat.{add-mul-mod_self_right}
use sabo.Process.{CoreProcess}
use sabo.Core.Adjust.{
  SocketData, take_loop, give_loop, adjust_list_num_threads, take_round, give_round,
}
use sabo.Core.Adjust.Rounds.{threads, AllAtLeast, take_round-threads, give_round-threads}
use sabo.Core.Adjust.Fit.{Given, AllAtLeast-le, take_loop-Taken, give_loop-Given}

take_loop-threads :
    (fuel : ℕ) (ps : List CoreProcess) (free : ℤ) (qs : List CoreProcess) (f : ℤ)
    → take_loop fuel ps free ≡ some (qs, f)
    → f +ℤ threads qs ≡ free +ℤ threads ps
unfolding take_loop
take_loop-threads zero ps free qs f e = grind arith
take_loop-threads (suc fuel) ps free qs f e = elim (Bool-cases (ltb_ℤ free (pos 0))) [
  | inl c ↦
      take_loop-threads fuel (take_round ps free).0 (take_round ps free).1 qs f (rw c at e)
      ∙ take_round-threads ps free
  | inr c ↦ cc (rw c at e)
]

give_loop-threads :
    (fuel : ℕ) (ps : List CoreProcess) (free : ℤ) (qs : List CoreProcess) (f : ℤ)
    → give_loop fuel ps free ≡ some (qs, f)
    → f +ℤ threads qs ≡ free +ℤ threads ps
unfolding give_loop
give_loop-threads zero ps free qs f e = grind arith
give_loop-threads (suc fuel) ps free qs f e = elim (Bool-cases (ltb_ℤ (pos 0) free)) [
  | inl c ↦
      give_loop-threads fuel (give_round ps free).0 (give_round ps free).1 qs f (rw c at e)
      ∙ give_round-threads ps free
  | inr c ↦ cc (rw c at e)
]

remainder : (a b i j n : ℕ) → a + i * n ≡ b + j * n → a % n ≡ b % n
remainder a b i j n h =
    sym (add-mul-mod_self_right a i n) ∙ ap (λ x. x % n) h ∙ add-mul-mod_self_right b j n

-- What the call leaves of `d`: no free core, and `missing` threads too many.
pub record Spread (d : SocketData) (r : SocketData) : Type 0 where
  pub same_processes : length r.processes ≡ length d.processes
  pub running : AllAtLeast 1 r.processes
  pub conserved : r.num_free_cores +ℤ threads r.processes ≡ d.num_free_cores +ℤ threads d.processes
  pub full : pos_part r.num_free_cores ≡ 0
  pub fewer_than_processes : neg_part r.num_free_cores < length d.processes
  pub leftover :
      (neg_part r.num_free_cores + pos_part d.num_free_cores) % length d.processes
      ≡ neg_part d.num_free_cores % length d.processes

take_loop-ends :
    (fuel m : ℕ) (ps : List CoreProcess) (free : ℤ)
    → m < fuel
    → AllAtLeast (suc m) ps
    → 0 < length ps
    → neg_part free ≤ m * length ps
    → (r : List CoreProcess × ℤ) × (take_loop fuel ps free ≡ some r)
      × (length r.0 ≡ length ps)
      × AllAtLeast 1 r.0
      × (neg_part r.1 ≡ 0)
      × (pos_part r.1 ≤ pos_part free + length ps)
      × (rounds : ℕ) × (pos_part r.1 + neg_part free ≡ rounds * length ps + pos_part free)
unfolding take_loop
take_loop-ends (suc fuel) m ps free f a n le = elim (Bool-cases (ltb_ℤ free (pos 0))) [
  | inl c ↦
      let (r, e, t) = take_loop-Taken (suc fuel) m ps free f a (ground arith) le in
      (r, e, t.size, t.least, t.nonneg, omega (arith, t.small), t.rounds, t.total)
  | inr c ↦ (
    (ps, free),
    rw c,
    refl,
    AllAtLeast-le 1 (suc m) ps (omega arith) a,
    ground arith,
    omega arith,
    0,
    ground arith,
  )
]
take_loop-ends zero m ps free f a n le = absurd (omega arith)

adjust_list-runs :
    (fuel : ℕ) (d : SocketData) (q : List CoreProcess × ℤ) (r : List CoreProcess × ℤ)
    → take_loop fuel d.processes d.num_free_cores ≡ some q
    → give_loop fuel q.0 q.1 ≡ some r
    → adjust_list_num_threads fuel d ≡ some (record { num_free_cores = r.1; processes = r.0 })
unfolding adjust_list_num_threads
adjust_list-runs fuel d q r et eg = rw (adjust_list_num_threads, et, eg) refl

Spread-of :
    (fuel : ℕ) (d : SocketData) (qs : List CoreProcess) (f : ℤ) (rounds : ℕ)
    (r : List CoreProcess × ℤ)
    → take_loop fuel d.processes d.num_free_cores ≡ some (qs, f)
    → length qs ≡ length d.processes
    → neg_part f ≡ 0
    → pos_part f + neg_part d.num_free_cores
      ≡ rounds * length d.processes + pos_part d.num_free_cores
    → give_loop fuel qs f ≡ some r
    → Given 1 qs f r
    → Spread d (record { num_free_cores = r.1; processes = r.0 })
Spread-of fuel d qs f rounds r et l nn tot eg g = record {
  same_processes = g.size ∙ l;
  running = g.least;
  conserved =
      give_loop-threads fuel qs f r.0 r.1 eg
      ∙ take_loop-threads fuel d.processes d.num_free_cores qs f et;
  full = g.nonpos;
  fewer_than_processes = omega (arith, g.small);
  leftover =
      remainder (neg_part r.1 + pos_part d.num_free_cores) (neg_part d.num_free_cores) rounds
        g.rounds (length d.processes) (let t = rw (nn, l) at g.total in omega (arith, t));
}

-- Where no process has fewer than `m + 1` threads and the threads too many are at most `m` for each
-- process, the two loops end: no thread is lost, every process keeps one, no core is free, and the
-- threads too many that remain are fewer than the processes and are the old ones up to multiples of
-- the number of the processes.
pub adjust_list_spreads :
    (fuel m : ℕ) (d : SocketData)
    → m + pos_part d.num_free_cores + length d.processes < fuel
    → AllAtLeast (suc m) d.processes
    → 0 < length d.processes
    → neg_part d.num_free_cores ≤ m * length d.processes
    → (r : SocketData) × (adjust_list_num_threads fuel d ≡ some r) × Spread d r
unfolding adjust_list_num_threads
adjust_list_spreads fuel m d f a n le =
    let ps = d.processes in
    let free = d.num_free_cores in
    let (q, et, l, a', nn, bound, rounds, tot) =
      take_loop-ends fuel m ps free (omega arith) a n le in
    let (r, eg, g) = give_loop-Given fuel 1 q.0 q.1 (omega arith) a' (omega (arith, l, nn)) in
    (
      record { num_free_cores = r.1; processes = r.0 },
      adjust_list-runs fuel d q r et eg,
      Spread-of fuel d q.0 q.1 rounds r et l nn tot eg g,
    )
