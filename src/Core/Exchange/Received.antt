-- ===== src/Core/Exchange/Received.antt =====
-- sabo_exchange_process_step_data (core/sabo.c): what each process has after it.
use native.Mathlib.Nat.{suc-mul}
use sabo.Base.{
  ℤ, ℕ, zero, suc, ◌+◌, ◌*◌, ◌<◌, ◌≡◌, refl, ap, true, some, List, [], ◌∷◌, get_elem?, ltb, arith,
  ◌∙◌, ◌≤◌, ◌-◌, false,
}
use sabo.Core.Steps.{Doubles}
use sabo.Core.Context.{Member, Comm}
use sabo.Core.Exchange.{
  Casts, with_elapsed, with_num_threads, take_elapsed, take_num_threads, last_process, as_doubles,
  memory_at, exchange_process_step_data,
}

module _ {D : Type 0} (doubles : Doubles D) (casts : Casts D) where
  take_elapsed-get :
      (window idx i : ℕ) (buffer : ℕ → D) (ps : List (Member D)) (p : Member D)
      → get_elem? ps i ≡ some p
      → get_elem? (take_elapsed doubles casts window buffer idx ps) i
        ≡ some (with_elapsed doubles casts window buffer (idx + i * window) p)
  unfolding take_elapsed
  take_elapsed-get window idx i buffer [] p e = absurd (grind arith)
  take_elapsed-get window idx zero buffer (q ∷ ps) p e =
      let same : idx + zero * window ≡ idx = omega arith in
      let e' : q ≡ p = grind arith in rw (same, e') refl
  take_elapsed-get window idx (suc i) buffer (q ∷ ps) p e =
      let same : idx + suc i * window ≡ idx + window + i * window =
        omega (arith, suc-mul i window) in
      rw same (take_elapsed-get window (idx + window) i buffer ps p e)

  take_num_threads-get :
      (window idx i : ℕ) (buffer : ℕ → D) (ps : List (Member D)) (p : Member D)
      → get_elem? ps i ≡ some p
      → get_elem? (take_num_threads doubles casts window buffer idx ps) i
        ≡ some (with_num_threads doubles casts window buffer (idx + i * window) p)
  unfolding take_num_threads
  take_num_threads-get window idx i buffer [] p e = absurd (grind arith)
  take_num_threads-get window idx zero buffer (q ∷ ps) p e =
      let same : idx + zero * window ≡ idx = omega arith in
      let e' : q ≡ p = grind arith in rw (same, e') refl
  take_num_threads-get window idx (suc i) buffer (q ∷ ps) p e =
      let same : idx + suc i * window ≡ idx + window + i * window =
        omega (arith, suc-mul i window) in
      rw same (take_num_threads-get window (idx + window) i buffer ps p e)

  abbrev last_num_threads : Member D → List (Member D) → ℕ → ℤ
  last_num_threads m ps = (last_process doubles casts m ps).counters.num_threads

  last_process-take_elapsed :
      (window idx : ℕ) (buffer : ℕ → D) (m m' : Member D) (ps : List (Member D))
      → m.counters.num_threads ≡ m'.counters.num_threads
      → last_num_threads m (take_elapsed doubles casts window buffer idx ps)
        ≡ last_num_threads m' ps
  unfolding last_process take_elapsed
  last_process-take_elapsed window idx buffer m m' [] e = e
  last_process-take_elapsed window idx buffer m m' (p ∷ ps) e =
      last_process-take_elapsed window (idx + window) buffer
        (with_elapsed doubles casts window buffer idx p) p ps refl

  memory-behind :
      (window k : ℕ) (num_threads : ℕ → ℤ)
      → window ≤ k
      → memory_at doubles casts window num_threads k ≡ casts.behind (k - window)
  memory-behind window k num_threads h =
      let out : ltb k window ≡ false = ground (arith, h) in rw (memory_at, out) refl

  -- After the exchange, the process of rank `i` has as the time of step `j` of the window the entry
  -- `i * window + j` of what the first gather made of the times of the calling process, and as its
  -- thread count of step `j` the same entry of what the second gather made of the thread counts of
  -- the last process of the node, read as doubles; its placement is the same. From the middle of the
  -- window on, what is sent there is read behind these counts, out of the array.
  pub exchange-received :
      (comm : Comm D) (window i j : ℕ) (mine p : Member D) (ps : List (Member D))
      → get_elem? ps i ≡ some p
      → j < window
      → (p' : Member D) × (get_elem?
            (exchange_process_step_data doubles casts comm window mine ps)
            i
          ≡ some p')
        × (p'.counters.elapsed j ≡ comm.allgather 0 mine.counters.elapsed (i * window + j))
        × (p'.counters.num_threads j
            ≡ casts.to_int (
                comm.allgather 1
                  (as_doubles doubles casts window
                    (last_process doubles casts mine ps).counters.num_threads)
                  (i * window + j)))
        × (p'.place ≡ p.place)
        × ((k : ℕ)
            → window ≤ 2 * k
            → as_doubles doubles casts window
                (last_process doubles casts mine ps).counters.num_threads
                k
              ≡ casts.of_bytes (casts.behind (2 * k - window)) (casts.behind (2 * k + 1 - window)))
  unfolding exchange_process_step_data
  exchange-received comm window i j mine p ps e h =
      let times = comm.allgather 0 mine.counters.elapsed in
      let ps' = take_elapsed doubles casts window times 0 ps in
      let counts = comm.allgather 1 (
        as_doubles doubles casts window
          (last_process doubles casts mine ps').counters.num_threads) in
      let counted = (last_process doubles casts mine ps).counters.num_threads in
      let inside : ltb j window ≡ true = ground arith in
      let from : 0 + i * window ≡ i * window = omega arith in
      (
        _,
        take_num_threads-get window 0 i counts ps'
            (with_elapsed doubles casts window times (0 + i * window) p)
            (take_elapsed-get window 0 i times ps p e),
        rw (inside, from) refl,
        rw (inside, from)
            (ap
              (λ f.
                casts.to_int
                  (comm.allgather 1 (as_doubles doubles casts window f) (i * window + j)))
              (last_process-take_elapsed window 0 times mine mine ps refl)),
        refl,
        λ k far.
            ap (λ x. casts.of_bytes x (memory_at doubles casts window counted (2 * k + 1)))
              (memory-behind window (2 * k) counted far)
            ∙ ap (λ y. casts.of_bytes (casts.behind (2 * k - window)) y)
                (memory-behind window (2 * k + 1) counted (omega (arith, far))),
      )
