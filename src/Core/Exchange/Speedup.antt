-- ===== src/Core/Exchange/Speedup.antt =====
-- core_estimate_speedup (core/sabo.c): the sums that it compares.
use sabo.Base.{
  ℕ, zero, suc, ◌+◌, ◌<◌, ◌≡◌, refl, sym, ap, ◌∙◌, Bool, true, false, some, List, [], ◌∷◌,
  get_elem?, if◌then◌else◌, ◌==◌, ℤ, pos, ◌+ℤ◌, int_laws, arith,
}
use mathlib.Core.Path.{subst}
use sabo.Core.Steps.{Doubles}
use sabo.Core.Context.{Member}
use sabo.Core.Exchange.{
  Casts, Sums, add_times, add_process_sums, speedup_loop, no_sums, close_gains, estimate_speedup,
}

zero_add : (x : ℤ) → pos 0 +ℤ x ≡ x
zero_add x = omega int_laws

module _ {D : Type 0} (doubles : Doubles D) (casts : Casts D) where
  -- `acc` and the times of `n` steps from `step` on, added in this order.
  unfoldable pub time_from : (ℕ → D) → ℕ → ℕ → D → D
  time_from elapsed step zero acc = acc
  time_from elapsed step (suc n) acc =
      time_from elapsed (step + 1) n (doubles.add acc (elapsed step))

  unfoldable pub all_times : ℕ → List (Member D) → D → D
  all_times window [] acc = acc
  all_times window (p ∷ ps) acc = all_times window ps (time_from p.counters.elapsed 0 window acc)

  unfoldable pub all_threads : List (Member D) → ℤ
  all_threads [] = pos 0
  all_threads (p ∷ ps) = p.place.num_threads +ℤ all_threads ps

  add_times-fields :
      (mine : Bool) (elapsed : ℕ → D) (step n : ℕ) (s : Sums doubles casts)
      → add_times doubles casts mine elapsed step n s ≡ record s {
        total_time = time_from elapsed step n s.total_time;
        proc_time = if mine then time_from elapsed step n s.proc_time else s.proc_time;
      }
  unfolding add_times time_from
  add_times-fields true elapsed step zero s = refl
  add_times-fields false elapsed step zero s = refl
  add_times-fields true elapsed step (suc n) s = add_times-fields true elapsed (step + 1) n _
  add_times-fields false elapsed step (suc n) s = add_times-fields false elapsed (step + 1) n _

  -- The sums with one more process.
  abbrev with_process : ℕ → Bool → Member D → Sums doubles casts → Sums doubles casts
  with_process window mine p s = record {
    proc_num_threads =
        if mine then s.proc_num_threads +ℤ p.place.num_threads else s.proc_num_threads;
    total_num_threads = s.total_num_threads +ℤ p.place.num_threads;
    total_time = time_from p.counters.elapsed 0 window s.total_time;
    proc_time = if mine then time_from p.counters.elapsed 0 window s.proc_time else s.proc_time;
  }

  add_process_sums-fields :
      (window : ℕ) (mine : Bool) (p : Member D) (s : Sums doubles casts)
      → add_process_sums doubles casts window mine p s ≡ with_process window mine p s
  unfolding add_process_sums
  add_process_sums-fields window mine p s = add_times-fields mine p.counters.elapsed 0 window _

  speedup_loop-cons :
      (window rank i : ℕ) (p : Member D) (ps : List (Member D)) (s : Sums doubles casts)
      (mine : Bool)
      → (i == rank) ≡ mine
      → speedup_loop doubles casts window rank i (p ∷ ps) s
        ≡ speedup_loop doubles casts window rank (i + 1) ps (with_process window mine p s)
  unfolding speedup_loop
  speedup_loop-cons window rank i p ps s mine e =
      ap
        (λ b.
          speedup_loop doubles casts window rank (i + 1) ps
            (add_process_sums doubles casts window b p s))
        e
      ∙ ap (speedup_loop doubles casts window rank (i + 1) ps)
          (add_process_sums-fields window mine p s)

  -- What the sums are after the processes `ps`, whatever the calling one is.
  loop-totals :
      (window rank i : ℕ) (ps : List (Member D)) (s : Sums doubles casts)
      → ((speedup_loop doubles casts window rank i ps s).total_num_threads
          ≡ s.total_num_threads +ℤ all_threads ps)
        × ((speedup_loop doubles casts window rank i ps s).total_time
            ≡ all_times window ps s.total_time)
  unfolding speedup_loop all_threads all_times
  loop-totals window rank i [] s = (omega int_laws, refl)
  loop-totals window rank i (p ∷ ps) s =
      let (a, b) = loop-totals window rank (i + 1) ps (with_process window (i == rank) p s) in
      subst
        (λ r.
          (r.total_num_threads ≡ s.total_num_threads +ℤ all_threads (p ∷ ps))
          × (r.total_time ≡ all_times window (p ∷ ps) s.total_time))
        (sym (speedup_loop-cons window rank i p ps s (i == rank) refl)) (a ∙ omega int_laws, b)

  -- The processes behind the calling one do not change its sums.
  loop-later :
      (window rank i : ℕ) (ps : List (Member D)) (s : Sums doubles casts)
      → rank < i
      → ((speedup_loop doubles casts window rank i ps s).proc_num_threads ≡ s.proc_num_threads)
        × ((speedup_loop doubles casts window rank i ps s).proc_time ≡ s.proc_time)
  unfolding speedup_loop
  loop-later window rank i [] s h = (refl, refl)
  loop-later window rank i (p ∷ ps) s h =
      let other : (i == rank) ≡ false = ground arith in
      let (a, b) =
        loop-later window rank (i + 1) ps (with_process window false p s) (omega arith) in
      subst (λ r. (r.proc_num_threads ≡ s.proc_num_threads) × (r.proc_time ≡ s.proc_time))
        (sym (speedup_loop-cons window rank i p ps s false other)) (a, b)

  -- The sums of the calling process have been added.
  abbrev OwnSums : ℕ → Member D → Sums doubles casts → Sums doubles casts → Type 0
  OwnSums window p s r =
      (r.proc_num_threads ≡ s.proc_num_threads +ℤ p.place.num_threads)
      × (r.proc_time ≡ time_from p.counters.elapsed 0 window s.proc_time)

  loop-own :
      (window rank i k : ℕ) (ps : List (Member D)) (p : Member D) (s : Sums doubles casts)
      → get_elem? ps k ≡ some p
      → i + k ≡ rank
      → OwnSums window p s (speedup_loop doubles casts window rank i ps s)
  unfolding speedup_loop
  loop-own window rank i k [] p s e h = absurd (grind arith)
  loop-own window rank i zero (q ∷ ps) p s e h =
      let here : (i == rank) ≡ true = ground arith in
      let same : q ≡ p = grind arith in
      let (a, b) = loop-later window rank (i + 1) ps (with_process window true p s) (omega arith) in
      subst (OwnSums window p s)
        (sym (
          ap (λ x. speedup_loop doubles casts window rank i (x ∷ ps) s) same
          ∙ speedup_loop-cons window rank i p ps s true here))
        (a, b)
  loop-own window rank i (suc k) (q ∷ ps) p s e h =
      let other : (i == rank) ≡ false = ground arith in
      let (a, b) =
        loop-own window rank (i + 1) k ps p (with_process window false q s) e (omega arith) in
      subst (OwnSums window p s) (sym (speedup_loop-cons window rank i q ps s false other)) (a, b)

  Sums-close :
      (s t : Sums doubles casts)
      → s.proc_num_threads ≡ t.proc_num_threads
      → s.total_num_threads ≡ t.total_num_threads
      → s.total_time ≡ t.total_time
      → s.proc_time ≡ t.proc_time
      → close_gains doubles casts s ≡ close_gains doubles casts t
  unfolding close_gains
  Sums-close s t a b c d = rw (a, b, c, d) refl

  -- The rebalancing is cancelled exactly where the gains of two pairs of sums are close: the time and
  -- the threads of the calling process over the window, and those of all processes of the node.
  pub estimate_speedup-gains :
      (window rank : ℕ) (ps : List (Member D)) (p : Member D)
      → get_elem? ps rank ≡ some p
      → estimate_speedup doubles casts window rank ps
        ≡ close_gains doubles casts (record {
          proc_num_threads = p.place.num_threads;
          total_num_threads = all_threads ps;
          total_time = all_times window ps (doubles.of_int (pos 0));
          proc_time = time_from p.counters.elapsed 0 window (doubles.of_int (pos 0));
        })
  unfolding estimate_speedup
  estimate_speedup-gains window rank ps p e =
      let (a, b) = loop-totals window rank 0 ps (no_sums doubles casts) in
      let (c, d) = loop-own window rank 0 rank ps p (no_sums doubles casts) e (omega arith) in
      Sums-close (speedup_loop doubles casts window rank 0 ps (no_sums doubles casts)) _
        (c ∙ zero_add p.place.num_threads) (a ∙ zero_add (all_threads ps)) b d
