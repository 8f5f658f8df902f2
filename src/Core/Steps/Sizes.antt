-- ===== src/Core/Steps/Sizes.antt =====
-- core/sabo.c: the computation of the thread counts keeps the processes.
use sabo.Base.{
  ℕ, zero, suc, ◌+◌, ◌≡◌, refl, sym, ap, ◌∙◌, some, List, [], ◌∷◌, length, length-set, get_elem?, ℤ,
  pos, ◌+ℤ◌, ◌-ℤ◌, Option-cases, none-some, some-injective, inl, inr,
}
use sabo.Core.Steps.{
  Doubles, CoreCounters, CoreCtx, search_step_max_delta, one_more, give_one, dispatch_loop,
  dispatch_unused_cores, update_step_process_counters, update_loop, update_step_processes_counters,
  compute_step_sum, step_loop, compute_step_num_threads, compute_step_process_avg, average_loop,
  compute_average_step_num_threads, compute_new_threads_distribution,
}

module _ {D : Type 0} (doubles : Doubles D) (ctx : CoreCtx) where
  length-update_loop :
      (step : ℕ) (sum : D) (n : ℤ) (ps : List (CoreCounters D))
      → length (update_loop doubles ctx step sum n ps).0 ≡ length ps
  unfolding update_loop
  length-update_loop step sum n [] = refl
  length-update_loop step sum n (p ∷ ps) = ap suc (
      length-update_loop step sum
        (n +ℤ (update_step_process_counters doubles ctx step sum p).num_threads step) ps)

  length-give_one :
      (step : ℕ) (ps ps' : List (CoreCounters D))
      → give_one doubles ctx step ps ≡ some ps'
      → length ps' ≡ length ps
  unfolding give_one
  length-give_one step ps ps' e =
      let k = search_step_max_delta doubles step ps in
      elim (Option-cases (get_elem? ps k)) [
        | inl c ↦ absurd (none-some (rw (give_one, c) at e))
        | inr (p, c) ↦ elim (Option-cases (one_more doubles ctx step p)) [
          | inl d ↦ absurd (none-some (rw (give_one, c, d) at e))
          | inr (p', d) ↦
              let q = some-injective _ ps' (rw (give_one, c, d) at e) in
              ap length (sym q) ∙ length-set ps k p'
        ]
      ]

  length-dispatch_loop :
      (step n : ℕ) (ps ps' : List (CoreCounters D))
      → dispatch_loop doubles ctx step n ps ≡ some ps'
      → length ps' ≡ length ps
  unfolding dispatch_loop
  length-dispatch_loop step zero ps ps' e = ap length (sym (some-injective ps ps' e))
  length-dispatch_loop step (suc n) ps ps' e = elim (Option-cases (give_one doubles ctx step ps)) [
    | inl c ↦ absurd (none-some (rw (dispatch_loop, c) at e))
    | inr (qs, c) ↦
        length-dispatch_loop step n qs ps' (rw (dispatch_loop, c) at e)
        ∙ length-give_one step ps qs c
  ]

  length-dispatch_unused_cores :
      (n : ℤ) (step : ℕ) (ps ps' : List (CoreCounters D))
      → dispatch_unused_cores doubles ctx n step ps ≡ some ps'
      → length ps' ≡ length ps
  unfolding dispatch_unused_cores
  length-dispatch_unused_cores n step ps ps' e = length-dispatch_loop step _ ps ps' e

  length-step_loop :
      (i n : ℕ) (ps ps' : List (CoreCounters D))
      → step_loop doubles ctx i n ps ≡ some ps'
      → length ps' ≡ length ps
  unfolding step_loop update_step_processes_counters
  length-step_loop i zero ps ps' e = ap length (sym (some-injective ps ps' e))
  length-step_loop i (suc n) ps ps' e =
      let u = update_step_processes_counters doubles ctx i ps in
      let sum = compute_step_sum doubles i (doubles.of_int (pos 0)) ps in
      elim (Option-cases (dispatch_unused_cores doubles ctx (pos ctx.num_cores -ℤ u.1) i u.0)) [
        | inl c ↦ absurd (none-some (rw (step_loop, c) at e))
        | inr (qs, c) ↦
            length-step_loop (i + 1) n qs ps' (rw (step_loop, c) at e)
            ∙ length-dispatch_unused_cores (pos ctx.num_cores -ℤ u.1) i u.0 qs c
            ∙ length-update_loop i sum (pos 0) ps
      ]

  length-average_loop :
      (a a' : ℤ) (ps ps' : List (CoreCounters D))
      → average_loop doubles ctx a ps ≡ some (ps', a')
      → length ps' ≡ length ps
  unfolding average_loop
  length-average_loop a a' [] ps' e =
      ap (λ r. length r.0) (sym (some-injective ([], a) (ps', a') e))
  length-average_loop a a' (p ∷ ps) ps' e =
      elim (Option-cases (compute_step_process_avg doubles ctx p)) [
        | inl c ↦ absurd (none-some (rw (average_loop, c) at e))
        | inr (p1, c) ↦ elim (Option-cases (average_loop doubles ctx (a +ℤ p1.num_threads 0) ps)) [
          | inl d ↦ absurd (none-some (rw (average_loop, c, d) at e))
          | inr ((qs, b), d) ↦
              let q = some-injective (p1 ∷ qs, b) (ps', a') (rw (average_loop, c, d) at e) in
              ap (λ r. length r.0) (sym q)
              ∙ ap suc (length-average_loop (a +ℤ p1.num_threads 0) b ps qs d)
        ]
      ]

  pub length-distribution :
      (ps ps' : List (CoreCounters D))
      → compute_new_threads_distribution doubles ctx ps ≡ some ps'
      → length ps' ≡ length ps
  unfolding compute_new_threads_distribution compute_step_num_threads
      compute_average_step_num_threads
  length-distribution ps ps' e = elim (Option-cases (compute_step_num_threads doubles ctx ps)) [
    | inl c ↦ absurd (none-some (rw (compute_new_threads_distribution, c) at e))
    | inr (qs, c) ↦
        let e' : compute_average_step_num_threads doubles ctx qs ≡ some ps' =
          rw (compute_new_threads_distribution, c) at e in
        elim (Option-cases (average_loop doubles ctx (pos 0) qs)) [
          | inl d ↦ absurd (none-some (rw (compute_average_step_num_threads, d) at e'))
          | inr ((rs, asked), d) ↦
              length-dispatch_unused_cores (pos ctx.num_cores -ℤ asked) 0 rs ps'
                (rw (compute_average_step_num_threads, d) at e')
              ∙ length-average_loop (pos 0) asked qs rs d
              ∙ length-step_loop 0 ctx.window ps qs c
        ]
  ]
