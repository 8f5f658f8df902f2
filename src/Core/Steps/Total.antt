-- ===== src/Core/Steps/Total.antt =====
-- core/sabo.c: how many threads the processes have, each and together.
use sabo.Base.{
  ℕ, zero, suc, some, List, [], ◌∷◌, get_elem?, set, ◌≡◌, sym, ◌∙◌, ap, arith, ℤ, pos, pos_part,
  ◌+ℤ◌, ◌-ℤ◌, ◌≤ℤ◌, if◌then◌else◌, ltb_ℤ, ltb_ℤ→le, ltb_ℤ→lt, int_laws, Bool-cases, Option-cases,
  write_self, none-some, some-injective, inl, inr,
}
use mathlib.Core.Path.{subst}
use sabo.Core.Steps.{
  Doubles, CoreCounters, CoreCtx, search_step_max_delta, one_more, give_one, dispatch_loop,
  dispatch_unused_cores, avg_loop, compute_step_process_avg, average_loop,
  compute_average_step_num_threads, compute_new_threads_distribution, compute_step_num_threads,
}

module _ {D : Type 0} where
  unfoldable pub total : ℕ → List (CoreCounters D) → ℤ
  total step [] = pos 0
  total step (p ∷ ps) = p.num_threads step +ℤ total step ps

  -- The process has a thread and fits a socket.
  abbrev pub Fits : CoreCtx → ℕ → CoreCounters D → Type 0
  Fits ctx step p =
      (pos 1 ≤ℤ p.num_threads step) × (p.num_threads step ≤ℤ pos ctx.num_cores_per_socket)

  abbrev pub AllFit : CoreCtx → ℕ → List (CoreCounters D) → Type 0
  AllFit ctx step [] = Unit {0}
  AllFit ctx step (p ∷ ps) = Fits ctx step p × AllFit ctx step ps

  total-set :
      (step k : ℕ) (ps : List (CoreCounters D)) (p p' : CoreCounters D)
      → get_elem? ps k ≡ some p
      → p'.num_threads step ≡ p.num_threads step +ℤ pos 1
      → total step (set ps k p') ≡ total step ps +ℤ pos 1
  unfolding total
  total-set step k [] p p' e h = absurd (grind arith)
  total-set step zero (q ∷ ps) p p' e h =
      let e' : q ≡ p = grind arith in rw (h, e') (omega int_laws)
  total-set step (suc k) (q ∷ ps) p p' e h = rw (total-set step k ps p p' e h) (omega int_laws)

  AllFit-set :
      (ctx : CoreCtx) (step k : ℕ) (ps : List (CoreCounters D)) (p' : CoreCounters D)
      → Fits ctx step p'
      → AllFit ctx step ps
      → AllFit ctx step (set ps k p')
  AllFit-set ctx step k [] p' f a = tt
  AllFit-set ctx step zero (q ∷ ps) p' f a = (f, a.1)
  AllFit-set ctx step (suc k) (q ∷ ps) p' f a = (a.0, AllFit-set ctx step k ps p' f a.1)

  AllFit-get :
      (ctx : CoreCtx) (step k : ℕ) (ps : List (CoreCounters D)) (p : CoreCounters D)
      → get_elem? ps k ≡ some p
      → AllFit ctx step ps
      → Fits ctx step p
  AllFit-get ctx step k [] p e a = absurd (grind arith)
  AllFit-get ctx step zero (q ∷ ps) p e a = let e' : q ≡ p = grind arith in rw⁻¹ e' (a.0)
  AllFit-get ctx step (suc k) (q ∷ ps) p e a = AllFit-get ctx step k ps p e a.1

topped_up :
    (cores : ℕ) (asked given : ℤ)
    → asked ≡ given
    → given +ℤ pos (pos_part (pos cores -ℤ asked))
      ≡ (if ltb_ℤ asked (pos cores) then pos cores else asked)
unfolding ◌+ℤ◌ ◌-ℤ◌
topped_up cores asked given e = rw⁻¹ e (ground arith)

module _ {D : Type 0} (doubles : Doubles D) (ctx : CoreCtx) where
  one_more-inv :
      (step : ℕ) (p p' : CoreCounters D)
      → one_more doubles ctx step p ≡ some p'
      → (p'.num_threads step ≡ p.num_threads step +ℤ pos 1)
        × (p'.num_threads step ≤ℤ pos ctx.num_cores_per_socket)
  unfolding one_more
  one_more-inv step p p' e =
      elim (Bool-cases (ltb_ℤ (pos ctx.num_cores_per_socket) (p.num_threads step +ℤ pos 1))) [
        | inl c ↦ absurd (none-some (rw c at e))
        | inr c ↦
            let q = some-injective _ p' (rw c at e) in
            let n =
              sym (ap (λ x. x.num_threads step) q)
              ∙ write_self p.num_threads step (p.num_threads step +ℤ pos 1) in
            (n, rw n (ltb_ℤ→le (pos ctx.num_cores_per_socket) (p.num_threads step +ℤ pos 1) c))
      ]

  give_one-inv :
      (step : ℕ) (ps ps' : List (CoreCounters D))
      → give_one doubles ctx step ps ≡ some ps'
      → (total step ps' ≡ total step ps +ℤ pos 1) × (AllFit ctx step ps → AllFit ctx step ps')
  unfolding give_one
  give_one-inv step ps ps' e =
      let k = search_step_max_delta doubles step ps in
      elim (Option-cases (get_elem? ps k)) [
        | inl c ↦ absurd (none-some (rw (give_one, c) at e))
        | inr (p, c) ↦ elim (Option-cases (one_more doubles ctx step p)) [
          | inl d ↦ absurd (none-some (rw (give_one, c, d) at e))
          | inr (p', d) ↦
              let q = some-injective _ ps' (rw (give_one, c, d) at e) in
              let (n, b) = one_more-inv step p p' d in
              (
                rw⁻¹ q (total-set step k ps p p' c n),
                λ a.
                    let f = AllFit-get ctx step k ps p c a in
                    rw⁻¹ q (AllFit-set ctx step k ps p' (rw n (omega (int_laws, f.0)), b) a),
              )
        ]
      ]

  dispatch_loop-inv :
      (step n : ℕ) (ps ps' : List (CoreCounters D))
      → dispatch_loop doubles ctx step n ps ≡ some ps'
      → (total step ps' ≡ total step ps +ℤ pos n) × (AllFit ctx step ps → AllFit ctx step ps')
  unfolding dispatch_loop
  dispatch_loop-inv step zero ps ps' e =
      let q = some-injective ps ps' e in (rw q (omega int_laws), λ a. rw⁻¹ q a)
  dispatch_loop-inv step (suc n) ps ps' e = elim (Option-cases (give_one doubles ctx step ps)) [
    | inl c ↦ absurd (none-some (rw (dispatch_loop, c) at e))
    | inr (qs, c) ↦
        let (t, f) = give_one-inv step ps qs c in
        let (t', f') = dispatch_loop-inv step n qs ps' (rw (dispatch_loop, c) at e) in
        (t' ∙ rw t (omega int_laws), λ a. f' (f a))
  ]

  process_avg-Fits :
      (p p' : CoreCounters D) → compute_step_process_avg doubles ctx p ≡ some p' → Fits ctx 0 p'
  unfolding compute_step_process_avg
  process_avg-Fits p p' e =
      let n = doubles.floor (
        doubles.div (avg_loop doubles p 0 ctx.window (doubles.of_int (pos 0)))
          (doubles.of_int (pos ctx.window))) in
      elim (Bool-cases (ltb_ℤ (pos ctx.num_cores_per_socket) n)) [
        | inl c ↦ absurd (none-some (rw (compute_step_process_avg, c) at e))
        | inr c ↦ elim (Bool-cases (ltb_ℤ (pos 0) n)) [
          | inr d ↦ absurd (none-some (rw (compute_step_process_avg, c, d) at e))
          | inl d ↦
              let q = some-injective _ p' (rw (compute_step_process_avg, c, d) at e) in
              let m = sym (ap (λ x. x.num_threads 0) q) in
              rw m
                (omega (arith, ltb_ℤ→lt (pos 0) n d), ltb_ℤ→le (pos ctx.num_cores_per_socket) n c)
        ]
      ]

  average_loop-inv :
      (a a' : ℤ) (ps ps' : List (CoreCounters D))
      → average_loop doubles ctx a ps ≡ some (ps', a')
      → (a' ≡ a +ℤ total 0 ps') × AllFit ctx 0 ps'
  unfolding average_loop total
  average_loop-inv a a' [] ps' e =
      subst (λ r. (r.1 ≡ a +ℤ total 0 r.0) × AllFit ctx 0 r.0) (some-injective ([], a) (ps', a') e)
        (omega int_laws, tt)
  average_loop-inv a a' (p ∷ ps) ps' e =
      elim (Option-cases (compute_step_process_avg doubles ctx p)) [
        | inl c ↦ absurd (none-some (rw (average_loop, c) at e))
        | inr (p1, c) ↦ elim (Option-cases (average_loop doubles ctx (a +ℤ p1.num_threads 0) ps)) [
          | inl d ↦ absurd (none-some (rw (average_loop, c, d) at e))
          | inr ((qs, b), d) ↦
              let q = some-injective (p1 ∷ qs, b) (ps', a') (rw (average_loop, c, d) at e) in
              let (t, f) = average_loop-inv (a +ℤ p1.num_threads 0) b ps qs d in
              subst (λ r. (r.1 ≡ a +ℤ total 0 r.0) × AllFit ctx 0 r.0) q
                (t ∙ omega int_laws, (process_avg-Fits p p1 c, f))
        ]
      ]

  -- Where the averages and the cores that are left are given out without a failed assertion, every
  -- process has a thread and fits a socket, and all have together as many threads as there are
  -- cores, or, where the averages ask for more, as many as they ask for.
  pub average-total :
      (ps qs ps' : List (CoreCounters D)) (asked : ℤ)
      → average_loop doubles ctx (pos 0) ps ≡ some (qs, asked)
      → compute_average_step_num_threads doubles ctx ps ≡ some ps'
      → AllFit ctx 0 ps'
        × (total 0 ps' ≡ (if ltb_ℤ asked (pos ctx.num_cores) then pos ctx.num_cores else asked))
  unfolding compute_average_step_num_threads dispatch_unused_cores
  average-total ps qs ps' asked ea e =
      let (t, f) = average_loop-inv (pos 0) asked ps qs ea in
      let (t', f') =
        dispatch_loop-inv 0 (pos_part (pos ctx.num_cores -ℤ asked)) qs ps'
          (rw (compute_average_step_num_threads, ea) at e) in
      (f' f, t' ∙ topped_up ctx.num_cores asked (total 0 qs) (t ∙ omega int_laws))

  -- Where no assertion fails, the computation gives every process at least one thread and at most as
  -- many as a socket has cores, and to all together at least as many as the node has cores.
  pub distribution-total :
      (ps ps' : List (CoreCounters D))
      → compute_new_threads_distribution doubles ctx ps ≡ some ps'
      → AllFit ctx 0 ps' × (pos ctx.num_cores ≤ℤ total 0 ps')
  unfolding compute_new_threads_distribution compute_average_step_num_threads
  distribution-total ps ps' e = elim (Option-cases (compute_step_num_threads doubles ctx ps)) [
    | inl c ↦ absurd (none-some (rw (compute_new_threads_distribution, c) at e))
    | inr (qs, c) ↦
        let e' : compute_average_step_num_threads doubles ctx qs ≡ some ps' =
          rw (compute_new_threads_distribution, c) at e in
        elim (Option-cases (average_loop doubles ctx (pos 0) qs)) [
          | inl d ↦ absurd (none-some (rw (compute_average_step_num_threads, d) at e'))
          | inr ((rs, asked), d) ↦
              let (f, t) = average-total qs rs ps' asked d e' in (f, rw t (ground arith))
        ]
  ]
