-- ===== src/Core/Balance/Leaves.antt =====
-- __sabo_omp_balanced__ (core/sabo.c): what every step does.
use sabo.Base.{
  ℕ, suc, ◌<◌, ◌≡◌, refl, ap, ◌∙◌, true, false, some, get_elem?, ltb, pos, arith, Option-cases,
  ◌==◌, none-some, map-some, Bool-cases, inl, inr,
}
use mathlib.Core.Path.{subst}
use sabo.Core.Steps.{Doubles}
use sabo.Core.Dispatch.{skip_compute}
use sabo.Core.Context.{Member, Context, Comm, init_context, with_processes}
use sabo.Core.Exchange.{Casts, exchange_process_step_data, estimate_speedup}
use sabo.Core.Balance.{
  Runtime, new_placement, rebalance_threads, gather_own, leave, balance_now, omp_balanced,
}
use sabo.Ompt.{reset_ompt_data}

module _ {D : Type 0} (doubles : Doubles D) (casts : Casts D) (runtime : Runtime) where
  -- The fields that a balancing does not change.
  record Same (st st' : Context D) : Type 0 where
    step : st'.step ≡ st.step
    machine : st'.machine ≡ st.machine
    num_sockets : st'.num_sockets ≡ st.num_sockets

  init_context-Same :
      (comm : Comm D) (st st' : Context D)
      → init_context doubles comm runtime.omp_num_threads st ≡ some st'
      → Same st st'
  unfolding init_context
  init_context-Same comm st st' e = elim (Bool-cases st.init_once) [
    | inl c ↦
        let same : st ≡ st' = let e' = rw (init_context, c) at e in grind arith in
        subst (Same st) same (record { step = refl; machine = refl; num_sockets = refl })
    | inr c ↦ elim (Bool-cases (ltb st.machine.num_cores st.machine.window)) [
      | inl w ↦ absurd (none-some (rw (init_context, c, w) at e))
      | inr w ↦
          let (p, ep, same) =
            map-some (with_processes doubles comm runtime.omp_num_threads st) _ st'
              (rw (init_context, c, w) at e) in
          subst (Same st) same (record { step = refl; machine = refl; num_sockets = refl })
    ]
  ]

  rebalance_threads-Same :
      (st st' : Context D) → rebalance_threads doubles casts runtime st ≡ some st' → Same st st'
  unfolding rebalance_threads
  rebalance_threads-Same st st' e =
      let (parts, ep, same) =
        map-some
          (λ (ms, tree, ds, b). record st {
            processes = ms;
            tree = tree;
            sockets = ds;
            binding = b;
          })
          (new_placement doubles casts runtime st) st' e in
      subst (Same st) same (record { step = refl; machine = refl; num_sockets = refl })

  Same-trans : (a b c : Context D) → Same a b → Same b c → Same a c
  Same-trans a b c f g = record {
    step = g.step ∙ f.step;
    machine = g.machine ∙ f.machine;
    num_sockets = g.num_sockets ∙ f.num_sockets;
  }

  -- The context with the counters that the exchange gives.
  abbrev exchanged : Comm D → Context D → Member D → Context D
  exchanged comm st mine = record st {
    processes = exchange_process_step_data doubles casts comm st.machine.window mine st.processes;
  }

  balance_now-Same :
      (comm : Comm D) (st st' : Context D)
      → balance_now doubles casts runtime comm st ≡ some st'
      → Same st st'
  unfolding balance_now
  balance_now-Same comm st st' e =
      elim (Option-cases (init_context doubles comm runtime.omp_num_threads st)) [
        | inl c ↦ absurd (none-some (rw (balance_now, c) at e))
        | inr (st1, c) ↦ elim (Option-cases (get_elem? st1.processes st1.node_rank)) [
          | inl d ↦ absurd (none-some (rw (balance_now, c, d) at e))
          | inr (mine, d) ↦
              let st2 = exchanged comm st1 mine in
              let s2 : Same st st2 =
                Same-trans st st1 st2 (init_context-Same comm st st1 c)
                  (record { step = refl; machine = refl; num_sockets = refl }) in
              elim (Bool-cases
                (estimate_speedup doubles casts st1.machine.window st1.node_rank st2.processes)) [
                  | inl f ↦
                      let same : st2 ≡ st' =
                        let e' = rw (balance_now, c, d, f) at e in grind arith in
                      subst (Same st) same s2
                  | inr f ↦
                      Same-trans st st2 st' s2
                        (rebalance_threads-Same st2 st' (rw (balance_now, c, d, f) at e))
                ]
        ]
      ]

  gather_own-Same : (st : Context D) → Same st (gather_own doubles st)
  gather_own-Same st = elim (Bool-cases st.init_once) [
    | inl c ↦ rw c (record { step = refl; machine = refl; num_sockets = refl })
    | inr c ↦ rw c (record { step = refl; machine = refl; num_sockets = refl })
  ]

  -- The counters of the calling process are set for the next step.
  record Left (st st' : Context D) : Type 0 where
    step : st'.step ≡ suc st.step
    machine : st'.machine ≡ st.machine
    reset : (i : ℕ) → i < st.machine.num_cores → st'.ompt.elapsed i ≡ doubles.of_int (pos 0)

  leave-Left : (st st1 : Context D) → Same st st1 → Left st (leave doubles st1)
  unfolding reset_ompt_data
  leave-Left st st1 s = record {
    step = ap suc s.step;
    machine = s.machine;
    reset = λ i b.
        let cores : st1.machine.num_cores ≡ st.machine.num_cores =
          ap (λ m. m.num_cores) s.machine in
        let inside : ltb i st1.machine.num_cores ≡ true = ground arith in rw inside refl;
  }

  -- However a call of __sabo_omp_balanced__ goes (without communication, on a step that does not
  -- balance, with the rebalancing cancelled or done), if it returns then the step has been counted,
  -- the sizes of the machine are the same, and the times of all its threads are zero.
  pub omp_balanced-Left :
      (comm : Comm D) (st st' : Context D)
      → omp_balanced doubles casts runtime comm st ≡ some st'
      → (st'.step ≡ suc st.step)
        × (st'.machine ≡ st.machine)
        × ((i : ℕ) → i < st.machine.num_cores → st'.ompt.elapsed i ≡ doubles.of_int (pos 0))
  unfolding omp_balanced
  omp_balanced-Left comm st st' e =
      let st1 = gather_own doubles st in
      let s1 = gather_own-Same st in
      let l : Left st st' = elim (Bool-cases (st.machine.window == 0)) [
        | inl z ↦ absurd (none-some (rw (omp_balanced, z) at e))
        | inr z ↦ elim (Bool-cases comm.is_initialized) [
          | inr c ↦
              let same : leave doubles st1 ≡ st' =
                let e' = rw (omp_balanced, z, c) at e in grind arith in
              subst (Left st) same (leave-Left st st1 s1)
          | inl c ↦
              elim (Option-cases
                (skip_compute runtime.stepbal runtime.periodic st1.machine.window st1.step)) [
                  | inl d ↦ absurd (none-some (rw (omp_balanced, z, c, d) at e))
                  | inr (true, d) ↦
                      let same : leave doubles st1 ≡ st' =
                        let e' = rw (omp_balanced, z, c, d) at e in grind arith in
                      subst (Left st) same (leave-Left st st1 s1)
                  | inr (false, d) ↦
                      let (st2, e2, same) =
                        map-some (leave doubles) (balance_now doubles casts runtime comm st1) st'
                          (rw (omp_balanced, z, c, d) at e) in
                      subst (Left st) same (
                        leave-Left st st2
                          (Same-trans st st1 st2 s1 (balance_now-Same comm st1 st2 e2)))
                ]
        ]
      ] in
      (l.step, l.machine, l.reset)
