-- ===== src/Binding/Team.antt =====
-- common/hwloc_binding.c and intel/sabo_intel_omp.c: a parallel region that binds its threads.
use sabo.Base.{
  ℕ, ◌≡◌, ◌≢◌, refl, sym, ap, ◌∙◌, true, some, List, [], ◌∷◌, ◌++◌, write_self, write_other,
  if◌then◌else◌, ℤ, pos, negsuc, eqb_ℤ, arith, Bool-cases, inl, inr,
}
use sabo.Binding.{
  BindData, HwlocBinding, Threads, OmpProcess, parallel, get_thread_affinity, with_mask,
  bind_thread, move_to_core, set_thread_affinity, move_thread, omp_rebalance,
}

-- `t` is not a thread of the team.
abbrev pub Outside : ℕ → List ℕ → Type 0
Outside t [] = Unit
Outside t (u ∷ team) = (t ≢ u) × Outside t team

Outside-append : (t : ℕ) (xs ys : List ℕ) → Outside t (xs ++ ys) → Outside t xs × Outside t ys
Outside-append t [] ys h = (tt, h)
Outside-append t (x ∷ xs) ys h = let (a, b) = Outside-append t xs ys h.1 in ((h.0, a), b)

module _ {S Core : Type 0} (hwloc : HwlocBinding S Core) where
  parallel-append :
      (body : ℕ → OmpProcess S → OmpProcess S) (xs ys : List ℕ) (st : OmpProcess S)
      → parallel body (xs ++ ys) st ≡ parallel body ys (parallel body xs st)
  unfolding parallel
  parallel-append body [] ys st = refl
  parallel-append body (x ∷ xs) ys st = parallel-append body xs ys (body x st)

  get_thread_affinity-other :
      (t u : ℕ) (d : BindData S) (ts : Threads S)
      → t ≢ u
      → (get_thread_affinity hwloc u d ts).1.bound t ≡ ts.bound t
  unfolding get_thread_affinity
  get_thread_affinity-other t u d ts h = ground arith

  bind_thread-other :
      (t u : ℕ) (s : S) (ts : Threads S) → t ≢ u → (bind_thread hwloc u s ts).bound t ≡ ts.bound t
  bind_thread-other t u s ts h = ground arith

  move_to_core-other :
      (t u : ℕ) (d : BindData S) (ts : Threads S)
      → t ≢ u
      → (move_to_core hwloc u d ts).1.bound t ≡ ts.bound t
  unfolding move_to_core
  move_to_core-other t u d ts h = ground (arith)

  -- The mask is filled without a change of the thread's core or of the processors of any thread.
  with_mask-kept :
      (u : ℕ) (d : BindData S) (ts : Threads S)
      → ((with_mask hwloc u d ts).0.new_core_id ≡ d.new_core_id)
        × ((with_mask hwloc u d ts).1.bound ≡ ts.bound)
  unfolding get_thread_affinity
  with_mask-kept u d ts = ground (arith)

  set_thread_affinity-other :
      (t u : ℕ) (d : BindData S) (ts : Threads S)
      → t ≢ u
      → (set_thread_affinity hwloc u d ts).1.bound t ≡ ts.bound t
  unfolding set_thread_affinity
  set_thread_affinity-other t u d ts h = elim (Bool-cases hwloc.has_topology) [
    | inl e ↦
        let (d', ts') = with_mask hwloc u d ts in
        let kept : ts'.bound ≡ ts.bound = (with_mask-kept u d ts).1 in
        simp (set_thread_affinity, e)
          (move_to_core-other t u d' ts' h ∙ ap (λ (f : ℕ → S). f t) kept)
    | inr e ↦ simp (set_thread_affinity, e) refl
  ]

  -- A thread that moves leaves the others alone.
  move_thread-other :
      (t u : ℕ) (st : OmpProcess S)
      → t ≢ u
      → ((move_thread hwloc u st).threads.bound t ≡ st.threads.bound t)
        × ((move_thread hwloc u st).binding t ≡ st.binding t)
  move_thread-other t u st h =
      let (d, ts) = set_thread_affinity hwloc u (st.binding u) st.threads in
      (
        set_thread_affinity-other t u (st.binding u) st.threads h,
        write_other st.binding d (λ e. h (sym e)),
      )

  parallel-Outside :
      (t : ℕ) (team : List ℕ) (st : OmpProcess S)
      → Outside t team
      → let st' = parallel (move_thread hwloc) team st in
        (st'.threads.bound t ≡ st.threads.bound t) × (st'.binding t ≡ st.binding t)
  unfolding parallel
  parallel-Outside t [] st h = (refl, refl)
  parallel-Outside t (u ∷ team) st h =
      let (b, d) = move_thread-other t u st h.0 in
      let (b', d') = parallel-Outside t team (move_thread hwloc u st) h.1 in (b' ∙ b, d' ∙ d)

  -- What a thread that has a core to go to leaves.
  abbrev pub arrived : Core → BindData S → BindData S
  arrived core d = record {
    cur_core_id = d.new_core_id;
    new_core_id = negsuc 0;
    mask = some (hwloc.singlify (hwloc.cpuset core));
  }

  abbrev pub bound_after : ℕ → Core → S → S
  bound_after t core old =
      let cpuset = hwloc.singlify (hwloc.cpuset core) in
      if eqb_ℤ (pos 0) (hwloc.set_rc t cpuset) then cpuset else old

  bind_thread-own :
      (t : ℕ) (s : S) (ts : Threads S)
      → (bind_thread hwloc t s ts).bound t
        ≡ (if eqb_ℤ (pos 0) (hwloc.set_rc t s) then s else ts.bound t)
  bind_thread-own t s ts = ground arith

  set_thread_affinity-arrived :
      (t : ℕ) (d : BindData S) (ts : Threads S) (core : Core)
      → hwloc.has_topology ≡ true
      → hwloc.core_obj d.new_core_id ≡ some core
      → ((set_thread_affinity hwloc t d ts).0 ≡ arrived core d)
        × ((set_thread_affinity hwloc t d ts).1.bound t ≡ bound_after t core (ts.bound t))
  unfolding set_thread_affinity move_to_core
  set_thread_affinity-arrived t d ts core e found =
      let (d', ts') = with_mask hwloc t d ts in
      let (same, kept) = with_mask-kept t d ts in
      let here : hwloc.core_obj d'.new_core_id ≡ some core = ap hwloc.core_obj same ∙ found in
      let opened : set_thread_affinity hwloc t d ts ≡ move_to_core hwloc t d' ts' =
        simp (set_thread_affinity, e) refl in
      let at_core : move_to_core hwloc t d' ts'
          ≡ (arrived core d', bind_thread hwloc t (hwloc.singlify (hwloc.cpuset core)) ts') =
        simp (move_to_core, here) refl in
      let whole = opened ∙ at_core in
      (
        ap (λ (r : BindData S × Threads S). r.0) whole
            ∙ ap
                (λ (k : ℤ). record {
                  cur_core_id = k;
                  new_core_id = negsuc 0;
                  mask = some (hwloc.singlify (hwloc.cpuset core));
                })
                same,
        ap (λ (r : BindData S × Threads S). r.1.bound t) whole
            ∙ (bind_thread-own t (hwloc.singlify (hwloc.cpuset core)) ts'
                ∙ ap
                    (λ (f : ℕ → S).
                      if eqb_ℤ (pos 0) (hwloc.set_rc t (hwloc.singlify (hwloc.cpuset core)))
                      then hwloc.singlify (hwloc.cpuset core)
                      else f t)
                    kept),
      )

  parallel-num_threads :
      (team : List ℕ) (st : OmpProcess S)
      → (parallel (move_thread hwloc) team st).omp_num_threads ≡ st.omp_num_threads
  unfolding parallel
  parallel-num_threads [] st = refl
  parallel-num_threads (u ∷ team) st = parallel-num_threads team (move_thread hwloc u st)

  -- A thread of the team, whatever the order of the threads and whatever becomes of the others.
  pub omp_rebalance-bound :
      (n : ℤ) (before after : List ℕ) (t : ℕ) (st : OmpProcess S) (core : Core)
      → hwloc.has_topology ≡ true
      → hwloc.core_obj (st.binding t).new_core_id ≡ some core
      → Outside t (before ++ after)
      → let st' = omp_rebalance hwloc n (before ++ t ∷ after) st in
        (st'.binding t ≡ arrived core (st.binding t))
        × (st'.threads.bound t ≡ bound_after t core (st.threads.bound t))
  unfolding omp_rebalance parallel
  omp_rebalance-bound n before after t st core e found once =
      let (not_before, not_after) = Outside-append t before after once in
      let st0 : OmpProcess S = record st { omp_num_threads = n } in
      let st1 = parallel (move_thread hwloc) before st0 in
      let (b1, d1) = parallel-Outside t before st0 not_before in
      let at_core = ap (λ (d : BindData S). hwloc.core_obj d.new_core_id) d1 ∙ found in
      let (there, bound) =
        set_thread_affinity-arrived t (st1.binding t) st1.threads core e at_core in
      let st2 = move_thread hwloc t st1 in
      let own : st2.binding t ≡ arrived core (st1.binding t) = write_self st1.binding t _ ∙ there in
      let (b2, d2) = parallel-Outside t after st2 not_after in
      let split = parallel-append (move_thread hwloc) before (t ∷ after) st0 in
      (
        ap (λ (s : OmpProcess S). s.binding t) split ∙ (d2 ∙ (own ∙ ap (arrived core) d1)),
        ap (λ (s : OmpProcess S). s.threads.bound t) split
            ∙ (b2 ∙ (bound ∙ ap (bound_after t core) b1)),
      )

  -- A thread `t` of the team, in whatever order the threads of the region run and whatever becomes
  -- of the others, for which hwloc has a core of the index that it is to go to: its entry of the array
  -- says that it is on that core, and it is bound to the one processor of that core which
  -- `hwloc_bitmap_singlify` leaves, or stays where it was if the kernel refuses that. A thread that is
  -- not in the team keeps its processors and its entry.
  pub omp_rebalance-team :
      (n : ℤ) (before after : List ℕ) (t outside : ℕ) (st : OmpProcess S) (core : Core)
      → hwloc.has_topology ≡ true
      → hwloc.core_obj (st.binding t).new_core_id ≡ some core
      → Outside t (before ++ after)
      → Outside outside (before ++ t ∷ after)
      → let st' = omp_rebalance hwloc n (before ++ t ∷ after) st in
        (st'.binding t ≡ arrived core (st.binding t))
        × (st'.threads.bound t ≡ bound_after t core (st.threads.bound t))
        × (st'.binding outside ≡ st.binding outside)
        × (st'.threads.bound outside ≡ st.threads.bound outside)
        × (st'.omp_num_threads ≡ n)
  unfolding omp_rebalance parallel
  omp_rebalance-team n before after t outside st core e found once away =
      let team : List ℕ = before ++ t ∷ after in
      let st0 : OmpProcess S = record st { omp_num_threads = n } in
      let (there, bound) = omp_rebalance-bound n before after t st core e found once in
      let (b, d) = parallel-Outside outside team st0 away in
      (there, bound, d, b, parallel-num_threads team st0)
