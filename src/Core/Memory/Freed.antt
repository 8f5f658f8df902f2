-- ===== src/Core/Memory/Freed.antt =====
-- core/sabo.c: what is left of the memory of the context at the end.
use sabo.Base.{
  ℕ, zero, suc, ◌+◌, ◌≤◌, ◌<◌, ◌≡◌, refl, ap, ◌∙◌, true, false, Option, some, write, write_self,
  write_other, arith,
}
use native.Mathlib.Decide.{ℕ_discrete, dec_lt}
use mathlib.Core.Path.{subst}
use sabo.Core.Memory.{
  Heap, no_arrays, all_arrays, nothing, free, fini_process, alloc_loop, free_loop, core_init,
  alloc_rest, init_context, fini_sockets, fini_processes, fini_context,
}

module _ {ℓ} {A : Type ℓ} where
  alloc_loop-other : (a : A) (i n j : ℕ) (f : ℕ → A) → j < i → alloc_loop a i n f j ≡ f j
  unfolding alloc_loop
  alloc_loop-other a i zero j f h = refl
  alloc_loop-other a i (suc n) j f h =
      alloc_loop-other a (i + 1) n j (write f i a) (omega arith) ∙ write_other f a (omega arith)

  alloc_loop-all : (a : A) (i n j : ℕ) (f : ℕ → A) → i ≤ j → j < i + n → alloc_loop a i n f j ≡ a
  unfolding alloc_loop
  alloc_loop-all a i zero j f h b = absurd (omega arith)
  alloc_loop-all a i (suc n) j f h b = elim (ℕ_discrete i j) [
    | yes e ↦
        alloc_loop-other a (i + 1) n j (write f i a) (omega arith)
        ∙ subst (λ k. write f i a k ≡ a) e (write_self f i a)
    | no e ↦ alloc_loop-all a (i + 1) n j (write f i a) (omega arith) (omega arith)
  ]

  alloc_loop-beyond : (a : A) (i n j : ℕ) (f : ℕ → A) → i + n ≤ j → alloc_loop a i n f j ≡ f j
  unfolding alloc_loop
  alloc_loop-beyond a i zero j f h = refl
  alloc_loop-beyond a i (suc n) j f h =
      alloc_loop-beyond a (i + 1) n j (write f i a) (omega arith) ∙ write_other f a (omega arith)

  -- Where the entries from `i` on are the given one, the loop frees all of them.
  free_loop-all :
      (step : A → Option A) (a b : A) (i n : ℕ) (f : ℕ → A)
      → step a ≡ some b
      → ((j : ℕ) → i ≤ j → j < i + n → f j ≡ a)
      → (g : ℕ → A) × (free_loop step i n f ≡ some g)
        × ((j : ℕ) → i ≤ j → j < i + n → g j ≡ b)
        × ((j : ℕ) → j < i → g j ≡ f j)
        × ((j : ℕ) → i + n ≤ j → g j ≡ f j)
  unfolding free_loop
  free_loop-all step a b i zero f e h =
      (f, refl, λ j l m. absurd (omega arith), λ j l. refl, λ j l. refl)
  free_loop-all step a b i (suc n) f e h =
      let here = ap step (h i (omega arith) (omega arith)) ∙ e in
      let (g, e', inside, below, beyond) =
        free_loop-all step a b (i + 1) n (write f i b) e
          (λ j l m. write_other f b (omega arith) ∙ h j (omega arith) (omega arith)) in
      (
        g,
        simp (free_loop, here) e',
        λ j l m. elim (ℕ_discrete i j) [
          | yes q ↦ below j (omega arith) ∙ subst (λ k. write f i b k ≡ b) q (write_self f i b)
          | no q ↦ inside j (omega arith) (omega arith)
        ],
        λ j l. below j (omega arith) ∙ write_other f b (omega arith),
        λ j l. beyond j (omega arith) ∙ write_other f b (omega arith),
      )

-- The binding of the threads is all that is still allocated.
pub record BindingLeft (h : Heap) : Type 0 where
  pub ctx : h.ctx ≡ false
  pub own : h.own ≡ false
  pub own_arrays : h.own_arrays ≡ no_arrays
  pub processes : h.processes ≡ false
  pub arrays : (i : ℕ) → h.arrays i ≡ no_arrays
  pub sockets : h.sockets ≡ false
  pub socket_processes : (i : ℕ) → h.socket_processes i ≡ false
  pub binding : h.binding ≡ true

fini_process-all : fini_process all_arrays ≡ some no_arrays
unfolding fini_process
fini_process-all = refl

-- All entries are freed, and there was none beyond.
freed {ℓ} :
    {A : Type ℓ} (step : A → Option A) (a b : A) (n : ℕ)
    → step a ≡ some b
    → (g : ℕ → A) × (free_loop step 0 n (alloc_loop a 0 n (λ i. b)) ≡ some g) × ((j : ℕ) → g j ≡ b)
freed step a b n e =
    let f = alloc_loop a 0 n (λ i. b) in
    let (g, e', inside, below, beyond) =
      free_loop-all step a b 0 n f e (λ j l m. alloc_loop-all a 0 n j (λ i. b) l m) in
    (
      g,
      e',
      λ j. elim (dec_lt j n) [
        | yes l ↦ inside j (omega arith) (omega arith)
        | no l ↦ beyond j (omega arith) ∙ alloc_loop-beyond a 0 n j (λ i. b) (omega arith)
      ],
    )

-- At the end of a program whose process has balanced, `core_fini_context` frees every block once but
-- the binding of the threads. Where it has never balanced, the four arrays of the process stay
-- allocated, and nothing else.
pub fini_context-leaks :
    (num_sockets node_comm_size : ℕ)
    → (h h' : Heap) × (init_context node_comm_size (core_init num_sockets nothing) ≡ some h)
      × (fini_context h ≡ some h')
      × BindingLeft h'
      × (fini_context (core_init num_sockets nothing)
          ≡ some (record nothing { own_arrays = all_arrays; num_sockets = num_sockets }))
unfolding core_init init_context fini_context fini_sockets fini_processes
fini_context-leaks m k =
    let (rows, e, free_rows) = freed free true false m refl in
    let (arrays, e', free_arrays) = freed fini_process all_arrays no_arrays k fini_process-all in
    let h : Heap = alloc_rest (record (core_init m nothing) {
      own = false;
      own_arrays = no_arrays;
      processes = true;
      arrays = alloc_loop all_arrays 0 k (λ i. no_arrays);
      node_comm_size = k;
    }) in
    let h' : Heap = record h {
      socket_processes = rows;
      sockets = false;
      arrays = arrays;
      processes = false;
      ctx = false;
    } in
    (
      h,
      h',
      simp (init_context, fini_process-all) refl,
      simp (fini_context, fini_sockets, e) (simp (fini_processes, e') refl),
      record {
        ctx = refl;
        own = refl;
        own_arrays = refl;
        processes = refl;
        arrays = free_arrays;
        sockets = refl;
        socket_processes = free_rows;
        binding = refl;
      },
      refl,
    )
