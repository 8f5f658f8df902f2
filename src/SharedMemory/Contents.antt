-- ===== src/SharedMemory/Contents.antt =====
-- modules/module_shm.c: the contributions in the shared buffer, move by move.
use sabo.Base.{
  ℕ, zero, suc, true, ◌+◌, ◌*◌, ◌≤◌, ◌<◌, ◌≡◌, ◌≢◌, refl, none, some, get_elem?, write, write_other,
  write-all, arith, sym, ap, ◌∙◌,
}
use native.Mathlib.Nat.{mul-suc, mul-le-mul_left}
use native.Mathlib.Decide.{dec_lt}
use sabo.SharedMemory.{
  Area, rbuf_word, Run, Barrier, initial, first, second, Pc, registering, arriving, resetting,
  bumping, joining, translating, entering, writing, collecting, reading, Process, System, after,
  store_doubles, load_doubles, slot,
}
use sabo.SharedMemory.Memory.{
  Outside, Holds, store_doubles-other, store_doubles-Holds, load_doubles-Holds,
}
use sabo.SharedMemory.Invariant.{
  Fitting, base, epoch, active, latest_at, before_gather, latest, Contents,
}
use sabo.SharedMemory.Moves.{moved}

pub latest-after : (b : Barrier) → latest (after b) ≡ latest_at b
unfolding latest latest_at before_gather
latest-after initial = refl
latest-after (first c) = refl
latest-after (second c) = refl

pub after_not_second : (b : Barrier) {c : ℕ} → after b ≢ arriving (second c)
after_not_second initial e = grind arith
after_not_second (first c) e = grind arith
after_not_second (second c) e = grind arith

-- Everybody has contributed to a gather that somebody reads.
pub latest-epoch :
    (x : Pc) (c : ℕ)
    → 2 + 2 * c ≤ epoch x
    → epoch x ≤ suc (2 + 2 * c)
    → (active x ≡ true → epoch x ≡ 2 + 2 * c)
    → latest x ≡ some c
unfolding epoch base active latest latest_at before_gather
latest-epoch registering c lo hi h = absurd (omega arith)
latest-epoch (arriving initial) c lo hi h = absurd (omega arith)
latest-epoch (arriving (first d)) c lo hi h = absurd (omega (arith, h refl))
latest-epoch (arriving (second d)) c lo hi h = ap some (omega (arith, h refl))
latest-epoch (resetting initial) c lo hi h = absurd (omega arith)
latest-epoch (resetting (first d)) c lo hi h = ap some (omega arith)
latest-epoch (resetting (second d)) c lo hi h = ap some (omega arith)
latest-epoch (bumping initial) c lo hi h = absurd (omega arith)
latest-epoch (bumping (first d)) c lo hi h = ap some (omega arith)
latest-epoch (bumping (second d)) c lo hi h = ap some (omega arith)
latest-epoch joining c lo hi h = absurd (omega arith)
latest-epoch translating c lo hi h = absurd (omega arith)
latest-epoch (entering zero) c lo hi h = absurd (omega arith)
latest-epoch (entering (suc d)) c lo hi h = ap some (omega arith)
latest-epoch (writing d) c lo hi h = absurd (omega (arith, h refl))
latest-epoch (collecting d) c lo hi h = ap some (omega arith)
latest-epoch (reading d) c lo hi h = ap some (omega (arith, h refl))

-- Nobody has contributed before everybody has registered.
pub latest-start : (x : Pc) → epoch x ≤ 1 → (active x ≡ true → epoch x ≡ 0) → latest x ≡ none
unfolding epoch base active latest latest_at before_gather
latest-start registering hi h = refl
latest-start (arriving initial) hi h = refl
latest-start (arriving (first d)) hi h = absurd (omega (arith, h refl))
latest-start (arriving (second d)) hi h = absurd (omega (arith, h refl))
latest-start (resetting initial) hi h = refl
latest-start (resetting (first d)) hi h = absurd (omega arith)
latest-start (resetting (second d)) hi h = absurd (omega arith)
latest-start (bumping initial) hi h = refl
latest-start (bumping (first d)) hi h = absurd (omega arith)
latest-start (bumping (second d)) hi h = absurd (omega arith)
latest-start joining hi h = refl
latest-start translating hi h = refl
latest-start (entering zero) hi h = refl
latest-start (entering (suc d)) hi h = absurd (omega arith)
latest-start (writing d) hi h = absurd (omega (arith, h refl))
latest-start (collecting d) hi h = absurd (omega arith)
latest-start (reading d) hi h = absurd (omega arith)

module _ {D : Type 0} (run : Run D) (fit : Fitting run) where
  open run use {processes, count, send}

  slot_le : (i j : ℕ) → i < j → slot run i + 8 * count ≤ slot run j
  slot_le i j h =
      let h' : suc i ≤ j = omega arith in omega (arith, mul-suc count i, mul-le-mul_left count h')

  -- Different processes have different slots.
  pub slot_apart : (i j t u : ℕ) → i ≢ j → t < count → u < count → slot run i + t ≢ slot run j + u
  slot_apart i j t u ne ht hu e = elim (dec_lt i j) [
    | yes h ↦ omega (arith, slot_le i j h)
    | no h ↦ omega (arith, slot_le j i (omega arith))
  ]

  pub slot-Outside :
      (i j t : ℕ)
      → i ≢ j
      → t < count
      → Outside (rbuf_word (slot run j + t)) (slot run i) count
        × Outside (suc (rbuf_word (slot run j + t))) (slot run i) count
  slot-Outside i j t ne h =
      let far : (u : ℕ) → u < count → slot run i + u ≢ slot run j + t =
        λ u c. slot_apart i j u t ne c h in
      (
        λ u c. (λ e. far u c (omega arith), λ e. omega arith),
        λ u c. (λ e. omega arith, λ e. far u c (omega arith)),
      )

  abbrev pub Kept : System D → Area → ℕ → Type 0
  Kept s m j =
      (c t : ℕ)
      → t < count
      → latest (s.process j).pc ≡ some c
      → (m (rbuf_word (slot run j + t)) ≡ s.area (rbuf_word (slot run j + t)))
        × (m (suc (rbuf_word (slot run j + t))) ≡ s.area (suc (rbuf_word (slot run j + t))))

  -- A move of `i` that keeps the others' contributions.
  pub Contents-write :
      (s : System D) (i : ℕ) (m : Area) (p : Process D)
      → ((j : ℕ) → j < processes → j ≢ i → Kept s m j)
      → ((c t : ℕ) → t < count → latest p.pc ≡ some c → Holds run m (slot run i + t) (send i c t))
      → ((j c t : ℕ)
          → j < processes
          → t < count
          → slot run j + t < processes * count
          → p.pc ≡ arriving (second c)
          → get_elem? p.received (slot run j + t) ≡ some (send j c t))
      → Contents run s
      → Contents run (moved run fit s i m p)
  Contents-write s i m p keep own result con = record {
    held = λ j c t b h e.
        write-all
          (λ k x.
            (c t : ℕ)
            → t < count
            → latest x.pc ≡ some c
            → Holds run m (slot run k + t) (send k c t))
          processes s.process i p own
          (λ k d ne c' t' h' e'.
            let (a0, a1) = con.held k c' t' d h' e' in
            let (k0, k1) = keep k d ne c' t' h' e' in (k0 ∙ a0, k1 ∙ a1))
          j b c t h e;
    got = λ k j c t b d h l e.
        write-all
          (λ k' x.
            (j c t : ℕ)
            → j < processes
            → t < count
            → slot run j + t < processes * count
            → x.pc ≡ arriving (second c)
            → get_elem? x.received (slot run j + t) ≡ some (send j c t))
          processes s.process i p result (λ k' d' ne j' c' t'. con.got k' j' c' t' d') k b j c t d h
          l e;
  }

  -- A move that changes nothing in the buffer.
  pub Contents-keep :
      (s : System D) (i : ℕ) (m : Area) (p : Process D)
      → i < processes
      → ((j : ℕ) → j < processes → Kept s m j)
      → latest p.pc ≡ latest (s.process i).pc
      → ((c : ℕ) → p.pc ≢ arriving (second c))
      → Contents run s
      → Contents run (moved run fit s i m p)
  Contents-keep s i m p b keep same no_result con =
      Contents-write s i m p (λ j c ne. keep j c)
        (λ c t h e.
          let e' = sym same ∙ e in
          let (a0, a1) = con.held i c t b h e' in
          let (k0, k1) = keep i b c t h e' in (k0 ∙ a0, k1 ∙ a1))
        (λ j c t d h l e. absurd (no_result c e)) con

  -- Writing one of the two counters.
  pub Contents-counter :
      (s : System D) (i w v : ℕ) (p : Process D)
      → i < processes
      → 255 < w
      → w < 258
      → latest p.pc ≡ latest (s.process i).pc
      → ((c : ℕ) → p.pc ≢ arriving (second c))
      → Contents run s
      → Contents run (moved run fit s i (write s.area w v) p)
  Contents-counter s i w v p b lo hi same no_result con =
      Contents-keep s i (write s.area w v) p b
        (λ j d c t h e.
          let away = fit.clear j t d h in
          (
            write_other s.area v (λ e'. away (omega arith)),
            write_other s.area v (λ e'. away (omega arith)),
          ))
        same no_result con

  pub Contents-contribute :
      (s : System D) (i c : ℕ) (p : Process D)
      → i < processes
      → p.pc ≡ arriving (first c)
      → Contents run s
      → Contents run (moved run fit s i (store_doubles run s.area (slot run i) (send i c) count) p)
  unfolding latest latest_at
  Contents-contribute s i c p b e con =
      Contents-write s i (store_doubles run s.area (slot run i) (send i c) count) p
        (λ j d ne c' t h e'.
          let (o0, o1) = slot-Outside i j t (λ x. ne (sym x)) h in
          (
            store_doubles-other run s.area (slot run i) count (rbuf_word (slot run j + t))
                (send i c) o0,
            store_doubles-other run s.area (slot run i) count (suc (rbuf_word (slot run j + t)))
                (send i c) o1,
          ))
        (λ c' t h e'.
          let same : c ≡ c' = grind (arith, rw e at e') in
          rw⁻¹ same (store_doubles-Holds run s.area (slot run i) count t (send i c) h))
        (λ j c' t d h l e'. absurd (let f = sym e ∙ e' in grind arith)) con

  pub Contents-receive :
      (s : System D) (i c : ℕ) (p : Process D)
      → i < processes
      → (s.process i).pc ≡ reading c
      → p.pc ≡ arriving (second c)
      → p.received ≡ load_doubles run s.area 0 (processes * count)
      → ((j : ℕ) → j < processes → latest (s.process j).pc ≡ some c)
      → Contents run s
      → Contents run (moved run fit s i s.area p)
  unfolding latest latest_at
  Contents-receive s i c p b e e' r all con =
      Contents-write s i s.area p (λ j d ne c' t h f. (refl, refl))
        (λ c' t h f. con.held i c' t b h (ap latest e ∙ sym (ap latest e') ∙ f))
        (λ j c' t d h l f.
          let same : c ≡ c' = let f' = sym e' ∙ f in grind arith in
          ap (λ x. get_elem? x (slot run j + t)) r
          ∙ rw⁻¹ same (
              load_doubles-Holds run s.area 0 (processes * count) (slot run j + t) (send j c t)
                fit.back l
                (let zero_add : 0 + (slot run j + t) ≡ slot run j + t = omega arith in
                  rw zero_add (con.held j c t d h (all j d)))))
        con
