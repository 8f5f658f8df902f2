-- ===== src/SharedMemory/Moves.antt =====
-- modules/module_shm.c: the barrier, move by move.
use sabo.Base.{
  ℕ, suc, ◌-◌, ◌≤◌, ◌<◌, ◌≡◌, ◌≢◌, refl, false, weight, weight-write, write, write_self,
  write_other, write-all, arith, sym, ap, ◌∙◌,
}
use sabo.SharedMemory.{
  Area, u32, gen_id_word, nwritter_word, Run, Barrier, initial, first, second, arriving, Process,
  System, after,
}
use sabo.SharedMemory.Invariant.{
  Fitting, base, epoch, counted, active, opens, Local, ahead, waiting, closing, Control,
}

pub epoch-after : (b : Barrier) → epoch (after b) ≡ suc (base b)
unfolding base epoch
epoch-after initial = refl
epoch-after (first c) = omega arith
epoch-after (second c) = omega arith

pub counted-after : (b : Barrier) → counted (after b) ≡ suc (base b)
unfolding base counted
counted-after initial = refl
counted-after (first c) = omega arith
counted-after (second c) = omega arith

pub opens-after : (b : Barrier) → opens (after b) ≡ false
unfolding opens
opens-after initial = refl
opens-after (first c) = refl
opens-after (second c) = refl

pub active-after : (b : Barrier) → active (after b) ≡ false
unfolding active
active-after initial = refl
active-after (first c) = refl
active-after (second c) = refl

module _ {D : Type 0} (run : Run D) (fit : Fitting run) where
  open run use {processes}

  abbrev pub moved : System D → ℕ → Area → Process D → System D
  moved s i m p = record { area = m; process = write s.process i p }

  -- A process in the loop of a barrier leaves it when the barrier is open.
  pub opened :
      (g : ℕ) (p : Process D)
      → Local run g p
      → counted p.pc ≡ epoch p.pc
      → p.gen_id ≡ u32 g
      → epoch p.pc ≡ g
  opened g p l e o = omega (arith, l.low, l.high, sym (rw e at l.gen) ∙ o)

  -- A move that comes to no barrier.
  pub Control-quiet :
      (g : ℕ) (s : System D) (i : ℕ) (m : Area) (p : Process D)
      → i < processes
      → m gen_id_word ≡ s.area gen_id_word
      → m nwritter_word ≡ s.area nwritter_word
      → epoch p.pc ≡ epoch (s.process i).pc
      → opens (s.process i).pc ≡ false
      → opens p.pc ≡ false
      → Local run g p
      → Control run g s
      → Control run g (moved s i m p)
  Control-quiet g s i m p b eg en ee o o' l ctl = record {
    word = eg ∙ ctl.word;
    each = write-all (λ j q. Local run g q) processes s.process i p l (λ j c ne. ctl.each j c);
    phase = elim ctl.phase [
      | waiting none nw lt ↦
          let same : weight (ahead run g) processes (write s.process i p)
              ≡ weight (ahead run g) processes s.process =
            omega
              (arith, weight-write (ahead run g) processes s.process i p b, ap (λ x. x - g) ee) in
          waiting
            (write-all (λ j q. opens q.pc ≡ false) processes s.process i p o' (λ j c ne. none j c))
            (en ∙ nw ∙ sym same) (rw same lt)
      | closing q c oq others all zeroed ↦
          let ne : i ≢ q = λ e. cc in
          let same : write s.process i p q ≡ s.process q = write_other s.process p ne in
          closing q c (ap (λ x. opens x.pc) same ∙ oq)
            (write-all (λ j x. j ≢ q → opens x.pc ≡ false) processes s.process i p (λ h. o')
              (λ j d h. others j d))
            (write-all (λ j x. epoch x.pc ≡ suc g) processes s.process i p (ee ∙ all i b)
              (λ j d h. all j d))
            (λ a e. en ∙ zeroed a (ap (λ x. x.pc) (sym same) ∙ e))
    ];
  }

  -- A process that comes to the barrier, and is not there yet.
  pub ahead-arriving :
      (g : ℕ) (p : Process D) (b : Barrier)
      → p.pc ≡ arriving b
      → Local run g p
      → (base b ≡ g) × (epoch p.pc ≡ g)
  unfolding epoch active
  ahead-arriving g p b e l =
      let h : epoch p.pc ≡ g = l.here (rw e refl) in (sym (ap epoch e) ∙ h, h)

  pub Local-after :
      (g : ℕ) (p : Process D) (b : Barrier)
      → g ≤ suc (base b)
      → base b ≤ g
      → p.gen_id ≡ u32 (base b)
      → Local run g (record p { pc = after b; gen_id = u32 (suc p.gen_id) })
  Local-after g p b lo hi own = record {
    low = rw (epoch-after b) (omega arith);
    high = rw (epoch-after b) (omega arith);
    here = λ a. absurd (let f = active-after b in cc);
    gen = rw (counted-after b, own) (omega arith);
  }

  pub counted-arriving :
      (g : ℕ) (p : Process D) (b : Barrier)
      → p.pc ≡ arriving b
      → Local run g p
      → p.gen_id ≡ u32 (base b)
  unfolding counted
  counted-arriving g p b e l = l.gen ∙ ap (λ x. u32 (counted x)) e

  pub Control-arrive :
      (g : ℕ) (s : System D) (i : ℕ) (b : Barrier)
      → i < processes
      → (s.process i).pc ≡ arriving b
      → suc (s.area nwritter_word) ≢ processes
      → Control run g s
      → Control run g (
          moved s i
            (write s.area nwritter_word (u32 (suc (s.area nwritter_word))))
            (record (s.process i) { pc = after b; gen_id = u32 (suc (s.process i).gen_id) }))
  Control-arrive g s i b c e ne ctl =
      let p' : Process D = record (s.process i) {
        pc = after b;
        gen_id = u32 (suc (s.process i).gen_id);
      } in
      let (eb, ee) = ahead-arriving g (s.process i) b e (ctl.each i c) in
      let ea : epoch p'.pc ≡ suc (base b) = epoch-after b in
      let l' =
        Local-after g (s.process i) b (omega arith) (omega arith)
          (counted-arriving g (s.process i) b e (ctl.each i c)) in
      record {
        word =
            write_other s.area {i = nwritter_word} (u32 (suc (s.area nwritter_word))) (omega arith)
            ∙ ctl.word;
        each = write-all (λ j q. Local run g q) processes s.process i p' l' (λ j d h. ctl.each j d);
        phase = elim ctl.phase [
          | waiting none nw lt ↦
              let more : weight (ahead run g) processes (write s.process i p')
                  ≡ suc (weight (ahead run g) processes s.process) =
                omega (arith, weight-write (ahead run g) processes s.process i p' c) in
              waiting
                (write-all (λ j q. opens q.pc ≡ false) processes s.process i p' (opens-after b)
                  (λ j d h. none j d))
                (write_self s.area nwritter_word (u32 (suc (s.area nwritter_word)))
                  ∙ omega (arith, more, fit.at_most))
                (omega arith)
          | closing q d oq others all zeroed ↦ absurd (omega (arith, all i c))
        ];
      }
