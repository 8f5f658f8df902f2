-- ===== src/SharedMemory/Opening.antt =====
-- modules/module_shm.c: the last process that comes to the barrier, move by move.
use sabo.Base.{
  ℕ, suc, ◌<◌, ◌≡◌, ◌≢◌, refl, true, false, weight, weight-write, weight-zero, weight-full, write,
  write_self, write_other, write-all, arith, sym, ap, ◌∙◌,
}
use native.Mathlib.Decide.{ℕ_discrete}
use sabo.SharedMemory.{
  u32, gen_id_word, nwritter_word, Run, Barrier, arriving, resetting, bumping, Process, System,
  after,
}
use sabo.SharedMemory.Invariant.{
  Fitting, base, epoch, counted, active, opens, Local, ahead, waiting, closing, Control,
}
use sabo.SharedMemory.Moves.{
  epoch-after, opens-after, moved, ahead-arriving, Local-after, counted-arriving,
}

module _ {D : Type 0} (run : Run D) (fit : Fitting run) where
  open run use {processes}

  pub Control-arrive_last :
      (g : ℕ) (s : System D) (i : ℕ) (b : Barrier)
      → i < processes
      → (s.process i).pc ≡ arriving b
      → suc (s.area nwritter_word) ≡ processes
      → Control run g s
      → Control run g (
          moved run fit s i
            (write s.area nwritter_word (u32 (suc (s.area nwritter_word))))
            (record (s.process i) { pc = resetting b }))
  unfolding epoch opens counted active
  Control-arrive_last g s i b c e full ctl =
      let p' : Process D = record (s.process i) { pc = resetting b } in
      let (eb, ee) = ahead-arriving run fit g (s.process i) b e (ctl.each i c) in
      let l' : Local run g p' = record {
        low = omega arith;
        high = omega arith;
        here = λ a. absurd cc;
        gen = counted-arriving run fit g (s.process i) b e (ctl.each i c);
      } in
      let each' =
        write-all (λ j q. Local run g q) processes s.process i p' l' (λ j d h. ctl.each j d) in
      record {
        word =
            write_other s.area {i = nwritter_word} (u32 (suc (s.area nwritter_word))) (omega arith)
            ∙ ctl.word;
        each = each';
        phase = elim ctl.phase [
          | waiting none nw lt ↦
              let more : weight (ahead run g) processes (write s.process i p') ≡ processes =
                omega (arith, weight-write (ahead run g) processes s.process i p' c) in
              closing i c (ap (λ x. opens x.pc) (write_self s.process i p'))
                (write-all (λ j q. j ≢ i → opens q.pc ≡ false) processes s.process i p'
                  (λ h. absurd (h refl)) (λ j d h h'. none j d))
                (λ j d.
                  let one =
                    weight-full (ahead run g) processes (write s.process i p')
                      (λ k f. omega (arith, (each' k f).low, (each' k f).high)) more j d in
                  omega (arith, (each' j d).low, (each' j d).high))
                (λ a h.
                  absurd
                    (let h' = sym (ap (λ x. x.pc) (write_self s.process i p')) ∙ h in grind arith))
          | closing q d oq others all zeroed ↦ absurd (omega (arith, all i c))
        ];
      }

  pub Control-reset :
      (g : ℕ) (s : System D) (i : ℕ) (b : Barrier)
      → i < processes
      → (s.process i).pc ≡ resetting b
      → Control run g s
      → Control run g (
          moved run fit s i
            (write s.area nwritter_word 0)
            (record (s.process i) { pc = bumping b }))
  unfolding epoch opens counted active
  Control-reset g s i b c e ctl =
      let p' : Process D = record (s.process i) { pc = bumping b } in
      let l = ctl.each i c in
      let l' : Local run g p' = record {
        low = rw e at l.low;
        high = rw e at l.high;
        here = λ a. absurd cc;
        gen = l.gen ∙ ap (λ x. u32 (counted x)) e;
      } in
      let oi : opens (s.process i).pc ≡ true = rw e refl in
      record {
        word = write_other s.area {i = nwritter_word} 0 (omega arith) ∙ ctl.word;
        each = write-all (λ j q. Local run g q) processes s.process i p' l' (λ j d h. ctl.each j d);
        phase = elim ctl.phase [
          | waiting none nw lt ↦ absurd (let f = none i c in cc)
          | closing q d oq others all zeroed ↦
              closing i c (ap (λ x. opens x.pc) (write_self s.process i p'))
                (write-all (λ j x. j ≢ i → opens x.pc ≡ false) processes s.process i p'
                  (λ h. absurd (h refl))
                  (λ j f h h'. elim (ℕ_discrete j q) [
                    | yes y ↦ elim (ℕ_discrete i q) [
                      | yes z ↦ absurd (h (y ∙ sym z))
                      | no z ↦ absurd (let w = others i c z in cc)
                    ]
                    | no y ↦ others j f y
                  ]))
                (write-all (λ j x. epoch x.pc ≡ suc g) processes s.process i p' (rw e at (all i c))
                  (λ j f h. all j f))
                (λ a h. write_self s.area nwritter_word 0)
        ];
      }

  pub Control-bump :
      (g : ℕ) (s : System D) (i : ℕ) (b : Barrier)
      → i < processes
      → (s.process i).pc ≡ bumping b
      → Control run g s
      → Control run (suc g) (
          moved run fit s i
            (write s.area gen_id_word (u32 (suc (s.area gen_id_word))))
            (record (s.process i) { pc = after b; gen_id = u32 (suc (s.process i).gen_id) }))
  unfolding epoch opens counted
  Control-bump g s i b c e ctl =
      let p' : Process D = record (s.process i) {
        pc = after b;
        gen_id = u32 (suc (s.process i).gen_id);
      } in
      let m' = write s.area gen_id_word (u32 (suc (s.area gen_id_word))) in
      let l = ctl.each i c in
      let oi : opens (s.process i).pc ≡ true = rw e refl in
      elim ctl.phase [
        | waiting none nw lt ↦ absurd (let f = none i c in cc)
        | closing q d oq others all zeroed ↦
            let same : q ≡ i = elim (ℕ_discrete i q) [
              | yes z ↦ sym z
              | no z ↦ absurd (let w = others i c z in cc)
            ] in
            let eb : suc (base b) ≡ suc g = rw e at (all i c) in
            let l' : Local run (suc g) p' =
              Local-after run fit (suc g) (s.process i) b (omega arith) (omega arith)
                (l.gen ∙ ap (λ x. u32 (counted x)) e) in
            let all' : (j : ℕ) → j < processes → epoch (write s.process i p' j).pc ≡ suc g =
              write-all (λ j x. epoch x.pc ≡ suc g) processes s.process i p' (epoch-after b ∙ eb)
                (λ j f h. all j f) in
            let none' : (j : ℕ) → j < processes → opens (write s.process i p' j).pc ≡ false =
              write-all (λ j x. opens x.pc ≡ false) processes s.process i p' (opens-after b)
                (λ j f h. others j f (λ z. h (z ∙ same))) in
            let zero' : weight (ahead run (suc g)) processes (write s.process i p') ≡ 0 =
              weight-zero (ahead run (suc g)) processes (write s.process i p')
                (λ j f. omega (arith, all' j f)) in
            record {
              word =
                  write_self s.area gen_id_word (u32 (suc (s.area gen_id_word)))
                  ∙ omega (arith, ctl.word);
              each =
                  write-all (λ j x. Local run (suc g) x) processes s.process i p' l'
                    (λ j f h. record {
                      low = omega (arith, all j f);
                      high = omega (arith, all j f);
                      here = λ a. all j f;
                      gen = (ctl.each j f).gen;
                    });
              phase =
                  waiting none'
                    (write_other s.area {i = gen_id_word} (u32 (suc (s.area gen_id_word)))
                        (omega arith)
                      ∙ zeroed b (rw same e)
                      ∙ sym zero')
                    (omega (arith, zero', fit.some_process));
            }
      ]
