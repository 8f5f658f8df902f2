-- ===== src/SharedMemory/Preservation.antt =====
-- modules/module_shm.c: the invariant over all moves, and over a run.
use sabo.Base.{
  ℕ, suc, ◌+◌, ◌*◌, ◌<◌, ◌≡◌, ◌≢◌, refl, false, none, write, write_other, weight-zero, arith, sym,
  ap, ◌∙◌,
}
use sabo.SharedMemory.{
  Area, u32, gen_id_word, nwritter_word, Run, Barrier, second, Pc, arriving, Process, System, slot,
  Move, register_master, register_client, arrive, arrive_last, reset, bump, join, fill_table, enter,
  contribute, collect, receive, pick, start, Reach, begin, later,
}
use sabo.SharedMemory.Memory.{Outside, store_doubles-other}
use sabo.SharedMemory.Invariant.{
  Fitting, base, epoch, counted, active, opens, latest_at, before_gather, latest, ahead, waiting,
  Control, Contents,
}
use sabo.SharedMemory.Moves.{moved, opened, Control-quiet, Control-arrive}
use sabo.SharedMemory.Opening.{Control-arrive_last, Control-reset, Control-bump}
use sabo.SharedMemory.Contents.{
  latest-after, latest-start, latest-epoch, after_not_second, Contents-keep, Contents-counter,
  Contents-contribute, Contents-receive,
}

module _ {D : Type 0} (run : Run D) (fit : Fitting run) where
  open run use {processes, count, send}

  -- A quiet move of the control: the pc goes from one in which nobody is ahead.
  quiet :
      (g : ℕ) (s : System D) (i : ℕ) (m : Area) (p : Process D) {x : Pc}
      → i < processes
      → (s.process i).pc ≡ x
      → m gen_id_word ≡ s.area gen_id_word
      → m nwritter_word ≡ s.area nwritter_word
      → p.gen_id ≡ (s.process i).gen_id
      → epoch (s.process i).pc ≡ g
      → epoch p.pc ≡ epoch x
      → counted p.pc ≡ counted x
      → opens x ≡ false
      → opens p.pc ≡ false
      → Control run g s
      → Control run g (moved run fit s i m p)
  quiet g s i m p b e eg en own here ee ec o o' ctl =
      let ee' = ee ∙ sym (ap epoch e) in
      Control-quiet run fit g s i m p b eg en ee' (ap opens e ∙ o) o'
        (record {
          low = omega arith;
          high = omega arith;
          here = λ a. ee' ∙ here;
          gen = own ∙ (ctl.each i b).gen ∙ ap u32 (ap counted e ∙ sym ec);
        })
        ctl

  contribution-Outside :
      (i : ℕ)
      → i < processes
      → Outside gen_id_word (slot run i) count × Outside nwritter_word (slot run i) count
  contribution-Outside i b =
      let clear : (t : ℕ) → t < count → slot run i + t ≢ 125 = λ t h. fit.clear i t b h in
      (
        λ t h. (λ e. clear t h (omega arith), λ e. omega arith),
        λ t h. (λ e. omega arith, λ e. clear t h (omega arith)),
      )

  Control-Move :
      (g : ℕ) (s : System D) (i : ℕ) (m : Area) (p : Process D)
      → i < processes
      → Move run i s.area (s.process i) m p
      → Control run g s
      → (g' : ℕ) × Control run g' (moved run fit s i m p)
  unfolding epoch counted active opens base
  Control-Move g s i m p b (register_master z e) ctl = (
    g,
    quiet g s i m p b e refl refl refl ((ctl.each i b).here (rw e refl)) refl refl refl refl ctl,
  )
  Control-Move g s i m p b (register_client z e) ctl = (
    g,
    quiet g s i m p b e (write_other s.area (u32 (run.world_rank i)) (omega (arith, fit.at_most)))
        (write_other s.area (u32 (run.world_rank i)) (omega (arith, fit.at_most))) refl
        ((ctl.each i b).here (rw e refl)) refl refl refl refl ctl,
  )
  Control-Move g s i m p b (arrive {b = barrier} e h) ctl =
      (g, Control-arrive run fit g s i barrier b e h ctl)
  Control-Move g s i m p b (arrive_last {b = barrier} e h) ctl =
      (g, Control-arrive_last run fit g s i barrier b e h ctl)
  Control-Move g s i m p b (reset {b = barrier} e) ctl =
      (g, Control-reset run fit g s i barrier b e ctl)
  Control-Move g s i m p b (bump {b = barrier} e) ctl =
      (suc g, Control-bump run fit g s i barrier b e ctl)
  Control-Move g s i m p b (join e o) ctl = (
    g,
    quiet g s i m p b e refl refl refl
        (opened run fit g (s.process i) (ctl.each i b) (rw e refl) (o ∙ ctl.word)) refl refl refl
        refl ctl,
  )
  Control-Move g s i m p b (fill_table e) ctl = (
    g,
    quiet g s i m p b e refl refl refl ((ctl.each i b).here (rw e refl)) refl refl refl refl ctl,
  )
  Control-Move g s i m p b (enter e o) ctl = (
    g,
    quiet g s i m p b e refl refl refl
        (opened run fit g (s.process i) (ctl.each i b) (rw e refl) (o ∙ ctl.word)) refl refl refl
        refl ctl,
  )
  Control-Move g s i m p b (contribute {c = c} e) ctl =
      let (og, on) = contribution-Outside i b in
      (
        g,
        quiet g s i m p b e
            (store_doubles-other run s.area (slot run i) count gen_id_word (send i c) og)
            (store_doubles-other run s.area (slot run i) count nwritter_word (send i c) on) refl
            ((ctl.each i b).here (rw e refl)) refl refl refl refl ctl,
      )
  Control-Move g s i m p b (collect e o) ctl = (
    g,
    quiet g s i m p b e refl refl refl
        (opened run fit g (s.process i) (ctl.each i b) (rw e refl) (o ∙ ctl.word)) refl refl refl
        refl ctl,
  )
  Control-Move g s i m p b (receive e) ctl = (
    g,
    quiet g s i m p b e refl refl refl ((ctl.each i b).here (rw e refl)) refl refl refl refl ctl,
  )

  -- A move within a barrier: the counters are written, or nothing.
  Contents-barrier :
      (s : System D) (i w v : ℕ) (p : Process D) (b : Barrier) {x : Pc}
      → i < processes
      → (s.process i).pc ≡ x
      → 255 < w
      → w < 258
      → latest p.pc ≡ latest x
      → ((c : ℕ) → p.pc ≢ arriving (second c))
      → Contents run s
      → Contents run (moved run fit s i (write s.area w v) p)
  Contents-barrier s i w v p barrier b e lo hi same no_result con =
      Contents-counter run fit s i w v p b lo hi (same ∙ sym (ap latest e)) no_result con

  Contents-same :
      (s : System D) (i : ℕ) (p : Process D) {x : Pc}
      → i < processes
      → (s.process i).pc ≡ x
      → latest p.pc ≡ latest x
      → ((c : ℕ) → p.pc ≢ arriving (second c))
      → Contents run s
      → Contents run (moved run fit s i s.area p)
  Contents-same s i p b e same no_result con =
      Contents-keep run fit s i s.area p b (λ j d c t h f. (refl, refl)) (same ∙ sym (ap latest e))
        no_result con

  Contents-Move :
      (g : ℕ) (s : System D) (i : ℕ) (m : Area) (p : Process D)
      → i < processes
      → Move run i s.area (s.process i) m p
      → Control run g s
      → Contents run s
      → Contents run (moved run fit s i m p)
  unfolding epoch active latest latest_at before_gather
  Contents-Move g s i m p b (register_master z e) ctl con =
      Contents-same s i p b e refl (λ c h. grind arith) con
  Contents-Move g s i m p b (register_client z e) ctl con =
      let g0 : 0 ≡ g = sym (ap epoch e) ∙ (ctl.each i b).here (rw e refl) in
      let nothing : (j : ℕ) → j < processes → latest (s.process j).pc ≡ none = λ j d.
        latest-start (s.process j).pc (omega (arith, (ctl.each j d).high))
          (λ a. (ctl.each j d).here a ∙ sym g0) in
      Contents-keep run fit s i (write s.area i (u32 (run.world_rank i))) p b
        (λ j d c t h f. absurd (let n = nothing j d in grind arith)) (sym (ap latest e))
        (λ c h. grind arith) con
  Contents-Move g s i m p b (arrive {b = barrier} e h) ctl con =
      Contents-barrier s i nwritter_word (u32 (suc (s.area nwritter_word))) p barrier b e
        (omega arith) (omega arith) (latest-after barrier) (λ c. after_not_second barrier) con
  Contents-Move g s i m p b (arrive_last {b = barrier} e h) ctl con =
      Contents-barrier s i nwritter_word (u32 (suc (s.area nwritter_word))) p barrier b e
        (omega arith) (omega arith) refl (λ c h. grind arith) con
  Contents-Move g s i m p b (reset {b = barrier} e) ctl con =
      Contents-barrier s i nwritter_word 0 p barrier b e (omega arith) (omega arith) refl
        (λ c h. grind arith) con
  Contents-Move g s i m p b (bump {b = barrier} e) ctl con =
      Contents-barrier s i gen_id_word (u32 (suc (s.area gen_id_word))) p barrier b e (omega arith)
        (omega arith) (latest-after barrier) (λ c. after_not_second barrier) con
  Contents-Move g s i m p b (join e o) ctl con =
      Contents-same s i p b e refl (λ c h. grind arith) con
  Contents-Move g s i m p b (fill_table e) ctl con =
      Contents-same s i p b e refl (λ c h. grind arith) con
  Contents-Move g s i m p b (enter e o) ctl con =
      Contents-same s i p b e refl (λ c h. grind arith) con
  Contents-Move g s i m p b (contribute {c = c} e) ctl con =
      Contents-contribute run fit s i c p b refl con
  Contents-Move g s i m p b (collect e o) ctl con =
      Contents-same s i p b e refl (λ c h. grind arith) con
  Contents-Move g s i m p b (receive {c = c} e) ctl con =
      let g2 : 2 + 2 * c ≡ g = sym (ap epoch e) ∙ (ctl.each i b).here (rw e refl) in
      Contents-receive run fit s i c p b e refl refl
        (λ j d.
          latest-epoch (s.process j).pc c (omega (arith, (ctl.each j d).low))
            (omega (arith, (ctl.each j d).high)) (λ a. (ctl.each j d).here a ∙ sym g2))
        con

  Control-start : Control run 0 (start run)
  unfolding epoch counted opens
  Control-start = record {
    word = refl;
    each = λ i h. record { low = omega arith; high = omega arith; here = λ a. refl; gen = refl };
    phase =
        let none = weight-zero (ahead run 0) processes (start run).process (λ i b. refl) in
        waiting (λ i b. refl) (sym none) (omega (arith, none, fit.some_process));
  }

  Contents-start : Contents run (start run)
  unfolding latest
  Contents-start = record {
    held = λ i c t b h e. absurd (grind arith);
    got = λ j i c t b d h l e. absurd (grind arith);
  }

  -- The invariant holds at any time.
  pub Reach-Control : (s : System D) → Reach run s → ((g : ℕ) × Control run g s) × Contents run s
  Reach-Control s begin = ((0, Control-start), Contents-start)
  Reach-Control s' (later {s = s} r (pick i {m = m} {p = p} b mv)) =
      let ((g, ctl), con) = Reach-Control s r in
      (Control-Move g s i m p b mv ctl, Contents-Move g s i m p b mv ctl con)
