-- ===== src/SharedMemory/Safety.antt =====
-- modules/module_shm.c: what the barrier and the gather promise to the processes of a node.
use sabo.Base.{
  ℕ, suc, ◌+◌, ◌*◌, ◌≤◌, ◌<◌, ◌≡◌, ◌≢◌, refl, true, some, get_elem?, weight-below, arith, sym, ap,
  ◌∙◌,
}
use native.Mathlib.Decide.{ℕ_discrete}
use native.Mathlib.Nat.{mul-le-mul_left, mul-le-mul_right}
use sabo.SharedMemory.{
  Area, u32, gen_id_word, nwritter_word, rbuf_word, Run, second, Pc, registering, arriving,
  resetting, bumping, joining, translating, entering, writing, collecting, reading, Process, System,
  slot, store_doubles, load_doubles, Move, register_master, register_client, arrive, arrive_last,
  reset, bump, join, fill_table, enter, contribute, collect, receive, Step, pick, Reach,
}
use sabo.SharedMemory.Memory.{store_doubles-other, load_doubles-agree}
use sabo.SharedMemory.Invariant.{
  Fitting, epoch, counted, active, opens, Local, ahead, waiting, closing,
}
use sabo.SharedMemory.Preservation.{Reach-Control}

module _ {D : Type 0} (run : Run D) where
  open run use {processes, count, send}

  -- In a run of 1 to 256 processes whose contributions and result are within the mapped pages,
  -- where no contribution covers the counters of the barrier (entry 125 of the buffer), a double is
  -- given back by the two words that it is copied to, and if the
  -- shared accesses, which the code asks to be relaxed only, take effect one after another in the
  -- order of the program: no process has ever come to two barriers more than another, and one that
  -- is past its last barrier has come to no more barriers than any other.
  pub barrier :
      Fitting run
      → (s : System D) (i j : ℕ) → Reach run s
      → i < processes
      → j < processes
      → (epoch (s.process i).pc ≤ suc (epoch (s.process j).pc))
        × (active (s.process i).pc ≡ true → epoch (s.process i).pc ≤ epoch (s.process j).pc)
  barrier fit s i j r bi bj =
      let ((g, ctl), con) = Reach-Control run fit s r in
      let (li, lj) : Local run g (s.process i) × Local run g (s.process j) =
        (ctl.each i bi, ctl.each j bj) in
      (omega (arith, li.high, lj.low), λ a. omega (arith, li.here a, lj.low))

  epoch_here :
      (g : ℕ) (p : Process D) {x : Pc} → Local run g p → p.pc ≡ x → active x ≡ true → epoch x ≡ g
  epoch_here g p l e a = sym (ap epoch e) ∙ l.here (ap active e ∙ a)

  -- In a run of 1 to 256 processes whose contributions and result are within the mapped pages,
  -- where no contribution covers the counters of the barrier (entry 125 of the buffer), a double is
  -- given back by the two words that it is copied to, and if the
  -- shared accesses, which the code asks to be relaxed only, take effect one after another in the
  -- order of the program: no process copies its contribution while another copies the result, and
  -- two that copy a contribution, or two that copy the result, are in the same gather.
  pub no_race :
      Fitting run
      → (s : System D) (i j c d : ℕ) → Reach run s
      → i < processes
      → j < processes
      → ((s.process i).pc ≡ writing c → (s.process j).pc ≢ reading d)
        × ((s.process i).pc ≡ writing c → (s.process j).pc ≡ writing d → c ≡ d)
        × ((s.process i).pc ≡ reading c → (s.process j).pc ≡ reading d → c ≡ d)
  unfolding epoch active
  no_race fit s i j c d r bi bj =
      let ((g, ctl), con) = Reach-Control run fit s r in
      (
        λ w x. omega (
          arith,
          epoch_here g (s.process i) (ctl.each i bi) w refl,
          epoch_here g (s.process j) (ctl.each j bj) x refl,
        ),
        λ w x. omega (
          arith,
          epoch_here g (s.process i) (ctl.each i bi) w refl,
          epoch_here g (s.process j) (ctl.each j bj) x refl,
        ),
        λ w x. omega (
          arith,
          epoch_here g (s.process i) (ctl.each i bi) w refl,
          epoch_here g (s.process j) (ctl.each j bj) x refl,
        ),
      )

  -- In a run of 1 to 256 processes whose contributions and result are within the mapped pages,
  -- where no contribution covers the counters of the barrier (entry 125 of the buffer), a double is
  -- given back by the two words that it is copied to, and if the
  -- shared accesses, which the code asks to be relaxed only, take effect one after another in the
  -- order of the program: a process that has copied the result of gather `c` has, in the entry at
  -- the offset of process `i`, what process `i` sent in gather `c`, wherever that entry is within
  -- the result.
  pub gather :
      Fitting run
      → (s : System D) (j i c t : ℕ) → Reach run s
      → j < processes
      → i < processes
      → t < count
      → slot run i + t < processes * count
      → (s.process j).pc ≡ arriving (second c)
      → get_elem? (s.process j).received (slot run i + t) ≡ some (send i c t)
  gather fit s j i c t r bj bi h l e = (Reach-Control run fit s r).1.got j i c t bj bi h l e

  moves_from :
      (i : ℕ) (m : Area) (p : Process D) (x : Pc)
      → p.pc ≡ x
      → (counted x ≡ epoch x → p.gen_id ≡ m gen_id_word)
      → (m' : Area) × (p' : Process D) × Move run i m p m' p'
  unfolding counted epoch
  moves_from i m p registering e o = elim (ℕ_discrete i 0) [
    | yes z ↦ (m, _, register_master z e)
    | no z ↦ (_, _, register_client z e)
  ]
  moves_from i m p (arriving b) e o = elim (ℕ_discrete (suc (m nwritter_word)) processes) [
    | yes z ↦ (_, _, arrive_last e z)
    | no z ↦ (_, _, arrive e z)
  ]
  moves_from i m p (resetting b) e o = (_, _, reset e)
  moves_from i m p (bumping b) e o = (_, _, bump e)
  moves_from i m p joining e o = (_, _, join e (o refl))
  moves_from i m p translating e o = (_, _, fill_table e)
  moves_from i m p (entering c) e o = (_, _, enter e (o refl))
  moves_from i m p (writing c) e o = (_, _, contribute e)
  moves_from i m p (collecting c) e o = (_, _, collect e (o refl))
  moves_from i m p (reading c) e o = (_, _, receive e)

  opens-counted : (x : Pc) → opens x ≡ true → counted x ≢ epoch x
  unfolding opens counted epoch
  opens-counted (resetting b) e h = omega arith
  opens-counted (bumping b) e h = omega arith
  opens-counted x e h = grind arith

  -- In a run of 1 to 256 processes whose contributions and result are within the mapped pages,
  -- where no contribution covers the counters of the barrier (entry 125 of the buffer), a double is
  -- given back by the two words that it is copied to, and if the
  -- shared accesses, which the code asks to be relaxed only, take effect one after another in the
  -- order of the program: some process can always move: not all of them spin in a barrier.
  pub no_deadlock : Fitting run → (s : System D) → Reach run s → (t : System D) × Step run s t
  no_deadlock fit s r =
      let ((g, ctl), con) = Reach-Control run fit s r in
      elim ctl.phase [
        | waiting none nw lt ↦
            let (i, b, z) =
              weight-below (ahead run g) processes s.process
                (λ i b. omega (arith, (ctl.each i b).high)) lt in
            let l = ctl.each i b in
            let (m, p, mv) =
              moves_from i s.area (s.process i) (s.process i).pc refl
                (λ h. l.gen ∙ ap u32 (h ∙ omega (arith, l.low, l.high)) ∙ sym ctl.word) in
            (_, pick i b mv)
        | closing q d oq others all zeroed ↦
            let (m, p, mv) =
              moves_from q s.area (s.process q) (s.process q).pc refl
                (λ h. absurd (opens-counted (s.process q).pc oq h)) in
            (_, pick q d mv)
      ]

  -- Where at most eight processes share the node, what a process other than the first stores in a
  -- gather does not change what any process copies as the result.
  pub write_not_received :
      (m : Area) (i : ℕ) (f : ℕ → D)
      → processes ≤ 8
      → 0 < i
      → load_doubles run (store_doubles run m (slot run i) f count) 0 (processes * count)
        ≡ load_doubles run m 0 (processes * count)
  write_not_received m i f few h =
      let later : (t : ℕ) → t < processes * count → t < slot run i = λ t c.
        let one : 1 ≤ i = omega arith in
        omega (arith, mul-le-mul_right count few, mul-le-mul_left count one) in
      load_doubles-agree run (store_doubles run m (slot run i) f count) m 0 (processes * count)
        (λ t c.
          let l = later t c in
          (
            store_doubles-other run m (slot run i) count (rbuf_word (0 + t)) f
                (λ u d. (λ e. omega arith, λ e. omega arith)),
            store_doubles-other run m (slot run i) count (suc (rbuf_word (0 + t))) f
                (λ u d. (λ e. omega arith, λ e. omega arith)),
          ))
