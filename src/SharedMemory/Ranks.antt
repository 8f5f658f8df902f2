-- ===== src/SharedMemory/Ranks.antt =====
-- modules/module_shm.c: the tables from node ranks to world ranks. Only the first six words of the
-- world ranks are before the buffer of doubles.
use sabo.Base.{
  ℕ, zero, suc, ◌+◌, ◌<◌, ◌≡◌, ◌≢◌, refl, Bool, true, false, some, get_elem?, write_self,
  write_other, write-all, if◌then◌else◌, ◌==◌, arith, sym, ap, ◌∙◌, ◌⊎◌, inl, inr,
}
use sabo.SharedMemory.{
  Area, u32, nwritter_word, gen_id_word, Run, Barrier, initial, first, second, Pc, registering,
  arriving, resetting, bumping, joining, translating, entering, writing, collecting, reading,
  Process, System, after, read_words, slot, Move, register_master, register_client, arrive,
  arrive_last, reset, bump, join, fill_table, enter, contribute, collect, receive, pick, start,
  Reach, begin, later,
}
use sabo.SharedMemory.Memory.{store_doubles-other}
use sabo.SharedMemory.Invariant.{Fitting, epoch, active, Control}
use sabo.SharedMemory.Moves.{moved}
use sabo.SharedMemory.Preservation.{Reach-Control}

read_words-get : (m : Area) (w n j : ℕ) → j < n → get_elem? (read_words m w n) j ≡ some (m (w + j))
unfolding read_words
read_words-get m w zero j h = absurd (omega arith)
read_words-get m w (suc n) zero h = ap (λ k. some (m k)) (omega arith)
read_words-get m w (suc n) (suc j) h =
    read_words-get m (suc w) n j (omega arith) ∙ ap (λ k. some (m k)) (omega arith)

unfoldable pub registered : Barrier → Bool
registered initial = false
registered (first c) = true
registered (second c) = true

-- It has filled its table.
unfoldable pub has_table : Pc → Bool
has_table registering = false
has_table (arriving b) = registered b
has_table (resetting b) = registered b
has_table (bumping b) = registered b
has_table joining = false
has_table translating = false
has_table (entering c) = true
has_table (writing c) = true
has_table (collecting c) = true
has_table (reading c) = true

has_table-after : (b : Barrier) → has_table (after b) ≡ registered b
unfolding has_table registered
has_table-after initial = refl
has_table-after (first c) = refl
has_table-after (second c) = refl

module _ {D : Type 0} (run : Run D) where
  open run use {processes, count, send, world_rank}

  -- What a table has for a process: the first one does not write its rank.
  abbrev pub rank_word : ℕ → ℕ
  rank_word j = if j == 0 then 0 else u32 (world_rank j)

  pub record Tables (s : System D) : Type 0 where
    pub master : s.area 0 ≡ 0
    pub ranks :
        (j : ℕ) → j < processes → j < 6 → (s.process j).pc ≢ registering → s.area j ≡ rank_word j
    pub tables :
        (i j : ℕ)
        → i < processes
        → j < processes
        → j < 6
        → has_table (s.process i).pc ≡ true
        → get_elem? (s.process i).translate j ≡ some (rank_word j)

  module _ (fit : Fitting run) where
    -- A move writes none of the words but the one of its own rank.
    Move-word :
        (i w : ℕ) (m m' : Area) (p p' : Process D)
        → w < 6
        → Move run i m p m' p'
        → (w ≡ i → (i ≡ 0) ⊎ (p.pc ≢ registering))
        → m' w ≡ m w
    Move-word i w m m' p p' h (register_master z e) ne = refl
    Move-word i w m m' p p' h (register_client z e) ne =
        write_other m (u32 (world_rank i)) (λ e'. elim (ne (sym e')) [ inl y ↦ z y | inr y ↦ y e ])
    Move-word i w m m' p p' h (arrive e z) ne =
        write_other m {i = nwritter_word} (u32 (suc (m nwritter_word))) (omega arith)
    Move-word i w m m' p p' h (arrive_last e z) ne =
        write_other m {i = nwritter_word} (u32 (suc (m nwritter_word))) (omega arith)
    Move-word i w m m' p p' h (reset e) ne = write_other m {i = nwritter_word} 0 (omega arith)
    Move-word i w m m' p p' h (bump e) ne =
        write_other m {i = gen_id_word} (u32 (suc (m gen_id_word))) (omega arith)
    Move-word i w m m' p p' h (join e o) ne = refl
    Move-word i w m m' p p' h (fill_table e) ne = refl
    Move-word i w m m' p p' h (enter e o) ne = refl
    Move-word i w m m' p p' h (contribute {c = c} e) ne =
        store_doubles-other run m (slot run i) count w (send i c)
          (λ t d. (λ x. omega arith, λ x. omega arith))
    Move-word i w m m' p p' h (collect e o) ne = refl
    Move-word i w m m' p p' h (receive e) ne = refl

    -- The three kinds of move: the first process registers, another one registers, or none does.
    Move-kind :
        (i : ℕ) (m m' : Area) (p p' : Process D)
        → Move run i m p m' p'
        → ((i ≡ 0) × (m' ≡ m)) ⊎ ((m' i ≡ rank_word i) ⊎ (p.pc ≢ registering))
    Move-kind i m m' p p' (register_master z e) = inl (z, refl)
    Move-kind i m m' p p' (register_client z e) =
        inr (inl (write_self m i (u32 (world_rank i)) ∙ ground arith))
    Move-kind i m m' p p' (arrive e z) = inr (inr (λ h. grind arith))
    Move-kind i m m' p p' (arrive_last e z) = inr (inr (λ h. grind arith))
    Move-kind i m m' p p' (reset e) = inr (inr (λ h. grind arith))
    Move-kind i m m' p p' (bump e) = inr (inr (λ h. grind arith))
    Move-kind i m m' p p' (join e o) = inr (inr (λ h. grind arith))
    Move-kind i m m' p p' (fill_table e) = inr (inr (λ h. grind arith))
    Move-kind i m m' p p' (enter e o) = inr (inr (λ h. grind arith))
    Move-kind i m m' p p' (contribute e) = inr (inr (λ h. grind arith))
    Move-kind i m m' p p' (collect e o) = inr (inr (λ h. grind arith))
    Move-kind i m m' p p' (receive e) = inr (inr (λ h. grind arith))

    Move-rank :
        (i : ℕ) (m m' : Area) (p p' : Process D)
        → i < 6
        → Move run i m p m' p'
        → m 0 ≡ 0
        → (p.pc ≢ registering → m i ≡ rank_word i)
        → m' i ≡ rank_word i
    Move-rank i m m' p p' h mv m0 old = elim (Move-kind i m m' p p' mv) [
      | inl (z, e) ↦ rw (e, z) m0
      | inr (inl e) ↦ e
      | inr (inr ne) ↦ Move-word i i m m' p p' h mv (λ e. inr ne) ∙ old ne
    ]

    -- A table is filled by one move, and no other changes it.
    Move-table :
        (i : ℕ) (m m' : Area) (p p' : Process D)
        → Move run i m p m' p'
        → has_table p'.pc ≡ true
        → ((has_table p.pc ≡ true) × (p'.translate ≡ p.translate))
          ⊎ ((p.pc ≡ translating) × (p'.translate ≡ read_words m 0 processes))
    unfolding has_table registered
    Move-table i m m' p p' (register_master z e) h = absurd (grind arith)
    Move-table i m m' p p' (register_client z e) h = absurd (grind arith)
    Move-table i m m' p p' (arrive {b = b} e z) h =
        inl (ap has_table e ∙ sym (has_table-after b) ∙ h, refl)
    Move-table i m m' p p' (arrive_last e z) h = inl (ap has_table e ∙ h, refl)
    Move-table i m m' p p' (reset e) h = inl (ap has_table e ∙ h, refl)
    Move-table i m m' p p' (bump {b = b} e) h =
        inl (ap has_table e ∙ sym (has_table-after b) ∙ h, refl)
    Move-table i m m' p p' (join e o) h = absurd (grind arith)
    Move-table i m m' p p' (fill_table e) h = inr (e, refl)
    Move-table i m m' p p' (enter e o) h = inl (ap has_table e, refl)
    Move-table i m m' p p' (contribute e) h = inl (ap has_table e, refl)
    Move-table i m m' p p' (collect e o) h = inl (ap has_table e, refl)
    Move-table i m m' p p' (receive e) h = inl (ap has_table e, refl)

    -- Everybody has registered before somebody fills a table.
    translating-registered :
        (g : ℕ) (s : System D) (i j : ℕ)
        → Control run g s
        → i < processes
        → j < processes
        → (s.process i).pc ≡ translating
        → (s.process j).pc ≢ registering
    unfolding epoch active
    translating-registered g s i j ctl b d e e' =
        let li = (ctl.each i b).here (ap active e) in
        let lj = (ctl.each j d).here (ap active e') in
        omega (arith, sym (ap epoch e) ∙ li, sym (ap epoch e') ∙ lj)

    Tables-Move :
        (g : ℕ) (s : System D) (i : ℕ) (m : Area) (p : Process D)
        → i < processes
        → Move run i s.area (s.process i) m p
        → Control run g s
        → Tables s
        → Tables (moved run fit s i m p)
    Tables-Move g s i m p b mv ctl tab =
        let q = s.process i in
        record {
          master = Move-word i 0 s.area m q p (omega arith) mv (λ e. inl (sym e)) ∙ tab.master;
          ranks = λ j d l.
              write-all (λ k x. k < 6 → x.pc ≢ registering → m k ≡ rank_word k) processes s.process
                i p (λ l' ne. Move-rank i s.area m q p l' mv tab.master (tab.ranks i b l'))
                (λ k d' ne l' ne'.
                  Move-word i k s.area m q p l' mv (λ e. absurd (ne e)) ∙ tab.ranks k d' l' ne')
                j d l;
          tables = λ k j d f l.
              write-all
                (λ k' x. has_table x.pc ≡ true → get_elem? x.translate j ≡ some (rank_word j))
                processes s.process i p
                (λ h. elim (Move-table i s.area m q p mv h) [
                  | inl (h', e) ↦ ap (λ x. get_elem? x j) e ∙ tab.tables i j b f l h'
                  | inr (t, e) ↦
                      let known = tab.ranks j f l (translating-registered g s i j ctl b f t) in
                      ap (λ x. get_elem? x j) e
                      ∙ read_words-get s.area 0 processes j f
                      ∙ (let zero_add : 0 + j ≡ j = omega arith in
                          ap some (ap s.area zero_add ∙ known))
                ])
                (λ k' d' ne. tab.tables k' j d' f l) k d;
        }

    Tables-start : Tables (start run)
    unfolding has_table
    Tables-start = record {
      master = refl;
      ranks = λ j d l ne. absurd (ne refl);
      tables = λ i j b d l h. absurd (grind arith);
    }

    Reach-Tables : (s : System D) → Reach run s → Tables s
    Reach-Tables s begin = Tables-start
    Reach-Tables s' (later {s = s} r (pick i {m = m} {p = p} b mv)) =
        let ((g, ctl), con) = Reach-Control run fit s r in
        Tables-Move g s i m p b mv ctl (Reach-Tables s r)

  -- In a run of 1 to 256 processes whose contributions and result are within the mapped pages,
  -- where no contribution covers the counters of the barrier (entry 125 of the buffer), a double is
  -- given back by the two words that it is copied to, and if the
  -- shared accesses, which the code asks to be relaxed only, take effect one after another in the
  -- order of the program: the table of a process that has filled it has, for each of the first six
  -- processes of the node, its world rank (as the 32-bit word that it wrote), except for process
  -- 0, which has 0 whatever its rank is.
  pub translate_node_rank :
      Fitting run
      → (s : System D) (i j : ℕ) → Reach run s
      → i < processes
      → j < processes
      → j < 6
      → has_table (s.process i).pc ≡ true
      → get_elem? (s.process i).translate j ≡ some (if j == 0 then 0 else u32 (world_rank j))
  translate_node_rank fit s i j r b d l h = (Reach-Tables fit s r).tables i j b d l h
