-- ===== src/SharedMemory/Invariant.antt =====
-- modules/module_shm.c: what holds of the shared area and the processes at any time, `g` being the
-- number of barriers that everybody has passed.
use sabo.Base.{
  ℕ, zero, suc, ◌+◌, ◌-◌, ◌*◌, ◌≤◌, ◌<◌, ◌≡◌, ◌≢◌, Bool, true, false, Option, none, some, get_elem?,
  weight,
}
use sabo.SharedMemory.{
  mapped_words, rbuf_word, u32, gen_id_word, nwritter_word, Run, Barrier, initial, first, second,
  Pc, registering, arriving, resetting, bumping, joining, translating, entering, writing,
  collecting, reading, Process, System, slot,
}
use sabo.SharedMemory.Memory.{Holds}

-- The barriers before this one.
unfoldable pub base : Barrier → ℕ
base initial = 0
base (first c) = 1 + 2 * c
base (second c) = 2 + 2 * c

-- How many barriers the process has come to.
unfoldable pub epoch : Pc → ℕ
epoch registering = 0
epoch (arriving b) = base b
epoch (resetting b) = suc (base b)
epoch (bumping b) = suc (base b)
epoch joining = 1
epoch translating = 1
epoch (entering c) = 1 + 2 * c
epoch (writing c) = 1 + 2 * c
epoch (collecting c) = 2 + 2 * c
epoch (reading c) = 2 + 2 * c

-- How many times it has added one to its generation.
unfoldable pub counted : Pc → ℕ
counted (resetting b) = base b
counted (bumping b) = base b
counted registering = 0
counted (arriving b) = base b
counted joining = 1
counted translating = 1
counted (entering c) = 1 + 2 * c
counted (writing c) = 1 + 2 * c
counted (collecting c) = 2 + 2 * c
counted (reading c) = 2 + 2 * c

-- It is not in a barrier, nor in the loop of one.
unfoldable pub active : Pc → Bool
active registering = true
active (arriving b) = true
active (resetting b) = false
active (bumping b) = false
active joining = false
active translating = true
active (entering c) = false
active (writing c) = true
active (collecting c) = false
active (reading c) = true

-- It opens the barrier for the others.
unfoldable pub opens : Pc → Bool
opens (resetting b) = true
opens (bumping b) = true
opens registering = false
opens (arriving b) = false
opens joining = false
opens translating = false
opens (entering c) = false
opens (writing c) = false
opens (collecting c) = false
opens (reading c) = false

-- The gather that it has contributed to last.
unfoldable pub latest_at : Barrier → Option ℕ
latest_at initial = none
latest_at (first c) = some c
latest_at (second c) = some c

unfoldable pub before_gather : ℕ → Option ℕ
before_gather zero = none
before_gather (suc c) = some c

unfoldable pub latest : Pc → Option ℕ
latest registering = none
latest (arriving b) = latest_at b
latest (resetting b) = latest_at b
latest (bumping b) = latest_at b
latest joining = none
latest translating = none
latest (entering c) = before_gather c
latest (writing c) = before_gather c
latest (collecting c) = some c
latest (reading c) = some c

module _ {D : Type 0} (run : Run D) where
  open run use {processes, count, send}

  -- What the code relies on: as many processes as the table of ranks has room for, contributions and
  -- a result within the pages that are mapped, and no contribution that covers the counters of the
  -- barrier, which are entry 125 of the buffer.
  pub record Fitting : Type 0 where
    pub some_process : 0 < processes
    pub at_most : processes ≤ 256
    pub within :
        (i : ℕ) → i < processes → rbuf_word (slot run i + count) ≤ mapped_words count processes
    pub result : rbuf_word (processes * count) ≤ mapped_words count processes
    pub clear : (i t : ℕ) → i < processes → t < count → slot run i + t ≢ 125
    pub back : (d : D) → run.of_bits (run.bits d).0 (run.bits d).1 ≡ d

  pub record Local (g : ℕ) (p : Process D) : Type 0 where
    pub low : g ≤ epoch p.pc
    pub high : epoch p.pc ≤ suc g
    pub here : active p.pc ≡ true → epoch p.pc ≡ g
    pub gen : p.gen_id ≡ u32 (counted p.pc)

  -- One if it has come to the barrier that is not open yet.
  abbrev pub ahead : ℕ → Process D → ℕ
  ahead g p = epoch p.pc - g

  -- Either the barrier is waiting for someone, or the last one is opening it.
  pub data Phase (g : ℕ) (s : System D) : Type 0 where
    waiting :
        ((i : ℕ) → i < processes → opens (s.process i).pc ≡ false)
        → s.area nwritter_word ≡ weight (ahead g) processes s.process
        → weight (ahead g) processes s.process < processes
        → Phase g s
    closing :
        (q : ℕ)
        → q < processes
        → opens (s.process q).pc ≡ true
        → ((i : ℕ) → i < processes → i ≢ q → opens (s.process i).pc ≡ false)
        → ((i : ℕ) → i < processes → epoch (s.process i).pc ≡ suc g)
        → ((b : Barrier) → (s.process q).pc ≡ bumping b → s.area nwritter_word ≡ 0)
        → Phase g s

  pub record Control (g : ℕ) (s : System D) : Type 0 where
    pub word : s.area gen_id_word ≡ u32 g
    pub each : (i : ℕ) → i < processes → Local g (s.process i)
    pub phase : Phase g s

  -- The buffer has what process `i` contributed last, and its last result what all contributed.
  pub record Contents (s : System D) : Type 0 where
    pub held :
        (i c t : ℕ)
        → i < processes
        → t < count
        → latest (s.process i).pc ≡ some c
        → Holds run s.area (slot run i + t) (send i c t)
    pub got :
        (j i c t : ℕ)
        → j < processes
        → i < processes
        → t < count
        → slot run i + t < processes * count
        → (s.process j).pc ≡ arriving (second c)
        → get_elem? (s.process j).received (slot run i + t) ≡ some (send i c t)
