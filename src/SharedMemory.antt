-- ===== src/SharedMemory.antt =====
-- modules/module_shm.c: the barrier and the gather of the processes of a node over a shared area, a
-- shared access at a time. The area is an array of 4-byte words: the world ranks are words 0 to
-- 255, the generation word 256 and the number of writers word 257 (`struct shm_shared_data`), and
-- the buffer of doubles starts at word 6, after `sizeof(struct module_shm_ctx)`. A `memcpy` is one
-- step. The files that share the area between the processes, and `mmap`, are not modelled: at the
-- start it is full of zeros. The code maps `mapped_words` words, and faults behind them; here the
-- area has no end, and `Fitting` in Invariant says that a run stays inside. The code asks for relaxed
-- atomic accesses only, which leaves them unordered with the copies; here all accesses take effect
-- one after another, in the order of the program.
mod Memory
mod Invariant
mod Moves
mod Opening
mod Contents
mod Preservation
mod Safety
mod Ranks
mod Mapping
mod Tests
use sabo.Base.{
  ℕ, zero, suc, ◌+◌, ◌-◌, ◌*◌, ◌/◌, ◌%◌, ◌^◌, ◌<◌, ◌≡◌, ◌≢◌, List, [], ◌∷◌, if◌then◌else◌, ◌==◌,
  ltb, write,
}

abbrev pub u32 : ℕ → ℕ
u32 n = n % 2 ^ 32

abbrev pub gen_id_word : ℕ
gen_id_word = 256

abbrev pub nwritter_word : ℕ
nwritter_word = 257

-- The word where entry `k` of the buffer starts.
abbrev pub rbuf_word : ℕ → ℕ
rbuf_word k = 6 + 2 * k

abbrev pub Area : Type 0
Area = ℕ → ℕ

-- A run: the number of processes, how many doubles each sends in a gather, what process `i` sends in
-- gather `c`, its world rank, and the two words of a double.
pub record Run (D : Type 0) : Type 0 where
  pub processes : ℕ
  pub count : ℕ
  pub send : ℕ → ℕ → ℕ → D
  pub world_rank : ℕ → ℕ
  pub bits : D → ℕ × ℕ
  pub of_bits : ℕ → ℕ → D

-- The calls of `module_shm_sync_step_2`: in the initialisation, and the two of gather `c`.
pub data Barrier : Type 0 where
  initial : Barrier
  first : (c : ℕ) → Barrier
  second : (c : ℕ) → Barrier

-- Where a process stands.
pub data Pc : Type 0 where
  registering : Pc  -- before line 308
  arriving : (b : Barrier) → Pc  -- before the `fetch_add` of line 73
  resetting : (b : Barrier) → Pc  -- the last one, before line 77
  bumping : (b : Barrier) → Pc  -- before line 78
  joining : Pc  -- the loop of step 1 in the initialisation
  translating : Pc  -- before the loop of line 338
  entering : (c : ℕ) → Pc  -- the loop of step 1 at the start of a gather
  writing : (c : ℕ) → Pc  -- before line 368
  collecting : (c : ℕ) → Pc  -- the loop of step 1 after the contributions
  reading : (c : ℕ) → Pc  -- before line 375

-- A process has its own generation, the table of world ranks, and the receive buffer of its caller.
pub record Process (D : Type 0) : Type 0 where
  pub pc : Pc
  pub gen_id : ℕ
  pub translate : List ℕ
  pub received : List D

pub record System (D : Type 0) : Type 0 where
  pub area : Area
  pub process : ℕ → Process D

-- After `module_shm_sync_step_2`.
abbrev pub after : Barrier → Pc
after initial = joining
after (first c) = collecting c
after (second c) = entering (suc c)

-- The first `n` words.
unfoldable pub read_words : Area → ℕ → ℕ → List ℕ
read_words m w zero = []
read_words m w (suc n) = m w ∷ read_words m (suc w) n

module _ {D : Type 0} (run : Run D) where
  open run use {processes, count, send, world_rank, bits, of_bits}

  -- `memcpy` of the first `n` doubles of `f` to the buffer, from entry `k` on.
  unfoldable pub store_doubles : Area → ℕ → (ℕ → D) → ℕ → Area
  store_doubles m k f zero = m
  store_doubles m k f (suc n) =
      let w = rbuf_word (k + n) in
      write (write (store_doubles m k f n) w (bits (f n)).0) (suc w) (bits (f n)).1

  -- `memcpy` of `n` doubles from the buffer, from entry `k` on.
  unfoldable pub load_doubles : Area → ℕ → ℕ → List D
  load_doubles m k zero = []
  load_doubles m k (suc n) =
      of_bits (m (rbuf_word k)) (m (suc (rbuf_word k))) ∷ load_doubles m (suc k) n

  -- `rbuf + offset`, with `offset` in bytes: the number of doubles is 8 times too large.
  abbrev pub slot : ℕ → ℕ
  slot i = count * i * 8

  -- A move of process `i`, with the shared area.
  pub data Move (i : ℕ) (m : Area) (p : Process D) : Area → Process D → Type 0 where
    -- lines 258-273 write no rank
    register_master : i ≡ 0 → p.pc ≡ registering → Move i m p m (record p { pc = arriving initial })
    -- line 308
    register_client :
        i ≢ 0
        → p.pc ≡ registering
        → Move i m p (write m i (u32 (world_rank i))) (record p { pc = arriving initial })
    -- line 73, and 81 where it was not the last
    arrive :
        {b : Barrier}
        → p.pc ≡ arriving b
        → suc (m nwritter_word) ≢ processes
        → Move i m p
            (write m nwritter_word (u32 (suc (m nwritter_word))))
            (record p { pc = after b; gen_id = u32 (suc p.gen_id) })
    -- line 73, where line 74 finds the last
    arrive_last :
        {b : Barrier}
        → p.pc ≡ arriving b
        → suc (m nwritter_word) ≡ processes
        → Move i m p
            (write m nwritter_word (u32 (suc (m nwritter_word))))
            (record p { pc = resetting b })
    -- line 77
    reset :
        {b : Barrier}
        → p.pc ≡ resetting b
        → Move i m p (write m nwritter_word 0) (record p { pc = bumping b })
    -- lines 78 and 81
    bump :
        {b : Barrier}
        → p.pc ≡ bumping b
        → Move i m p
            (write m gen_id_word (u32 (suc (m gen_id_word))))
            (record p { pc = after b; gen_id = u32 (suc p.gen_id) })
    -- lines 52-60, called at line 331
    join : p.pc ≡ joining → p.gen_id ≡ m gen_id_word → Move i m p m (record p { pc = translating })
    -- lines 338-341
    fill_table :
        p.pc ≡ translating
        → Move i m p m (record p { pc = entering 0; translate = read_words m 0 processes })
    -- lines 52-60, called at line 365
    enter :
        {c : ℕ}
        → p.pc ≡ entering c
        → p.gen_id ≡ m gen_id_word
        → Move i m p m (record p { pc = writing c })
    -- lines 368-369
    contribute :
        {c : ℕ}
        → p.pc ≡ writing c
        → Move i m p
            (store_doubles m (slot i) (send i c) count)
            (record p { pc = arriving (first c) })
    -- lines 52-60, called at line 373
    collect :
        {c : ℕ}
        → p.pc ≡ collecting c
        → p.gen_id ≡ m gen_id_word
        → Move i m p m (record p { pc = reading c })
    -- lines 375-376
    receive :
        {c : ℕ}
        → p.pc ≡ reading c
        → Move i m p m
            (record p { pc = arriving (second c); received = load_doubles m 0 (processes * count) })

  -- One process moves. One that spins in step 1 does not.
  pub data Step (s : System D) : System D → Type 0 where
    pick :
        (i : ℕ) {m : Area} {p : Process D}
        → i < processes
        → Move i s.area (s.process i) m p
        → Step s (record { area = m; process = write s.process i p })

  abbrev pub start : System D
  start = record {
    area = λ _. 0;
    process = λ _. record { pc = registering; gen_id = 0; translate = []; received = [] };
  }

  pub data Reach : System D → Type 0 where
    begin : Reach start
    later : {s t : System D} → Reach s → Step s t → Reach t

-- `shm_get_mmap_size`, with the size of a page.
unfoldable pub shm_get_mmap_size : ℕ → ℕ → ℕ → ℕ
shm_get_mmap_size page window processes =
    let size = 1032 + 8 * window * processes in size / page + (if (size % page) == 0 then 0 else 1)

-- EXEC_PAGESIZE
abbrev pub page_size : ℕ
page_size = 4_096

-- The words of the pages that a mapping of `shm_get_mmap_size` bytes has.
unfoldable pub mapped_words : ℕ → ℕ → ℕ
unfolding shm_get_mmap_size
mapped_words window processes =
    let bytes = shm_get_mmap_size page_size window processes in
    (bytes / page_size + (if (bytes % page_size) == 0 then 0 else 1)) * 1_024
