-- ===== src/SharedMemory/Mapping.antt =====
-- modules/module_shm.c: the size of the shared area.
use sabo.Base.{ℕ, suc, true, false, ◌+◌, ◌*◌, ◌/◌, ◌%◌, ◌≤◌, ◌<◌, ◌≡◌, if◌then◌else◌, ◌==◌, arith}
use native.Mathlib.Decide.{ℕ_discrete}
use native.Mathlib.Nat.{mod-add-div', mod-lt, mul-le-mul_left, suc-mul}
use sabo.SharedMemory.{shm_get_mmap_size}

-- Rounding up a division.
pages :
    (size page : ℕ)
    → 2 < size
    → 1 < page
    → let n = size / page + (if (size % page) == 0 then 0 else 1) in
      (size ≤ n * page) × (n * page < size + page) × (n < size)
pages size page large h =
    let split = mod-add-div' size page in
    let rest = mod-lt size {m = page} (omega arith) in
    let two : 2 ≤ page = h in
    let twice = mul-le-mul_left (size / page) two in
    elim (ℕ_discrete (size % page) 0) [
      | yes e ↦
          let c : ((size % page) == 0) ≡ true = ground arith in
          let same : size / page + 0 ≡ size / page = omega arith in
          rw (c, same) (omega arith, omega arith, omega arith)
      | no e ↦
          let c : ((size % page) == 0) ≡ false = ground arith in
          let more : (size / page + 1) * page ≡ size / page * page + page =
            let one : size / page + 1 ≡ suc (size / page) = omega arith in
            rw one (suc-mul (size / page) page) in
          rw c (omega arith, omega arith, omega arith)
    ]

-- The result is the least number of pages that hold the shared data and a window of doubles for each
-- process, and it is less than the number of bytes that these take, unless a page is a byte.
pub shm_get_mmap_size-pages :
    (page window processes : ℕ)
    → 1 < page
    → (1032 + 8 * window * processes ≤ shm_get_mmap_size page window processes * page)
      × (shm_get_mmap_size page window processes * page < 1032 + 8 * window * processes + page)
      × (shm_get_mmap_size page window processes < 1032 + 8 * window * processes)
unfolding shm_get_mmap_size
shm_get_mmap_size-pages page window processes h =
    pages (1032 + 8 * window * processes) page (omega arith) h
