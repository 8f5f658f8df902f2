-- ===== src/SharedMemory/Tests.antt =====
-- modules/module_shm.c: a node of two processes that send one double each.
use sabo.Base.{ℕ, zero, suc, ◌+◌, ◌*◌, ◌≤◌, ◌<◌, ◌≡◌, ◌≢◌, refl, some, get_elem?, arith}
use sabo.SharedMemory.{
  u32, Run, reading, writing, System, slot, register_master, register_client, arrive, arrive_last,
  reset, bump, join, fill_table, enter, contribute, collect, receive, Step, pick, Reach, begin,
  later, load_doubles, store_doubles, shm_get_mmap_size, mapped_words,
}
use sabo.SharedMemory.Invariant.{Fitting}
use sabo.SharedMemory.Safety.{no_race, gather, no_deadlock, write_not_received}
use sabo.SharedMemory.Ranks.{has_table, translate_node_rank}
use sabo.SharedMemory.Mapping.{shm_get_mmap_size-pages}

abbrev node : Run ℕ
node = record {
  processes = 2;
  count = 1;
  send = λ i c t. 10 * c + i + 5;
  world_rank = λ i. i + 40;
  bits = λ d. (d, 0);
  of_bits = λ a b. a;
}

-- One page.
node-mapped : mapped_words 1 2 ≡ 1_024
unfolding mapped_words shm_get_mmap_size
node-mapped = refl

node-Fitting : Fitting node
node-Fitting = record {
  some_process = omega arith;
  at_most = omega arith;
  within = λ i b. omega (arith, node-mapped, b);
  result = omega (arith, node-mapped);
  clear = λ i t b h e. omega arith;
  back = λ d. refl;
}

here_0 : 0 < node.processes
here_0 = omega arith

here_1 : 1 < node.processes
here_1 = omega arith

not_first : suc 0 ≢ 0
not_first = omega arith

not_full : suc 0 ≢ node.processes
not_full = omega arith

-- Everybody has registered, and is past the first barrier.
abbrev synced : (s : System ℕ) × Reach node s
synced =
    let r1 = later begin (pick 0 here_0 (register_master refl refl)) in
    let r2 = later r1 (pick 1 here_1 (register_client not_first refl)) in
    let r3 = later r2 (pick 0 here_0 (arrive refl not_full)) in
    let r4 = later r3 (pick 1 here_1 (arrive_last refl refl)) in
    let r5 = later r4 (pick 1 here_1 (reset refl)) in
    let r6 = later r5 (pick 1 here_1 (bump refl)) in
    let r7 = later r6 (pick 0 here_0 (join refl refl)) in
    (_, later r7 (pick 1 here_1 (join refl refl)))

-- Both are about to contribute to the first gather.
abbrev entered : (s : System ℕ) × Reach node s
entered =
    let r1 = later synced.1 (pick 0 here_0 (fill_table refl)) in
    let r2 = later r1 (pick 1 here_1 (fill_table refl)) in
    let r3 = later r2 (pick 0 here_0 (enter refl refl)) in
    (_, later r3 (pick 1 here_1 (enter refl refl)))

-- Process 1 has copied the result of the first gather, process 0 has not.
abbrev received : (s : System ℕ) × Reach node s
unfolding store_doubles
received =
    let r1 = later entered.1 (pick 0 here_0 (contribute refl)) in
    let r2 = later r1 (pick 1 here_1 (contribute refl)) in
    let r3 = later r2 (pick 0 here_0 (arrive refl not_full)) in
    let r4 = later r3 (pick 1 here_1 (arrive_last refl refl)) in
    let r5 = later r4 (pick 1 here_1 (reset refl)) in
    let r6 = later r5 (pick 1 here_1 (bump refl)) in
    let r7 = later r6 (pick 0 here_0 (collect refl refl)) in
    let r8 = later r7 (pick 1 here_1 (collect refl refl)) in
    (_, later r8 (pick 1 here_1 (receive refl)))

no_race_example :
    ((entered.0.process 0).pc ≡ writing 0 → (entered.0.process 1).pc ≢ reading 0)
    × ((entered.0.process 0).pc ≡ writing 0 → (entered.0.process 1).pc ≡ writing 0 → zero ≡ zero)
    × ((entered.0.process 0).pc ≡ reading 0 → (entered.0.process 1).pc ≡ reading 0 → zero ≡ zero)
no_race_example = no_race node node-Fitting entered.0 0 1 0 0 entered.1 here_0 here_1

gather_example : get_elem? (received.0.process 1).received (slot node 0 + 0) ≡ some 5
unfolding store_doubles
gather_example =
    gather node node-Fitting received.0 1 0 0 0 received.1 here_1 here_0 (omega arith) (omega arith)
      refl

no_deadlock_example : (t : System ℕ) × Step node received.0 t
no_deadlock_example = no_deadlock node node-Fitting received.0 received.1

write_not_received_example :
    load_doubles node (store_doubles node received.0.area (slot node 1) (λ t. 7) 1) 0 2
    ≡ load_doubles node received.0.area 0 2
write_not_received_example =
    write_not_received node received.0.area 1 (λ t. 7) (omega arith) (omega arith)

translate_node_rank_example : get_elem? (entered.0.process 0).translate 1 ≡ some (u32 41)
unfolding has_table
translate_node_rank_example =
    translate_node_rank node node-Fitting entered.0 0 1 entered.1 here_0 here_1 (omega arith) refl

shm_get_mmap_size-pages_example :
    (1032 + 8 * 10 * 8 ≤ shm_get_mmap_size 4096 10 8 * 4096)
    × (shm_get_mmap_size 4096 10 8 * 4096 < 1032 + 8 * 10 * 8 + 4096)
    × (shm_get_mmap_size 4096 10 8 < 1032 + 8 * 10 * 8)
shm_get_mmap_size-pages_example = shm_get_mmap_size-pages 4096 10 8 (omega arith)
