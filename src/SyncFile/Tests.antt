-- ===== src/SyncFile/Tests.antt =====
-- modules/module_shm.c: pages of 4096 bytes and the context of 8208 bytes.
use sabo.Base.{◌≡◌, ◌≢◌, refl, none, some, [], ◌∷◌, write, arith}
use sabo.SyncFile.{
  SharedContext, File, mapping, publishing, master_locking, truncating, writing, master_unlocking,
  published, exists_already, locking, reading, unlocking, attaching, attached, the_master, client,
  Node, Layout, new_file, truncated, create, map_area, open_file, lock_file, truncate_file,
  write_file, unlock_file, client_open, client_lock, client_read, client_unlock, client_attach,
  Reach, here, next, start,
}
use sabo.SyncFile.Safety.{attached-context, attach-possible, stale-context}

abbrev layout : Layout
layout = record {
  page = 4096;
  context_size = 8208;
  zero_context = record { syncfile = []; shmfile = []; size = 0 };
}

abbrev context : SharedContext
context = record { syncfile = 115 ∷ []; shmfile = 109 ∷ []; size = 2 }

-- The master does all its calls.
abbrev whole_file : File
whole_file = record { length = 8208; start = context }

abbrev done : Node
done = record (start none none) { file = some whole_file; area = some 2; master = published }

done-Reach : Reach layout context (start none none) done
done-Reach =
    let s0 = start none none in
    let s1 : Node = record s0 { area = some 0; master = mapping } in
    let s2 : Node = record s1 { area = some 2; master = publishing } in
    let s3 : Node = record s2 { file = some (new_file layout); master = master_locking } in
    let s4 : Node = record s3 { lock = some the_master; master = truncating } in
    let s5 : Node = record s4 {
      file = some (truncated layout (new_file layout));
      master = writing;
    } in
    let s6 : Node = record s5 { file = some whole_file; master = master_unlocking } in
    let r1 : Reach layout context s0 s1 = next here (create refl refl refl) in
    let r2 : Reach layout context s0 s2 = next r1 (map_area refl refl) in
    let r3 : Reach layout context s0 s3 = next r2 (open_file refl refl) in
    let r4 : Reach layout context s0 s4 = next r3 (lock_file refl refl refl) in
    let r5 : Reach layout context s0 s5 =
      next r4 (truncate_file (new_file layout) refl refl refl) in
    let r6 : Reach layout context s0 s6 =
      next r5 (write_file (truncated layout (new_file layout)) refl refl refl) in
    next r6 (unlock_file refl refl)

-- A client attaches after that.
abbrev with_client : Node
with_client = record done {
  clients =
      write
        (write (write (write (write done.clients 4 locking) 4 reading) 4 (unlocking (some context)))
          4 (attaching context))
        4 (attached context);
}

with_client-Reach : Reach layout context (start none none) with_client
with_client-Reach =
    let s1 : Node = record done { clients = write done.clients 4 locking } in
    let s2 : Node = record s1 { lock = some (client 4); clients = write s1.clients 4 reading } in
    let s3 : Node = record s2 { clients = write s2.clients 4 (unlocking (some context)) } in
    let s4 : Node = record s3 { lock = none; clients = write s3.clients 4 (attaching context) } in
    let r1 : Reach layout context (start none none) s1 =
      next done-Reach (client_open 4 whole_file refl refl refl) in
    let r2 : Reach layout context (start none none) s2 = next r1 (client_lock 4 refl refl refl) in
    let r3 : Reach layout context (start none none) s3 =
      next r2 (client_read 4 whole_file refl refl refl) in
    let r4 : Reach layout context (start none none) s4 =
      next r3 (client_unlock 4 (some context) refl refl) in
    next r4 (client_attach 4 context 2 refl refl refl)

attached-context_example :
    ((context ≡ context) × (with_client.area ≡ some 2)) × (with_client.master ≢ exists_already)
attached-context_example =
    attached-context layout context (omega arith) with_client 4 with_client-Reach

attach-possible_example :
    (t : Node) × Reach layout context done t × (t.clients 3 ≡ attached context)
attach-possible_example =
    attach-possible layout context (omega arith) done 3 done-Reach refl refl refl

abbrev old : SharedContext
old = record { syncfile = 115 ∷ []; shmfile = 109 ∷ []; size = 7 }

stale-context_example :
    (t : Node) × Reach layout context
      (start (some (record { length = 8208; start = old })) (some 7))
      t
    × (t.clients 1 ≡ attached old)
    × (t.master ≡ exists_already)
stale-context_example =
    stale-context layout context (omega arith) 1 7 (record { length = 8208; start = old }) refl
