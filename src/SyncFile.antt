-- ===== src/SyncFile.antt =====
-- modules/module_shm.c, lines 97-201 and 241-311: how the processes of a node find their shared area.
-- Process 0, the master, creates the object of shared memory and then writes its context into the
-- synchronisation file; the clients read it there. Each constructor of `Step` is one call on the
-- file system, or a few that only this process can see. The calls succeed except where the state
-- refuses them, there is one object of shared memory since its name is a constant, and a file is its
-- length and the context at its start.
mod Invariant
mod Safety
mod Tests
use sabo.Base.{ℕ, ◌≡◌, Option, none, some, List, ltb, if◌then◌else◌, write}

-- `struct shm_shared_context`, without the fields that nothing reads.
pub record SharedContext : Type 0 where
  pub syncfile : List ℕ
  pub shmfile : List ℕ
  pub size : ℕ

pub record File : Type 0 where
  pub length : ℕ
  pub start : SharedContext

-- Where the master stands: before `shm_open`, before the mapping, before the file is opened, locked,
-- truncated, written, unlocked, and after all that.
pub data Master : Type 0 where
  creating : Master
  mapping : Master
  publishing : Master
  master_locking : Master
  truncating : Master
  writing : Master
  master_unlocking : Master
  published : Master
  exists_already : Master

-- Where a client stands: before the file is opened, locked, read, unlocked with what was read, before
-- `shm_open` with the context that it has found, and after the mapping.
pub data Client : Type 0 where
  opening : Client
  locking : Client
  reading : Client
  unlocking : Option SharedContext → Client
  attaching : SharedContext → Client
  attached : SharedContext → Client
  not_found : Client

pub data Holder : Type 0 where
  the_master : Holder
  client : ℕ → Holder

-- The synchronisation file, who holds its lock, the size of the object of shared memory, and the
-- processes.
pub record Node : Type 0 where
  pub file : Option File
  pub lock : Option Holder
  pub area : Option ℕ
  pub master : Master
  pub clients : ℕ → Client

-- `page` is the size of a page, `size` that of the context, `zero_context` the one of a file of
-- zeros.
pub record Layout : Type 0 where
  pub page : ℕ
  pub context_size : ℕ
  pub zero_context : SharedContext

module _ (layout : Layout) where
  -- A read of a whole context, or none where the file is too short.
  abbrev pub read_context : File → Option SharedContext
  read_context f = if ltb f.length layout.context_size then none else some f.start

  abbrev pub new_file : File
  new_file = record { length = 0; start = layout.zero_context }

  abbrev pub opened : Option File → File
  opened none = new_file
  opened (some f) = f

  abbrev pub truncated : File → File
  truncated f = record f { length = layout.page }

  abbrev pub written : SharedContext → File → File
  written c f = record {
    length = if ltb f.length layout.context_size then layout.context_size else f.length;
    start = c;
  }

  -- `shm_sync_remote_client` goes on with what it has read, or starts again.
  abbrev pub after_read : Option SharedContext → Client
  after_read none = opening
  after_read (some c) = attaching c

  -- A step of the master, whose context is `ctx`, or of a client.
  pub data Step (ctx : SharedContext) (s t : Node) : Type 0 where
    create :
        s.master ≡ creating
        → s.area ≡ none
        → t ≡ record s { area = some 0; master = mapping }
        → Step ctx s t
    refuse_create :
        (n : ℕ)
        → s.master ≡ creating
        → s.area ≡ some n
        → t ≡ record s { master = exists_already }
        → Step ctx s t
    map_area :
        s.master ≡ mapping
        → t ≡ record s { area = some ctx.size; master = publishing }
        → Step ctx s t
    open_file :
        s.master ≡ publishing
        → t ≡ record s { file = some (opened s.file); master = master_locking }
        → Step ctx s t
    lock_file :
        s.master ≡ master_locking
        → s.lock ≡ none
        → t ≡ record s { lock = some the_master; master = truncating }
        → Step ctx s t
    truncate_file :
        (f : File)
        → s.master ≡ truncating
        → s.file ≡ some f
        → t ≡ record s { file = some (truncated f); master = writing }
        → Step ctx s t
    write_file :
        (f : File)
        → s.master ≡ writing
        → s.file ≡ some f
        → t ≡ record s { file = some (written ctx f); master = master_unlocking }
        → Step ctx s t
    unlock_file :
        s.master ≡ master_unlocking
        → t ≡ record s { lock = none; master = published }
        → Step ctx s t
    client_open :
        (i : ℕ) (f : File)
        → s.clients i ≡ opening
        → s.file ≡ some f
        → t ≡ record s { clients = write s.clients i locking }
        → Step ctx s t
    client_retry : (i : ℕ) → s.clients i ≡ opening → s.file ≡ none → t ≡ s → Step ctx s t
    client_lock :
        (i : ℕ)
        → s.clients i ≡ locking
        → s.lock ≡ none
        → t ≡ record s { lock = some (client i); clients = write s.clients i reading }
        → Step ctx s t
    client_read :
        (i : ℕ) (f : File)
        → s.clients i ≡ reading
        → s.file ≡ some f
        → t ≡ record s { clients = write s.clients i (unlocking (read_context f)) }
        → Step ctx s t
    client_unlock :
        (i : ℕ) (r : Option SharedContext)
        → s.clients i ≡ unlocking r
        → t ≡ record s { lock = none; clients = write s.clients i (after_read r) }
        → Step ctx s t
    client_attach :
        (i : ℕ) (c : SharedContext) (n : ℕ)
        → s.clients i ≡ attaching c
        → s.area ≡ some n
        → t ≡ record s { clients = write s.clients i (attached c) }
        → Step ctx s t
    client_miss :
        (i : ℕ) (c : SharedContext)
        → s.clients i ≡ attaching c
        → s.area ≡ none
        → t ≡ record s { clients = write s.clients i not_found }
        → Step ctx s t

  pub data Reach (ctx : SharedContext) (s : Node) : Node → Type 0 where
    here : Reach ctx s s
    next : {t u : Node} → Reach ctx s t → Step ctx t u → Reach ctx s u

-- The processes before anything is done, on a node with this file and this object.
abbrev pub start : Option File → Option ℕ → Node
start file area = record {
  file = file;
  lock = none;
  area = area;
  master = creating;
  clients = λ i. opening;
}
