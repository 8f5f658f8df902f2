-- ===== src/Core/Memory.antt =====
-- core/sabo.c: the blocks of memory that the context owns, as `sabo_core_init`, `core_init_context`
-- and `core_fini_context` allocate and free them. A flag says that a block is allocated; `none` is a
-- second `free` of the same block. The decision tree frees its own.
mod Freed
mod Program
mod Tests
use sabo.Base.{ℕ, zero, suc, ◌+◌, Bool, true, false, Option, none, some, write, if◌then◌else◌}
use mathlib.Core.Option

-- The arrays of a process.
pub record Arrays : Type 0 where
  pub ompt_elapsed : Bool
  pub delta : Bool
  pub num_threads : Bool
  pub elapsed : Bool

-- The blocks: the context, the process before the array is made and its arrays, the array of
-- processes and the arrays of each, the binding, the array of sockets and the array of each.
-- `init_once`, `node_comm_size` and `num_sockets` are the fields of the context.
pub record Heap : Type 0 where
  pub ctx : Bool
  pub own : Bool
  pub own_arrays : Arrays
  pub processes : Bool
  pub arrays : ℕ → Arrays
  pub binding : Bool
  pub sockets : Bool
  pub socket_processes : ℕ → Bool
  pub init_once : Bool
  pub node_comm_size : ℕ
  pub num_sockets : ℕ

abbrev pub no_arrays : Arrays
no_arrays = record { ompt_elapsed = false; delta = false; num_threads = false; elapsed = false }

abbrev pub all_arrays : Arrays
all_arrays = record { ompt_elapsed = true; delta = true; num_threads = true; elapsed = true }

abbrev pub nothing : Heap
nothing = record {
  ctx = false;
  own = false;
  own_arrays = no_arrays;
  processes = false;
  arrays = λ i. no_arrays;
  binding = false;
  sockets = false;
  socket_processes = λ i. false;
  init_once = false;
  node_comm_size = 0;
  num_sockets = 0;
}

-- `xfree` of a block.
abbrev pub free : Bool → Option Bool
free live = if live then some false else none

-- `sabo_core_fini_process`
unfoldable pub fini_process : Arrays → Option Arrays
fini_process a = elim (free a.ompt_elapsed) [
  | none ↦ none
  | some ompt_elapsed ↦ elim (free a.delta) [
    | none ↦ none
    | some delta ↦ elim (free a.num_threads) [
      | none ↦ none
      | some num_threads ↦
          Option.map
            (λ e. record {
              ompt_elapsed = ompt_elapsed;
              delta = delta;
              num_threads = num_threads;
              elapsed = e;
            })
            (free a.elapsed)
    ]
  ]
]

-- `xzalloc` for every index from `i` on.
unfoldable pub alloc_loop {ℓ} : {A : Type ℓ} → A → ℕ → ℕ → (ℕ → A) → ℕ → A
alloc_loop a i zero f = f
alloc_loop a i (suc n) f = alloc_loop a (i + 1) n (write f i a)

-- A step that may fail for every index from `i` on.
unfoldable pub free_loop {ℓ} : {A : Type ℓ} → (A → Option A) → ℕ → ℕ → (ℕ → A) → Option (ℕ → A)
free_loop step i zero f = some f
free_loop step i (suc n) f = elim (step (f i)) [
  | none ↦ none
  | some a ↦ free_loop step (i + 1) n (write f i a)
]

-- `sabo_core_init`, with the number of sockets.
unfoldable pub core_init : ℕ → Heap → Heap
core_init num_sockets h = record h {
  ctx = true;
  own = true;
  own_arrays = all_arrays;
  num_sockets = num_sockets;
}

-- The allocations of `core_init_context` once the process is copied into the array.
abbrev pub alloc_rest : Heap → Heap
alloc_rest h = record h {
  binding = true;
  sockets = true;
  socket_processes = alloc_loop true 0 h.num_sockets h.socket_processes;
  init_once = true;
}

-- `core_init_context`, with the number of processes on the node.
unfoldable pub init_context : ℕ → Heap → Option Heap
init_context node_comm_size h = if h.init_once then some h else elim (fini_process h.own_arrays) [
  | none ↦ none
  | some own_arrays ↦
      Option.map
        (λ own. alloc_rest (record h {
          own = own;
          own_arrays = own_arrays;
          processes = true;
          arrays = alloc_loop all_arrays 0 node_comm_size h.arrays;
          node_comm_size = node_comm_size;
        }))
        (free h.own)
]

-- `core_fini_context`; the array of sockets and that of processes are there, or their pointers null.
unfoldable pub fini_sockets : Heap → Option Heap
fini_sockets h =
    if h.sockets
    then Option.map (λ rows. record h { socket_processes = rows; sockets = false })
        (free_loop free 0 h.num_sockets h.socket_processes)
    else some h

-- The process before the array is made is freed where there is no array, without its arrays.
unfoldable pub fini_processes : Heap → Option Heap
fini_processes h =
    if h.processes
    then Option.map (λ arrays. record h { arrays = arrays; processes = false })
        (free_loop fini_process 0 h.node_comm_size h.arrays)
    else Option.map (λ own. record h { own = own }) (free h.own)

unfoldable pub fini_context : Heap → Option Heap
fini_context h =
    if h.ctx
    then elim (fini_sockets h) [
      | none ↦ none
      | some h1 ↦
          Option.map {A = Heap} (λ (h2 : Heap). record h2 { ctx = false }) (fini_processes h1)
    ]
    else some h
