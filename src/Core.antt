-- ===== src/Core.antt =====
-- core/sabo.c: the balancing of the threads of a node's processes.
pub mod Adjust
pub mod Steps
pub mod Dispatch
pub mod Context
pub mod Exchange
pub mod Balance
pub mod Memory
