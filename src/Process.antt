-- ===== src/Process.antt =====
-- core/sabo_internal.h: the placement fields of `struct core_process`, which core/sabo.c and
-- common/decision_tree.c share. The counters, the binding and the OpenMP timers stand in Core.
use sabo.Base.{ℤ}

pub record CoreProcess : Type 0 where
  pub node_rank : ℤ
  pub world_rank : ℤ
  pub socket_id : ℤ
  pub num_threads : ℤ
  pub prev_socket_id : ℤ
  pub prev_num_threads : ℤ
