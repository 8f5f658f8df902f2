-- ===== src/Env/Init.antt =====
-- env_variables_init (common/env.c) at the start of the program.
use sabo.Base.{◌≡◌, ◌↔◌, [], ◌∷◌, ◌++◌, ℤ, pos, negsuc, ◌≤ℤ◌, ltb_ℤ, arith, if◌then◌else◌}
use sabo.Env.{
  Variable, initial, query, Libc, no_omp_thread, invalid_stepbal, env_value, env_flag,
  env_variables_init, env_get_log_debug, env_get_omp_num_threads, env_get_stepbal,
  env_omp_num_threads, env_stepbal, env_periodic, env_num_steps_exchanged, env_no_rebalance,
  env_world_num_tasks, env_world_task_id, env_node_num_tasks, env_node_task_id, omp_num_threads,
  sabo_step_balancing, sabo_periodic, sabo_num_steps_exchanged, sabo_no_rebalance,
  sabo_world_task_id, sabo_node_num_tasks, sabo_node_task_id,
}

-- The setting that the environment gives each variable, with its default.
abbrev pub setting : {S : Type 0} → Libc S → Variable → ℤ
setting l env_omp_num_threads = env_value l (negsuc 0) omp_num_threads
setting l env_stepbal = env_value l (pos 1) sabo_step_balancing
setting l env_periodic = env_flag l (pos 0) sabo_periodic
setting l env_num_steps_exchanged = env_value l (pos 1) sabo_num_steps_exchanged
setting l env_no_rebalance = env_flag l (pos 0) sabo_no_rebalance
setting l env_world_num_tasks = env_value l (negsuc 0) sabo_world_task_id
setting l env_world_task_id = env_value l (negsuc 0) sabo_world_task_id
setting l env_node_num_tasks = env_value l (negsuc 0) sabo_node_num_tasks
setting l env_node_task_id = env_value l (negsuc 0) sabo_node_task_id

errors_of :
    (threads stepbal : ℤ)
    → (((if ltb_ℤ (pos 0) threads then [] else no_omp_thread threads ∷ [])
          ++ (if ltb_ℤ (pos 0) stepbal then [] else invalid_stepbal stepbal ∷ [])
        ≡ []))
      ↔ ((pos 1 ≤ℤ threads) × (pos 1 ≤ℤ stepbal))
errors_of threads stepbal = (λ e. ground arith, λ (h, k). ground arith)

-- Initialising at the start of the program logs no error exactly where the settings of the number of
-- threads and of the balancing step are positive.
pub env_variables_init-errors :
    {S : Type 0} (l : Libc S)
    → ((env_variables_init l initial).0 ≡ [])
      ↔ ((pos 1 ≤ℤ setting l env_omp_num_threads) × (pos 1 ≤ℤ setting l env_stepbal))
unfolding env_variables_init query env_get_omp_num_threads env_get_stepbal env_get_log_debug
env_variables_init-errors l = errors_of (setting l env_omp_num_threads) (setting l env_stepbal)
