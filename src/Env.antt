-- ===== src/Env.antt =====
-- common/env.c: the environment variables, each in a static variable after its first query.
-- `getenv`, `atoi`, `strtoul` and `snprintf` are parameters; log lines are left out, errors kept.
mod Kept
mod Init
mod Tests
use sabo.Base.{
  ℕ, suc, Bool, true, false, not, Option, none, some, List, [], ◌∷◌, ◌++◌, if◌then◌else◌, ◌==◌, ℤ,
  pos, negsuc, ltb_ℤ, eqb_ℤ,
}

-- The names of the variables.
pub data EnvName : Type 0 where
  sabo_implicit_balancing : EnvName
  sabo_log_debug : EnvName
  omp_num_threads : EnvName
  sabo_step_balancing : EnvName
  sabo_periodic : EnvName
  sabo_num_steps_exchanged : EnvName
  sabo_no_rebalance : EnvName
  sabo_world_task_id : EnvName
  sabo_node_num_tasks : EnvName
  sabo_node_task_id : EnvName
  sabo_shared_filename : EnvName
  sabo_hwloc_filename : EnvName

-- The static variables of the getters that query the environment once.
pub data Variable : Type 0 where
  env_omp_num_threads : Variable
  env_stepbal : Variable
  env_periodic : Variable
  env_num_steps_exchanged : Variable
  env_no_rebalance : Variable
  env_world_num_tasks : Variable
  env_world_task_id : Variable
  env_node_num_tasks : Variable
  env_node_task_id : Variable

abbrev pub code : Variable → ℕ
code env_omp_num_threads = 0
code env_stepbal = 1
code env_periodic = 2
code env_num_steps_exchanged = 3
code env_no_rebalance = 4
code env_world_num_tasks = 5
code env_world_task_id = 6
code env_node_num_tasks = 7
code env_node_task_id = 8

pub record Statics : Type 0 where
  pub log_debug : ℕ
  pub env_implicit_balancing : ℤ
  pub cached : Variable → ℤ

-- -2
abbrev pub uninitialized : ℤ
uninitialized = negsuc 1

-- The static variables when the program starts.
abbrev pub initial : Statics
initial = record { log_debug = 0; env_implicit_balancing = pos 0; cached = λ _. uninitialized }

abbrev pub put_cached : Variable → ℤ → Statics → Statics
put_cached v x st = record st { cached = λ w. if code w == code v then x else st.cached w }

-- A static variable, set to the value if it is not initialized.
unfoldable pub query : Variable → ℤ → Statics → ℤ × Statics
query v x st =
    if not (eqb_ℤ uninitialized (st.cached v)) then (st.cached v, st) else (x, put_cached v x st)

-- What the code calls in the C library; `S` is the type of its strings.
pub record Libc (S : Type 0) : Type 0 where
  pub getenv : EnvName → Option S
  pub atoi : S → ℤ
  pub strtoul_16 : S → ℕ
  pub empty : S
  pub snprintf : ℕ → S → S

-- The errors of `env_variables_init`, which are logged.
pub data EnvError : Type 0 where
  no_omp_thread : ℤ → EnvError
  invalid_stepbal : ℤ → EnvError

module _ {S : Type 0} (libc : Libc S) where
  -- The value of a variable, or the default.
  unfoldable pub env_value : ℤ → EnvName → ℤ
  env_value default name = elim (libc.getenv name) [ none ↦ default | some env ↦ libc.atoi env ]

  -- The same with `!!` on the value.
  unfoldable pub env_flag : ℤ → EnvName → ℤ
  env_flag default name = elim (libc.getenv name) [
    | none ↦ default
    | some env ↦ if eqb_ℤ (libc.atoi env) (pos 0) then pos 0 else pos 1
  ]

  unfoldable pub env_get_implicit_balancing : Statics → ℤ × Statics
  env_get_implicit_balancing st =
      let v = env_value st.env_implicit_balancing sabo_implicit_balancing in
      (v, record st { env_implicit_balancing = v })

  unfoldable pub env_get_log_debug : Statics → Statics
  env_get_log_debug st = record st {
    log_debug = elim (libc.getenv sabo_log_debug) [ none ↦ 0 | some env ↦ libc.strtoul_16 env ];
  }

  unfoldable pub env_get_omp_num_threads : Statics → ℤ × Statics
  env_get_omp_num_threads = query env_omp_num_threads (env_value (negsuc 0) omp_num_threads)

  unfoldable pub env_get_stepbal : Statics → ℤ × Statics
  env_get_stepbal = query env_stepbal (env_value (pos 1) sabo_step_balancing)

  unfoldable pub env_get_periodic : Statics → ℤ × Statics
  env_get_periodic = query env_periodic (env_flag (pos 0) sabo_periodic)

  unfoldable pub env_get_num_steps_exchanged : Statics → ℤ × Statics
  env_get_num_steps_exchanged =
      query env_num_steps_exchanged (env_value (pos 1) sabo_num_steps_exchanged)

  unfoldable pub env_get_no_rebalance : Statics → ℤ × Statics
  env_get_no_rebalance = query env_no_rebalance (env_flag (pos 0) sabo_no_rebalance)

  -- The code reads the variable of the task id here.
  unfoldable pub env_get_world_num_tasks : Statics → ℤ × Statics
  env_get_world_num_tasks = query env_world_num_tasks (env_value (negsuc 0) sabo_world_task_id)

  unfoldable pub env_get_world_task_id : Statics → ℤ × Statics
  env_get_world_task_id = query env_world_task_id (env_value (negsuc 0) sabo_world_task_id)

  unfoldable pub env_get_node_num_tasks : Statics → ℤ × Statics
  env_get_node_num_tasks = query env_node_num_tasks (env_value (negsuc 0) sabo_node_num_tasks)

  unfoldable pub env_get_node_task_id : Statics → ℤ × Statics
  env_get_node_task_id = query env_node_task_id (env_value (negsuc 0) sabo_node_task_id)

  -- What is written into the string of the caller.
  unfoldable pub env_get_shared_node_filename : ℕ → S
  env_get_shared_node_filename size = elim (libc.getenv sabo_shared_filename) [
    | none ↦ libc.empty
    | some env ↦ libc.snprintf size env
  ]

  -- 0 for found, and what is written into the string of the caller.
  unfoldable pub env_get_hwloc_xml_file : ℕ → ℤ × S
  env_get_hwloc_xml_file size = elim (libc.getenv sabo_hwloc_filename) [
    | none ↦ (negsuc 0, libc.empty)
    | some env ↦ (pos 0, libc.snprintf size env)
  ]

  unfoldable pub env_variables_init : Statics → List EnvError × Statics
  env_variables_init st0 =
      let st1 = env_get_log_debug st0 in
      let (threads, st2) = env_get_omp_num_threads st1 in
      let errors1 = if ltb_ℤ (pos 0) threads then [] else no_omp_thread threads ∷ [] in
      let (stepbal, st3) = env_get_stepbal st2 in
      let errors2 = if ltb_ℤ (pos 0) stepbal then [] else invalid_stepbal stepbal ∷ [] in
      let (_, st4) = env_get_no_rebalance st3 in
      let (_, st5) = env_get_periodic st4 in
      let (_, st6) = env_get_num_steps_exchanged st5 in
      let (_, st7) = env_get_node_task_id st6 in
      let (_, st8) = env_get_node_num_tasks st7 in
      let (_, st9) = env_get_world_task_id st8 in
      let (_, st10) = env_get_world_num_tasks st9 in (errors1 ++ errors2, st10)
