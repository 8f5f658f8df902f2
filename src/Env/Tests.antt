-- ===== src/Env/Tests.antt =====
-- Two environments whose strings are numbers.
use sabo.Base.{ℕ, ◌≡◌, ◌↔◌, refl, [], ◌∷◌, pos, ◌≤ℤ◌, Option, none, some, arith}
use sabo.Env.{
  initial, Libc, EnvName, omp_num_threads, sabo_step_balancing, sabo_world_task_id,
  env_variables_init, env_get_stepbal, query, env_value, env_stepbal, env_omp_num_threads,
}
use sabo.Env.Kept.{getter, get, get_implicit_balancing, calls, getter-kept}
use sabo.Env.Init.{setting, env_variables_init-errors}

abbrev lookup : EnvName → Option ℕ
lookup omp_num_threads = some 4
lookup sabo_step_balancing = some 3
lookup sabo_world_task_id = some 7
lookup _ = none

abbrev libc : (EnvName → Option ℕ) → Libc ℕ
libc getenv = record {
  getenv = getenv;
  atoi = λ n. pos n;
  strtoul_16 = λ n. n;
  empty = 0;
  snprintf = λ _ n. n;
}

abbrev no_variable : EnvName → Option ℕ
no_variable _ = none

stepbal_three : (getter (libc lookup) env_stepbal initial).0 ≡ pos 3
unfolding env_get_stepbal query env_value
stepbal_three = refl

-- The value stays when the variable is removed.
getter-kept_example :
    (getter (libc no_variable) env_stepbal (
      calls
        ((libc no_variable, get env_omp_num_threads)
          ∷ (libc no_variable, get_implicit_balancing)
          ∷ (libc no_variable, get env_stepbal)
          ∷ [])
        (getter (libc lookup) env_stepbal initial).1)).0
    ≡ (getter (libc lookup) env_stepbal initial).0
getter-kept_example =
    getter-kept (libc lookup) (libc no_variable) env_stepbal initial
      ((libc no_variable, get env_omp_num_threads)
        ∷ (libc no_variable, get_implicit_balancing)
        ∷ (libc no_variable, get env_stepbal)
        ∷ [])
      (rw stepbal_three (grind arith))

env_variables_init-errors_example : ((env_variables_init (libc no_variable) initial).0 ≡ []) ↔ (
    (pos 1 ≤ℤ setting (libc no_variable) env_omp_num_threads)
    × (pos 1 ≤ℤ setting (libc no_variable) env_stepbal))
env_variables_init-errors_example = env_variables_init-errors (libc no_variable)
