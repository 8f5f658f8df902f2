-- ===== src/Slurm/Tests.antt =====
-- A job of four nodes, with the entries `2(x3),1`.
use sabo.Base.{◌≡◌, refl, Option, none, some, [], ◌∷◌, ◌++◌, arith, pos}
use sabo.Slurm.{
  Text, returns, SlurmName, slurm_job_num_nodes, slurm_nodeid, slurm_localid, slurm_tasks_per_node,
  read_integer, strtol, digits_loop, read_slurm_integer_env_variable,
  read_slurm_job_nodes_env_variable, read_slurm_job_nodeid_env_variable,
  read_slurm_node_localid_env_variable, read_slurm_get_node_tasks_per_node_env_variable,
}
use sabo.Slurm.Digits.{value_from}
use sabo.Slurm.Entries.{Entry, IsPositive, entry_text, rest_text}
use sabo.Slurm.Node.{Job, node_tasks-of_entries}

abbrev twos : Entry
twos = record { count = (2, []); times = some (3, []) }

abbrev one : Entry
one = record { count = (1, []); times = none }

abbrev written : Text
written = 50 ∷ 40 ∷ 120 ∷ 51 ∷ 41 ∷ 44 ∷ 49 ∷ []

entries-written : entry_text twos ++ rest_text (one ∷ []) ≡ written
entries-written = refl

two-IsPositive : IsPositive (2, [])
unfolding value_from
two-IsPositive = record { decimal = (omega arith, tt); positive = omega arith; fits = omega arith }

three-IsPositive : IsPositive (3, [])
unfolding value_from
three-IsPositive = record {
  decimal = (omega arith, tt);
  positive = omega arith;
  fits = omega arith;
}

one-IsPositive : IsPositive (1, [])
unfolding value_from
one-IsPositive = record { decimal = (omega arith, tt); positive = omega arith; fits = omega arith }

abbrev variables : Option Text → SlurmName → Option Text
variables id slurm_job_num_nodes = some (52 ∷ [])
variables id slurm_nodeid = id
variables id slurm_localid = some (48 ∷ [])
variables id slurm_tasks_per_node = some written

job : (id : Option Text) → Job (variables id) twos (one ∷ [])
unfolding read_slurm_node_localid_env_variable read_slurm_job_nodes_env_variable
    read_slurm_integer_env_variable read_integer strtol digits_loop value_from
job id = record {
  first_entry = (two-IsPositive, three-IsPositive);
  other_entries = ((one-IsPositive, tt), tt);
  text = refl;
  local_id = omega arith;
  num_nodes = refl;
  has_node = omega arith;
}

last_id : read_slurm_job_nodeid_env_variable (variables (some (51 ∷ []))) ≡ pos 3
unfolding read_slurm_job_nodeid_env_variable read_slurm_integer_env_variable read_integer strtol
    digits_loop
last_id = refl

node_tasks-of_entries_example :
    read_slurm_get_node_tasks_per_node_env_variable (variables (some (51 ∷ []))) ≡ returns (pos 1)
unfolding value_from
node_tasks-of_entries_example =
    node_tasks-of_entries (job (some (51 ∷ []))) 3 (pos 1) last_id (omega arith) refl
