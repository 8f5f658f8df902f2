-- ===== src/Slurm/Node.antt =====
-- tools/slurm_variables_parser.c: the number of tasks of a node.
use sabo.Base.{
  ℕ, ◌<◌, ◌≡◌, refl, ◌∙◌, true, false, Option, some, List, ◌∷◌, ◌++◌, length, get_elem?, arith, ℤ,
  pos, ltb_ℤ, ◌≤ℤ◌,
}
use sabo.Slurm.{
  Text, returns, SlurmName, slurm_tasks_per_node, read_slurm_job_nodes_env_variable,
  read_slurm_job_nodeid_env_variable, read_slurm_node_localid_env_variable, read_array, read_tasks,
  read_slurm_get_node_tasks_per_node_env_variable,
}
use sabo.Slurm.Entries.{Entry, IsEntry, AllEntries, entry_text, rest_text, tasks, parse-entries}

-- What the variables say: a local id, the number of the nodes, and the entries.
pub record Job (getenv : SlurmName → Option Text) (e : Entry) (es : List Entry) : Type 0 where
  pub first_entry : IsEntry e
  pub other_entries : AllEntries es
  pub text : getenv slurm_tasks_per_node ≡ some (entry_text e ++ rest_text es)
  pub local_id : pos 0 ≤ℤ read_slurm_node_localid_env_variable getenv
  pub num_nodes : read_slurm_job_nodes_env_variable getenv ≡ pos (length (tasks (e ∷ es)))
  pub has_node : 0 < length (tasks (e ∷ es))

read_tasks-Job :
    {getenv : SlurmName → Option Text} {e : Entry} {es : List Entry} (job : Job getenv e es)
    (id : ℤ)
    → read_tasks getenv (pos (length (tasks (e ∷ es)))) id ≡ read_array getenv (tasks (e ∷ es)) id
unfolding read_tasks
read_tasks-Job {getenv} {e} {es} job id =
    rw (read_tasks, job.text, parse-entries e es job.first_entry job.other_entries) refl

node_tasks-Job :
    {getenv : SlurmName → Option Text} {e : Entry} {es : List Entry} (job : Job getenv e es)
    (id : ℤ)
    → read_slurm_job_nodeid_env_variable getenv ≡ id
    → ltb_ℤ id (pos (length (tasks (e ∷ es)))) ≡ true
    → read_slurm_get_node_tasks_per_node_env_variable getenv ≡ read_array getenv (tasks (e ∷ es)) id
unfolding read_slurm_get_node_tasks_per_node_env_variable
node_tasks-Job {getenv} {e} {es} job id same below =
    let n = length (tasks (e ∷ es)) in
    let local : ltb_ℤ (read_slurm_node_localid_env_variable getenv) (pos 0) ≡ false =
      ground (arith, job.local_id) in
    let some_nodes : ltb_ℤ (pos 0) (pos n) ≡ true = ground (arith, job.has_node) in
    let not_negative : ltb_ℤ (pos n) (pos 0) ≡ false = ground arith in
    rw
      (
        read_slurm_get_node_tasks_per_node_env_variable, local, job.num_nodes, same, some_nodes,
        not_negative, below,
      )
      (read_tasks-Job job id)

-- With the id of a node of the job, the program returns the number of tasks that the entries give
-- that node.
pub node_tasks-of_entries :
    {getenv : SlurmName → Option Text} {e : Entry} {es : List Entry} (job : Job getenv e es)
    (id : ℕ) (v : ℤ)
    → read_slurm_job_nodeid_env_variable getenv ≡ pos id
    → id < length (tasks (e ∷ es))
    → get_elem? (tasks (e ∷ es)) id ≡ some v
    → read_slurm_get_node_tasks_per_node_env_variable getenv ≡ returns v
unfolding read_array
node_tasks-of_entries {getenv} {e} {es} job id v same below at_id =
    let not_negative : ltb_ℤ (pos id) (pos 0) ≡ false = ground arith in
    node_tasks-Job job (pos id) same (ground (arith, below))
    ∙ rw (read_array, at_id, not_negative) refl
