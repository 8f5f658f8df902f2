-- ===== src/Env/Kept.antt =====
-- common/env.c: what the getters keep from one call to the next.
use sabo.Base.{ℕ, zero, suc, ◌≡◌, ◌≢◌, refl, sym, ◌∙◌, ap, List, [], ◌∷◌, ℤ, arith, eq_of_parts}
use sabo.Env.{
  env_get_implicit_balancing, env_get_log_debug, Variable, code, Statics, uninitialized, query,
  Libc, env_get_omp_num_threads, env_get_stepbal, env_get_periodic, env_get_num_steps_exchanged,
  env_get_no_rebalance, env_get_world_num_tasks, env_get_world_task_id, env_get_node_num_tasks,
  env_get_node_task_id, env_omp_num_threads, env_stepbal, env_periodic, env_num_steps_exchanged,
  env_no_rebalance, env_world_num_tasks, env_world_task_id, env_node_num_tasks, env_node_task_id,
}

decode : ℕ → Variable
decode zero = env_omp_num_threads
decode (suc zero) = env_stepbal
decode (suc (suc zero)) = env_periodic
decode (suc (suc (suc zero))) = env_num_steps_exchanged
decode (suc (suc (suc (suc zero)))) = env_no_rebalance
decode (suc (suc (suc (suc (suc zero))))) = env_world_num_tasks
decode (suc (suc (suc (suc (suc (suc zero)))))) = env_world_task_id
decode (suc (suc (suc (suc (suc (suc (suc zero))))))) = env_node_num_tasks
decode (suc (suc (suc (suc (suc (suc (suc (suc n)))))))) = env_node_task_id

decode-code : (v : Variable) → decode (code v) ≡ v
unfolding decode
decode-code env_omp_num_threads = refl
decode-code env_stepbal = refl
decode-code env_periodic = refl
decode-code env_num_steps_exchanged = refl
decode-code env_no_rebalance = refl
decode-code env_world_num_tasks = refl
decode-code env_world_task_id = refl
decode-code env_node_num_tasks = refl
decode-code env_node_task_id = refl

code-injective : (v w : Variable) → code v ≡ code w → v ≡ w
code-injective v w e = sym (decode-code v) ∙ ap decode e ∙ decode-code w

-- The getter of a variable.
abbrev pub getter : {S : Type 0} → Libc S → Variable → Statics → ℤ × Statics
getter l env_omp_num_threads = env_get_omp_num_threads l
getter l env_stepbal = env_get_stepbal l
getter l env_periodic = env_get_periodic l
getter l env_num_steps_exchanged = env_get_num_steps_exchanged l
getter l env_no_rebalance = env_get_no_rebalance l
getter l env_world_num_tasks = env_get_world_num_tasks l
getter l env_world_task_id = env_get_world_task_id l
getter l env_node_num_tasks = env_get_node_num_tasks l
getter l env_node_task_id = env_get_node_task_id l

-- What the program calls: a getter that keeps its value, or one that reads the environment again.
pub data Call : Type 0 where
  get : Variable → Call
  get_implicit_balancing : Call
  get_log_debug : Call

abbrev pub call : {S : Type 0} → Libc S → Call → Statics → Statics
call l (get v) st = (getter l v st).1
call l get_implicit_balancing st = (env_get_implicit_balancing l st).1
call l get_log_debug st = env_get_log_debug l st

-- Calls, each in an environment of its own.
abbrev pub calls : {S : Type 0} → List (Libc S × Call) → Statics → Statics
calls [] st = st
calls ((l, c) ∷ cs) st = calls cs (call l c st)

-- Each getter queries its own variable.
pub getter-query :
    {S : Type 0} (l : Libc S) (v : Variable)
    → (x : ℤ) × ((st : Statics) → getter l v st ≡ query v x st)
unfolding env_get_omp_num_threads env_get_stepbal env_get_periodic env_get_num_steps_exchanged
    env_get_no_rebalance env_get_world_num_tasks env_get_world_task_id env_get_node_num_tasks
    env_get_node_task_id
getter-query l env_omp_num_threads = (_, λ st. refl)
getter-query l env_stepbal = (_, λ st. refl)
getter-query l env_periodic = (_, λ st. refl)
getter-query l env_num_steps_exchanged = (_, λ st. refl)
getter-query l env_no_rebalance = (_, λ st. refl)
getter-query l env_world_num_tasks = (_, λ st. refl)
getter-query l env_world_task_id = (_, λ st. refl)
getter-query l env_node_num_tasks = (_, λ st. refl)
getter-query l env_node_task_id = (_, λ st. refl)

query-stored : (v : Variable) (x : ℤ) (st : Statics) → (query v x st).1.cached v ≡ (query v x st).0
unfolding query
query-stored v x st = ground arith

query-hit :
    (v : Variable) (x : ℤ) (st : Statics)
    → st.cached v ≢ uninitialized
    → query v x st ≡ (st.cached v, st)
unfolding query
query-hit v x st h = ground (arith, eq_of_parts uninitialized (st.cached v))

query-kept :
    (v w : Variable) (x : ℤ) (st : Statics)
    → st.cached v ≢ uninitialized
    → (query w x st).1.cached v ≡ st.cached v
unfolding query
query-kept v w x st h = ground (arith, eq_of_parts uninitialized (st.cached w), code-injective v w)

call-kept :
    {S : Type 0} (l : Libc S) (c : Call) (v : Variable) (st : Statics)
    → st.cached v ≢ uninitialized
    → (call l c st).cached v ≡ st.cached v
unfolding env_get_implicit_balancing env_get_log_debug
call-kept l (get w) v st h =
    let (x, e) = getter-query l w in rw (call, e st) (query-kept v w x st h)
call-kept l get_implicit_balancing v st h = refl
call-kept l get_log_debug v st h = refl

calls-kept :
    {S : Type 0} (cs : List (Libc S × Call)) (v : Variable) (st : Statics)
    → st.cached v ≢ uninitialized
    → (calls cs st).cached v ≡ st.cached v
calls-kept [] v st h = refl
calls-kept ((l, c) ∷ cs) v st h =
    let k = call-kept l c v st h in calls-kept cs v (call l c st) (rw k h) ∙ k

-- For each of the nine settings that are kept in a static variable (the number of threads, the step
-- and the period of the balancing, the window, the rebalancing, the two ranks and the two sizes): a
-- value other than -2 that its getter returned is what it returns again, whatever getters are called
-- in between, also those that read the environment each time (of the implicit balancing and of the
-- debugging), and however the environment changes.
pub getter-kept :
    {S : Type 0} (l l' : Libc S) (v : Variable) (st : Statics) (cs : List (Libc S × Call))
    → (getter l v st).0 ≢ uninitialized
    → (getter l' v (calls cs (getter l v st).1)).0 ≡ (getter l v st).0
getter-kept l l' v st cs h =
    let (x, e) = getter-query l v in
    let (x', e') = getter-query l' v in
    let st1 = (getter l v st).1 in
    let stored : st1.cached v ≡ (getter l v st).0 = rw (e st) (query-stored v x st) in
    let same = calls-kept cs v st1 (rw stored h) ∙ stored in
    ap (λ r. r.0) (e' (calls cs st1) ∙ query-hit v x' (calls cs st1) (rw same h)) ∙ same
