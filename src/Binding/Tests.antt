-- ===== src/Binding/Tests.antt =====
-- common/hwloc_binding.c: two sockets of two cores with two processors each.
use sabo.Base.{
  Bool, ◌+ℤ◌, ℕ, ◌+◌, ◌*◌, ◌≡◌, refl, true, some, none, ltb, if◌then◌else◌, [], ◌∷◌, pos, negsuc,
  pos_part, ◌↔◌, arith,
}
use sabo.Process.{CoreProcess}
use sabo.Core.Context
use sabo.Core.Balance.{Runtime, new_cores}
use sabo.Topo.{Hwloc}
use sabo.Topo.Table.{Uniform}
use sabo.Binding.{HwlocBinding, OmpProcess, omp_rebalance}
use sabo.Binding.Team.{omp_rebalance-team}
use sabo.Binding.Placed.{placement-index}

-- Core `c` has the processors `2 * c` and `2 * c + 1`; a set of processors is its first.
abbrev binding : HwlocBinding ℕ ℕ
binding = record {
  has_topology = true;
  core_obj = λ i. if ltb (pos_part i) 8 then some (pos_part i) else none;
  cpuset = λ c. 2 * c;
  singlify = λ s. s;
  empty = 99;
  get_rc = λ t. pos 0;
  set_rc = λ t s. pos 0;
}

abbrev at_start : OmpProcess ℕ
at_start = record {
  omp_num_threads = pos 4;
  threads = record { bound = λ t. 99; errors = 0 };
  binding = λ t. record { cur_core_id = negsuc 0; new_core_id = pos (2 * (2 + t)); mask = none };
}

abbrev rebalanced : OmpProcess ℕ
rebalanced = omp_rebalance binding (pos 2) (1 ∷ 0 ∷ []) at_start

omp_rebalance-team_example :
    (rebalanced.binding 0 ≡ record { cur_core_id = pos 4; new_core_id = negsuc 0; mask = some 8 })
    × (rebalanced.threads.bound 0 ≡ 8)
    × (rebalanced.binding 3 ≡ at_start.binding 3)
    × (rebalanced.threads.bound 3 ≡ 99)
    × (rebalanced.omp_num_threads ≡ pos 2)
omp_rebalance-team_example =
    omp_rebalance-team binding (pos 2) (1 ∷ []) [] 0 3 at_start 4 refl refl (omega arith, tt)
      (omega arith, (omega arith, tt))

-- Cores 2 and 3 are those of the second socket.
abbrev machine : Hwloc ℕ ℕ
machine = record {
  num_packages = pos 2;
  num_cores = pos 4;
  package_obj = λ i. if ltb i 2 then some i else none;
  cores_inside = λ s. pos 2;
  core_inside = λ s j. if ltb j 2 then some (2 * s + j) else none;
  first_cpu = λ c. pos (2 * c);
  package_of_core = λ c. some (pos 0);
}

machine-Uniform : Uniform machine 2 2
machine-Uniform = record {
  some_socket = omega arith;
  socket = λ i. i;
  core = λ i j. 2 * i + j;
  packages = refl;
  found = λ i b. ground arith;
  cores = λ i b. refl;
  inside = λ i j b c. ground arith;
}

abbrev runtime : Runtime
runtime = record {
  stepbal = pos 1;
  periodic = true;
  omp_num_threads = pos 2;
  no_rebalance = Bool.false;
  sort_tree = λ l. l;
  sort_by_num_threads = λ l. l;
  sort_by_rank = λ l. l;
  socket_core_id = λ s l. pos (2 * (2 * pos_part s + pos_part l));
  rebalance = λ b. b;
  fuel = 100;
}

abbrev process : CoreProcess
process = record {
  node_rank = pos 1;
  world_rank = pos 1;
  socket_id = pos 1;
  num_threads = pos 2;
  prev_socket_id = pos 0;
  prev_num_threads = pos 2;
}

abbrev unbound : Context.Binding
unbound = record { cur_core_id = λ _. negsuc 0; new_core_id = λ _. pos 0 }

doubled : (c d : ℕ) → 2 * c ≡ 2 * d → c ≡ d
doubled c d e = omega (arith, e)

placement-index_example : (rebalanced.threads.bound 0 ≡ 2 * 2) ↔ (◌≡◌ {A = ℕ} 4 2)
unfolding machine-Uniform new_cores ◌+ℤ◌
placement-index_example =
    placement-index machine 2 2 machine-Uniform runtime binding process unbound 1 0 0 (1 ∷ []) []
      (pos 2) at_start 4 (λ l b. refl) refl (omega arith) (omega arith) refl refl refl doubled refl
      (omega arith, tt)
