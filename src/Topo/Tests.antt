-- ===== src/Topo/Tests.antt =====
-- common/topo.c: two sockets of two cores with two processors each.
use sabo.Base.{ℕ, ◌+◌, ◌*◌, ◌≡◌, refl, none, some, ltb, if◌then◌else◌, pos, arith}
use sabo.Topo.{Hwloc, Topology, get_socket_core_id, topo_init}
use sabo.Topo.Table.{Uniform, Kept, get_socket_core_id-Kept, topo_init-Kept}

abbrev machine : Hwloc ℕ ℕ
machine = record {
  num_packages = pos 2;
  num_cores = pos 4;
  package_obj = λ i. if ltb i 2 then some i else none;
  cores_inside = λ s. pos 2;
  core_inside = λ s j. if ltb j 2 then some (2 * s + j) else none;
  first_cpu = λ c. pos (2 * c);
  package_of_core = λ c. some (pos 0);
}

machine-Uniform : Uniform machine 2 2
machine-Uniform = record {
  some_socket = omega arith;
  socket = λ i. i;
  core = λ i j. 2 * i + j;
  packages = refl;
  found = λ i b. ground arith;
  cores = λ i b. refl;
  inside = λ i j b c. ground arith;
}

started : (t : Topology) × (topo_init machine ≡ some t) × Kept machine 2 2 machine-Uniform t
started = topo_init-Kept machine 2 2 machine-Uniform (omega arith) refl

get_socket_core_id-Kept_example :
    (t' : Topology) × (get_socket_core_id machine (pos 1) (pos 1) started.0 ≡ some (pos 6, t'))
    × Kept machine 2 2 machine-Uniform t'
unfolding machine-Uniform
get_socket_core_id-Kept_example =
    get_socket_core_id-Kept machine 2 2 machine-Uniform started.0 1 1 started.2 (omega arith)
      (omega arith)
