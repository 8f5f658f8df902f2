-- ===== src/Topo/Table.antt =====
-- common/topo.c: a machine whose sockets have the same number of cores.
use sabo.Base.{
  ℕ, zero, suc, ◌+◌, ◌<◌, ◌≡◌, refl, ap, ◌∙◌, true, false, some, List, [], ◌∷◌, get_elem?, ℤ, pos,
  ltb_ℤ, eqb_ℤ, ◌⊎◌, inl, inr, arith, Option-cases, some-injective, none-some,
}
use mathlib.Core.Path.{subst}
use sabo.Topo.{
  Hwloc, Topology, uninitialized, get_num_sockets, per_socket_loop, query_cores_per_socket,
  get_num_cores_per_socket, fill_row, fill_table, entry, read_table, make_table, get_socket_core_id,
  get_num_cores, loaded_topology, topo_init,
}

nonneg : (m : ℕ) → ltb_ℤ (pos m) (pos 0) ≡ false
nonneg m = ground arith

-- The machine has `n` sockets of `k` cores, and hwloc finds all of them.
pub record Uniform {Package Core : Type 0} (hwloc : Hwloc Package Core) (n k : ℕ) : Type 0 where
  pub some_socket : 0 < n
  pub socket : ℕ → Package
  pub core : ℕ → ℕ → Core
  pub packages : hwloc.num_packages ≡ pos n
  pub found : (i : ℕ) → i < n → hwloc.package_obj i ≡ some (socket i)
  pub cores : (i : ℕ) → i < n → hwloc.cores_inside (socket i) ≡ pos k
  pub inside : (i j : ℕ) → i < n → j < k → hwloc.core_inside (socket i) j ≡ some (core i j)

module _ {Package Core : Type 0} (hwloc : Hwloc Package Core) (n k : ℕ)
    (u : Uniform hwloc n k) where
  -- The processor of core `j` of socket `i`.
  abbrev pub processor : ℕ → ℕ → ℤ
  processor i j = hwloc.first_cpu (u.core i j)

  -- `rows` has the rows of the `m` sockets from `i` on.
  abbrev Rows : ℕ → ℕ → List (List ℤ) → Type 0
  Rows i m rows = (a j : ℕ) → a < m → j < k → entry hwloc rows a j ≡ some (processor (i + a) j)

  -- What the static variables are at any time.
  pub record Kept (t : Topology) : Type 0 where
    pub loaded : t.loaded ≡ true
    pub num_sockets : (t.num_sockets ≡ uninitialized) ⊎ (t.num_sockets ≡ pos n)
    pub per_socket : (t.num_cores_per_socket ≡ uninitialized) ⊎ (t.num_cores_per_socket ≡ pos k)
    pub table : (rows : List (List ℤ)) → t.core_id_by_socket ≡ some rows → Rows 0 n rows

  unset : eqb_ℤ uninitialized (pos k) ≡ false
  unset = ground arith

  per_socket_loop-found : (i m : ℕ) → i + m ≡ n → per_socket_loop hwloc i m (pos k) ≡ some (pos k)
  unfolding per_socket_loop
  per_socket_loop-found i zero h = refl
  per_socket_loop-found i (suc m) h =
      let e = u.found i (omega arith) in
      let c = u.cores i (omega arith) in
      let same : eqb_ℤ (pos k) (hwloc.cores_inside (u.socket i)) ≡ true = ground (arith, c) in
      rw (per_socket_loop, e, unset, same) (per_socket_loop-found (i + 1) m (omega arith))

  per_socket_loop-uniform : (m : ℕ) → m ≡ n → per_socket_loop hwloc 0 m uninitialized ≡ some (pos k)
  unfolding per_socket_loop
  per_socket_loop-uniform zero h = absurd (omega (arith, u.some_socket))
  per_socket_loop-uniform (suc m) h =
      let e = u.found 0 (omega arith) in
      let c = u.cores 0 (omega arith) in
      rw (per_socket_loop, e, c) (per_socket_loop-found 1 m (omega arith))

  num_sockets-unset :
      (t : Topology)
      → t.loaded ≡ true
      → t.num_sockets ≡ uninitialized
      → get_num_sockets hwloc t ≡ some (pos n, record t { num_sockets = hwloc.num_packages })
  unfolding get_num_sockets
  num_sockets-unset t l e =
      let unset_here : eqb_ℤ uninitialized t.num_sockets ≡ true = ground (arith, e) in
      let at_first : get_num_sockets hwloc t
          ≡ some (hwloc.num_packages, record t { num_sockets = hwloc.num_packages }) =
        ground (arith, l, unset_here) in
      at_first ∙ ap (λ x. some (x, record t { num_sockets = hwloc.num_packages })) u.packages

  num_sockets-set :
      (t : Topology)
      → t.loaded ≡ true
      → t.num_sockets ≡ pos n
      → get_num_sockets hwloc t ≡ some (pos n, t)
  unfolding get_num_sockets
  num_sockets-set t l e =
      let set_here : eqb_ℤ uninitialized t.num_sockets ≡ false = ground (arith, e) in
      let at_first : get_num_sockets hwloc t ≡ some (t.num_sockets, t) =
        ground (arith, l, set_here) in
      at_first ∙ ap (λ x. some (x, t)) e

  per_socket-unset :
      (t : Topology)
      → t.num_cores_per_socket ≡ uninitialized
      → query_cores_per_socket hwloc (pos n) t
        ≡ some (pos k, record t { num_cores_per_socket = pos k })
  unfolding query_cores_per_socket
  per_socket-unset t e =
      let unset_here : eqb_ℤ uninitialized t.num_cores_per_socket ≡ true = ground (arith, e) in
      simp (query_cores_per_socket, unset_here, per_socket_loop-uniform n refl) refl

  per_socket-set :
      (t : Topology)
      → t.num_cores_per_socket ≡ pos k
      → query_cores_per_socket hwloc (pos n) t ≡ some (pos k, t)
  unfolding query_cores_per_socket
  per_socket-set t e =
      let set_here : eqb_ℤ uninitialized t.num_cores_per_socket ≡ false = ground (arith, e) in
      simp (query_cores_per_socket, set_here) (ap (λ x. some (x, t)) e)

  num_sockets-Kept :
      (t : Topology)
      → Kept t
      → (t' : Topology) × (get_num_sockets hwloc t ≡ some (pos n, t'))
        × Kept t'
        × (t'.core_id_by_socket ≡ t.core_id_by_socket)
  unfolding get_num_sockets
  num_sockets-Kept t v = elim v.num_sockets [
    | inl e ↦ (
      record t { num_sockets = hwloc.num_packages },
      num_sockets-unset t v.loaded e,
      record {
        loaded = v.loaded;
        num_sockets = inr u.packages;
        per_socket = v.per_socket;
        table = v.table;
      },
      refl,
    )
    | inr e ↦ (t, num_sockets-set t v.loaded e, v, refl)
  ]

  num_cores_per_socket-Kept :
      (t : Topology)
      → Kept t
      → (t' : Topology) × (get_num_cores_per_socket hwloc t ≡ some (pos k, t'))
        × Kept t'
        × (t'.core_id_by_socket ≡ t.core_id_by_socket)
  unfolding get_num_cores_per_socket
  num_cores_per_socket-Kept t v =
      let (t1, e1, v1, s1) = num_sockets-Kept t v in
      elim v1.per_socket [
        | inl e ↦ (
          record t1 { num_cores_per_socket = pos k },
          rw (get_num_cores_per_socket, e1) (per_socket-unset t1 e),
          record {
            loaded = v1.loaded;
            num_sockets = v1.num_sockets;
            per_socket = inr refl;
            table = v1.table;
          },
          s1,
        )
        | inr e ↦ (t1, rw (get_num_cores_per_socket, e1) (per_socket-set t1 e), v1, s1)
      ]

  cell : (a b c d : ℕ) → a ≡ b → c ≡ d → processor a c ≡ processor b d
  cell a b c d e f = ap (λ x. processor x c) e ∙ ap (processor b) f

  row-get :
      (i j m : ℕ) (row : List ℤ)
      → ((a : ℕ) → a < m → get_elem? row a ≡ some (processor i (j + 1 + a)))
      → (a : ℕ) → a < suc m
      → get_elem? (processor i j ∷ row) a ≡ some (processor i (j + a))
  row-get i j m row f zero c = ap (λ x. some (processor i x)) (omega arith)
  row-get i j m row f (suc a) c = f a (omega arith) ∙ ap (λ x. some (processor i x)) (omega arith)

  table-get :
      (i m : ℕ) (row : List ℤ) (rows : List (List ℤ))
      → ((a : ℕ) → a < k → get_elem? row a ≡ some (processor i (0 + a)))
      → Rows (i + 1) m rows
      → Rows i (suc m) (row ∷ rows)
  table-get i m row rows f g zero j c d =
      f j d ∙ ap some (cell i (i + 0) (0 + j) j (omega arith) (omega arith))
  table-get i m row rows f g (suc a) j c d =
      g a j (omega arith) d ∙ ap some (cell (i + 1 + a) (i + suc a) j j (omega arith) refl)

  fill_row-found :
      (i j m : ℕ)
      → i < n
      → j + m ≡ k
      → (row : List ℤ) × (fill_row hwloc (u.socket i) j m ≡ some row)
        × ((a : ℕ) → a < m → get_elem? row a ≡ some (processor i (j + a)))
  unfolding fill_row
  fill_row-found i j zero b h = ([], refl, λ a c. absurd (omega arith))
  fill_row-found i j (suc m) b h =
      let e = u.inside i j b (omega arith) in
      let (row, er, f) = fill_row-found i (j + 1) m b (omega arith) in
      (processor i j ∷ row, rw (fill_row, e, er) refl, λ a c. row-get i j m row f a c)

  fill_table-found :
      (i m : ℕ) (t : Topology)
      → i + m ≡ n
      → Kept t
      → (rows : List (List ℤ)) × (t' : Topology) × (fill_table hwloc i m t ≡ some (rows, t'))
        × Kept t'
        × Rows i m rows
  unfolding fill_table
  fill_table-found i zero t h v = ([], t, refl, v, λ a j c d. absurd (omega arith))
  fill_table-found i (suc m) t h v =
      let (t1, e1, v1, s1) = num_cores_per_socket-Kept t v in
      let e = u.found i (omega arith) in
      let (row, er, f) = fill_row-found i 0 k (omega arith) (omega arith) in
      let (rows, t2, e2, v2, g) = fill_table-found (i + 1) m t1 (omega arith) v1 in
      (
        row ∷ rows,
        t2,
        rw (fill_table, e1, e, er, e2) refl,
        v2,
        λ a j c d. table-get i m row rows f g a j c d,
      )

  -- Where the static variables are as the earlier calls left them, in whatever order these came, a
  -- call for a core of a socket of the machine succeeds, whether it makes the table or reads it; it
  -- returns the processor of that core, and leaves the static variables so.
  pub get_socket_core_id-Kept :
      (t : Topology) (s l : ℕ)
      → Kept t
      → s < n
      → l < k
      → (t' : Topology) × (get_socket_core_id hwloc (pos s) (pos l) t ≡ some (processor s l, t'))
        × Kept t'
  unfolding get_socket_core_id read_table make_table
  get_socket_core_id-Kept t s l v hs hl =
      let (t1, e1, v1, s1) = num_sockets-Kept t v in
      let inside : ltb_ℤ (pos s) (pos n) ≡ true = ground arith in
      let inside_l : ltb_ℤ (pos l) (pos k) ≡ true = ground arith in
      elim (Option-cases t1.core_id_by_socket) [
        | inl c ↦
            let (rows, t2, e2, v2, g) = fill_table-found 0 n t1 (omega arith) v1 in
            let here : entry hwloc rows s l ≡ some (processor s l) =
              g s l hs hl ∙ ap some (cell (0 + s) s l l (omega arith) refl) in
            (
              record t2 { core_id_by_socket = some rows },
              rw (get_socket_core_id, e1, nonneg s, nonneg l, inside, c, make_table, e2, here) refl,
              record {
                loaded = v2.loaded;
                num_sockets = v2.num_sockets;
                per_socket = v2.per_socket;
                table = λ rows' same.
                    (let same' = some-injective rows rows' same in subst (Rows 0 n) same' g);
              },
            )
        | inr (rows, c) ↦
            let (t2, e2, v2, s2) = num_cores_per_socket-Kept t1 v1 in
            let here : entry hwloc rows s l ≡ some (processor s l) =
              v1.table rows c s l hs hl ∙ ap some (cell (0 + s) s l l (omega arith) refl) in
            (
              t2,
              rw
                  (
                    get_socket_core_id,
                    e1,
                    nonneg s,
                    nonneg l,
                    inside,
                    c,
                    read_table,
                    e2,
                    inside_l,
                    here,
                  )
                  refl,
              v2,
            )
      ]

  -- `topo_init` leaves the static variables so, on a machine with a core on each socket.
  pub topo_init-Kept :
      0 < k
      → ltb_ℤ hwloc.num_cores (pos 0) ≡ false
      → (t : Topology) × (topo_init hwloc ≡ some t) × Kept t
  unfolding topo_init get_num_cores
  topo_init-Kept h c =
      let t0 : Topology = record (loaded_topology hwloc) { num_cores = hwloc.num_cores } in
      let v0 : Kept t0 = record {
        loaded = refl;
        num_sockets = inl refl;
        per_socket = inl refl;
        table = λ rows e. absurd (none-some e);
      } in
      let (t1, e1, v1, s1) = num_sockets-Kept t0 v0 in
      let (t2, e2, v2, s2) = num_cores_per_socket-Kept t1 v1 in
      let (t3, e3, v3) = get_socket_core_id-Kept t2 0 0 v2 u.some_socket h in
      (t3, rw (topo_init, c, e1, e2, e3) refl, v3)
