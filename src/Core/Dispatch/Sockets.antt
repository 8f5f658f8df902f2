-- ===== src/Core/Dispatch/Sockets.antt =====
-- core_dispatch_processes (core/sabo.c): what each socket gets.
use sabo.Base.{
  ℕ, zero, suc, ◌<◌, ◌≡◌, ◌≢◌, refl, sym, ◌∙◌, ap, true, false, some, List, [], ◌∷◌, ◌++◌, map,
  length, get_elem?, set, length-set, get_elem?-set_self, get_elem?-set_ne, if◌then◌else◌, arith,
  pos, pos_part, neg_part, ◌+ℤ◌, ◌≤ℤ◌, ◌<ℤ◌, ltb_ℤ, eqb_ℤ, parts_apart, int_laws, Bool-cases, inl,
  inr,
}
use mathlib.Core.Path.{subst}
use mathlib.Core.List.{append_assoc, append-nil}
use sabo.Process.{CoreProcess}
use sabo.Core.Adjust.{SocketData}
use sabo.Core.Adjust.Rounds.{threads}
use sabo.Core.Dispatch.{
  reset_sockets, add_process, add_to_socket, sort_socket, socket_loop, dispatch_processes,
}

-- The processes of socket `s`, in their order.
abbrev pub on_socket : ℕ → List CoreProcess → List CoreProcess
on_socket s [] = []
on_socket s (p ∷ ps) = if eqb_ℤ p.socket_id (pos s) then p ∷ on_socket s ps else on_socket s ps

-- Every process has a socket of the node.
abbrev pub AllOnNode : ℕ → List CoreProcess → Type 0
AllOnNode n [] = Unit {0}
AllOnNode n (p ∷ ps) = (pos 0 ≤ℤ p.socket_id) × (p.socket_id <ℤ pos n) × AllOnNode n ps

get_elem?-some :
    {A : Type 0} (xs : List A) (i : ℕ) → i < length xs → (x : A) × (get_elem? xs i ≡ some x)
get_elem?-some [] i h = absurd (omega arith)
get_elem?-some (x ∷ xs) zero h = (x, refl)
get_elem?-some (x ∷ xs) (suc i) h = get_elem?-some xs i (omega arith)

reset_sockets-get :
    (n cores s : ℕ)
    → s < n
    → get_elem? (reset_sockets n cores) s
      ≡ some (record { num_free_cores = pos cores; processes = [] })
reset_sockets-get zero cores s h = absurd (omega arith)
reset_sockets-get (suc n) cores zero h = refl
reset_sockets-get (suc n) cores (suc s) h = reset_sockets-get n cores s (omega arith)

length-reset_sockets : (n cores : ℕ) → length (reset_sockets n cores) ≡ n
length-reset_sockets zero cores = refl
length-reset_sockets (suc n) cores = ap suc (length-reset_sockets n cores)

-- What the processes `ps` change of a socket: they are appended, and their threads taken.
record Filled (ps : List CoreProcess) (s : ℕ) (d : SocketData) (sockets' : List SocketData)
    : Type 0 where
  socket : SocketData
  found : get_elem? sockets' s ≡ some socket
  appended : socket.processes ≡ d.processes ++ on_socket s ps
  taken : socket.num_free_cores +ℤ threads (on_socket s ps) ≡ d.num_free_cores

add_to_socket-some :
    (p : CoreProcess) (sockets : List SocketData)
    → pos 0 ≤ℤ p.socket_id
    → p.socket_id <ℤ pos (length sockets)
    → (d : SocketData) × (get_elem? sockets (pos_part p.socket_id) ≡ some d)
      × (add_to_socket p sockets ≡ some (set sockets (pos_part p.socket_id) (add_process p d)))
unfolding add_to_socket
add_to_socket-some p sockets h k =
    let (d, e) =
      get_elem?-some sockets (pos_part p.socket_id) (ground (arith, parts_apart p.socket_id)) in
    let c : ltb_ℤ p.socket_id (pos 0) ≡ false = ground arith in (d, e, rw (c, e) refl)

Filled-here :
    (p : CoreProcess) (ps : List CoreProcess) (s : ℕ) (d : SocketData) (r : List SocketData)
    → eqb_ℤ p.socket_id (pos s) ≡ true
    → Filled ps s (add_process p d) r
    → Filled (p ∷ ps) s d r
unfolding threads
Filled-here p ps s d r c f = record {
  socket = f.socket;
  found = f.found;
  appended = rw c (f.appended ∙ append_assoc d.processes (p ∷ []) (on_socket s ps));
  taken = rw c (omega (int_laws, ap pos_part f.taken, ap neg_part f.taken));
}

Filled-elsewhere :
    (p : CoreProcess) (ps : List CoreProcess) (s : ℕ) (d : SocketData) (r : List SocketData)
    → eqb_ℤ p.socket_id (pos s) ≡ false
    → Filled ps s d r
    → Filled (p ∷ ps) s d r
Filled-elsewhere p ps s d r c f = record {
  socket = f.socket;
  found = f.found;
  appended = rw c f.appended;
  taken = rw c f.taken;
}

get_elem?-map :
    {A B : Type 0} (f : A → B) (xs : List A) (i : ℕ) (x : A)
    → get_elem? xs i ≡ some x
    → get_elem? (map f xs) i ≡ some (f x)
get_elem?-map f [] i x e = absurd (grind arith)
get_elem?-map f (y ∷ ys) zero x e = let e' : y ≡ x = grind arith in ap (λ z. some (f z)) e'
get_elem?-map f (y ∷ ys) (suc i) x e = get_elem?-map f ys i x e

socket_loop-Filled :
    (ps : List CoreProcess) (sockets : List SocketData) (s : ℕ) (d : SocketData)
    → AllOnNode (length sockets) ps
    → get_elem? sockets s ≡ some d
    → (sockets' : List SocketData) × (socket_loop ps sockets ≡ some sockets')
      × Filled ps s d sockets'
unfolding socket_loop threads
socket_loop-Filled [] sockets s d h e = (
  sockets,
  refl,
  record { socket = d; found = e; appended = sym (append-nil d.processes); taken = omega int_laws },
)
socket_loop-Filled (p ∷ ps) sockets s d h e =
    let k = pos_part p.socket_id in
    let (dk, ek, added) = add_to_socket-some p sockets h.0 h.1 in
    let next = set sockets k (add_process p dk) in
    let h' = subst (λ n. AllOnNode n ps) (sym (length-set sockets k (add_process p dk))) h.2 in
    elim (Bool-cases (eqb_ℤ p.socket_id (pos s))) [
      | inl c ↦
          let same : k ≡ s = ground (arith, h.0) in
          let is_d : dk ≡ d = grind (arith, same, ek, e) in
          let e' : get_elem? next s ≡ some (add_process p d) =
            subst (λ i. get_elem? next i ≡ some (add_process p d)) same
              (get_elem?-set_self sockets k (add_process p dk)
                  (ground (arith, h.0, h.1, parts_apart p.socket_id))
                ∙ ap (λ x. some (add_process p x)) is_d) in
          let (r, er, f) = socket_loop-Filled ps next s (add_process p d) h' e' in
          (r, rw (socket_loop, added) er, Filled-here p ps s d r c f)
      | inr c ↦
          let other : k ≢ s = λ i. absurd (ground (arith, h.0)) in
          let (r, er, f) =
            socket_loop-Filled ps next s d h'
              (get_elem?-set_ne sockets (add_process p dk) other ∙ e) in
          (r, rw (socket_loop, added) er, Filled-elsewhere p ps s d r c f)
    ]

-- Where every process has a socket of the node, each socket gets its processes, sorted, and as many
-- free cores as their threads leave, or miss.
pub dispatch_processes-sockets :
    (sort : List CoreProcess → List CoreProcess) (n cores s : ℕ) (ps : List CoreProcess)
    → AllOnNode n ps
    → s < n
    → (sockets : List SocketData) × (d : SocketData) × (dispatch_processes sort n cores ps
        ≡ some sockets)
      × (get_elem? sockets s ≡ some d)
      × (d.processes ≡ sort (on_socket s ps))
      × (d.num_free_cores +ℤ threads (on_socket s ps) ≡ pos cores)
unfolding dispatch_processes
dispatch_processes-sockets sort n cores s ps h k =
    let (r, e, f) =
      socket_loop-Filled ps (reset_sockets n cores) s
        (record { num_free_cores = pos cores; processes = [] })
        (subst (λ m. AllOnNode m ps) (sym (length-reset_sockets n cores)) h)
        (reset_sockets-get n cores s k) in
    (
      map (sort_socket sort) r,
      sort_socket sort f.socket,
      rw (dispatch_processes, e) refl,
      get_elem?-map (sort_socket sort) r s f.socket f.found,
      ap sort f.appended,
      f.taken,
    )
