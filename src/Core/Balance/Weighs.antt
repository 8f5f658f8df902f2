-- ===== src/Core/Balance/Weighs.antt =====
-- core/sabo.c: sums over the processes of a socket, which neither the fit of their threads to the
-- cores nor a sort changes.
use mathlib.Core.List.{Perm, foldr}
use mathlib.Core.List.Perm
use native.Mathlib.Nat.{ℕ_set}
use sabo.Base.{
  ℕ, zero, suc, ◌+◌, ◌≤◌, ◌≡◌, refl, ap, ◌∙◌, some, List, [], ◌∷◌, ◌++◌, ℤ, pos, ◌+ℤ◌, ◌-ℤ◌, ◌≤ℤ◌,
  ltb_ℤ, eqb_ℤ, false, if◌then◌else◌, arith, Bool-cases, inl, inr, Option-cases, some-injective,
  none-some, map-some, int_laws, get_elem?, pos_part, neg_part, parts_apart, eq_of_parts, sym,
}
use mathlib.Core.Path.{subst}
use sabo.Process.{CoreProcess}
use sabo.Core.Adjust.{
  SocketData, set_threads, take_round, give_round, take_loop, give_loop, adjust_list_num_threads,
  adjust_num_threads,
}
use sabo.Core.Adjust.Rounds.{
  AllAtLeast, threads, take_round-threads, give_round-threads, give_round-all,
}
use sabo.Core.Adjust.Ranges.{Absent}
use sabo.Core.Dispatch.Sockets.{on_socket}

unfoldable pub weigh : (CoreProcess → ℕ) → List CoreProcess → ℕ
weigh w ps = foldr (λ p n. w p + n) 0 ps

pub Perm-weigh :
    (w : CoreProcess → ℕ) {ps qs : List CoreProcess} → Perm ps qs → weigh w ps ≡ weigh w qs
unfolding weigh
Perm-weigh w p = Perm.foldr-eq ℕ_set (λ x n. w x + n) (λ x y n. omega arith) p 0

pub weigh-append :
    (w : CoreProcess → ℕ) (ps qs : List CoreProcess) → weigh w (ps ++ qs) ≡ weigh w ps + weigh w qs
unfolding weigh
weigh-append w [] qs = omega arith
weigh-append w (p ∷ ps) qs = let ih = weigh-append w ps qs in omega (arith, ih)

-- The processes of this rank, those that are not on the socket, those with fewer than `m` threads.
abbrev pub of_rank : ℤ → CoreProcess → ℕ
of_rank r p = if eqb_ℤ p.node_rank r then 1 else 0

abbrev pub off_socket : ℕ → CoreProcess → ℕ
off_socket s p = if eqb_ℤ p.socket_id (pos s) then 0 else 1

abbrev pub with_fewer : ℕ → CoreProcess → ℕ
with_fewer m p = if ltb_ℤ p.num_threads (pos m) then 1 else 0

pub AllAtLeast-weigh :
    (m : ℕ) (ps : List CoreProcess) → AllAtLeast m ps → weigh (with_fewer m) ps ≡ 0
unfolding weigh
AllAtLeast-weigh m [] h = refl
AllAtLeast-weigh m (p ∷ ps) h =
    let ih = AllAtLeast-weigh m ps h.1 in
    let here : ltb_ℤ p.num_threads (pos m) ≡ false = ground (arith, h.0) in
    rw here (omega (arith, ih))

pub weigh-AllAtLeast :
    (m : ℕ) (ps : List CoreProcess) → weigh (with_fewer m) ps ≡ 0 → AllAtLeast m ps
unfolding weigh
weigh-AllAtLeast m [] h = tt
weigh-AllAtLeast m (p ∷ ps) h = (ground arith, weigh-AllAtLeast m ps (ground arith))

pub weigh-Absent : (r : ℤ) (ps : List CoreProcess) → weigh (of_rank r) ps ≡ 0 → Absent r ps
unfolding weigh
weigh-Absent r [] h = tt
weigh-Absent r (p ∷ ps) h = (λ e. ground (arith, e), weigh-Absent r ps (ground arith))

pub weigh-on_socket : (s : ℕ) (ps : List CoreProcess) → weigh (off_socket s) (on_socket s ps) ≡ 0
unfolding weigh
weigh-on_socket s [] = refl
weigh-on_socket s (p ∷ ps) = elim (Bool-cases (eqb_ℤ p.socket_id (pos s))) [
  | inl e ↦ (let ih = weigh-on_socket s ps in rw (e) (rw (e) (omega (arith, ih))))
  | inr e ↦ rw (e) (weigh-on_socket s ps)
]

pub on_socket-le :
    (w : CoreProcess → ℕ) (s : ℕ) (ps : List CoreProcess) → weigh w (on_socket s ps) ≤ weigh w ps
unfolding weigh
on_socket-le w s [] = omega arith
on_socket-le w s (p ∷ ps) =
    let ih = on_socket-le w s ps in
    elim (Bool-cases (eqb_ℤ p.socket_id (pos s))) [
      | inl e ↦ rw (e) (omega (arith, ih))
      | inr e ↦ rw (e) (omega (arith, ih))
    ]

module _ (w : CoreProcess → ℕ) (same : (p : CoreProcess) (n : ℤ) → w (set_threads p n) ≡ w p) where
  take_round-weigh :
      (ps : List CoreProcess) (free : ℤ) → weigh w (take_round ps free).0 ≡ weigh w ps
  unfolding weigh take_round
  take_round-weigh [] free = refl
  take_round-weigh (p ∷ ps) free =
      let ih = take_round-weigh ps (free +ℤ pos 1) in
      let s = same p (p.num_threads -ℤ pos 1) in
      elim (Bool-cases (eqb_ℤ (pos 1) p.num_threads)) [
        | inl e ↦ rw (e) refl
        | inr e ↦ rw (e) (omega (arith, ih, s))
      ]

  give_round-weigh :
      (ps : List CoreProcess) (free : ℤ) → weigh w (give_round ps free).0 ≡ weigh w ps
  unfolding weigh give_round
  give_round-weigh [] free = refl
  give_round-weigh (p ∷ ps) free =
      let ih = give_round-weigh ps (free -ℤ pos 1) in
      let s = same p (p.num_threads +ℤ pos 1) in omega (arith, ih, s)

-- What each round keeps of the processes and the free cores of a socket, the whole fit keeps.
module _ (P : List CoreProcess → ℤ → Type 0)
    (take : (ps : List CoreProcess) (free : ℤ)
      → P ps free
      → P (take_round ps free).0 (take_round ps free).1)
    (give : (ps : List CoreProcess) (free : ℤ)
      → P ps free
      → P (give_round ps free).0 (give_round ps free).1) where
  take_loop-kept :
      (fuel : ℕ) (ps : List CoreProcess) (free : ℤ) (q : List CoreProcess × ℤ)
      → P ps free
      → take_loop fuel ps free ≡ some q
      → P q.0 q.1
  unfolding take_loop
  take_loop-kept zero ps free q h e = absurd (none-some e)
  take_loop-kept (suc fuel) ps free q h e = elim (Bool-cases (ltb_ℤ free (pos 0))) [
    | inl c ↦
        take_loop-kept fuel (take_round ps free).0 (take_round ps free).1 q (take ps free h)
          (rw c at e)
    | inr c ↦
        subst (λ (x : List CoreProcess × ℤ). P x.0 x.1) (some-injective (ps, free) q (rw c at e)) h
  ]

  give_loop-kept :
      (fuel : ℕ) (ps : List CoreProcess) (free : ℤ) (q : List CoreProcess × ℤ)
      → P ps free
      → give_loop fuel ps free ≡ some q
      → P q.0 q.1
  unfolding give_loop
  give_loop-kept zero ps free q h e = absurd (none-some e)
  give_loop-kept (suc fuel) ps free q h e = elim (Bool-cases (ltb_ℤ (pos 0) free)) [
    | inl c ↦
        give_loop-kept fuel (give_round ps free).0 (give_round ps free).1 q (give ps free h)
          (rw c at e)
    | inr c ↦
        subst (λ (x : List CoreProcess × ℤ). P x.0 x.1) (some-injective (ps, free) q (rw c at e)) h
  ]

  pub adjust_list-kept :
      (fuel : ℕ) (d r : SocketData)
      → P d.processes d.num_free_cores
      → adjust_list_num_threads fuel d ≡ some r
      → P r.processes r.num_free_cores
  unfolding adjust_list_num_threads
  adjust_list-kept fuel d r h e =
      elim (Option-cases (take_loop fuel d.processes d.num_free_cores)) [
        | inl t ↦ absurd (none-some (simp (adjust_list_num_threads, t) at e))
        | inr (q, t) ↦
            let (x, g, same_socket) =
              map-some
                (λ (y : List CoreProcess × ℤ). record { num_free_cores = y.1; processes = y.0 })
                (give_loop fuel q.0 q.1) r (simp (adjust_list_num_threads, t) at e) in
            subst (λ (d' : SocketData). P d'.processes d'.num_free_cores) same_socket
              (give_loop-kept fuel q.0 q.1 x
                (take_loop-kept fuel d.processes d.num_free_cores q h t) g)
      ]

-- A sum over what the number of the threads does not change.
pub adjust_list-weigh :
    (w : CoreProcess → ℕ) (same : (p : CoreProcess) (n : ℤ) → w (set_threads p n) ≡ w p) (fuel : ℕ)
    (d r : SocketData)
    → adjust_list_num_threads fuel d ≡ some r
    → weigh w r.processes ≡ weigh w d.processes
adjust_list-weigh w same fuel d r e =
    adjust_list-kept (λ ps free. weigh w ps ≡ weigh w d.processes)
      (λ ps free h. take_round-weigh w same ps free ∙ h)
      (λ ps free h. give_round-weigh w same ps free ∙ h) fuel d r refl e

take_round-running :
    (ps : List CoreProcess) (free : ℤ) → AllAtLeast 1 ps → AllAtLeast 1 (take_round ps free).0
unfolding take_round
take_round-running [] free h = tt
take_round-running (p ∷ ps) free h = elim (Bool-cases (eqb_ℤ (pos 1) p.num_threads)) [
  | inl e ↦ rw e h
  | inr e ↦
      let more : pos 2 ≤ℤ p.num_threads = ground (arith, e, h.0) in
      rw e (omega (int_laws, more), take_round-running ps (free +ℤ pos 1) h.1)
]

-- No process is left without a thread.
pub adjust_list-running :
    (fuel : ℕ) (d r : SocketData)
    → AllAtLeast 1 d.processes
    → adjust_list_num_threads fuel d ≡ some r
    → AllAtLeast 1 r.processes
adjust_list-running =
    adjust_list-kept (λ ps free. AllAtLeast 1 ps) take_round-running
      (λ ps free h. (give_round-all 1 ps free h).1)

-- The threads and the free cores stay the same together.
pub adjust_list-conserved :
    (fuel : ℕ) (d r : SocketData)
    → adjust_list_num_threads fuel d ≡ some r
    → r.num_free_cores +ℤ threads r.processes ≡ d.num_free_cores +ℤ threads d.processes
adjust_list-conserved fuel d r e =
    adjust_list-kept (λ ps free. free +ℤ threads ps ≡ d.num_free_cores +ℤ threads d.processes)
      (λ ps free h. take_round-threads ps free ∙ h) (λ ps free h. give_round-threads ps free ∙ h)
      fuel d r refl e

-- The threads as a sum over ℕ.
pub threads-weigh :
    (ps : List CoreProcess)
    → AllAtLeast 1 ps
    → threads ps ≡ pos (weigh (λ p. pos_part p.num_threads) ps)
unfolding threads weigh
threads-weigh [] h = refl
threads-weigh (p ∷ ps) h =
    let ih = threads-weigh ps h.1 in
    let low = h.0 in
    eq_of_parts (p.num_threads +ℤ threads ps)
      (pos (pos_part p.num_threads + weigh (λ q. pos_part q.num_threads) ps))
      (omega (int_laws, low, parts_apart p.num_threads, ap pos_part ih, ap neg_part ih))

pub Perm-threads :
    {ps qs : List CoreProcess}
    → Perm ps qs
    → AllAtLeast 1 ps
    → AllAtLeast 1 qs
    → threads ps ≡ threads qs
Perm-threads {ps} {qs} perm h k =
    threads-weigh ps h
    ∙ ap pos (Perm-weigh (λ p. pos_part p.num_threads) perm)
    ∙ sym (threads-weigh qs k)

adjust_num_threads-cons :
    (fuel : ℕ) (x : SocketData) (ds rs : List SocketData)
    → adjust_num_threads fuel (x ∷ ds) ≡ some rs
    → (y : SocketData) × (ys : List SocketData) × (adjust_list_num_threads fuel x ≡ some y)
      × (adjust_num_threads fuel ds ≡ some ys)
      × (y ∷ ys ≡ rs)
unfolding adjust_num_threads
adjust_num_threads-cons fuel x ds rs e = elim (Option-cases (adjust_list_num_threads fuel x)) [
  | inl t ↦ absurd (none-some (simp (adjust_num_threads, t) at e))
  | inr (y, t) ↦
      let (ys, u, same) =
        map-some (λ ds'. y ∷ ds') (adjust_num_threads fuel ds) rs
          (simp (adjust_num_threads, t) at e) in
      (y, ys, t, u, same)
]

-- The fit of the sockets is the fit of each.
pub adjust_num_threads-get :
    (fuel s : ℕ) (ds rs : List SocketData) (d r : SocketData)
    → adjust_num_threads fuel ds ≡ some rs
    → get_elem? ds s ≡ some d
    → get_elem? rs s ≡ some r
    → adjust_list_num_threads fuel d ≡ some r
adjust_num_threads-get fuel s [] rs d r e f g = absurd (none-some f)
adjust_num_threads-get fuel zero (x ∷ ds) rs d r e f g =
    let (y, ys, t, u, same) = adjust_num_threads-cons fuel x ds rs e in
    let head : some y ≡ some r = ap (λ zs. get_elem? zs 0) same ∙ g in
    subst (λ z. adjust_list_num_threads fuel z ≡ some r) (some-injective x d f) (t ∙ head)
adjust_num_threads-get fuel (suc k) (x ∷ ds) rs d r e f g =
    let (y, ys, t, u, same) = adjust_num_threads-cons fuel x ds rs e in
    adjust_num_threads-get fuel k ds ys d r u f (ap (λ zs. get_elem? zs (suc k)) same ∙ g)
