-- ===== src/IntelBinding/Masks.antt =====
-- intel/intel_binding.c: the processors in the mask of a thread.
use sabo.Base.{
  ℕ, zero, suc, ◌+◌, ◌≤◌, ◌<◌, ◌≡◌, ◌≢◌, refl, sym, ap, ◌∙◌, true, false, Option, none, some,
  if◌then◌else◌, ◌==◌, leb, pos, negsuc, eqb_ℤ, arith, Bool-cases, inl, inr, List, [], ◌∷◌,
}
use mathlib.Core.Path.{subst}
use native.Mathlib.Decide.{ℕ_discrete, dec_lt}
use sabo.IntelBinding.{
  Kmp, kmp, IntelData, search_loop, intel_get_thread_affinity, intel_set_thread_affinity,
}

-- What the runtime documents of masks, for the processors of the machine.
pub record KmpLaws {M : Type 0} (rt : Kmp M) : Type 0 where
  pub get-create : (i : ℕ) → i < rt.max_proc → rt.get_proc (pos i) rt.create ≡ false
  pub get-set :
      (i j : ℕ) (m : M)
      → i < rt.max_proc
      → j < rt.max_proc
      → rt.get_proc (pos i) (rt.set_proc (pos j) m)
        ≡ (if i == j then true else rt.get_proc (pos i) m)
  pub get-unset :
      (i j : ℕ) (m : M)
      → i < rt.max_proc
      → j < rt.max_proc
      → rt.get_proc (pos i) (rt.unset_proc (pos j) m)
        ≡ (if i == j then false else rt.get_proc (pos i) m)

module _ {M : Type 0} (rt : Kmp M) (laws : KmpLaws rt) where
  -- With a current core, the loop takes every processor from `i` on out of the mask.
  search_loop-known :
      (i n c j : ℕ) (m : M)
      → i + n ≡ rt.max_proc
      → j < rt.max_proc
      → let r = search_loop rt i n (pos c) m in
        (r.0 ≡ pos c)
        × (rt.get_proc (pos j) r.1 ≡ (if leb i j then false else rt.get_proc (pos j) m))
  unfolding search_loop
  search_loop-known i zero c j m e b = (refl, ground arith)
  search_loop-known i (suc n) c j m e b = elim (Bool-cases (rt.get_proc (pos i) m)) [
    | inl h ↦
        let (same, got) =
          search_loop-known (i + 1) n c j (rt.unset_proc (pos i) m) (omega arith) b in
        let out = laws.get-unset j i m b (omega arith) in
        let set_here : eqb_ℤ (negsuc 0) (pos c) ≡ false = ground arith in
        simp (search_loop, h, set_here) (same, got ∙ ground (arith, out))
    | inr h ↦
        let (same, got) = search_loop-known (i + 1) n c j m (omega arith) b in
        simp (search_loop, h)
          (
            same,
            got ∙ (elim (ℕ_discrete i j) [
              | yes e' ↦
                  (let h' = subst (λ t. rt.get_proc (pos t) m ≡ false) e' h in ground (arith, h'))
              | no e' ↦ ground arith
            ]),
          )
  ]

  lowest_only :
      (i c j : ℕ) (m : M)
      → i ≡ c
      → rt.get_proc (pos c) m ≡ true
      → ((l : ℕ) → l < c → rt.get_proc (pos l) m ≡ false)
      → (if leb (i + 1) j then false else rt.get_proc (pos j) m) ≡ (j == c)
  lowest_only i c j m e here below = elim (dec_lt j c) [
    | yes b ↦ (let gone = below j b in ground (arith, gone))
    | no b ↦ elim (ℕ_discrete c j) [
      | yes same ↦
          (let at_j = subst (λ t. rt.get_proc (pos t) m ≡ true) same here in ground (arith, at_j))
      | no other ↦ ground arith
    ]
  ]

  -- Without one, the lowest processor of the mask becomes the current core, and those above it go.
  search_loop-unknown :
      (i n c j : ℕ) (m : M)
      → i + n ≡ rt.max_proc
      → i ≤ c
      → c < rt.max_proc
      → j < rt.max_proc
      → rt.get_proc (pos c) m ≡ true
      → ((l : ℕ) → l < c → rt.get_proc (pos l) m ≡ false)
      → let r = search_loop rt i n (negsuc 0) m in
        (r.0 ≡ pos c) × (rt.get_proc (pos j) r.1 ≡ (j == c))
  unfolding search_loop
  search_loop-unknown i zero c j m e low cb jb here below = absurd (omega arith)
  search_loop-unknown i (suc n) c j m e low cb jb here below = elim (ℕ_discrete i c) [
    | no e' ↦
        let skip = below i (omega arith) in
        simp (search_loop, skip)
          (search_loop-unknown (i + 1) n c j m (omega arith) (omega arith) cb jb here below)
    | yes e' ↦
        let found : rt.get_proc (pos i) m ≡ true =
          subst (λ t. rt.get_proc (pos t) m ≡ true) (sym e') here in
        let (same, got) = search_loop-known (i + 1) n i j m (omega arith) jb in
        simp (search_loop, found) (same ∙ ap pos e', got ∙ lowest_only i c j m e' here below)
  ]

  -- The thread is on the processor `c`, and its mask has no other.
  pub record On (c : ℕ) (d : IntelData M) : Type 0 where
    pub cur : d.cur_core_id ≡ pos c
    pub held : M
    pub mask : d.mask ≡ some (kmp held)
    pub only : (j : ℕ) → j < rt.max_proc → rt.get_proc (pos j) held ≡ (j == c)

  get_thread_affinity-On :
      (d : IntelData M) (m : M) (c : ℕ)
      → d.mask ≡ some (kmp m)
      → d.cur_core_id ≡ negsuc 0
      → c < rt.max_proc
      → rt.get_proc (pos c) d.affinity ≡ true
      → ((l : ℕ) → l < c → rt.get_proc (pos l) d.affinity ≡ false)
      → (d' : IntelData M) × (intel_get_thread_affinity rt d ≡ some d') × On c d'
  unfolding intel_get_thread_affinity
  get_thread_affinity-On d m c e cur b here below =
      let r = search_loop rt 0 rt.max_proc (negsuc 0) d.affinity in
      let found =
        search_loop-unknown 0 rt.max_proc c c d.affinity (omega arith) (omega arith) b b here
          below in
      (
        record d { cur_core_id = r.0; mask = some (kmp r.1) },
        simp (intel_get_thread_affinity, e, cur) refl,
        record {
          cur = found.0;
          held = r.1;
          mask = refl;
          only = λ j jb.
              (search_loop-unknown 0 rt.max_proc c j d.affinity (omega arith) (omega arith) b jb
                here below).1;
        },
      )

  set_thread_affinity-On :
      (d : IntelData M) (c k : ℕ)
      → On c d
      → c < rt.max_proc
      → k < rt.max_proc
      → d.new_core_id ≡ pos k
      → ((m : M) → rt.set_affinity_rc m ≡ pos 0)
      → (d' : IntelData M) × (v' : On k d') × (intel_set_thread_affinity rt d ≡ some d')
        × (d'.affinity ≡ v'.held)
  unfolding intel_set_thread_affinity
  set_thread_affinity-On d c k v cb kb new accepts =
      let m' = rt.set_proc (pos k) (rt.unset_proc (pos c) v.held) in
      (
        record d {
          cur_core_id = pos k;
          mask = some (kmp m');
          affinity = if eqb_ℤ (pos 0) (rt.set_affinity_rc m') then m' else d.affinity;
        },
        record {
          cur = refl;
          held = m';
          mask = refl;
          only = λ j jb. ground (
            arith,
            laws.get-set j k (rt.unset_proc (pos c) v.held) jb kb,
            laws.get-unset j c v.held jb cb,
            v.only j jb,
          );
        },
        simp (intel_set_thread_affinity, v.mask, v.cur, new) refl,
        (let ok = accepts m' in ground (arith, ok)),
      )

  -- The thread is sent to the processors of the list, in this order.
  unfoldable pub send : List ℕ → IntelData M → Option (IntelData M)
  send [] d = some d
  send (k ∷ ks) d = elim (intel_set_thread_affinity rt (record d { new_core_id = pos k })) [
    | none ↦ none
    | some d' ↦ send ks d'
  ]

  abbrev pub last : ℕ → List ℕ → ℕ
  last c [] = c
  last c (k ∷ ks) = last k ks

  abbrev pub Processors : List ℕ → Type 0
  Processors [] = Unit
  Processors (k ∷ ks) = (k < rt.max_proc) × Processors ks

  send-cons :
      (k : ℕ) (ks : List ℕ) (d d1 : IntelData M)
      → intel_set_thread_affinity rt (record d { new_core_id = pos k }) ≡ some d1
      → send (k ∷ ks) d ≡ send ks d1
  unfolding send
  send-cons k ks d d1 e = simp (send, e) refl

  send-On :
      (ks : List ℕ) (d : IntelData M) (c : ℕ)
      → On c d
      → c < rt.max_proc
      → Processors ks
      → ((m : M) → rt.set_affinity_rc m ≡ pos 0)
      → (d' : IntelData M) × (v' : On (last c ks) d') × (send ks d ≡ some d')
        × (ks ≢ [] → d'.affinity ≡ v'.held)
  unfolding send
  send-On [] d c v cb h accepts = (d, v, refl, λ some_core. absurd (some_core refl))
  send-On (k ∷ []) d c v cb h accepts =
      let d0 : IntelData M = record d { new_core_id = pos k } in
      let v0 : On c d0 = record { cur = v.cur; held = v.held; mask = v.mask; only = v.only } in
      let (d1, v1, e, a) = set_thread_affinity-On d0 c k v0 cb h.0 refl accepts in
      (d1, v1, simp (send, e) refl, λ _. a)
  send-On (k ∷ l ∷ ks) d c v cb h accepts =
      let d0 : IntelData M = record d { new_core_id = pos k } in
      let v0 : On c d0 = record { cur = v.cur; held = v.held; mask = v.mask; only = v.only } in
      let (d1, v1, e, _) = set_thread_affinity-On d0 c k v0 cb h.0 refl accepts in
      let (d2, v2, e', a) = send-On (l ∷ ks) d1 k v1 h.0 h.1 accepts in
      (d2, v2, send-cons k (l ∷ ks) d d1 e ∙ e', λ _. a (λ q. cc))

  -- A thread whose data has a mask of the Intel runtime and no current core, and whose own mask has
  -- the lowest processor `c`, is read as being on `c`; sent to one or more processors after that, where
  -- the runtime refuses none, it is on the last of them. In both cases the mask of its data has this
  -- processor and no other, and in the end this is its own mask too.
  pub read_and_send-On :
      (d : IntelData M) (m : M) (c k : ℕ) (ks : List ℕ)
      → d.mask ≡ some (kmp m)
      → d.cur_core_id ≡ negsuc 0
      → c < rt.max_proc
      → rt.get_proc (pos c) d.affinity ≡ true
      → ((l : ℕ) → l < c → rt.get_proc (pos l) d.affinity ≡ false)
      → Processors (k ∷ ks)
      → ((m : M) → rt.set_affinity_rc m ≡ pos 0)
      → (d1 : IntelData M) × (d2 : IntelData M) × (v2 : On (last k ks) d2)
        × (intel_get_thread_affinity rt d ≡ some d1)
        × On c d1
        × (send (k ∷ ks) d1 ≡ some d2)
        × (d2.affinity ≡ v2.held)
  read_and_send-On d m c k ks e cur b here below h accepts =
      let (d1, e1, v1) = get_thread_affinity-On d m c e cur b here below in
      let (d2, v2, e2, a) = send-On (k ∷ ks) d1 c v1 b h accepts in
      (d1, d2, v2, e1, v1, e2, a (λ q. cc))

  -- Reading a thread that has a current core already leaves no processor in the mask of its data.
  pub get_thread_affinity-empties :
      (d : IntelData M) (c : ℕ)
      → On c d
      → c < rt.max_proc
      → (d' : IntelData M) × (m' : M) × (intel_get_thread_affinity rt d ≡ some d')
        × (d'.cur_core_id ≡ pos c)
        × (d'.mask ≡ some (kmp m'))
        × ((j : ℕ) → j < rt.max_proc → rt.get_proc (pos j) m' ≡ false)
  unfolding intel_get_thread_affinity
  get_thread_affinity-empties d c v cb =
      let r = search_loop rt 0 rt.max_proc (pos c) d.affinity in
      (
        record d { cur_core_id = r.0; mask = some (kmp r.1) },
        r.1,
        simp (intel_get_thread_affinity, v.mask, v.cur) refl,
        (search_loop-known 0 rt.max_proc c c d.affinity (omega arith) cb).0,
        refl,
        λ j b. (search_loop-known 0 rt.max_proc c j d.affinity (omega arith) b).1 ∙ ground arith,
      )
