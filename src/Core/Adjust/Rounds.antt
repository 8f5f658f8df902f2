-- ===== src/Core/Adjust/Rounds.antt =====
-- One round of each loop of `core_adjust_list_num_threads`.
use sabo.Base.{
  ℕ, suc, ◌≡◌, refl, ◌∙◌, ap, List, [], ◌∷◌, arith, length, ℤ, pos, pos_part, neg_part, ◌+ℤ◌, ◌-ℤ◌,
  ◌≤ℤ◌, int_laws, Bool-cases, inl, inr, eqb_ℤ, false,
}
use sabo.Process.{CoreProcess}
use sabo.Core.Adjust.{take_round, give_round}

unfoldable pub threads : List CoreProcess → ℤ
threads [] = pos 0
threads (p ∷ ps) = p.num_threads +ℤ threads ps

-- Every process has at least `m` threads.
abbrev pub AllAtLeast : ℕ → List CoreProcess → Type 0
AllAtLeast m [] = Unit {0}
AllAtLeast m (p ∷ ps) = (pos m ≤ℤ p.num_threads) × AllAtLeast m ps

pub take_round-threads :
    (ps : List CoreProcess) (free : ℤ)
    → (take_round ps free).1 +ℤ threads (take_round ps free).0 ≡ free +ℤ threads ps
unfolding take_round threads
take_round-threads [] free = refl
take_round-threads (p ∷ ps) free = elim (Bool-cases (eqb_ℤ (pos 1) p.num_threads)) [
  | inl e ↦ rw e
  | inr e ↦
      let ih = take_round-threads ps (free +ℤ pos 1) in
      rw e (omega (int_laws, ap pos_part ih, ap neg_part ih))
]

pub give_round-threads :
    (ps : List CoreProcess) (free : ℤ)
    → (give_round ps free).1 +ℤ threads (give_round ps free).0 ≡ free +ℤ threads ps
unfolding give_round threads
give_round-threads [] free = refl
give_round-threads (p ∷ ps) free =
    let ih = give_round-threads ps (free -ℤ pos 1) in
    omega (int_laws, ap pos_part ih, ap neg_part ih)

-- With two threads or more each, every process of the round gives one.
pub take_round-all :
    (m : ℕ) (ps : List CoreProcess) (free : ℤ)
    → AllAtLeast (suc (suc m)) ps
    → (length (take_round ps free).0 ≡ length ps)
      × AllAtLeast (suc m) (take_round ps free).0
      × ((take_round ps free).1 ≡ free +ℤ pos (length ps))
unfolding take_round
take_round-all m [] free h = (refl, tt, omega int_laws)
take_round-all m (p ∷ ps) free h =
    let (l, a, e) = take_round-all m ps (free +ℤ pos 1) h.1 in
    let more : eqb_ℤ (pos 1) p.num_threads ≡ false = ground arith in
    rw more (omega arith, (omega (int_laws, h.0), a), e ∙ omega int_laws)

pub give_round-all :
    (m : ℕ) (ps : List CoreProcess) (free : ℤ)
    → AllAtLeast m ps
    → (length (give_round ps free).0 ≡ length ps)
      × AllAtLeast m (give_round ps free).0
      × ((give_round ps free).1 +ℤ pos (length ps) ≡ free)
unfolding give_round
give_round-all m [] free h = (refl, tt, omega int_laws)
give_round-all m (p ∷ ps) free h =
    let (l, a, e) = give_round-all m ps (free -ℤ pos 1) h.1 in
    (omega arith, (omega (int_laws, h.0), a), omega (int_laws, ap pos_part e, ap neg_part e))
