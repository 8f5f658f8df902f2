-- ===== src/Core/Adjust/Fit.antt =====
-- core_adjust_list_num_threads (core/sabo.c): the two loops, from their first round to their end.
use sabo.Base.{
  ℕ, zero, suc, ◌+◌, ◌*◌, ◌<◌, ◌≤◌, ◌≡◌, refl, ◌∙◌, ap, List, [], ◌∷◌, arith, length, some, ℤ, pos,
  pos_part, neg_part, ◌+ℤ◌, +ℤ_parts, int_laws, Bool-cases, inl, inr, ltb_ℤ, false, ltb_ℤ→lt,
  parts_apart,
}
use sabo.Process.{CoreProcess}
use sabo.Core.Adjust.{take_round, give_round, take_loop, give_loop}
use sabo.Core.Adjust.Rounds.{AllAtLeast, take_round-all, give_round-all}

-- The end of the first loop: no core is missing, and fewer than one for each process are free.
pub record Taken (ps : List CoreProcess) (free : ℤ) (r : List CoreProcess × ℤ) : Type 0 where
  pub size : length r.0 ≡ length ps
  pub least : AllAtLeast 1 r.0
  pub nonneg : neg_part r.1 ≡ 0
  pub small : pos_part r.1 < length ps
  pub rounds : ℕ
  pub total : pos_part r.1 + neg_part free ≡ rounds * length ps + pos_part free

pub record Given (m : ℕ) (ps : List CoreProcess) (free : ℤ) (r : List CoreProcess × ℤ)
    : Type 0 where
  pub size : length r.0 ≡ length ps
  pub least : AllAtLeast m r.0
  pub nonpos : pos_part r.1 ≡ 0
  pub small : neg_part r.1 < length ps
  pub rounds : ℕ
  pub total : neg_part r.1 + pos_part free ≡ rounds * length ps + neg_part free

pub AllAtLeast-le : (m k : ℕ) (ps : List CoreProcess) → m ≤ k → AllAtLeast k ps → AllAtLeast m ps
AllAtLeast-le m k [] h a = tt
AllAtLeast-le m k (p ∷ ps) h a = (omega (arith, a.0), AllAtLeast-le m k ps h a.1)

-- A loop that stops at once.
pub take_loop-stop :
    (fuel m : ℕ) (ps : List CoreProcess) (free : ℤ)
    → AllAtLeast (suc m) ps
    → pos_part free < length ps
    → ltb_ℤ free (pos 0) ≡ false
    → (r : List CoreProcess × ℤ) × (take_loop (suc fuel) ps free ≡ some r) × Taken ps free r
unfolding take_loop
take_loop-stop fuel m ps free a p e = (
  (ps, free),
  rw e,
  record {
    size = refl;
    least = AllAtLeast-le 1 (suc m) ps (omega arith) a;
    nonneg = ground arith;
    small = p;
    rounds = 0;
    total = ground arith;
  },
)

Taken-more :
    (m : ℕ) (ps : List CoreProcess) (free : ℤ) (r : List CoreProcess × ℤ)
    → AllAtLeast (suc (suc m)) ps
    → Taken (take_round ps free).0 (take_round ps free).1 r
    → Taken ps free r
Taken-more m ps free r a t =
    let (l, a', e) = take_round-all m ps free a in
    record {
      size = t.size ∙ l;
      least = t.least;
      nonneg = t.nonneg;
      small = omega (arith, t.small);
      rounds = t.rounds + 1;
      total = let s = rw (e, l) at t.total in omega (int_laws, s);
    }

pub take_loop-Taken :
    (fuel m : ℕ) (ps : List CoreProcess) (free : ℤ)
    → m < fuel
    → AllAtLeast (suc m) ps
    → pos_part free < length ps
    → neg_part free ≤ m * length ps
    → (r : List CoreProcess × ℤ) × (take_loop fuel ps free ≡ some r) × Taken ps free r
unfolding take_loop
take_loop-Taken zero m ps free f a p n = absurd (omega arith)
take_loop-Taken (suc fuel) zero ps free f a p n = take_loop-stop fuel 0 ps free a p (ground arith)
take_loop-Taken (suc fuel) (suc m) ps free f a p n = elim (Bool-cases (ltb_ℤ free (pos 0))) [
  | inl e ↦
      let (l, a', e') = take_round-all m ps free a in
      let neg = ltb_ℤ→lt free (pos 0) e in
      let zero_pos : pos_part free ≡ 0 = ground arith in
      let (r, er, t) =
        take_loop-Taken fuel m (take_round ps free).0 (take_round ps free).1 (omega arith) a'
          (rw (e', l)
            (ground
              (arith, +ℤ_parts free (pos (length ps)), parts_apart (free +ℤ pos (length ps)))))
          (rw (e', l)
            (ground
              (arith, +ℤ_parts free (pos (length ps)), parts_apart (free +ℤ pos (length ps))))) in
      (r, rw e er, Taken-more m ps free r a t)
  | inr e ↦ take_loop-stop fuel (suc m) ps free a p e
]

Given-more :
    (m : ℕ) (ps : List CoreProcess) (free : ℤ) (r : List CoreProcess × ℤ)
    → AllAtLeast m ps
    → Given m (give_round ps free).0 (give_round ps free).1 r
    → Given m ps free r
Given-more m ps free r a t =
    let (l, a', e) = give_round-all m ps free a in
    record {
      size = t.size ∙ l;
      least = t.least;
      nonpos = t.nonpos;
      small = omega (arith, t.small);
      rounds = t.rounds + 1;
      total = let s = rw l at t.total in omega (int_laws, s, ap pos_part e, ap neg_part e);
    }

pub give_loop-Given :
    (fuel m : ℕ) (ps : List CoreProcess) (free : ℤ)
    → pos_part free < fuel
    → AllAtLeast m ps
    → neg_part free < length ps
    → (r : List CoreProcess × ℤ) × (give_loop fuel ps free ≡ some r) × Given m ps free r
unfolding give_loop
give_loop-Given zero m ps free f a n = absurd (omega arith)
give_loop-Given (suc fuel) m ps free f a n = elim (Bool-cases (ltb_ℤ (pos 0) free)) [
  | inl e ↦
      let (l, a', e') = give_round-all m ps free a in
      let zero_neg : neg_part free ≡ 0 = ground arith in
      let (r, er, t) =
        give_loop-Given fuel m (give_round ps free).0 (give_round ps free).1
          (ground (
            arith,
            ap pos_part e',
            ap neg_part e',
            +ℤ_parts (give_round ps free).1 (pos (length ps)),
            parts_apart (give_round ps free).1,
          ))
          a'
          (ground (
            arith,
            ap pos_part e',
            ap neg_part e',
            +ℤ_parts (give_round ps free).1 (pos (length ps)),
            parts_apart (give_round ps free).1,
          )) in
      (r, rw e er, Given-more m ps free r a t)
  | inr e ↦ (
    (ps, free),
    rw e,
    record {
      size = refl;
      least = a;
      nonpos = ground arith;
      small = n;
      rounds = 0;
      total = ground arith;
    },
  )
]
