-- ===== src/Communication/Buffers.antt =====
-- common/comm.c: the lengths of the buffers, and what a gather writes over.
use sabo.Base.{
  ℕ, zero, suc, ◌*◌, ◌<◌, ◌≤◌, ◌≡◌, refl, ap, sym, true, false, none, some, List, [], ◌∷◌, ◌++◌,
  length, drop, ltb, arith,
}
use native.Mathlib.Nat.{mul-le-mul_right}
use sabo.Communication.{zeroed, overwrite}

drop-all : {D : Type 0} (m : ℕ) (xs : List D) → length xs ≡ m → drop m xs ≡ []
drop-all zero [] e = refl
drop-all zero (x ∷ xs) e = absurd (omega (arith, e))
drop-all (suc m) [] e = refl
drop-all (suc m) (x ∷ xs) e = drop-all m xs (omega (arith, e))

append-nil : {D : Type 0} (xs : List D) → xs ++ [] ≡ xs
append-nil [] = refl
append-nil (x ∷ xs) = ap (λ ys. x ∷ ys) (append-nil xs)

pub length-zeroed : {D : Type 0} (z : D) (m : ℕ) → length (zeroed z m) ≡ m
unfolding zeroed
length-zeroed z zero = refl
length-zeroed z (suc m) = ap suc (length-zeroed z m)

pub less : (n w : ℕ) → 2 ≤ n → 0 < w → w < n * w
less n w two h = omega (arith, mul-le-mul_right w two)

pub overwrite-whole :
    {D : Type 0} (sent buffer : List D)
    → length sent ≡ length buffer
    → overwrite sent buffer ≡ some sent
unfolding overwrite
overwrite-whole sent buffer e =
    let fits : ltb (length buffer) (length sent) ≡ false = ground (arith, e) in
    let rest : drop (length sent) buffer ≡ [] = drop-all (length sent) buffer (sym e) in
    simp (overwrite, fits, rest, append-nil sent) refl

pub overwrite-short :
    {D : Type 0} (sent buffer : List D) → length buffer < length sent → overwrite sent buffer ≡ none
unfolding overwrite
overwrite-short sent buffer h =
    let short : ltb (length buffer) (length sent) ≡ true = ground (arith, h) in
    simp (overwrite, short) refl
