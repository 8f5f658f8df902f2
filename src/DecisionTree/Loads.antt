-- ===== src/DecisionTree/Loads.antt =====
-- The abstract view of the search of common/decision_tree.c: the norm and the free cores that a
-- sequence of placements gives, and the exchange of two sockets.
use mathlib.Core.Path.{fun_ext}
use sabo.Base.{
  ℕ, ◌+◌, ◌<◌, ◌≡◌, refl, ◌≢◌, ◌⊎◌, List, [], ◌∷◌, map, arith, ◌==◌, if◌then◌else◌, ℤ, pos,
  neg_part, pos_part, ◌-ℤ◌, ◌+ℤ◌, ◌≤ℤ◌,
}
use sabo.DecisionTree.{int_min, next_norme, update}

pub record Loads : Type 0 where
  pub norme : ℤ
  pub free : ℕ → ℤ

-- `t` threads on socket `s`.
unfoldable pub put : Loads → ℕ → ℕ → Loads
put l s t =
    let f = l.free s -ℤ pos t in record { norme = next_norme l.norme f; free = update l.free s f }

-- The thread counts in order of placement, and the socket of each.
unfoldable pub final : Loads → List ℕ → List ℕ → Loads
final l (t ∷ ts) (s ∷ ss) = final (put l s t) ts ss
final l _ _ = l

-- A placement of every process, each on one of `n` sockets that is not yet overloaded.
abbrev pub Admits : ℕ → Loads → List ℕ → List ℕ → Type 0
Admits n l [] [] = Unit {0}
Admits n l (t ∷ ts) (s ∷ ss) = (s < n) × (pos 0 ≤ℤ l.free s) × Admits n (put l s t) ts ss
Admits n l [] (s ∷ ss) = ⊥
Admits n l (t ∷ ts) [] = ⊥

abbrev pub sum : List ℕ → ℕ
sum [] = 0
sum (t ∷ ts) = t + sum ts

-- The norm is unset, or cannot reach `INT_MIN` by what is left.
abbrev pub InRange : Loads → List ℕ → Type 0
InRange l ts =
    (sum ts < 2_147_483_648)
    × ((l.norme ≡ int_min) ⊎ ((pos_part l.norme ≡ 0) × (neg_part l.norme + sum ts < 2_147_483_648)))

pub put-InRange :
    (l : Loads) (s t : ℕ) (ts : List ℕ)
    → pos 0 ≤ℤ l.free s
    → InRange l (t ∷ ts)
    → InRange (put l s t) ts
unfolding put next_norme ◌-ℤ◌ ◌+ℤ◌
put-InRange l s t ts f r = ground arith

-- Exchanges socket 0 and socket `a`.
abbrev pub swap : ℕ → ℕ → ℕ
swap a s = if s == 0 then a else if s == a then 0 else s

swap-swap : (a s : ℕ) → swap a (swap a s) ≡ s
swap-swap a s = ground arith

abbrev rename : ℕ → Loads → Loads
rename a l = record l { free = λ s. l.free (swap a s) }

update-swap :
    (a s q : ℕ) (free : ℕ → ℤ) (f : ℤ)
    → update (λ u. free (swap a u)) (swap a s) f q ≡ update free s f (swap a q)
update-swap a s q free f = ground arith

put-rename : (a : ℕ) (l : Loads) (s t : ℕ) → put (rename a l) (swap a s) t ≡ rename a (put l s t)
unfolding put
put-rename a l s t = rw (swap-swap a s) λ i. record {
  norme = next_norme l.norme (l.free s -ℤ pos t);
  free =
      fun_ext {f = λ q. update (λ u. l.free (swap a u)) (swap a s) (l.free s -ℤ pos t) q}
        (λ q. update-swap a s q l.free (l.free s -ℤ pos t)) i;
}

pub final-rename :
    (a : ℕ) (l : Loads) (ts ss : List ℕ)
    → final (rename a l) ts (map (swap a) ss) ≡ rename a (final l ts ss)
unfolding final
final-rename a l [] [] = refl
final-rename a l [] (s ∷ ss) = refl
final-rename a l (t ∷ ts) [] = refl
final-rename a l (t ∷ ts) (s ∷ ss) = rw (put-rename a l s t) (final-rename a (put l s t) ts ss)

pub Admits-rename :
    (n a : ℕ) (l : Loads) (ts ss : List ℕ)
    → a < n
    → Admits n l ts ss
    → Admits n (rename a l) ts (map (swap a) ss)
Admits-rename n a l [] [] h p = tt
Admits-rename n a l [] (s ∷ ss) h p = p
Admits-rename n a l (t ∷ ts) [] h p = p
Admits-rename n a l (t ∷ ts) (s ∷ ss) h p = (
  ground arith,
  rw (swap-swap a s) p.1,
  rw (put-rename a l s t) (Admits-rename n a (put l s t) ts ss h p.2),
)

put-falls :
    (l : Loads) (s t : ℕ) (ts : List ℕ)
    → pos 0 ≤ℤ l.free s
    → InRange l (t ∷ ts)
    → l.norme ≢ int_min
    → ((put l s t).norme ≢ int_min) × ((put l s t).norme ≤ℤ l.norme)
unfolding put next_norme ◌-ℤ◌ ◌+ℤ◌
put-falls l s t ts f r h = ground arith

-- A norm that is set never rises.
pub norme-final :
    (n : ℕ) (l : Loads) (ts ss : List ℕ)
    → Admits n l ts ss
    → InRange l ts
    → l.norme ≢ int_min
    → (final l ts ss).norme ≤ℤ l.norme
unfolding final
norme-final n l [] [] p r h = omega arith
norme-final n l [] (s ∷ ss) p r h = absurd p
norme-final n l (t ∷ ts) [] p r h = absurd p
norme-final n l (t ∷ ts) (s ∷ ss) p r h = ground (
  arith,
  put-falls l s t ts p.1 r h,
  norme-final n (put l s t) ts ss p.2 (put-InRange l s t ts p.1 r),
)
