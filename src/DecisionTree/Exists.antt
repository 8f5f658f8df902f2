-- ===== src/DecisionTree/Exists.antt =====
-- Placements of every process where the threads are no more than the cores.
use sabo.Base.{
  ℕ, zero, suc, ◌+◌, ◌<◌, ◌≤◌, ◌≡◌, refl, List, [], ◌∷◌, map, arith, ℤ, pos_part, neg_part, inl,
  inr, ltb, Bool-cases,
}
use sabo.DecisionTree.Loads.{Loads, put, final, Admits, InRange, put-InRange, sum}
use sabo.DecisionTree.Norm.{overflow, spare, put-cores}
use sabo.DecisionTree.Optimal.{last}

abbrev pub AllPositive : List ℕ → Type 0
AllPositive [] = Unit {0}
AllPositive (t ∷ ts) = (0 < t) × AllPositive ts

free_socket :
    (n : ℕ) (free : ℕ → ℤ) → 0 < spare n free → (s : ℕ) × (s < n) × (neg_part (free s) ≡ 0)
unfolding spare
free_socket zero free h = absurd (omega arith)
free_socket (suc n) free h = elim (Bool-cases (ltb 0 (pos_part (free n)))) [
  | inl e ↦ (n, omega arith, ground arith)
  | inr e ↦ let (s, p, q) = free_socket n free (ground arith) in (s, omega (arith, p), q)
]

pub Admits-exists :
    (n : ℕ) (l : Loads) (ts : List ℕ)
    → AllPositive ts
    → overflow n l.free + sum ts ≤ spare n l.free
    → (ss : List ℕ) × Admits n l ts ss
Admits-exists n l [] p h = ([], tt)
Admits-exists n l (t ∷ ts) p h =
    let (s, q, f) = free_socket n l.free (omega (arith, p.0)) in
    let (ss, a) = Admits-exists n (put l s t) ts p.1 (omega (arith, put-cores n l s t q)) in
    (s ∷ ss, (q, omega (arith, f), a))

pub final-InRange :
    (n : ℕ) (l : Loads) (ts ss : List ℕ)
    → Admits n l ts ss
    → InRange l ts
    → InRange (final l ts ss) []
unfolding final
final-InRange n l [] [] a w = w
final-InRange n l [] (s ∷ ss) a w = absurd a
final-InRange n l (t ∷ ts) [] a w = absurd a
final-InRange n l (t ∷ ts) (s ∷ ss) a w =
    final-InRange n (put l s t) ts ss a.2 (put-InRange l s t ts a.1 w)

pub last-lt :
    (n : ℕ) (l : Loads) (ts : List ℕ) (s : ℕ) (ss : List ℕ) → Admits n l ts (s ∷ ss) → last s ss < n
last-lt n l [] s ss a = absurd a
last-lt n l (t ∷ ts) s [] a = a.0
last-lt n l (t ∷ ts) s (r ∷ ss) a = last-lt n (put l s t) ts r ss a.2

pub last-map : (f : ℕ → ℕ) (s : ℕ) (ss : List ℕ) → last (f s) (map f ss) ≡ f (last s ss)
last-map f s [] = refl
last-map f s (r ∷ ss) = last-map f r ss
