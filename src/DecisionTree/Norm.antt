-- ===== src/DecisionTree/Norm.antt =====
-- The norm of a placement (common/decision_tree.c) and the threads that find no core.
use sabo.Base.{
  ℕ, zero, suc, ◌+◌, ◌<◌, ◌≤◌, ◌≡◌, refl, ◌≢◌, List, [], ◌∷◌, arith, ℤ, pos, pos_part, neg_part,
  ◌≤ℤ◌, ◌-ℤ◌, ◌+ℤ◌, -ℤ_parts,
}
use sabo.DecisionTree.{int_min, next_norme, update}
use sabo.DecisionTree.Loads.{Loads, put, final, Admits, InRange, put-InRange, sum}

-- The threads above the number of cores, over the first `n` sockets; and the cores that are left.
unfoldable pub overflow : ℕ → (ℕ → ℤ) → ℕ
overflow zero free = 0
overflow (suc n) free = neg_part (free n) + overflow n free

unfoldable pub spare : ℕ → (ℕ → ℤ) → ℕ
spare zero free = 0
spare (suc n) free = pos_part (free n) + spare n free

overflow-fresh :
    (n s : ℕ) (free : ℕ → ℤ) (f : ℤ) → n ≤ s → overflow n (update free s f) ≡ overflow n free
unfolding overflow
overflow-fresh zero s free f h = refl
overflow-fresh (suc n) s free f h = ground (arith, overflow-fresh n s free f)

overflow-update :
    (n s : ℕ) (free : ℕ → ℤ) (f : ℤ)
    → s < n
    → overflow n (update free s f) + neg_part (free s) ≡ overflow n free + neg_part f
unfolding overflow
overflow-update zero s free f h = absurd (omega arith)
overflow-update (suc n) s free f h =
    ground (arith, overflow-update n s free f, overflow-fresh n s free f)

spare-fresh : (n s : ℕ) (free : ℕ → ℤ) (f : ℤ) → n ≤ s → spare n (update free s f) ≡ spare n free
unfolding spare
spare-fresh zero s free f h = refl
spare-fresh (suc n) s free f h = ground (arith, spare-fresh n s free f)

spare-update :
    (n s : ℕ) (free : ℕ → ℤ) (f : ℤ)
    → s < n
    → spare n (update free s f) + pos_part (free s) ≡ spare n free + pos_part f
unfolding spare
spare-update zero s free f h = absurd (omega arith)
spare-update (suc n) s free f h = ground (arith, spare-update n s free f, spare-fresh n s free f)

-- Cores are conserved.
pub put-cores :
    (n : ℕ) (l : Loads) (s t : ℕ)
    → s < n
    → spare n (put l s t).free + overflow n l.free + t
      ≡ overflow n (put l s t).free + spare n l.free
unfolding put
put-cores n l s t h = omega (
  arith,
  overflow-update n s l.free (l.free s -ℤ pos t) h,
  spare-update n s l.free (l.free s -ℤ pos t) h,
  -ℤ_parts (l.free s) (pos t),
)

pub final-cores :
    (n : ℕ) (l : Loads) (ts ss : List ℕ)
    → Admits n l ts ss
    → spare n (final l ts ss).free + overflow n l.free + sum ts
      ≡ overflow n (final l ts ss).free + spare n l.free
unfolding final
final-cores n l [] [] a = omega arith
final-cores n l [] (s ∷ ss) a = absurd a
final-cores n l (t ∷ ts) [] a = absurd a
final-cores n l (t ∷ ts) (s ∷ ss) a =
    omega (arith, final-cores n (put l s t) ts ss a.2, put-cores n l s t a.0)

-- The norm is unset as long as every socket has a free core.
pub record NormIs (n : ℕ) (l : Loads) : Type 0 where
  pub unset : l.norme ≡ int_min → (s : ℕ) → s < n → 1 ≤ pos_part (l.free s)
  pub none_over : l.norme ≡ int_min → overflow n l.free ≡ 0
  pub nonpos : pos_part l.norme ≡ 0
  pub norm : l.norme ≢ int_min → neg_part l.norme ≡ overflow n l.free

put-NormIs :
    (n : ℕ) (l : Loads) (s t : ℕ) (ts : List ℕ)
    → s < n
    → pos 0 ≤ℤ l.free s
    → InRange l (t ∷ ts)
    → NormIs n l
    → NormIs n (put l s t)
unfolding put next_norme ◌-ℤ◌ ◌+ℤ◌
put-NormIs n l s t ts h p w v = record {
  unset = λ e q k. ground (arith, λ (u : l.norme ≡ int_min). v.unset u q k);
  none_over = λ e. ground (arith, overflow-update n s l.free (l.free s -ℤ pos t) h, v.none_over);
  nonpos = ground (arith, v.nonpos);
  norm = λ e. ground (arith, overflow-update n s l.free (l.free s -ℤ pos t) h, v.none_over, v.norm);
}

pub final-NormIs :
    (n : ℕ) (l : Loads) (ts ss : List ℕ)
    → Admits n l ts ss
    → InRange l ts
    → NormIs n l
    → NormIs n (final l ts ss)
unfolding final
final-NormIs n l [] [] a w v = v
final-NormIs n l [] (s ∷ ss) a w v = absurd a
final-NormIs n l (t ∷ ts) [] a w v = absurd a
final-NormIs n l (t ∷ ts) (s ∷ ss) a w v =
    final-NormIs n (put l s t) ts ss a.2 (put-InRange l s t ts a.1 w)
      (put-NormIs n l s t ts a.0 a.1 w v)

spare-pos : (n s : ℕ) (free : ℕ → ℤ) → s < n → pos_part (free s) ≤ spare n free
unfolding spare
spare-pos zero s free h = absurd (omega arith)
spare-pos (suc n) s free h = ground (arith, spare-pos n s free)

-- Once the threads need all the cores the norm is set: it is minus the overflow.
pub norme-overflow :
    (n : ℕ) (l : Loads)
    → 0 < n
    → NormIs n l
    → spare n l.free ≤ overflow n l.free
    → (l.norme ≢ int_min) × (pos_part l.norme ≡ 0) × (neg_part l.norme ≡ overflow n l.free)
norme-overflow n l h v e = (set, v.nonpos, v.norm set)
  where
    set : l.norme ≢ int_min
    set u = omega (arith, v.none_over u, v.unset u 0 h, spare-pos n 0 l.free h)
