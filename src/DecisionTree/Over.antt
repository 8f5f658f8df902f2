-- ===== src/DecisionTree/Over.antt =====
-- The overflow of a placement, from the lists of its threads and sockets alone.
use sabo.Base.{
  ℕ, zero, suc, ◌+◌, ◌-◌, ◌≡◌, refl, List, [], ◌∷◌, arith, pos, pos_part, neg_part, ◌==◌,
  if◌then◌else◌, -ℤ_parts, parts_apart,
}
use sabo.DecisionTree.Loads.{Loads, put, final}
use sabo.DecisionTree.Norm.{overflow}

-- The threads on socket `s`.
unfoldable pub load : ℕ → List ℕ → List ℕ → ℕ
load s (t ∷ ts) (r ∷ rs) = (if r == s then t else 0) + load s ts rs
load s _ _ = 0

-- The threads that find no core, on the first `n` sockets of `c` cores each.
unfoldable pub over : ℕ → ℕ → List ℕ → List ℕ → ℕ
over zero c ts ss = 0
over (suc n) c ts ss = (load n ts ss - c) + over n c ts ss

final-load :
    (l : Loads) (ts ss : List ℕ) (s : ℕ)
    → pos_part ((final l ts ss).free s) + neg_part (l.free s) + load s ts ss
      ≡ neg_part ((final l ts ss).free s) + pos_part (l.free s)
unfolding final load put
final-load l [] [] s = omega arith
final-load l [] (r ∷ ss) s = omega arith
final-load l (t ∷ ts) [] s = omega arith
final-load l (t ∷ ts) (r ∷ ss) s =
    ground (arith, final-load (put l r t) ts ss s, -ℤ_parts (l.free r) (pos t))

pub overflow-final :
    (n c : ℕ) (l : Loads) (ts ss : List ℕ)
    → ((s : ℕ) → l.free s ≡ pos c)
    → overflow n (final l ts ss).free ≡ over n c ts ss
unfolding overflow over
overflow-final zero c l ts ss h = refl
overflow-final (suc n) c l ts ss h = ground (
  arith,
  overflow-final n c l ts ss h,
  final-load l ts ss n,
  h n,
  parts_apart ((final l ts ss).free n),
)
