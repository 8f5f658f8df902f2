-- ===== src/DecisionTree/Memory/Copies.antt =====
-- How often an address is in a list of nodes of the tree.
use sabo.Base.{ℕ, ◌+◌, ◌≡◌, ◌≢◌, List, [], ◌∷◌, ◌++◌, ◌==◌, if◌then◌else◌, suc, arith}
use sabo.LinkedList.Seg.{NotIn}

unfoldable pub copies : ℕ → List ℕ → ℕ
copies x [] = 0
copies x (y ∷ ys) = (if y == x then 1 else 0) + copies x ys

pub copies-append : (x : ℕ) (xs ys : List ℕ) → copies x (xs ++ ys) ≡ copies x xs + copies x ys
unfolding copies
copies-append x [] ys = omega arith
copies-append x (y ∷ xs) ys = let ih = copies-append x xs ys in omega (arith, ih)

pub copies-NotIn : (x : ℕ) (xs : List ℕ) → copies x xs ≡ 0 → NotIn x xs
unfolding copies
copies-NotIn x [] h = tt
copies-NotIn x (y ∷ ys) h = ((λ e. ground (arith, e, h)), copies-NotIn x ys (ground (arith, h)))

pub copies_self : (x : ℕ) (xs : List ℕ) → copies x (x ∷ xs) ≡ suc (copies x xs)
unfolding copies
copies_self x xs = ground arith

pub copies_other : (x y : ℕ) (xs : List ℕ) → x ≢ y → copies y (x ∷ xs) ≡ copies y xs
unfolding copies
copies_other x y xs h = ground (arith, h)

pub copies-middle : (x n : ℕ) (a b : List ℕ) → copies x (a ++ n ∷ b) ≡ copies x (n ∷ a ++ b)
unfolding copies
copies-middle x n a b =
    let e = copies-append x a (n ∷ b) in let f = copies-append x a b in omega (arith, e, f)
