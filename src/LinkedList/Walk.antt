-- ===== src/LinkedList/Walk.antt =====
-- common/list.c and common/list.h: what the functions that read a list return.
use sabo.Base.{
  ℕ, zero, suc, ◌+◌, ◌<◌, ◌≤◌, Bool, true, false, Option, none, some, List, [], ◌∷◌, map, length,
  ◌≡◌, refl, ◌∙◌, ap, arith,
}
use mathlib.Core.Option
use sabo.LinkedList.{Store, ListmHead, void2node, node2void, size_loop, listm_get_size}
use sabo.LinkedList.Seg.{Seg, Represents}

-- The first element, or `d` if there is none.
abbrev pub first_or : Option ℕ → List ℕ → Option ℕ
first_or d [] = d
first_or d (x ∷ xs) = some x

-- The last element, or `d` if there is none.
abbrev pub last_or : Option ℕ → List ℕ → Option ℕ
last_or d [] = d
last_or d (x ∷ xs) = last_or (some x) xs

abbrev pub is_empty : List ℕ → Bool
is_empty [] = true
is_empty (x ∷ xs) = false

Seg-first :
    (m : Store) (before first : Option ℕ) (xs : List ℕ) (last after : Option ℕ)
    → Seg m before first xs last after
    → first ≡ first_or after xs
Seg-first m before first [] last after s = s.0
Seg-first m before first (x ∷ xs) last after s = s.0

Seg-last :
    (m : Store) (before first : Option ℕ) (xs : List ℕ) (last after : Option ℕ)
    → Seg m before first xs last after
    → last ≡ last_or before xs
Seg-last m before first [] last after s = s.1
Seg-last m before first (x ∷ xs) last after s = Seg-last m (some x) (m x).next xs last after s.2

object_of_node : (offset x : ℕ) → node2void offset (void2node offset x) ≡ x
object_of_node offset x = omega arith

first_or-map :
    (offset : ℕ) (xs : List ℕ)
    → Option.map (node2void offset) (first_or none (map (void2node offset) xs)) ≡ first_or none xs
first_or-map offset [] = refl
first_or-map offset (x ∷ xs) = ap some (object_of_node offset x)

last_or-map :
    (offset : ℕ) (d : Option ℕ) (xs : List ℕ)
    → Option.map (node2void offset) (last_or d (map (void2node offset) xs))
      ≡ last_or (Option.map (node2void offset) d) xs
last_or-map offset d [] = refl
last_or-map offset d (x ∷ xs) =
    last_or-map offset (some (void2node offset x)) xs
    ∙ ap (λ y. last_or (some y) xs) (object_of_node offset x)

size_loop-Seg :
    (h : ListmHead) (m : Store) (fuel ptr len : ℕ) (xs : List ℕ) (last : Option ℕ)
    → length xs < fuel
    → Seg m
        (some (void2node h.offset ptr))
        (m (void2node h.offset ptr)).next
        (map (void2node h.offset) xs)
        last
        none
    → size_loop h m fuel ptr len ≡ some (len + length xs)
unfolding size_loop
size_loop-Seg h m zero ptr len xs last k s = absurd (omega arith)
size_loop-Seg h m (suc fuel) ptr len [] last k s = rw (size_loop, s.0) (ap some (omega arith))
size_loop-Seg h m (suc fuel) ptr len (x ∷ xs) last k s =
    rw (size_loop, s.0, object_of_node h.offset x)
      (size_loop-Seg h m fuel x (len + 1) xs last (omega arith) s.2 ∙ ap some (omega arith))

-- The size is the number of the objects, and as many rounds of the loop are enough.
pub listm_get_size-Represents :
    (h : ListmHead) (m : Store) (objects : List ℕ) (fuel : ℕ)
    → Represents h.offset (h.list_head, m) objects
    → length objects ≤ fuel
    → listm_get_size fuel h m ≡ some (length objects)
unfolding listm_get_size
listm_get_size-Represents h m [] fuel r k = let c = r.linked.chain in rw (c.0) refl
listm_get_size-Represents h m (x ∷ xs) fuel r k =
    let c = r.linked.chain in
    rw (c.0, object_of_node h.offset x)
      (size_loop-Seg h m fuel x 1 xs h.list_head.last (omega arith) c.2 ∙ ap some (omega arith))
