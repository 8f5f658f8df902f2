-- ===== src/LinkedList/Seg.antt =====
-- What a list of node addresses says of the links in the store.
use sabo.Base.{
  ℕ, ◌+◌, Option, none, some, List, [], ◌∷◌, ◌++◌, ◌≡◌, ◌≢◌, refl, sym, ◌∙◌, ap, arith, map,
}
use mathlib.Core.Path.{subst}
use sabo.LinkedList.{Store, State, void2node}

abbrev pub NotIn : ℕ → List ℕ → Type 0
NotIn a [] = Unit {0}
NotIn a (x ∷ xs) = (x ≢ a) × NotIn a xs

abbrev pub Nodup : List ℕ → Type 0
Nodup [] = Unit {0}
Nodup (x ∷ xs) = NotIn x xs × Nodup xs

-- No element of the first list is in the second.
abbrev pub Apart : List ℕ → List ℕ → Type 0
Apart [] ys = Unit {0}
Apart (x ∷ xs) ys = NotIn x ys × Apart xs ys

-- The nodes of `xs`, linked both ways, from the link `first` that leads in to the link `last` that
-- leads back in; `before` and `after` are the links that lead out.
abbrev pub Seg : Store → Option ℕ → Option ℕ → List ℕ → Option ℕ → Option ℕ → Type 0
Seg m before first [] last after = (first ≡ after) × (last ≡ before)
Seg m before first (a ∷ xs) last after =
    (first ≡ some a) × ((m a).previous ≡ before) × Seg m (some a) (m a).next xs last after

-- The head and the store hold the list `xs` of nodes.
pub record Linked (st : State) (xs : List ℕ) : Type 0 where
  pub nodup : Nodup xs
  pub chain : Seg st.1 none st.0.first xs st.0.last none

-- The head and the store hold the list of objects.
pub record Represents (offset : ℕ) (st : State) (objects : List ℕ) : Type 0 where
  pub linked : Linked st (map (void2node offset) objects)

abbrev pub Agree : Store → Store → List ℕ → Type 0
Agree m m' [] = Unit {0}
Agree m m' (a ∷ xs) = (m' a ≡ m a) × Agree m m' xs

pub Seg-Agree :
    (m m' : Store) (before first : Option ℕ) (xs : List ℕ) (last after : Option ℕ)
    → Agree m m' xs
    → Seg m before first xs last after
    → Seg m' before first xs last after
Seg-Agree m m' before first [] last after g s = s
Seg-Agree m m' before first (a ∷ xs) last after g s = (
  s.0,
  ap (λ n. n.previous) g.0 ∙ s.1,
  rw (ap (λ n. n.next) g.0) (Seg-Agree m m' (some a) (m a).next xs last after g.1 s.2),
)

pub Agree-refl : (m : Store) (xs : List ℕ) → Agree m m xs
Agree-refl m [] = tt
Agree-refl m (x ∷ xs) = (refl, Agree-refl m xs)

-- A chain in another store with the same nodes and links.
pub Seg-move :
    (m m' : Store) (xs : List ℕ) {b b' f f' l l' a a' : Option ℕ}
    → b ≡ b'
    → f ≡ f'
    → l ≡ l'
    → a ≡ a'
    → Agree m m' xs
    → Seg m b f xs l a
    → Seg m' b' f' xs l' a'
Seg-move m m' xs {b} {b'} {f} {f'} {l} {l'} {a} {a'} eb ef el ea g s =
    subst (λ z. Seg m' z f' xs l' a') eb
      (subst (λ z. Seg m' b z xs l' a') ef
        (subst (λ z. Seg m' b f xs z a') el
          (subst (λ z. Seg m' b f xs l z) ea (Seg-Agree m m' b f xs l a g s))))

pub Agree-Apart :
    (m m' : Store) (xs ys : List ℕ)
    → ((b : ℕ) → NotIn b ys → m' b ≡ m b)
    → Apart xs ys
    → Agree m m' xs
Agree-Apart m m' [] ys f h = tt
Agree-Apart m m' (x ∷ xs) ys f h = (f x h.0, Agree-Apart m m' xs ys f h.1)

pub NotIn-Apart : (a : ℕ) (xs : List ℕ) → NotIn a xs → Apart xs (a ∷ [])
NotIn-Apart a [] h = tt
NotIn-Apart a (x ∷ xs) h = (((λ e. h.0 (sym e)), tt), NotIn-Apart a xs h.1)

pub Apart-sym : (xs ys : List ℕ) → Apart xs ys → Apart ys xs
Apart-sym xs [] h = tt
Apart-sym xs (y ∷ ys) h = (missing xs h, Apart-sym xs ys (rest xs h))
  where
    missing : (xs : List ℕ) → Apart xs (y ∷ ys) → NotIn y xs
    missing [] h = tt
    missing (x ∷ xs) h = ((λ e. h.0.0 (sym e)), missing xs h.1)

    rest : (xs : List ℕ) → Apart xs (y ∷ ys) → Apart xs ys
    rest [] h = tt
    rest (x ∷ xs) h = (h.0.1, rest xs h.1)

pub NotIn-split : (a : ℕ) (xs ys : List ℕ) → NotIn a (xs ++ ys) → NotIn a xs × NotIn a ys
NotIn-split a [] ys h = (tt, h)
NotIn-split a (x ∷ xs) ys h = let (l, r) = NotIn-split a xs ys h.1 in ((h.0, l), r)

pub NotIn-append : (a : ℕ) (xs ys : List ℕ) → NotIn a xs → NotIn a ys → NotIn a (xs ++ ys)
NotIn-append a [] ys h k = k
NotIn-append a (x ∷ xs) ys h k = (h.0, NotIn-append a xs ys h.1 k)

pub Nodup-split : (xs ys : List ℕ) → Nodup (xs ++ ys) → Nodup xs × Nodup ys × Apart xs ys
Nodup-split [] ys h = (tt, h, tt)
Nodup-split (x ∷ xs) ys h =
    let (l, r) = NotIn-split x xs ys h.0 in
    let (a, b, c) = Nodup-split xs ys h.1 in ((l, a), b, (r, c))

pub Nodup-append : (xs ys : List ℕ) → Nodup xs → Nodup ys → Apart xs ys → Nodup (xs ++ ys)
Nodup-append [] ys h k a = k
Nodup-append (x ∷ xs) ys h k a = (NotIn-append x xs ys h.0 a.0, Nodup-append xs ys h.1 k a.1)

pub Seg-split :
    (m : Store) (before first : Option ℕ) (xs ys : List ℕ) (last after : Option ℕ)
    → Seg m before first (xs ++ ys) last after
    → (l : Option ℕ) × (f : Option ℕ) × Seg m before first xs l f × Seg m l f ys last after
Seg-split m before first [] ys last after s = (before, first, (refl, refl), s)
Seg-split m before first (x ∷ xs) ys last after s =
    let (l, f, a, b) = Seg-split m (some x) (m x).next xs ys last after s.2 in
    (l, f, (s.0, s.1, a), b)

pub Seg-append :
    (m : Store) (before first : Option ℕ) (xs ys : List ℕ) (l f last after : Option ℕ)
    → Seg m before first xs l f
    → Seg m l f ys last after
    → Seg m before first (xs ++ ys) last after
Seg-append m before first [] ys l f last after s t = rw (s.0, ← s.1) t
Seg-append m before first (x ∷ xs) ys l f last after s t =
    (s.0, s.1, Seg-append m (some x) (m x).next xs ys l f last after s.2 t)

pub map-append :
    (offset : ℕ) (xs ys : List ℕ)
    → map (void2node offset) (xs ++ ys) ≡ map (void2node offset) xs ++ map (void2node offset) ys
map-append offset [] ys = refl
map-append offset (x ∷ xs) ys = ap (λ zs. (x + offset) ∷ zs) (map-append offset xs ys)

pub NotIn-map :
    (offset a : ℕ) (xs : List ℕ)
    → NotIn a xs
    → NotIn (void2node offset a) (map (void2node offset) xs)
NotIn-map offset a [] h = tt
NotIn-map offset a (x ∷ xs) h = ((λ e. h.0 (omega (arith, e))), NotIn-map offset a xs h.1)
