-- ===== src/LinkedList/Link.antt =====
-- common/list.c: the two conditional writes that redirect the end and the start of a chain.
use sabo.Base.{ℕ, Option, none, some, List, [], ◌∷◌, ◌≡◌, ◌≢◌, refl, sym, ◌∙◌, ap, arith}
use mathlib.Core.Path.{subst}
use sabo.LinkedList.{ListHead, Store, State, set_next, set_previous, link_next, link_previous}
use sabo.LinkedList.Seg.{NotIn, Nodup, Seg, Agree, Seg-Agree}

pub set_next_ne : (m : Store) (a b : ℕ) (v : Option ℕ) → a ≢ b → set_next m a v b ≡ m b
set_next_ne m a b v h = ground arith

pub set_next_self :
    (m : Store) (a : ℕ) (v : Option ℕ) → set_next m a v a ≡ record (m a) { next = v }
set_next_self m a v = ground arith

pub set_previous_ne : (m : Store) (a b : ℕ) (v : Option ℕ) → a ≢ b → set_previous m a v b ≡ m b
set_previous_ne m a b v h = ground arith

pub set_previous_self :
    (m : Store) (a : ℕ) (v : Option ℕ) → set_previous m a v a ≡ record (m a) { previous = v }
set_previous_self m a v = ground arith

pub Agree-set_next :
    (m : Store) (a : ℕ) (v : Option ℕ) (xs : List ℕ) → NotIn a xs → Agree m (set_next m a v) xs
Agree-set_next m a v [] h = tt
Agree-set_next m a v (x ∷ xs) h =
    (set_next_ne m a x v (λ e. h.0 (sym e)), Agree-set_next m a v xs h.1)

pub Agree-set_previous :
    (m : Store) (a : ℕ) (v : Option ℕ) (xs : List ℕ) → NotIn a xs → Agree m (set_previous m a v) xs
Agree-set_previous m a v [] h = tt
Agree-set_previous m a v (x ∷ xs) h =
    (set_previous_ne m a x v (λ e. h.0 (sym e)), Agree-set_previous m a v xs h.1)

-- The last node of a chain that has one, and the chain with its link out replaced.
Seg-redirect :
    (m : Store) (before first : Option ℕ) (a : ℕ) (xs : List ℕ) (last after v : Option ℕ)
    → Nodup (a ∷ xs)
    → Seg m before first (a ∷ xs) last after
    → (y : ℕ) × (last ≡ some y)
      × Seg (set_next m y v) before first (a ∷ xs) last v
      × ((b : ℕ) → NotIn b (a ∷ xs) → y ≢ b)
Seg-redirect m before first a [] last after v d s = (
  a,
  s.2.1,
  (
    s.0,
    ap (λ n. n.previous) (set_next_self m a v) ∙ s.1,
    (ap (λ n. n.next) (set_next_self m a v), s.2.1),
  ),
  λ b h. h.0,
)
Seg-redirect m before first a (x ∷ xs) last after v d s =
    let (y, e, t, out) = Seg-redirect m (some a) (m a).next x xs last after v d.1 s.2 in
    let same = set_next_ne m y a v (out a d.0) in
    (y, e, (s.0, ap (λ n. n.previous) same ∙ s.1, rw (ap (λ n. n.next) same) t), λ b h. out b h.1)

-- The state after the way into a chain of nodes, or out of it, is replaced: the chain that it then
-- holds, the end of the head that stays, and the nodes outside, which are the same.
pub record NextSet (h : ListHead) (m : Store) (xs : List ℕ) (last v : Option ℕ) (st : State)
    : Type 0 where
  pub seg : Seg st.1 none st.0.first xs last v
  pub kept : st.0.last ≡ h.last
  pub outside : (b : ℕ) → NotIn b xs → st.1 b ≡ m b

pub record PreviousSet (h : ListHead) (m : Store) (first : Option ℕ) (xs : List ℕ) (v : Option ℕ)
    (st : State) : Type 0 where
  pub seg : Seg st.1 v first xs st.0.last none
  pub kept : st.0.first ≡ h.first
  pub outside : (b : ℕ) → NotIn b xs → st.1 b ≡ m b

pub link_next-Seg :
    (h : ListHead) (m : Store) (xs : List ℕ) (last after v : Option ℕ)
    → Nodup xs
    → Seg m none h.first xs last after
    → NextSet h m xs last v (link_next (h, m) last v)
unfolding link_next
link_next-Seg h m [] last after v d s =
    subst (λ l. NextSet h m [] l v (link_next (h, m) l v)) (sym s.1)
      (record { seg = (refl, refl); kept = refl; outside = λ b k. refl })
link_next-Seg h m (a ∷ xs) last after v d s =
    let (y, e, t, out) = Seg-redirect m none h.first a xs last after v d s in
    subst (λ l. NextSet h m (a ∷ xs) l v (link_next (h, m) l v)) (sym e)
      (record {
        seg = subst (λ l. Seg (set_next m y v) none h.first (a ∷ xs) l v) e t;
        kept = refl;
        outside = λ b k. set_next_ne m y b v (out b k);
      })

pub link_previous-Seg :
    (h : ListHead) (m : Store) (before first : Option ℕ) (xs : List ℕ) (v : Option ℕ)
    → Nodup xs
    → Seg m before first xs h.last none
    → PreviousSet h m first xs v (link_previous (h, m) first v)
unfolding link_previous
link_previous-Seg h m before first [] v d s =
    subst (λ f. PreviousSet h m f [] v (link_previous (h, m) f v)) (sym s.0)
      (record { seg = (refl, refl); kept = refl; outside = λ b k. refl })
link_previous-Seg h m before first (a ∷ xs) v d s =
    let self = set_previous_self m a v in
    subst (λ f. PreviousSet h m f (a ∷ xs) v (link_previous (h, m) f v)) (sym s.0)
      (record {
        seg = (
          refl,
          ap (λ n. n.previous) self,
          subst (λ f. Seg (set_previous m a v) (some a) f xs h.last none)
              (sym (ap (λ n. n.next) self))
              (Seg-Agree m (set_previous m a v) (some a) (m a).next xs h.last none
                (Agree-set_previous m a v xs d.0) s.2),
        );
        kept = refl;
        outside = λ b k. set_previous_ne m a b v (k.0);
      })
