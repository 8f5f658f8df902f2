-- ===== src/LinkedList/Remove.antt =====
-- list_remove (common/list.c).
use sabo.Base.{ℕ, none, some, List, ◌∷◌, ◌++◌, map, ◌≡◌, refl, sym, ◌∙◌, ap}
use mathlib.Core.Path.{subst}
use sabo.LinkedList.{State, void2node, link_next, link_previous, list_remove}
use sabo.LinkedList.Seg.{
  NotIn, Linked, Represents, Seg-move, Agree-Apart, Agree-refl, Apart-sym, NotIn-split, Nodup-split,
  Nodup-append, Seg-split, Seg-append, map-append, NotIn-map,
}
use sabo.LinkedList.Link.{link_next-Seg, link_previous-Seg}

list_remove-Linked :
    (offset node : ℕ) (st : State) (ys zs : List ℕ)
    → Linked st (ys ++ void2node offset node ∷ zs)
    → Linked (list_remove offset node st) (ys ++ zs)
      × ((b : ℕ) → NotIn b (ys ++ zs) → (list_remove offset node st).1 b ≡ st.1 b)
unfolding list_remove
list_remove-Linked offset node st ys zs c =
    let h = st.0 in
    let m = st.1 in
    let n = void2node offset node in
    let (l, f, s1, s2) = Seg-split m none h.first ys (n ∷ zs) h.last none c.chain in
    let (dy, dn, apart) = Nodup-split ys (n ∷ zs) c.nodup in
    let (ny, zy) = Apart-sym ys (n ∷ zs) apart in
    let yz = Apart-sym zs ys zy in
    let st1 : State = link_next (h, m) (m n).previous (m n).next in
    let a =
      link_next-Seg h m ys (m n).previous f (m n).next dy
        (Seg-move m m ys refl refl (sym s2.1) refl (Agree-refl m ys) s1) in
    let same = a.outside n ny in
    let st2 : State = link_previous (st1.0, st1.1) (st1.1 n).next (st1.1 n).previous in
    let b = link_previous-Seg st1.0 st1.1 (some n) (st1.1 n).next zs (st1.1 n).previous dn.1 (
      Seg-move m st1.1 zs refl (sym (ap (λ x. x.next) same)) (sym a.kept) refl
        (Agree-Apart m st1.1 zs ys a.outside zy) s2.2) in
    (
      record {
        nodup = Nodup-append ys zs dy dn.1 yz;
        chain =
            Seg-append st2.1 none st2.0.first ys zs (st1.1 n).previous (st1.1 n).next st2.0.last
              none
              (Seg-move st1.1 st2.1 ys refl (sym b.kept) (sym (ap (λ x. x.previous) same))
                (sym (ap (λ x. x.next) same)) (Agree-Apart st1.1 st2.1 ys zs b.outside yz) a.seg)
              b.seg;
      },
      λ x k. let (ky, kz) = NotIn-split x ys zs k in b.outside x kz ∙ a.outside x ky,
    )

-- Removing an object of the list leaves the others in their order, and writes no node of an object
-- `other` that is not among them, so not the node removed either.
pub list_remove-Represents :
    (offset node other : ℕ) (st : State) (before after : List ℕ)
    → Represents offset st (before ++ node ∷ after)
    → NotIn other (before ++ after)
    → Represents offset (list_remove offset node st) (before ++ after)
      × ((list_remove offset node st).1 (void2node offset other) ≡ st.1 (void2node offset other))
list_remove-Represents offset node other st before after r k =
    let node_of = map (void2node offset) in
    let (c, out) =
      list_remove-Linked offset node st (node_of before) (node_of after)
        (subst (λ xs. Linked st xs) (map-append offset before (node ∷ after)) r.linked) in
    let e = map-append offset before after in
    (
      record { linked = subst (λ xs. Linked (list_remove offset node st) xs) (sym e) c },
      out (void2node offset other) (
          subst (λ xs. NotIn (void2node offset other) xs) e
            (NotIn-map offset other (before ++ after) k)),
    )
