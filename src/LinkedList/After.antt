-- ===== src/LinkedList/After.antt =====
-- list_add_after (common/list.c).
use sabo.Base.{ℕ, none, some, List, [], ◌∷◌, ◌++◌, ◌≡◌, ◌≢◌, refl, sym, ◌∙◌, ap}
use sabo.LinkedList.{State, void2node, set_next, set_previous, link_previous, list_add_after}
use sabo.LinkedList.Seg.{
  NotIn, Linked, Seg-move, Agree-Apart, Apart-sym, NotIn-split, NotIn-Apart, Nodup-split,
  Nodup-append, Seg-split, Seg-append,
}
use sabo.LinkedList.Link.{link_previous-Seg, set_next_ne, set_previous_ne, set_next_self}
use sabo.LinkedList.Insert.{links, set_next-set_previous, two_writes}

pub list_add_after-Linked :
    (offset node ptr : ℕ) (st : State) (ys zs : List ℕ)
    → Linked st (ys ++ void2node offset node ∷ zs)
    → NotIn (void2node offset ptr) (ys ++ void2node offset node ∷ zs)
    → Linked
        (list_add_after offset node ptr st)
        (ys ++ void2node offset node ∷ void2node offset ptr ∷ zs)
unfolding list_add_after
list_add_after-Linked offset node ptr st ys zs c fresh =
    let h = st.0 in
    let m = st.1 in
    let n = void2node offset node in
    let p = void2node offset ptr in
    let (l, f, s1, s2) = Seg-split m none h.first ys (n ∷ zs) h.last none c.chain in
    let (dy, dn, apart) = Nodup-split ys (n ∷ zs) c.nodup in
    let (ny, zy) = Apart-sym ys (n ∷ zs) apart in
    let (py, pn) = NotIn-split p ys (n ∷ zs) fresh in
    let m1 = set_previous m p (some n) in
    let m2 = set_next m1 p (m1 n).next in
    let out2 : (b : ℕ) → p ≢ b → m2 b ≡ m b =
      λ b k. (two_writes m p p (some n) (m1 n).next b k k).0 in
    let p_n : p ≢ n = λ e. pn.0 (sym e) in
    let next_n = ap (λ x. x.next) (out2 n p_n) in
    let st3 : State = link_previous (h, m2) (m2 n).next (some p) in
    let b = link_previous-Seg h m2 (some n) (m2 n).next zs (some p) dn.1 (
      Seg-move m m2 zs refl (sym next_n) refl refl
        (Agree-Apart m m2 zs (p ∷ []) (λ b k. out2 b k.0) (NotIn-Apart p zs pn.1)) s2.2) in
    let m4 = set_next st3.1 n (some p) in
    let at_n : m4 n ≡ links (m n).previous (some p) =
      set_next_self st3.1 n (some p)
      ∙ ap (λ x. links x.previous (some p)) (b.outside n dn.0 ∙ out2 n p_n) in
    let at_p : m4 p ≡ links (some n) (m1 n).next =
      set_next_ne st3.1 n p (some p) pn.0
      ∙ b.outside p pn.1
      ∙ set_next-set_previous m p (some n) (m1 n).next in
    let m1_n = ap (λ x. x.next) (set_previous_ne m p n (some n) p_n) in
    let out : (b : ℕ) → NotIn b (p ∷ n ∷ zs) → m4 b ≡ m b =
      λ x k. set_next_ne st3.1 n x (some p) k.1.0 ∙ b.outside x k.1.1 ∙ out2 x k.0 in
    record {
      nodup =
          Nodup-append ys (n ∷ p ∷ zs) dy ((p_n, dn.0), (pn.1, dn.1))
            (Apart-sym (n ∷ p ∷ zs) ys (ny, (py, zy)));
      chain =
          Seg-append m4 none st3.0.first ys (n ∷ p ∷ zs) l f st3.0.last none
            (Seg-move m m4 ys refl (sym b.kept) refl refl
              (Agree-Apart m m4 ys (p ∷ n ∷ zs) out (Apart-sym (p ∷ n ∷ zs) ys (py, (ny, zy)))) s1)
            (
              s2.0,
              ap (λ x. x.previous) at_n ∙ s2.1,
              (
                ap (λ x. x.next) at_n,
                ap (λ x. x.previous) at_p,
                Seg-move st3.1 m4 zs refl (next_n ∙ sym m1_n ∙ sym (ap (λ x. x.next) at_p)) refl
                    refl
                    (Agree-Apart st3.1 m4 zs (n ∷ []) (λ x k. set_next_ne st3.1 n x (some p) k.0)
                      (NotIn-Apart n zs dn.0))
                    b.seg,
              ),
            );
    }
