-- ===== src/LinkedList/Insert.antt =====
-- common/list.c: adding a node at an end of the list, or before a node.
use sabo.Base.{ℕ, Option, none, some, List, [], ◌∷◌, ◌++◌, ◌≡◌, ◌≢◌, refl, sym, ◌∙◌, ap, arith}
use sabo.LinkedList.{
  ListNode, Store, State, void2node, set_next, set_previous, link_next, link_previous,
  list_add_first, list_add_last, list_add_before,
}
use sabo.LinkedList.Seg.{
  NotIn, Linked, Seg-move, Agree-Apart, Agree-refl, Apart-sym, NotIn-split, NotIn-Apart,
  Nodup-split, Nodup-append, Seg-split, Seg-append,
}
use sabo.LinkedList.Link.{
  link_next-Seg, link_previous-Seg, set_next_ne, set_previous_ne, set_next_self, set_previous_self,
}

abbrev pub links : Option ℕ → Option ℕ → ListNode
links v w = record { previous = v; next = w }

-- Both links of one node are written.
pub set_next-set_previous :
    (m : Store) (p : ℕ) (v w : Option ℕ) → set_next (set_previous m p v) p w p ≡ links v w
set_next-set_previous m p v w = ground arith

set_previous-set_next :
    (m : Store) (p : ℕ) (v w : Option ℕ) → set_previous (set_next m p w) p v p ≡ links v w
set_previous-set_next m p v w = ground arith

pub two_writes :
    (m : Store) (p q : ℕ) (v w : Option ℕ) (b : ℕ)
    → p ≢ b
    → q ≢ b
    → (set_next (set_previous m p v) q w b ≡ m b) × (set_previous (set_next m p v) q w b ≡ m b)
two_writes m p q v w b h k = (
  set_next_ne (set_previous m p v) q b w k ∙ set_previous_ne m p b v h,
  set_previous_ne (set_next m p v) q b w k ∙ set_next_ne m p b v h,
)

pub list_add_first-Linked :
    (offset ptr : ℕ) (st : State) (xs : List ℕ)
    → Linked st xs
    → NotIn (void2node offset ptr) xs
    → Linked (list_add_first offset ptr st) (void2node offset ptr ∷ xs)
unfolding list_add_first
list_add_first-Linked offset ptr st xs c fresh =
    let h = st.0 in
    let m = st.1 in
    let p = void2node offset ptr in
    let m1 = set_next (set_previous m p none) p h.first in
    let g1 =
      Agree-Apart m m1 xs (p ∷ []) (λ b k. (two_writes m p p none h.first b k.0 k.0).0)
        (NotIn-Apart p xs fresh) in
    let st2 : State = link_previous (h, m1) h.first (some p) in
    let b =
      link_previous-Seg h m1 none h.first xs (some p) c.nodup
        (Seg-move m m1 xs refl refl refl refl g1 c.chain) in
    let node = b.outside p fresh ∙ set_next-set_previous m p none h.first in
    record {
      nodup = (fresh, c.nodup);
      chain = (
        refl,
        ap (λ x. x.previous) node,
        Seg-move st2.1 st2.1 xs refl (sym (ap (λ x. x.next) node)) refl refl (Agree-refl st2.1 xs)
            b.seg,
      );
    }

pub list_add_last-Linked :
    (offset ptr : ℕ) (st : State) (xs : List ℕ)
    → Linked st xs
    → NotIn (void2node offset ptr) xs
    → Linked (list_add_last offset ptr st) (xs ++ void2node offset ptr ∷ [])
unfolding list_add_last
list_add_last-Linked offset ptr st xs c fresh =
    let h = st.0 in
    let m = st.1 in
    let p = void2node offset ptr in
    let m1 = set_previous (set_next m p none) p h.last in
    let apart = NotIn-Apart p xs fresh in
    let g1 =
      Agree-Apart m m1 xs (p ∷ []) (λ b k. (two_writes m p p none h.last b k.0 k.0).1) apart in
    let st2 : State = link_next (h, m1) h.last (some p) in
    let a =
      link_next-Seg h m1 xs h.last none (some p) c.nodup
        (Seg-move m m1 xs refl refl refl refl g1 c.chain) in
    let node = a.outside p fresh ∙ set_previous-set_next m p h.last none in
    record {
      nodup = Nodup-append xs (p ∷ []) c.nodup (tt, tt) apart;
      chain =
          Seg-append st2.1 none st2.0.first xs (p ∷ []) h.last (some p) (some p) none a.seg
            (refl, ap (λ x. x.previous) node, (ap (λ x. x.next) node, refl));
    }

pub list_add_before-Linked :
    (offset node ptr : ℕ) (st : State) (ys zs : List ℕ)
    → Linked st (ys ++ void2node offset node ∷ zs)
    → NotIn (void2node offset ptr) (ys ++ void2node offset node ∷ zs)
    → Linked
        (list_add_before offset node ptr st)
        (ys ++ void2node offset ptr ∷ void2node offset node ∷ zs)
unfolding list_add_before
list_add_before-Linked offset node ptr st ys zs c fresh =
    let h = st.0 in
    let m = st.1 in
    let n = void2node offset node in
    let p = void2node offset ptr in
    let (l, f, s1, s2) = Seg-split m none h.first ys (n ∷ zs) h.last none c.chain in
    let (dy, dn, apart) = Nodup-split ys (n ∷ zs) c.nodup in
    let (ny, zy) = Apart-sym ys (n ∷ zs) apart in
    let (py, pn) = NotIn-split p ys (n ∷ zs) fresh in
    let m1 = set_previous m p (m n).previous in
    let same1 : m1 n ≡ m n = set_previous_ne m p n (m n).previous (λ e. pn.0 (sym e)) in
    let st2 : State = link_next (h, m1) (m1 n).previous (some p) in
    let a = link_next-Seg h m1 ys (m1 n).previous f (some p) dy (
      Seg-move m m1 ys refl refl (sym (ap (λ x. x.previous) same1 ∙ s2.1)) refl
        (Agree-Apart m m1 ys (p ∷ []) (λ b k. set_previous_ne m p b (m n).previous k.0)
          (NotIn-Apart p ys py))
        s1) in
    let m3 = set_previous (set_next st2.1 p (some n)) n (some p) in
    let out3 : (b : ℕ) → p ≢ b → n ≢ b → m3 b ≡ st2.1 b =
      λ b i j. (two_writes st2.1 p n (some n) (some p) b i j).1 in
    let at_p : m3 p ≡ links (m1 n).previous (some n) =
      set_previous_ne (set_next st2.1 p (some n)) n p (some p) pn.0
      ∙ set_next_self st2.1 p (some n)
      ∙ ap (λ x. links x.previous (some n)) (a.outside p py ∙ set_previous_self m p (m n).previous)
      ∙ ap (λ x. links x.previous (some n)) (sym same1) in
    let at_n : m3 n ≡ links (some p) (m n).next =
      set_previous_self (set_next st2.1 p (some n)) n (some p)
      ∙ ap (λ x. links (some p) x.next)
          (set_next_ne st2.1 p n (some n) (λ e. pn.0 (sym e)) ∙ a.outside n ny ∙ same1) in
    let out : (b : ℕ) → NotIn b (p ∷ n ∷ ys) → m3 b ≡ m b =
      λ b k. out3 b k.0 k.1.0 ∙ a.outside b k.1.1 ∙ set_previous_ne m p b (m n).previous k.0 in
    record {
      nodup = Nodup-append ys (p ∷ n ∷ zs) dy (pn, dn) (Apart-sym (p ∷ n ∷ zs) ys (py, (ny, zy)));
      chain =
          Seg-append m3 none st2.0.first ys (p ∷ n ∷ zs) (m1 n).previous (some p) st2.0.last none
            (Seg-move st2.1 m3 ys refl refl refl refl
              (Agree-Apart st2.1 m3 ys (p ∷ n ∷ []) (λ b k. out3 b k.0 k.1.0)
                (Apart-sym (p ∷ n ∷ []) ys (py, (ny, tt))))
              a.seg)
            (
              refl,
              ap (λ x. x.previous) at_p,
              (
                ap (λ x. x.next) at_p,
                ap (λ x. x.previous) at_n,
                Seg-move m m3 zs refl (sym (ap (λ x. x.next) at_n)) (sym a.kept) refl
                    (Agree-Apart m m3 zs (p ∷ n ∷ ys) out
                      (Apart-sym (p ∷ n ∷ ys) zs (pn.1, (dn.0, Apart-sym zs ys zy))))
                    s2.2,
              ),
            );
    }
