-- ===== src/LinkedList/Objects.antt =====
-- The operations on lists of objects, as operations on sequences.
use sabo.Base.{ℕ, List, [], ◌∷◌, ◌++◌, map, ◌≡◌, refl, sym}
use mathlib.Core.Path.{subst}
use sabo.LinkedList.{
  State, Store, ListHead, void2node, list_head_init, list_add_first, list_add_last, list_add_before,
  list_add_after,
}
use sabo.LinkedList.Seg.{NotIn, Linked, Represents, map-append, NotIn-map}
use sabo.LinkedList.Insert.{list_add_first-Linked, list_add_last-Linked, list_add_before-Linked}
use sabo.LinkedList.After.{list_add_after-Linked}

-- The nodes of the objects `before`, then of `node`, then of `after`.
nodes_at :
    (offset node : ℕ) (before after : List ℕ)
    → map (void2node offset) (before ++ node ∷ after)
      ≡ map (void2node offset) before ++ void2node offset node ∷ map (void2node offset) after
nodes_at offset node before after = map-append offset before (node ∷ after)

-- An initialised head holds the empty list, whatever the store.
pub list_head_init-Represents :
    (offset : ℕ) (h : ListHead) (m : Store) → Represents offset (list_head_init h, m) []
list_head_init-Represents offset h m = record {
  linked = record { nodup = tt; chain = (refl, refl) };
}

pub list_add_first-Represents :
    (offset new_node : ℕ) (st : State) (objects : List ℕ)
    → Represents offset st objects
    → NotIn new_node objects
    → Represents offset (list_add_first offset new_node st) (new_node ∷ objects)
list_add_first-Represents offset new_node st objects r k = record {
  linked =
      list_add_first-Linked offset new_node st (map (void2node offset) objects) r.linked
        (NotIn-map offset new_node objects k);
}

pub list_add_last-Represents :
    (offset new_node : ℕ) (st : State) (objects : List ℕ)
    → Represents offset st objects
    → NotIn new_node objects
    → Represents offset (list_add_last offset new_node st) (objects ++ new_node ∷ [])
list_add_last-Represents offset new_node st objects r k = record {
  linked =
      subst (λ xs. Linked (list_add_last offset new_node st) xs)
        (sym (map-append offset objects (new_node ∷ [])))
        (list_add_last-Linked offset new_node st (map (void2node offset) objects) r.linked
          (NotIn-map offset new_node objects k));
}

-- Adding an object that is not in the list as the first puts it first, and as the last puts it last.
pub list_add_ends-Represents :
    (offset new_node : ℕ) (st : State) (objects : List ℕ)
    → Represents offset st objects
    → NotIn new_node objects
    → Represents offset (list_add_first offset new_node st) (new_node ∷ objects)
      × Represents offset (list_add_last offset new_node st) (objects ++ new_node ∷ [])
list_add_ends-Represents offset new_node st objects r k = (
  list_add_first-Represents offset new_node st objects r k,
  list_add_last-Represents offset new_node st objects r k,
)

-- Adding an object that is not in the list, before `node` or after it, puts it next to `node`.
pub list_add_beside-Represents :
    (offset node new_node : ℕ) (st : State) (before after : List ℕ)
    → Represents offset st (before ++ node ∷ after)
    → NotIn new_node (before ++ node ∷ after)
    → Represents offset
        (list_add_before offset node new_node st)
        (before ++ new_node ∷ node ∷ after)
      × Represents offset
          (list_add_after offset node new_node st)
          (before ++ node ∷ new_node ∷ after)
list_add_beside-Represents offset node new_node st before after r k =
    let nodes = map (void2node offset) in
    let e = nodes_at offset node before after in
    let linked = subst (λ xs. Linked st xs) e r.linked in
    let fresh =
      subst (λ xs. NotIn (void2node offset new_node) xs) e
        (NotIn-map offset new_node (before ++ node ∷ after) k) in
    (
      record {
        linked =
            subst (λ xs. Linked (list_add_before offset node new_node st) xs)
              (sym (nodes_at offset new_node before (node ∷ after)))
              (list_add_before-Linked offset node new_node st (nodes before) (nodes after) linked
                fresh);
      },
      record {
        linked =
            subst (λ xs. Linked (list_add_after offset node new_node st) xs)
              (sym (nodes_at offset node before (new_node ∷ after)))
              (list_add_after-Linked offset node new_node st (nodes before) (nodes after) linked
                fresh);
      },
    )
