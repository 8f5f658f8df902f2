-- ===== src/LinkedList.antt =====
-- common/list.c and common/list.h: the intrusive doubly linked list. An object holds its node at a
-- fixed offset, so the functions take the address of the object and the offset. The store gives
-- the two links of the node at each address; `none` is NULL. Addresses do not wrap around.
-- The assertions on the offset are not modelled, those of `list_head_finalize` are its result.
mod Tests
pub mod Seg
mod Link
mod Insert
pub mod Remove
mod After
pub mod Objects
mod Walk
use sabo.Base.{
  ℕ, zero, suc, ◌+◌, ◌-◌, ◌^◌, Bool, true, false, ◌&&◌, Option, none, some, ◌==◌, if◌then◌else◌,
}
use mathlib.Core.Option

pub record ListNode : Type 0 where
  pub previous : Option ℕ
  pub next : Option ℕ

pub record ListHead : Type 0 where
  pub first : Option ℕ
  pub last : Option ℕ

abbrev pub Store : Type 0
Store = ℕ → ListNode

abbrev pub State : Type 0
State = ListHead × Store

abbrev pub void2node : ℕ → ℕ → ℕ
void2node offset ptr = ptr + offset

abbrev pub node2void : ℕ → ℕ → ℕ
node2void offset node = node - offset

-- `a->previous = v`
abbrev pub set_previous : Store → ℕ → Option ℕ → Store
set_previous m a v b = if b == a then record (m b) { previous = v } else m b

-- `a->next = v`
abbrev pub set_next : Store → ℕ → Option ℕ → Store
set_next m a v b = if b == a then record (m b) { next = v } else m b

abbrev pub is_none : Option ℕ → Bool
is_none none = true
is_none (some _) = false

abbrev pub empty_head : ListHead
empty_head = record { first = none; last = none }

abbrev pub list_head_init : ListHead → ListHead
list_head_init h = record h { first = none; last = none }

-- Whether both assertions hold.
abbrev pub list_head_finalize : ListHead → Bool
list_head_finalize h = is_none h.first && is_none h.last

-- `if (p) p->next = v; else list_head->first = v;`
unfoldable pub link_next : State → Option ℕ → Option ℕ → State
link_next (h, m) none v = (record h { first = v }, m)
link_next (h, m) (some a) v = (h, set_next m a v)

-- `if (p) p->previous = v; else list_head->last = v;`
unfoldable pub link_previous : State → Option ℕ → Option ℕ → State
link_previous (h, m) none v = (record h { last = v }, m)
link_previous (h, m) (some a) v = (h, set_previous m a v)

unfoldable pub list_add_first : ℕ → ℕ → State → State
list_add_first offset new_node (h, m) =
    let p = void2node offset new_node in
    let m1 = set_next (set_previous m p none) p h.first in
    let (h2, m2) = link_previous (h, m1) h.first (some p) in (record h2 { first = some p }, m2)

unfoldable pub list_add_last : ℕ → ℕ → State → State
list_add_last offset new_node (h, m) =
    let p = void2node offset new_node in
    let m1 = set_previous (set_next m p none) p h.last in
    let (h2, m2) = link_next (h, m1) h.last (some p) in (record h2 { last = some p }, m2)

unfoldable pub list_add_before : ℕ → ℕ → ℕ → State → State
list_add_before offset node new_node (h, m) =
    let n = void2node offset node in
    let p = void2node offset new_node in
    let m1 = set_previous m p (m n).previous in
    let (h2, m2) = link_next (h, m1) (m1 n).previous (some p) in
    (h2, set_previous (set_next m2 p (some n)) n (some p))

unfoldable pub list_add_after : ℕ → ℕ → ℕ → State → State
list_add_after offset node new_node (h, m) =
    let n = void2node offset node in
    let p = void2node offset new_node in
    let m1 = set_previous m p (some n) in
    let m2 = set_next m1 p (m1 n).next in
    let (h3, m3) = link_previous (h, m2) (m2 n).next (some p) in (h3, set_next m3 n (some p))

unfoldable pub list_remove : ℕ → ℕ → State → State
list_remove offset node (h, m) =
    let n = void2node offset node in
    let (h1, m1) = link_next (h, m) (m n).previous (m n).next in
    link_previous (h1, m1) (m1 n).next (m1 n).previous

abbrev pub list_is_empty : ListHead → Bool
list_is_empty h = is_none h.first

abbrev pub list_get_first : ListHead → ℕ → Option ℕ
list_get_first h offset = Option.map (node2void offset) h.first

abbrev pub list_get_last : ListHead → ℕ → Option ℕ
list_get_last h offset = Option.map (node2void offset) h.last

abbrev pub list_get_next : Store → ℕ → ℕ → Option ℕ
list_get_next m node offset = Option.map (node2void offset) (m (void2node offset node)).next

abbrev pub list_get_previous : Store → ℕ → ℕ → Option ℕ
list_get_previous m node offset = Option.map (node2void offset) (m (void2node offset node)).previous

-- `struct listm_head`, which keeps the offset; `no_offset` is `~(size_t)0`.
pub record ListmHead : Type 0 where
  pub list_head : ListHead
  pub offset : ℕ

abbrev pub no_offset : ℕ
no_offset = 2 ^ 64 - 1

abbrev pub listm_head_init : ListmHead → ℕ → ListmHead
listm_head_init h offset = record h { offset = offset; list_head = list_head_init h.list_head }

abbrev pub listm_head_finalize : ListmHead → ListmHead × Bool
listm_head_finalize h = (record h { offset = no_offset }, list_head_finalize h.list_head)

-- An operation of the list on the head in a `struct listm_head`.
abbrev on_head : (ℕ → State → State) → ListmHead × Store → ListmHead × Store
on_head f (h, m) = let (l, m') = f h.offset (h.list_head, m) in (record h { list_head = l }, m')

abbrev pub listm_add_first : ℕ → ListmHead × Store → ListmHead × Store
listm_add_first new_node = on_head (λ o. list_add_first o new_node)

abbrev pub listm_add_last : ℕ → ListmHead × Store → ListmHead × Store
listm_add_last new_node = on_head (λ o. list_add_last o new_node)

abbrev pub listm_add_before : ℕ → ℕ → ListmHead × Store → ListmHead × Store
listm_add_before node new_node = on_head (λ o. list_add_before o node new_node)

abbrev pub listm_add_after : ℕ → ℕ → ListmHead × Store → ListmHead × Store
listm_add_after node new_node = on_head (λ o. list_add_after o node new_node)

abbrev pub listm_remove : ℕ → ListmHead × Store → ListmHead × Store
listm_remove node = on_head (λ o. list_remove o node)

abbrev pub listm_is_empty : ListmHead → Bool
listm_is_empty h = list_is_empty h.list_head

abbrev pub listm_get_first : ListmHead → Option ℕ
listm_get_first h = list_get_first h.list_head h.offset

abbrev pub listm_get_last : ListmHead → Option ℕ
listm_get_last h = list_get_last h.list_head h.offset

abbrev pub listm_get_next : ListmHead → Store → ℕ → Option ℕ
listm_get_next h m node = list_get_next m node h.offset

abbrev pub listm_get_previous : ListmHead → Store → ℕ → Option ℕ
listm_get_previous h m node = list_get_previous m node h.offset

-- The loop of `listm_get_size`; `none` is running out of fuel.
unfoldable pub size_loop : ListmHead → Store → ℕ → ℕ → ℕ → Option ℕ
size_loop h m zero ptr len = none
size_loop h m (suc fuel) ptr len = elim (listm_get_next h m ptr) [
  | none ↦ some len
  | some ptr' ↦ size_loop h m fuel ptr' (len + 1)
]

unfoldable pub listm_get_size : ℕ → ListmHead → Store → Option ℕ
listm_get_size fuel h m =
    if listm_is_empty h
    then some 0
    else elim (listm_get_first h) [ none ↦ none | some ptr ↦ size_loop h m fuel ptr 1 ]
