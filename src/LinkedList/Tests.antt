-- ===== src/LinkedList/Tests.antt =====
-- A list of three objects whose nodes are at offset 8.
use sabo.Base.{◌≡◌, refl, [], ◌∷◌, arith, none, some}
use sabo.LinkedList.{
  State, ListmHead, ListHead, list_head_init, list_add_first, list_add_last, list_add_before,
  list_add_after, list_remove, link_next, link_previous, listm_get_size, size_loop,
}
use sabo.LinkedList.Seg.{Represents}
use sabo.LinkedList.Objects.{
  list_head_init-Represents, list_add_first-Represents, list_add_last-Represents,
  list_add_beside-Represents,
}
use sabo.LinkedList.Remove.{list_remove-Represents}

abbrev garbage : ListHead
garbage = record { first = some 1; last = none }

abbrev start : State
start = (list_head_init garbage, λ a. record { previous = some a; next = some 5 })

start-Represents : Represents 8 start []
start-Represents = list_head_init-Represents 8 garbage start.1

abbrev one : State
one = list_add_first 8 100 start

one-Represents : Represents 8 one (100 ∷ [])
one-Represents = list_add_first-Represents 8 100 start [] start-Represents tt

abbrev two : State
two = list_add_last 8 200 one

two-Represents : Represents 8 two (100 ∷ 200 ∷ [])
two-Represents = list_add_last-Represents 8 200 one (100 ∷ []) one-Represents (omega arith, tt)

abbrev three : State
three = list_add_after 8 100 150 two

list_add_beside-Represents_example :
    Represents 8 (list_add_before 8 100 150 two) (150 ∷ 100 ∷ 200 ∷ [])
    × Represents 8 three (100 ∷ 150 ∷ 200 ∷ [])
list_add_beside-Represents_example =
    list_add_beside-Represents 8 100 150 two [] (200 ∷ []) two-Represents
      (omega arith, (omega arith, tt))

three-Represents : Represents 8 three (100 ∷ 150 ∷ 200 ∷ [])
three-Represents =
    (list_add_beside-Represents 8 100 150 two [] (200 ∷ []) two-Represents
      (omega arith, (omega arith, tt))).1

list_remove-Represents_example :
    Represents 8 (list_remove 8 150 three) (100 ∷ 200 ∷ [])
    × ((list_remove 8 150 three).1 158 ≡ three.1 158)
list_remove-Represents_example =
    list_remove-Represents 8 150 150 three (100 ∷ []) (200 ∷ []) three-Represents
      (omega arith, (omega arith, tt))

abbrev managed : ListmHead
managed = record { list_head = three.0; offset = 8 }

-- The same list built and walked by running the code.
managed_size : listm_get_size 3 managed three.1 ≡ some 3
unfolding listm_get_size size_loop list_add_first list_add_last list_add_after link_next
    link_previous
managed_size = refl
