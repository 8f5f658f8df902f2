-- ===== src/Slurm.antt =====
-- tools/slurm_variables_parser.c: the number of tasks of this node from the variables of SLURM. A
-- string is the list of the codes of its characters, without the final NUL; a pointer into it is
-- the rest of the string. `strtol` is the C library's in base 10, for values that fit a `long`.
-- Messages are left out. The array is filled from its start and is the list of the values written.
mod Digits
mod Entries
mod Node
mod Tests
use sabo.Base.{
  ℕ, zero, suc, ◌+◌, ◌*◌, ◌-◌, ◌%◌, ◌^◌, Bool, true, false, not, ◌&&◌, ◌||◌, Option, none, some,
  List, [], ◌∷◌, ◌++◌, length, get_elem?, ltb, leb, ◌==◌, if◌then◌else◌, ℤ, pos, negsuc, pos_part,
  ◌-ℤ◌, ltb_ℤ, eqb_ℤ,
}

abbrev pub Text : Type 0
Text = List ℕ

-- What a call does: it returns, or an assertion fails, or it reads outside the array.
pub data Outcome (A : Type 0) : Type 0 where
  returns : A → Outcome A
  assertion_failed : Outcome A
  out_of_bounds : Outcome A

abbrev pub is_digit : ℕ → Bool
is_digit c = leb 48 c && leb c 57

abbrev pub is_space : ℕ → Bool
is_space c = (c == 32) || (leb 9 c && leb c 13)

abbrev pub skip_spaces : Text → Text
skip_spaces [] = []
skip_spaces (c ∷ cs) = let rest = skip_spaces cs in if is_space c then rest else c ∷ cs

-- The digits at the start of the text, on top of the value `n`.
unfoldable pub digits_loop : ℕ → Text → ℕ × Text
digits_loop n [] = (n, [])
digits_loop n (c ∷ cs) =
    let rest = digits_loop (n * 10 + (c - 48)) cs in if is_digit c then rest else (n, c ∷ cs)

abbrev pub starts_digit : Text → Bool
starts_digit [] = false
starts_digit (c ∷ cs) = is_digit c

-- `strtol` of the whole text, after its spaces.
abbrev pub sign_and_digits : Text → Text → ℤ × Text × Bool
sign_and_digits cs [] = (pos 0, cs, false)
sign_and_digits cs (c ∷ rest) =
    let digits = if (c == 45) || (c == 43) then rest else c ∷ rest in
    let (n, after) = digits_loop 0 digits in
    if starts_digit digits
    then ((if c == 45 then pos 0 -ℤ pos n else pos n), after, true)
    else (pos 0, cs, false)

-- The value, the rest, and whether the rest is not the whole text.
unfoldable pub strtol : Text → ℤ × Text × Bool
strtol cs = sign_and_digits cs (skip_spaces cs)

-- The cast of a `long` that is not negative to `int`.
abbrev pub to_int : ℕ → ℤ
to_int n = let m = n % 2 ^ 32 in if ltb m (2 ^ 31) then pos m else negsuc (2 ^ 32 - m - 1)

unfoldable pub read_integer : Text → Bool → ℤ × Text
read_integer string allow_zero =
    let (value, end_string, moved) = strtol string in
    if eqb_ℤ (pos 0) value && not allow_zero
    then (negsuc 0, end_string)
    else if ltb_ℤ value (pos 0) || not moved
    then (negsuc 0, end_string)
    else (to_int (pos_part value), end_string)

-- Lines 57-73, after `(x`.
unfoldable pub close_repeat : ℤ → Text → ℤ × Text
close_repeat count [] = (negsuc 0, [])
close_repeat count (c ∷ cs) =
    if eqb_ℤ (pos 0) count
    then (negsuc 0, c ∷ cs)
    else if c == 41
    then (count, cs)
    else (negsuc 0, c ∷ cs)

unfoldable pub read_slurm_ppn_repeat_count : Text → ℤ × Text
read_slurm_ppn_repeat_count [] = (pos 0, [])
read_slurm_ppn_repeat_count (c ∷ cs) = if not (c == 40) then (pos 0, c ∷ cs) else elim cs [
  | [] ↦ (negsuc 0, [])
  | d ∷ ds ↦
      if not (d == 120)
      then (negsuc 0, d ∷ ds)
      else (let (count, rest) = read_integer ds false in close_repeat count rest)
]

-- The `for` loop of line 105. `none` is the assertion.
unfoldable pub fill : ℤ → ℕ → ℕ → List ℤ → Option (List ℤ)
fill count size zero array = some array
fill count size (suc n) array =
    let rest = fill count size n (array ++ count ∷ []) in
    if ltb (length array) size then rest else none

-- One round of the `while` loop, up to the separator: an error, or the rest of the text and the
-- array.
unfoldable pub parse_entry : ℕ → Text → List ℤ → Outcome (Option (Text × List ℤ))
parse_entry size string array =
    let (count, end_string) = read_integer string false in
    if not (ltb_ℤ (pos 0) count)
    then returns none
    else (let (times, after) = read_slurm_ppn_repeat_count end_string in
        if ltb_ℤ times (pos 0)
        then returns none
        else elim (fill count size (if eqb_ℤ (pos 0) times then 1 else pos_part times) array) [
          | none ↦ assertion_failed
          | some array' ↦ returns (some (after, array'))
        ])

-- `none` is the result -1. The fuel bounds the number of the entries.
unfoldable pub parse_loop : ℕ → ℕ → Text → List ℤ → Outcome (Option (List ℤ))
parse_loop zero size string array = returns none
parse_loop (suc fuel) size [] array = returns (if length array == size then some array else none)
parse_loop (suc fuel) size (c ∷ cs) array = elim (parse_entry size (c ∷ cs) array) [
  | assertion_failed ↦ assertion_failed
  | out_of_bounds ↦ out_of_bounds
  | returns none ↦ returns none
  | returns (some ([], array')) ↦ returns (if length array' == size then some array' else none)
  | returns (some (d ∷ ds, array')) ↦
      let rest = parse_loop fuel size ds array' in if d == 44 then rest else returns none
]

-- Each entry has a character or more.
unfoldable pub read_slurm_tasks_ppn_parse : Text → ℕ → Outcome (Option (List ℤ))
read_slurm_tasks_ppn_parse string size = parse_loop (suc (length string)) size string []

pub data SlurmName : Type 0 where
  slurm_job_num_nodes : SlurmName
  slurm_nodeid : SlurmName
  slurm_localid : SlurmName
  slurm_tasks_per_node : SlurmName

-- `getenv` is the C library's.
module _ (getenv : SlurmName → Option Text) where
  unfoldable pub read_slurm_integer_env_variable : SlurmName → Bool → ℤ
  read_slurm_integer_env_variable name allow_zero = elim (getenv name) [
    | none ↦ negsuc 0
    | some env ↦
        let value = (read_integer env allow_zero).0 in
        if ltb_ℤ value (pos 0) || (eqb_ℤ (pos 0) value && not allow_zero) then negsuc 0 else value
  ]

  unfoldable pub read_slurm_job_nodes_env_variable : ℤ
  read_slurm_job_nodes_env_variable = read_slurm_integer_env_variable slurm_job_num_nodes false

  unfoldable pub read_slurm_job_nodeid_env_variable : ℤ
  read_slurm_job_nodeid_env_variable = read_slurm_integer_env_variable slurm_nodeid true

  unfoldable pub read_slurm_node_localid_env_variable : ℤ
  read_slurm_node_localid_env_variable = read_slurm_integer_env_variable slurm_localid true

  -- `array[node_id]`, line 210.
  unfoldable pub read_array : List ℤ → ℤ → Outcome ℤ
  read_array array node_id =
      if ltb_ℤ node_id (pos 0)
      then out_of_bounds
      else elim (get_elem? array (pos_part node_id)) [ none ↦ out_of_bounds | some v ↦ returns v ]

  -- Lines 197-216.
  unfoldable pub read_tasks : ℤ → ℤ → Outcome ℤ
  read_tasks num_nodes node_id = elim (getenv slurm_tasks_per_node) [
    | none ↦ returns (negsuc 0)
    | some env ↦ elim (read_slurm_tasks_ppn_parse env (pos_part num_nodes)) [
      | assertion_failed ↦ assertion_failed
      | out_of_bounds ↦ out_of_bounds
      | returns none ↦ returns (negsuc 0)
      | returns (some array) ↦ read_array array node_id
    ]
  ]

  -- Line 192 tests `num_nodes` again, not `node_id`.
  unfoldable pub read_slurm_get_node_tasks_per_node_env_variable : Outcome ℤ
  read_slurm_get_node_tasks_per_node_env_variable =
      let local_id = read_slurm_node_localid_env_variable in
      let num_nodes = read_slurm_job_nodes_env_variable in
      let node_id = read_slurm_job_nodeid_env_variable in
      if ltb_ℤ local_id (pos 0)
      then returns (negsuc 0)
      else if not (ltb_ℤ (pos 0) num_nodes)
      then returns (negsuc 0)
      else if ltb_ℤ num_nodes (pos 0)
      then returns (negsuc 0)
      else if ltb_ℤ node_id num_nodes
      then read_tasks num_nodes node_id
      else assertion_failed
