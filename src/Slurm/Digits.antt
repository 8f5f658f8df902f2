-- ===== src/Slurm/Digits.antt =====
-- read_integer (tools/slurm_variables_parser.c).
use sabo.Base.{
  ℕ, ◌+◌, ◌*◌, ◌-◌, ◌^◌, ◌<◌, ◌≤◌, ◌≡◌, refl, Bool, true, false, List, [], ◌∷◌, ◌++◌, arith, pos,
  ◌==◌, ltb_ℤ, eqb_ℤ, ◌%◌,
}
use native.Mathlib.Nat.{mod-eq_of_lt}
use sabo.Slurm.{
  Text, is_digit, is_space, skip_spaces, starts_digit, digits_loop, strtol, to_int, read_integer,
}

-- Every number of the list is a decimal digit.
abbrev pub Decimal : List ℕ → Type 0
Decimal [] = Unit {0}
Decimal (d ∷ ds) = (d ≤ 9) × Decimal ds

-- The number that has the digits, on top of `n`.
unfoldable pub value_from : ℕ → List ℕ → ℕ
value_from n [] = n
value_from n (d ∷ ds) = value_from (n * 10 + d) ds

-- The characters of the digits.
abbrev pub digits_text : List ℕ → Text
digits_text [] = []
digits_text (d ∷ ds) = (48 + d) ∷ digits_text ds

pub digits_loop-text :
    (n : ℕ) (ds : List ℕ) (rest : Text)
    → Decimal ds
    → starts_digit rest ≡ false
    → digits_loop n (digits_text ds ++ rest) ≡ (value_from n ds, rest)
unfolding digits_loop value_from
digits_loop-text n [] [] h k = refl
digits_loop-text n [] (c ∷ cs) h k = rw k refl
digits_loop-text n (d ∷ ds) rest h k =
    let is : is_digit (48 + d) ≡ true = ground (arith, h.0) in
    let e : n * 10 + (48 + d - 48) ≡ n * 10 + d = omega arith in
    rw (is, e) (digits_loop-text (n * 10 + d) ds rest h.1 k)

strtol-text :
    (d : ℕ) (ds : List ℕ) (rest : Text)
    → Decimal (d ∷ ds)
    → starts_digit rest ≡ false
    → strtol ((48 + d) ∷ (digits_text ds ++ rest)) ≡ (pos (value_from 0 (d ∷ ds)), rest, true)
unfolding strtol
strtol-text d ds rest h k =
    let no_space : is_space (48 + d) ≡ false = ground (arith, h.0) in
    let no_minus : (48 + d == 45) ≡ false = ground arith in
    let no_plus : (48 + d == 43) ≡ false = ground arith in
    let digit : is_digit (48 + d) ≡ true = ground (arith, h.0) in
    let cs = (48 + d) ∷ (digits_text ds ++ rest) in
    let spaces : skip_spaces cs ≡ cs = rw no_space refl in
    rw (strtol, spaces, no_minus, no_plus, digit, digits_loop-text 0 (d ∷ ds) rest h k) refl

to_int-small : (n : ℕ) → n < 2 ^ 31 → to_int n ≡ pos n
to_int-small n h = let e : n % 2 ^ 32 ≡ n = mod-eq_of_lt (omega (arith, h)) in rw e (ground arith)

-- A positive number that fits an `int` is read, up to the first character that is no digit.
pub read_integer-text :
    (d : ℕ) (ds : List ℕ) (rest : Text) (allow_zero : Bool)
    → Decimal (d ∷ ds)
    → starts_digit rest ≡ false
    → 0 < value_from 0 (d ∷ ds)
    → value_from 0 (d ∷ ds) < 2 ^ 31
    → read_integer (digits_text (d ∷ ds) ++ rest) allow_zero ≡ (pos (value_from 0 (d ∷ ds)), rest)
unfolding read_integer
read_integer-text d ds rest allow_zero h k low high =
    let positive : eqb_ℤ (pos 0) (pos (value_from 0 (d ∷ ds))) ≡ false = ground arith in
    let not_negative : ltb_ℤ (pos (value_from 0 (d ∷ ds))) (pos 0) ≡ false = ground arith in
    rw
      (
        read_integer,
        strtol-text d ds rest h k,
        positive,
        not_negative,
        to_int-small (value_from 0 (d ∷ ds)) high,
      )
      refl
