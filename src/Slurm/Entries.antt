-- ===== src/Slurm/Entries.antt =====
-- read_slurm_tasks_ppn_parse (tools/slurm_variables_parser.c).
use sabo.Base.{
  ℕ, zero, suc, ◌+◌, ◌^◌, ◌<◌, ◌≤◌, ◌≡◌, refl, sym, ◌∙◌, ap, true, false, Option, none, some, List,
  [], ◌∷◌, ◌++◌, length, length-append, arith, ℤ, pos, pos_part, ltb, ltb_ℤ, eqb_ℤ, ◌==◌,
  if◌then◌else◌,
}
use mathlib.Core.List.{append_assoc, append-nil}
use sabo.Slurm.{
  Text, returns, starts_digit, read_integer, close_repeat, read_slurm_ppn_repeat_count, fill,
  parse_entry, parse_loop, read_slurm_tasks_ppn_parse,
}
use sabo.Slurm.Digits.{Decimal, value_from, digits_text, read_integer-text}

-- A count, and how often it is repeated: the digits of the two numbers, the first one apart.
pub record Entry : Type 0 where
  pub count : ℕ × List ℕ
  pub times : Option (ℕ × List ℕ)

abbrev pub number : ℕ × List ℕ → ℕ
number (d, ds) = value_from 0 (d ∷ ds)

abbrev pub number_text : ℕ × List ℕ → Text
number_text (d, ds) = digits_text (d ∷ ds)

-- A positive number that fits an `int`.
pub record IsPositive (n : ℕ × List ℕ) : Type 0 where
  pub decimal : Decimal (n.0 ∷ n.1)
  pub positive : 0 < number n
  pub fits : number n < 2 ^ 31

abbrev pub times_text : Option (ℕ × List ℕ) → Text
times_text none = []
times_text (some n) = 40 ∷ 120 ∷ (number_text n ++ 41 ∷ [])

abbrev pub times_number : Option (ℕ × List ℕ) → ℕ
times_number none = 1
times_number (some n) = number n

abbrev pub IsTimes : Option (ℕ × List ℕ) → Type 0
IsTimes none = Unit {0}
IsTimes (some n) = IsPositive n

abbrev pub IsEntry : Entry → Type 0
IsEntry e = IsPositive e.count × IsTimes e.times

abbrev pub entry_text : Entry → Text
entry_text e = number_text e.count ++ times_text e.times

-- The text of the entries after the first one, with a comma before each.
abbrev pub rest_text : List Entry → Text
rest_text [] = []
rest_text (e ∷ es) = 44 ∷ (entry_text e ++ rest_text es)

abbrev pub AllEntries : List Entry → Type 0
AllEntries [] = Unit {0}
AllEntries (e ∷ es) = IsEntry e × AllEntries es

abbrev pub repeat : ℕ → ℤ → List ℤ
repeat zero v = []
repeat (suc n) v = v ∷ repeat n v

-- The numbers of tasks that the entries say, node by node.
abbrev pub tasks : List Entry → List ℤ
tasks [] = []
tasks (e ∷ es) = repeat (times_number e.times) (pos (number e.count)) ++ tasks es

-- The rest of a text after an entry: nothing, or a comma.
abbrev EndsEntry : Text → Type 0
EndsEntry [] = Unit {0}
EndsEntry (c ∷ cs) = c ≡ 44

rest_text-EndsEntry : (es : List Entry) → EndsEntry (rest_text es)
rest_text-EndsEntry [] = tt
rest_text-EndsEntry (e ∷ es) = refl

length-repeat : (n : ℕ) (v : ℤ) → length (repeat n v) ≡ n
length-repeat zero v = refl
length-repeat (suc n) v = ap suc (length-repeat n v)

fill-repeat :
    (v : ℤ) (size n : ℕ) (array : List ℤ)
    → length array + n ≤ size
    → fill v size n array ≡ some (array ++ repeat n v)
unfolding fill
fill-repeat v size zero array h = ap some (sym (append-nil array))
fill-repeat v size (suc n) array h =
    let more : ltb (length array) size ≡ true = ground arith in
    rw more (
      fill-repeat v size n (array ++ v ∷ []) (omega (arith, length-append array (v ∷ [])))
      ∙ ap some (append_assoc array (v ∷ []) (repeat n v)))

-- After the count of an entry stands no digit.
times_text-end :
    (t : Option (ℕ × List ℕ)) (rest : Text)
    → EndsEntry rest
    → starts_digit (times_text t ++ rest) ≡ false
times_text-end none [] h = refl
times_text-end none (c ∷ cs) h = rw h refl
times_text-end (some n) rest h = refl

repeat_count-text :
    (t : Option (ℕ × List ℕ)) (rest : Text)
    → IsTimes t
    → EndsEntry rest
    → (z : ℤ) × (read_slurm_ppn_repeat_count (times_text t ++ rest) ≡ (z, rest))
      × (ltb_ℤ z (pos 0) ≡ false)
      × ((if eqb_ℤ (pos 0) z then 1 else pos_part z) ≡ times_number t)
unfolding read_slurm_ppn_repeat_count close_repeat value_from
repeat_count-text none [] h k = (pos 0, refl, refl, refl)
repeat_count-text none (c ∷ cs) h k = (pos 0, rw k refl, refl, refl)
repeat_count-text (some n) rest h k =
    let nonzero : eqb_ℤ (pos 0) (pos (number n)) ≡ false = ground (arith, h.positive) in
    (
      pos (number n),
      rw
          (
            append_assoc (digits_text n.1) (41 ∷ []) rest,
            read_integer-text n.0 n.1 (41 ∷ rest) false h.decimal refl h.positive h.fits,
          )
          (rw (close_repeat, nonzero) refl),
      ground arith,
      rw nonzero refl,
    )

-- Every entry but the first has a comma.
rest_text-long : (es : List Entry) → length es ≤ length (rest_text es)
rest_text-long [] = omega arith
rest_text-long (e ∷ es) =
    omega (arith, rest_text-long es, length-append (entry_text e) (rest_text es))

parse_entry-runs :
    (size : ℕ) (string end after : Text) (array array' : List ℤ) (count times : ℤ)
    → read_integer string false ≡ (count, end)
    → ltb_ℤ (pos 0) count ≡ true
    → read_slurm_ppn_repeat_count end ≡ (times, after)
    → ltb_ℤ times (pos 0) ≡ false
    → fill count size (if eqb_ℤ (pos 0) times then 1 else pos_part times) array ≡ some array'
    → parse_entry size string array ≡ returns (some (after, array'))
unfolding parse_entry
parse_entry-runs size string end after array array' count times a b c d f =
    rw (parse_entry, a, b, c, d, f)
      (ap (λ x. returns (some (x, array')))
        (ap (λ r. (read_slurm_ppn_repeat_count r.1).1) a ∙ ap (λ r. r.1) c))

parse_entry-text :
    (size : ℕ) (e : Entry) (rest : Text) (array : List ℤ)
    → IsEntry e
    → EndsEntry rest
    → length array + times_number e.times ≤ size
    → parse_entry size (entry_text e ++ rest) array
      ≡ returns (some (rest, array ++ repeat (times_number e.times) (pos (number e.count))))
parse_entry-text size e rest array h k fit =
    let c = h.0 in
    let after = times_text e.times ++ rest in
    let (z, er, nonneg, times) = repeat_count-text e.times rest h.1 k in
    let read =
      read_integer-text e.count.0 e.count.1 after false c.decimal (times_text-end e.times rest k)
        c.positive c.fits in
    let positive : ltb_ℤ (pos 0) (pos (number e.count)) ≡ true = ground (arith, c.positive) in
    rw (append_assoc (digits_text e.count.1) (times_text e.times) rest) (
      parse_entry-runs size _ after rest array _ (pos (number e.count)) z read positive er nonneg
        (rw times (fill-repeat (pos (number e.count)) size (times_number e.times) array fit)))

parse_loop-last :
    (fuel size c : ℕ) (cs : Text) (array array' : List ℤ)
    → parse_entry size (c ∷ cs) array ≡ returns (some ([], array'))
    → length array' ≡ size
    → parse_loop (suc fuel) size (c ∷ cs) array ≡ returns (some array')
unfolding parse_loop
parse_loop-last fuel size c cs array array' e h =
    let full : (length array' == size) ≡ true = ground arith in rw (parse_loop, e, full) refl

parse_loop-more :
    (fuel size c : ℕ) (cs ds : Text) (array array' : List ℤ)
    → parse_entry size (c ∷ cs) array ≡ returns (some (44 ∷ ds, array'))
    → parse_loop (suc fuel) size (c ∷ cs) array ≡ parse_loop fuel size ds array'
unfolding parse_loop
parse_loop-more fuel size c cs ds array array' e = rw (parse_loop, e) refl

parse_loop-text :
    (fuel size : ℕ) (e : Entry) (es : List Entry) (array : List ℤ)
    → length es < fuel
    → IsEntry e
    → AllEntries es
    → length array + length (tasks (e ∷ es)) ≡ size
    → parse_loop fuel size (entry_text e ++ rest_text es) array
      ≡ returns (some (array ++ tasks (e ∷ es)))
parse_loop-text zero size e es array f h hs fit = absurd (omega arith)
parse_loop-text (suc fuel) size e [] array f h hs fit =
    let v = pos (number e.count) in
    let n = times_number e.times in
    let more = length-repeat n v in
    let all = length-append (repeat n v) [] in
    parse_loop-last fuel size (48 + e.count.0) _ array (array ++ repeat n v)
      (parse_entry-text size e [] array h tt (omega (arith, fit, more, all)))
      (omega (arith, fit, more, all, length-append array (repeat n v)))
    ∙ ap (λ xs. returns (some (array ++ xs))) (sym (append-nil (repeat n v)))
parse_loop-text (suc fuel) size e (e' ∷ es) array f h hs fit =
    let v = pos (number e.count) in
    let n = times_number e.times in
    let more = length-repeat n v in
    let all = length-append (repeat n v) (tasks (e' ∷ es)) in
    parse_loop-more fuel size (48 + e.count.0) _ (entry_text e' ++ rest_text es) array
      (array ++ repeat n v)
      (parse_entry-text size e (rest_text (e' ∷ es)) array h refl (omega (arith, fit, more, all)))
    ∙ parse_loop-text fuel size e' es (array ++ repeat n v) (omega arith) hs.0 hs.1
        (omega (arith, fit, more, all, length-append array (repeat n v)))
    ∙ ap (λ xs. returns (some xs)) (append_assoc array (repeat n v) (tasks (e' ∷ es)))

-- The text of entries that give each node its number of tasks is parsed, with the fuel that the code
-- is given, into those numbers.
pub parse-entries :
    (e : Entry) (es : List Entry)
    → IsEntry e
    → AllEntries es
    → read_slurm_tasks_ppn_parse (entry_text e ++ rest_text es) (length (tasks (e ∷ es)))
      ≡ returns (some (tasks (e ∷ es)))
unfolding read_slurm_tasks_ppn_parse
parse-entries e es h hs =
    parse_loop-text (suc (length (entry_text e ++ rest_text es))) (length (tasks (e ∷ es))) e es []
      (omega (arith, length-append (entry_text e) (rest_text es), rest_text-long es)) h hs
      (omega arith)
