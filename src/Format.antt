-- ===== src/Format.antt =====
-- tools/format_check.c: a checker of the layout of source files, a program of its own. A file is the
-- list of the strings that `fgets` returns (a line each, or a part of a line that is longer than the
-- buffer), and whether it ends with an error of the file; a character is its code. Messages are left
-- out; a line keeps which of them it caused.
mod Lines
mod Files
mod Tests
use sabo.Base.{
  Option, none, some, ℕ, zero, suc, Bool, true, false, not, ◌&&◌, ◌||◌, List, [], ◌∷◌, ltb, leb,
  ◌==◌, if◌then◌else◌,
}

-- `bol`: what the line began with so far; `past` is -1.
pub data Bol : Type 0 where
  unset : Bol
  spaces : Bol
  tabs : Bol
  past : Bol

-- The variables of the scan of a line, and the two messages within it.
pub record Scan : Type 0 where
  pub bol : Bol
  pub empty_line : Bool
  pub in_string : Bool
  pub space_count : ℕ
  pub trailing_line : ℕ
  pub mixed : Bool
  pub too_much : Bool

abbrev pub fresh : Scan
fresh = record {
  bol = unset;
  empty_line = true;
  in_string = false;
  space_count = 0;
  trailing_line = 0;
  mixed = false;
  too_much = false;
}

-- Lines 61-75: a space. The message there is for a `bol` that is none of the four.
abbrev pub space_bol : Bol → Bol
space_bol unset = spaces
space_bol tabs = spaces
space_bol spaces = spaces
space_bol past = past

-- Lines 88-99: a tabulation.
abbrev pub tab_bol : Bol → Bol
tab_bol unset = tabs
tab_bol tabs = tabs
tab_bol spaces = past
tab_bol past = past

abbrev pub tab_mixed : Bol → Bool
tab_mixed unset = false
tab_mixed tabs = false
tab_mixed spaces = true
tab_mixed past = false

unfoldable pub scan_space : Scan → Scan
scan_space s = record s {
  space_count = if s.in_string then s.space_count else suc s.space_count;
  bol = space_bol s.bol;
  trailing_line = suc s.trailing_line;
}

unfoldable pub scan_tab : Scan → Scan
scan_tab s = record s {
  bol = tab_bol s.bol;
  mixed = s.mixed || tab_mixed s.bol;
  trailing_line = suc s.trailing_line;
}

-- Lines 101-109.
unfoldable pub scan_other : ℕ → Scan → Scan
scan_other c s = if c == 10 then record s { bol = past } else record s {
  bol = past;
  in_string = if c == 34 then not s.in_string else s.in_string;
  empty_line = false;
  trailing_line = 0;
}

-- One character of a line.
unfoldable pub scan_char : ℕ → Scan → Scan
scan_char c s =
    if c == 32
    then scan_space s
    else (let s' = record s { too_much = s.too_much || leb 8 s.space_count; space_count = 0 } in
        if c == 9 then scan_tab s' else scan_other c s')

unfoldable pub scan_line : List ℕ → Scan → Scan
scan_line [] s = s
scan_line (c ∷ cs) s = scan_line cs (scan_char c s)

-- Whether a line causes none of its own messages.
unfoldable pub line_ok : Scan → Bool
line_ok s = not s.mixed && (not s.too_much && s.trailing_line == 0)

-- The loop over the lines, with `empty_line` and `empty_line_count` of the lines before and whether
-- `rc` is 0; then the end of `check`. A file with an error gives -1.
unfoldable pub check_lines : List (List ℕ) → Bool → Bool → ℕ → Bool → Bool
check_lines [] read_error empty_line count ok = not read_error && (ok && not empty_line)
check_lines (l ∷ ls) read_error empty_line count ok =
    let s = scan_line l fresh in
    if s.empty_line
    then check_lines ls read_error true (suc count) (ok && line_ok s)
    else check_lines ls read_error false 0 (ok && (not (ltb 1 count) && line_ok s))

-- Whether `check` returns 0.
unfoldable pub check : List (List ℕ) → Bool → Bool
check lines read_error = check_lines lines read_error false 0 true

-- What `main` does with a file: `none` is one that cannot be opened, or no memory for the buffer.
unfoldable pub check_file : Option (List (List ℕ) × Bool) → Bool
check_file none = false
check_file (some (lines, read_error)) = check lines read_error

-- Whether the program exits with EXIT_SUCCESS. Every file is checked.
unfoldable pub main_loop : List (Option (List (List ℕ) × Bool)) → Bool → Bool
main_loop [] ok = ok
main_loop (f ∷ fs) ok = main_loop fs (if check_file f then ok else false)
