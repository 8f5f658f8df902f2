-- ===== src/Format/Lines.antt =====
-- tools/format_check.c: the scan of one line.
use sabo.Base.{
  ℕ, ◌≡◌, refl, sym, ◌∙◌, Bool, false, not, ◌&&◌, ◌||◌, List, [], ◌∷◌, ◌==◌, if◌then◌else◌, arith,
  Bool-cases, inl, inr,
}
use sabo.Format.{
  Bol, unset, spaces, tabs, past, Scan, fresh, scan_space, scan_tab, scan_other, scan_char,
  scan_line,
}

abbrev blank : ℕ → Bool
blank c = (c == 32) || (c == 9)

-- A character that shows: no blank and no end of line.
abbrev pub shown : ℕ → Bool
shown c = not (blank c || (c == 10))

abbrev pub any_shown : List ℕ → Bool
any_shown [] = false
any_shown (c ∷ cs) = shown c || any_shown cs

abbrev pub any_blank : List ℕ → Bool
any_blank [] = false
any_blank (c ∷ cs) = blank c || any_blank cs

-- What stands behind the last character that shows.
unfoldable pub tail_of : List ℕ → List ℕ
tail_of [] = []
tail_of (c ∷ cs) = if any_shown cs then tail_of cs else if shown c then cs else c ∷ cs

-- The blanks at the beginning have a tabulation behind a space.
abbrev pub tab_later : List ℕ → Bool
tab_later [] = false
tab_later (c ∷ cs) = if c == 32 then tab_later cs else c == 9

abbrev pub bad_indent : List ℕ → Bool
bad_indent [] = false
bad_indent (c ∷ cs) = if c == 32 then tab_later cs else if c == 9 then bad_indent cs else false

empty-scan :
    (cs : List ℕ) (s : Scan) → (scan_line cs s).empty_line ≡ (s.empty_line && not (any_shown cs))
unfolding scan_line scan_char scan_space scan_tab scan_other
empty-scan [] s = ground arith
empty-scan (c ∷ cs) s = empty-scan cs (scan_char c s) ∙ ground arith

-- The blanks that make a line mixed, from each kind of beginning.
abbrev mixes : Bol → List ℕ → Bool
mixes unset cs = bad_indent cs
mixes tabs cs = bad_indent cs
mixes spaces cs = tab_later cs
mixes past cs = false

mixed-char :
    (c : ℕ) (cs : List ℕ) (s : Scan) (b : Bol)
    → s.bol ≡ b
    → ((scan_char c s).mixed || mixes (scan_char c s).bol cs) ≡ (s.mixed || mixes b (c ∷ cs))
unfolding scan_char scan_space scan_tab scan_other
mixed-char c cs s unset e = rw e (ground arith)
mixed-char c cs s spaces e = rw e (ground arith)
mixed-char c cs s tabs e = rw e (ground arith)
mixed-char c cs s past e = rw e (ground arith)

no_mix : (b : Bol) (m : Bool) → (m || mixes b []) ≡ m
no_mix unset m = ground arith
no_mix spaces m = ground arith
no_mix tabs m = ground arith
no_mix past m = ground arith

mixed-scan : (cs : List ℕ) (s : Scan) → (scan_line cs s).mixed ≡ (s.mixed || mixes s.bol cs)
unfolding scan_line
mixed-scan [] s = sym (no_mix s.bol s.mixed)
mixed-scan (c ∷ cs) s = mixed-scan cs (scan_char c s) ∙ mixed-char c cs s s.bol refl

trailing-scan :
    (cs : List ℕ) (s : Scan)
    → ((scan_line cs s).trailing_line == 0) ≡ (
        if any_shown cs
        then not (any_blank (tail_of cs))
        else (s.trailing_line == 0) && not (any_blank cs))
unfolding scan_line scan_char scan_space scan_tab scan_other tail_of
trailing-scan [] s = ground arith
trailing-scan (c ∷ cs) s = trailing-scan cs (scan_char c s) ∙ ground arith

tail-all : (cs : List ℕ) → any_shown cs ≡ false → tail_of cs ≡ cs
unfolding tail_of
tail-all [] e = refl
tail-all (c ∷ cs) e = ground arith

-- The scan of a line takes it for an empty one exactly if no character of it shows, reports trailing
-- blanks exactly if there is a blank behind its last character that shows, and reports a mixed
-- indentation exactly if a tabulation stands behind a space among the blanks that it begins with.
pub scan_line-reports :
    (cs : List ℕ)
    → ((scan_line cs fresh).empty_line ≡ not (any_shown cs))
      × (((scan_line cs fresh).trailing_line == 0) ≡ not (any_blank (tail_of cs)))
      × ((scan_line cs fresh).mixed ≡ bad_indent cs)
scan_line-reports cs = (
  empty-scan cs fresh,
  elim (Bool-cases (any_shown cs)) [
    | inl e ↦ rw e at (trailing-scan cs fresh)
    | inr e ↦ rw (tail-all cs e) (rw e at (trailing-scan cs fresh))
  ],
  mixed-scan cs fresh,
)
