-- ===== src/Format/Tests.antt =====
-- tools/format_check.c: short files.
use sabo.Base.{ℕ, ◌≡◌, refl, true, false, not, ◌&&◌, List, [], ◌∷◌}
use sabo.Format.{
  scan_char, scan_space, scan_tab, scan_other, scan_line, line_ok, check_lines, check,
}
use sabo.Format.Files.{all_ok, two_empty, ends_empty, check-clean}

-- Two spaces, a tabulation, an x, a space and the end of the line.
abbrev messy : List ℕ
messy = 32 ∷ 32 ∷ 9 ∷ 120 ∷ 32 ∷ 10 ∷ []

abbrev plain : List ℕ
plain = 9 ∷ 120 ∷ 10 ∷ []

messy-refused : check (messy ∷ []) false ≡ false
unfolding check check_lines scan_line scan_char scan_space scan_tab scan_other line_ok
messy-refused = refl

plain-accepted : check (plain ∷ (10 ∷ []) ∷ plain ∷ []) false ≡ true
unfolding check check_lines scan_line scan_char scan_space scan_tab scan_other line_ok
plain-accepted = refl

two_empty-refused : check (plain ∷ (10 ∷ []) ∷ (10 ∷ []) ∷ plain ∷ []) false ≡ false
unfolding check check_lines scan_line scan_char scan_space scan_tab scan_other line_ok
two_empty-refused = refl

check-clean_example : check (plain ∷ messy ∷ []) false ≡ (
    not false
    && (all_ok (plain ∷ messy ∷ [])
        && (not (two_empty false (plain ∷ messy ∷ []))
            && not (ends_empty false (plain ∷ messy ∷ [])))))
check-clean_example = check-clean (plain ∷ messy ∷ []) false
