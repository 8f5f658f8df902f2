-- ===== src/Format/Files.antt =====
-- tools/format_check.c: a whole file.
use sabo.Base.{
  ℕ, suc, ◌≡◌, refl, ◌∙◌, Bool, true, false, not, ◌&&◌, ◌||◌, List, [], ◌∷◌, ltb, arith, Bool-cases,
  inl, inr,
}
use sabo.Format.{fresh, scan_line, line_ok, check_lines, check}

abbrev is_empty : List ℕ → Bool
is_empty l = (scan_line l fresh).empty_line

abbrev pub all_ok : List (List ℕ) → Bool
all_ok [] = true
all_ok (l ∷ ls) = line_ok (scan_line l fresh) && all_ok ls

-- Two empty lines follow each other, the first of which is the one before `ls` where `before` is true.
abbrev pub two_empty : Bool → List (List ℕ) → Bool
two_empty before [] = false
two_empty before (l ∷ ls) = (before && is_empty l) || two_empty (is_empty l) ls

-- The last line is empty, where `before` says it of the line before `ls`.
abbrev pub ends_empty : Bool → List (List ℕ) → Bool
ends_empty before [] = before
ends_empty before (l ∷ ls) = ends_empty (is_empty l) ls

after_empty :
    (re ok clean all two ends before : Bool) (count : ℕ)
    → ltb 0 count ≡ before
    → (not re && ((ok && clean) && (all && (not (ltb 1 (suc count) || two) && ends)))) ≡ (
        not re
        && (ok && ((clean && all) && (not (ltb 1 count || ((before && true) || two)) && ends))))
after_empty re ok clean all two ends before count h = ground (arith, h)

after_text :
    (re ok clean all two ends before many : Bool)
    → (not re && ((ok && (not many && clean)) && (all && (not (false || two) && ends))))
      ≡ (not re && (ok && ((clean && all) && (not (many || ((before && false) || two)) && ends))))
after_text re ok clean all two ends before many = ground arith

check_lines-clean :
    (ls : List (List ℕ)) (read_error empty_line : Bool) (count : ℕ) (ok : Bool)
    → ltb 0 count ≡ empty_line
    → check_lines ls read_error empty_line count ok ≡ (
        not read_error
        && (ok
            && (all_ok ls
                && (not (ltb 1 count || two_empty empty_line ls)
                    && not (ends_empty empty_line ls)))))
unfolding check_lines scan_line
check_lines-clean [] read_error empty_line count ok h = ground (arith, h)
check_lines-clean (l ∷ ls) read_error empty_line count ok h =
    let clean = line_ok (scan_line l fresh) in
    elim (Bool-cases (is_empty l)) [
      | inl e ↦ rw e (
          check_lines-clean ls read_error true (suc count) (ok && clean) (ground arith)
          ∙ after_empty read_error ok clean (all_ok ls) (two_empty true ls)
              (not (ends_empty true ls)) empty_line count h)
      | inr e ↦ rw e (
          check_lines-clean ls read_error false 0 (ok && (not (ltb 1 count) && clean)) refl
          ∙ after_text read_error ok clean (all_ok ls) (two_empty false ls)
              (not (ends_empty false ls)) empty_line (ltb 1 count))
    ]

-- The program accepts a file exactly if it can be read, no line of it causes a message of its own, no
-- two empty lines follow each other, and the last line is not empty.
pub check-clean :
    (ls : List (List ℕ)) (read_error : Bool)
    → check ls read_error
      ≡ (not read_error && (all_ok ls && (not (two_empty false ls) && not (ends_empty false ls))))
unfolding check
check-clean ls read_error = check_lines-clean ls read_error false 0 true refl
