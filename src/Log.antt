-- ===== src/Log.antt =====
-- common/log.c and the macros of common/log.h. A printed line is a list of pieces; `ndebug` says that
-- NDEBUG is defined. A stream keeps what is printed until it is flushed. The calls that print succeed,
-- and `none` is a spin lock that is taken twice, or a recursion that is deeper than the fuel.
mod Lines
mod Tests
use sabo.Base.{
  ℕ, zero, suc, ◌+◌, ◌*◌, Bool, true, false, not, ◌&&◌, ◌||◌, Option, none, some, List, [], ◌∷◌,
  ◌++◌, if◌then◌else◌, ◌==◌, ℤ, pos, eqb_ℤ,
}
use Prim.Native.Nat.{bit_and}
use mathlib.Core.Option

pub data Stream : Type 0 where
  stdout : Stream
  stderr : Stream

pub data Header : Type 0 where
  debug_header : Header
  error_header : Header
  fatal_error_header : Header
  fatal_internal_error_header : Header
  sys_error_header : Header
  fatal_sys_error_header : Header

-- `struct level_param`
pub record LevelParam : Type 0 where
  pub fatal : Bool
  pub fileline : Bool
  pub fd : Stream
  pub header : Option Header

abbrev pub level_base : ℕ
level_base = 1

abbrev pub level_debug : ℕ
level_debug = 2

abbrev pub level_error : ℕ
level_error = 3

abbrev pub level_int_error : ℕ
level_int_error = 4

abbrev pub level_sys_error : ℕ
level_sys_error = 5

-- A level with LOG_LEVEL_FATAL, a bit that no other level has.
abbrev pub fatal_level : ℕ → ℕ
fatal_level level = level + 32768

-- `none` is the default branch.
unfoldable pub level2param : ℕ → Option LevelParam
level2param level =
    if level == level_base
    then some (record { fatal = false; fileline = false; fd = stdout; header = none })
    else if level == level_debug
    then some (record { fatal = false; fileline = true; fd = stdout; header = some debug_header })
    else if level == level_error
    then some (record { fatal = false; fileline = false; fd = stderr; header = some error_header })
    else if level == fatal_level level_error
    then some
        (record { fatal = true; fileline = true; fd = stderr; header = some fatal_error_header })
    else if level == fatal_level level_int_error
    then some (record {
      fatal = true;
      fileline = true;
      fd = stderr;
      header = some fatal_internal_error_header;
    })
    else if level == level_sys_error
    then some
        (record { fatal = false; fileline = false; fd = stderr; header = some sys_error_header })
    else if level == fatal_level level_sys_error
    then some (record {
      fatal = true;
      fileline = true;
      fd = stderr;
      header = some fatal_sys_error_header;
    })
    else none

-- The pieces of a line: the time with the ids, the header, the place in the source, a blank, the
-- message, and the end of the line.
pub data Piece (M : Type 0) : Type 0 where
  stamp : Piece M
  header : Header → Piece M
  place : Piece M
  blank : Piece M
  message : M → Piece M
  newline : Piece M

-- What each stream keeps, what is shown, and the static variables; `aborted` after `abort`.
pub record Console (M : Type 0) : Type 0 where
  pub kept : Stream → List (Piece M)
  pub shown : List (Stream × List (Piece M))
  pub fd_prev : Option Stream
  pub locked : Bool
  pub aborted : Bool

abbrev pub same_stream : Stream → Stream → Bool
same_stream stdout stdout = true
same_stream stdout stderr = false
same_stream stderr stdout = false
same_stream stderr stderr = true

abbrev pub has_header : Option Header → Bool
has_header none = false
has_header (some h) = true

module _ {M : Type 0} where
  abbrev pub put_pieces : Stream → List (Piece M) → Console M → Console M
  put_pieces fd ps c = record c {
    kept = λ s. if same_stream s fd then c.kept s ++ ps else c.kept s;
  }

  -- `fflush`; a stream that keeps nothing shows nothing.
  abbrev pub show_kept :
      Stream → List (Piece M) → List (Stream × List (Piece M)) → List (Stream × List (Piece M))
  show_kept fd [] shown = shown
  show_kept fd (p ∷ ps) shown = shown ++ (fd, p ∷ ps) ∷ []

  abbrev pub flush : Stream → Console M → Console M
  flush fd c = record c {
    kept = λ s. if same_stream s fd then [] else c.kept s;
    shown = show_kept fd (c.kept fd) c.shown;
  }

  abbrev pub header_pieces : Option Header → List (Piece M)
  header_pieces none = []
  header_pieces (some h) = header h ∷ []

  -- The pieces of a line, in the order of `do_print`.
  unfoldable pub line : Bool → LevelParam → M → List (Piece M)
  line ndebug p m =
      (if ndebug then [] else stamp ∷ [])
      ++ (header_pieces p.header
          ++ ((if not ndebug && p.fileline then place ∷ [] else [])
              ++ ((if has_header p.header || p.fileline then blank ∷ [] else [])
                  ++ message m ∷ newline ∷ [])))

  unfoldable pub do_print : Bool → LevelParam → M → Console M → Option (Console M)
  do_print ndebug p m c =
      if c.locked
      then none
      else some
          (record (flush p.fd (put_pieces p.fd (line ndebug p m) (record c { locked = true }))) {
            locked = false;
          })

  abbrev pub flush_other : Stream → Option Stream → Console M → Console M
  flush_other fd none c = c
  flush_other fd (some previous) c = if same_stream previous fd then c else flush previous c

  abbrev pub flush_previous : Stream → Console M → Console M
  flush_previous fd c = flush_other fd c.fd_prev c

  -- `do_log` from the call of `level2param` on.
  unfoldable pub log_param : Bool → LevelParam → M → Console M → Option (Console M)
  log_param ndebug p m c =
      Option.map {A = Console M}
        (λ (c' : Console M). record c' { fd_prev = some (p.fd); aborted = p.fatal })
        (do_print ndebug p m (flush_previous p.fd c))

  -- `do_log`, where `unexpected` is the message on a level that `level2param` does not know. The
  -- program is stopped by the `abort` of the macro where the inner call returns.
  unfoldable pub do_log : ℕ → Bool → M → ℕ → M → Console M → Option (Console M)
  do_log zero ndebug unexpected level m c = none
  do_log (suc fuel) ndebug unexpected level m c = elim (level2param level) [
    | some p ↦ log_param ndebug p m c
    | none ↦
        Option.map {A = Console M} (λ (c' : Console M). record c' { aborted = true })
          (do_log fuel ndebug unexpected (fatal_level level_error) unexpected c)
  ]

  -- The macro `debug`.
  unfoldable pub debug : Bool → M → ℕ → ℕ → M → Console M → Option (Console M)
  debug ndebug unexpected log_debug type m c =
      if not (log_debug == 0) && (bit_and log_debug type == type)
      then do_log 2 ndebug unexpected level_debug m c
      else some c

  -- The macros `mdebug` and `ndebug`, with the rank that they ask for.
  unfoldable pub rank_debug : Bool → M → ℕ → ℤ → ℕ → M → Console M → Option (Console M)
  rank_debug ndebug unexpected log_debug rank type m c =
      if not (log_debug == 0) && (bit_and log_debug type == type) && eqb_ℤ rank (pos 0)
      then do_log 2 ndebug unexpected level_debug m c
      else some c
