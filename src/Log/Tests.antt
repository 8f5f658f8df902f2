-- ===== src/Log/Tests.antt =====
-- common/log.c: messages as numbers, 0 for the one on an unexpected level.
use sabo.Base.{ℕ, ◌≡◌, refl, true, false, none, some, [], ◌∷◌}
use sabo.Log.{
  stdout, stderr, error_header, fatal_error_header, header, blank, message, newline, Console,
  level2param, level_int_error, debug, do_log,
}
use sabo.Log.Lines.{print, error, other_level, Idle, logs, logs-shown}

abbrev start : Console ℕ
start = record { kept = λ s. []; shown = []; fd_prev = none; locked = false; aborted = false }

start-Idle : Idle 0 start
start-Idle = record { kept = λ s. refl; unlocked = refl }

-- The level of an internal error is used with LOG_LEVEL_FATAL only.
int_error-unknown : level2param level_int_error ≡ none
unfolding level2param
int_error-unknown = refl

logs-shown_example :
    (c : Console ℕ) × (logs 0 true
        ((print, 5)
          ∷ (error, 6)
          ∷ (other_level level_int_error int_error-unknown, 7)
          ∷ (print, 8)
          ∷ [])
        start
      ≡ some c)
    × Idle 0 c
    × (c.shown
        ≡ (stdout, message 5 ∷ newline ∷ [])
          ∷ (stderr, header error_header ∷ blank ∷ message 6 ∷ newline ∷ [])
          ∷ (stderr, header fatal_error_header ∷ blank ∷ message 0 ∷ newline ∷ [])
          ∷ [])
    × (c.aborted ≡ true)
logs-shown_example =
    logs-shown 0 true
      ((print, 5)
        ∷ (error, 6)
        ∷ (other_level level_int_error int_error-unknown, 7)
        ∷ (print, 8)
        ∷ [])
      start start-Idle refl

-- Bit 2 is that of the topology.
debug_off : debug false 0 8 4 9 start ≡ some start
unfolding debug
debug_off = refl

debug_on : debug false 0 12 4 9 start ≡ do_log 2 false 0 2 9 start
unfolding debug
debug_on = refl
