-- ===== src/Log/Lines.antt =====
-- common/log.c: what a sequence of messages shows.
use sabo.Base.{
  ℕ, ◌≡◌, refl, sym, ap, ◌∙◌, Bool, true, false, ◌||◌, Option, none, some, List, [], ◌∷◌, ◌++◌,
  if◌then◌else◌, arith, Bool-cases, inl, inr,
}
use mathlib.Core.List.{append_assoc, append-nil}
use mathlib.Core.Option
use sabo.Log.{
  Stream, stdout, stderr, debug_header, error_header, fatal_error_header,
  fatal_internal_error_header, sys_error_header, fatal_sys_error_header, LevelParam, level_base,
  level_debug, level_error, level_int_error, level_sys_error, fatal_level, level2param, Piece,
  stamp, header, place, blank, message, newline, Console, same_stream, put_pieces, show_kept, flush,
  line, do_print, flush_other, flush_previous, log_param, do_log,
}

-- The macros of log.h that print, and a direct call with a level that is none of theirs.
pub data Macro : Type 0 where
  print : Macro
  debug : Macro
  error : Macro
  fatal_error : Macro
  fatal_int_error : Macro
  sys_error : Macro
  fatal_sys_error : Macro
  other_level : (level : ℕ) → level2param level ≡ none → Macro

abbrev pub level_of : Macro → ℕ
level_of print = level_base
level_of debug = level_debug
level_of error = level_error
level_of fatal_error = fatal_level level_error
level_of fatal_int_error = fatal_level level_int_error
level_of sys_error = level_sys_error
level_of fatal_sys_error = fatal_level level_sys_error
level_of (other_level level h) = level

abbrev pub is_fatal : Macro → Bool
is_fatal print = false
is_fatal debug = false
is_fatal error = false
is_fatal sys_error = false
is_fatal _ = true

module _ {M : Type 0} (unexpected : M) where
  -- A line of a release, and the same with the time and the place in the source.
  abbrev pub release_line : Macro → M → Stream × List (Piece M)
  release_line print m = (stdout, message m ∷ newline ∷ [])
  release_line debug m = (stdout, header debug_header ∷ blank ∷ message m ∷ newline ∷ [])
  release_line error m = (stderr, header error_header ∷ blank ∷ message m ∷ newline ∷ [])
  release_line fatal_error m =
      (stderr, header fatal_error_header ∷ blank ∷ message m ∷ newline ∷ [])
  release_line fatal_int_error m =
      (stderr, header fatal_internal_error_header ∷ blank ∷ message m ∷ newline ∷ [])
  release_line sys_error m = (stderr, header sys_error_header ∷ blank ∷ message m ∷ newline ∷ [])
  release_line fatal_sys_error m =
      (stderr, header fatal_sys_error_header ∷ blank ∷ message m ∷ newline ∷ [])
  release_line (other_level level h) m =
      (stderr, header fatal_error_header ∷ blank ∷ message unexpected ∷ newline ∷ [])

  abbrev pub debug_line : Macro → M → Stream × List (Piece M)
  debug_line print m = (stdout, stamp ∷ message m ∷ newline ∷ [])
  debug_line debug m =
      (stdout, stamp ∷ header debug_header ∷ place ∷ blank ∷ message m ∷ newline ∷ [])
  debug_line error m = (stderr, stamp ∷ header error_header ∷ blank ∷ message m ∷ newline ∷ [])
  debug_line fatal_error m =
      (stderr, stamp ∷ header fatal_error_header ∷ place ∷ blank ∷ message m ∷ newline ∷ [])
  debug_line fatal_int_error m = (
    stderr,
    stamp ∷ header fatal_internal_error_header ∷ place ∷ blank ∷ message m ∷ newline ∷ [],
  )
  debug_line sys_error m =
      (stderr, stamp ∷ header sys_error_header ∷ blank ∷ message m ∷ newline ∷ [])
  debug_line fatal_sys_error m =
      (stderr, stamp ∷ header fatal_sys_error_header ∷ place ∷ blank ∷ message m ∷ newline ∷ [])
  debug_line (other_level level h) m = (
    stderr,
    stamp ∷ header fatal_error_header ∷ place ∷ blank ∷ message unexpected ∷ newline ∷ [],
  )

  abbrev pub expected : Bool → Macro → M → Stream × List (Piece M)
  expected true k m = release_line k m
  expected false k m = debug_line k m

  -- No stream keeps anything, and the lock is free.
  pub record Idle (c : Console M) : Type 0 where
    pub kept : (s : Stream) → c.kept s ≡ []
    pub unlocked : c.locked ≡ false

  flush_other-Idle :
      (fd : Stream) (prev : Option Stream) (c : Console M)
      → Idle c
      → Idle (flush_other fd prev c) × ((flush_other fd prev c).shown ≡ c.shown)
  flush_other-Idle fd none c v = (v, refl)
  flush_other-Idle fd (some previous) c v = elim (Bool-cases (same_stream previous fd)) [
    | inl same ↦ simp (same) (v, refl)
    | inr differ ↦ simp (differ) (
      record { kept = λ s. (let h = v.kept s in ground (arith, h)); unlocked = v.unlocked },
      ap (λ ps. show_kept previous ps c.shown) (v.kept previous),
    )
  ]

  same_itself : (fd : Stream) → same_stream fd fd ≡ true
  same_itself stdout = refl
  same_itself stderr = refl

  do_print-free :
      (ndebug : Bool) (p : LevelParam) (m : M) (d : Console M)
      → d.locked ≡ false
      → do_print ndebug p m d
        ≡ some (record (flush p.fd (put_pieces p.fd (line ndebug p m) d)) { locked = false })
  unfolding do_print
  do_print-free ndebug p m d h = ground (arith, h)

  -- A line is shown at once.
  log_param-shown :
      (ndebug : Bool) (p : LevelParam) (m : M) (c : Console M) (q : Piece M) (qs : List (Piece M))
      → Idle c
      → line ndebug p m ≡ q ∷ qs
      → (c' : Console M) × (log_param ndebug p m c ≡ some c')
        × Idle c'
        × (c'.shown ≡ c.shown ++ (p.fd, q ∷ qs) ∷ [])
        × (c'.aborted ≡ p.fatal)
  unfolding log_param
  log_param-shown ndebug p m c q qs v e =
      let d = flush_previous p.fd c in
      let (w, same) = flush_other-Idle p.fd c.fd_prev c v in
      let filled : (if same_stream p.fd p.fd then d.kept p.fd ++ line ndebug p m else d.kept p.fd)
          ≡ q ∷ qs =
        simp (same_itself p.fd, w.kept p.fd) e in
      (
        record (flush p.fd (put_pieces p.fd (line ndebug p m) d)) {
          locked = false;
          fd_prev = some (p.fd);
          aborted = p.fatal;
        },
        simp (log_param, do_print-free ndebug p m d w.unlocked) refl,
        record { kept = λ s. (let h = w.kept s in ground (arith, h)); unlocked = refl },
        ap (λ ps. show_kept p.fd ps d.shown) filled ∙ ap (λ xs. xs ++ (p.fd, q ∷ qs) ∷ []) same,
        refl,
      )

  fatal_error_param : LevelParam
  fatal_error_param = record {
    fatal = true;
    fileline = true;
    fd = stderr;
    header = some fatal_error_header;
  }

  do_log-fatal_error :
      (ndebug : Bool) (m : M) (c : Console M)
      → do_log 1 ndebug unexpected (fatal_level level_error) m c
        ≡ log_param ndebug fatal_error_param m c
  unfolding do_log level2param fatal_error_param
  do_log-fatal_error ndebug m c = refl

  do_log-other :
      (ndebug : Bool) (level : ℕ) (m : M) (c c' : Console M)
      → level2param level ≡ none
      → log_param ndebug fatal_error_param unexpected c ≡ some c'
      → do_log 2 ndebug unexpected level m c ≡ some (record c' { aborted = true })
  unfolding do_log
  do_log-other ndebug level m c c' h e =
      let inner = do_log-fatal_error ndebug unexpected c ∙ e in
      simp (do_log, h)
        (ap
          (λ (o : Option (Console M)).
            Option.map {A = Console M} (λ (d : Console M). record d { aborted = true }) o)
          inner)

  -- One message.
  do_log-shown :
      (ndebug : Bool) (k : Macro) (m : M) (c : Console M)
      → Idle c
      → (c' : Console M) × (do_log 2 ndebug unexpected (level_of k) m c ≡ some c')
        × Idle c'
        × (c'.shown ≡ c.shown ++ expected ndebug k m ∷ [])
        × (c'.aborted ≡ is_fatal k)
  unfolding do_log level2param line fatal_error_param
  do_log-shown true print m c v = log_param-shown true _ m c _ _ v refl
  do_log-shown true debug m c v = log_param-shown true _ m c _ _ v refl
  do_log-shown true error m c v = log_param-shown true _ m c _ _ v refl
  do_log-shown true fatal_error m c v = log_param-shown true _ m c _ _ v refl
  do_log-shown true fatal_int_error m c v = log_param-shown true _ m c _ _ v refl
  do_log-shown true sys_error m c v = log_param-shown true _ m c _ _ v refl
  do_log-shown true fatal_sys_error m c v = log_param-shown true _ m c _ _ v refl
  do_log-shown false print m c v = log_param-shown false _ m c _ _ v refl
  do_log-shown false debug m c v = log_param-shown false _ m c _ _ v refl
  do_log-shown false error m c v = log_param-shown false _ m c _ _ v refl
  do_log-shown false fatal_error m c v = log_param-shown false _ m c _ _ v refl
  do_log-shown false fatal_int_error m c v = log_param-shown false _ m c _ _ v refl
  do_log-shown false sys_error m c v = log_param-shown false _ m c _ _ v refl
  do_log-shown false fatal_sys_error m c v = log_param-shown false _ m c _ _ v refl
  do_log-shown true (other_level level h) m c v =
      let (c', e, w, shown, stopped) =
        log_param-shown true fatal_error_param unexpected c _ _ v refl in
      (
        record c' { aborted = true },
        do_log-other true level m c c' h e,
        record { kept = w.kept; unlocked = w.unlocked },
        shown,
        refl,
      )
  do_log-shown false (other_level level h) m c v =
      let (c', e, w, shown, stopped) =
        log_param-shown false fatal_error_param unexpected c _ _ v refl in
      (
        record c' { aborted = true },
        do_log-other false level m c c' h e,
        record { kept = w.kept; unlocked = w.unlocked },
        shown,
        refl,
      )

  -- The calls of a program, which the first fatal one stops.
  unfoldable pub logs : Bool → List (Macro × M) → Console M → Option (Console M)
  logs ndebug [] c = some c
  logs ndebug ((k, m) ∷ ls) c = elim (do_log 2 ndebug unexpected (level_of k) m c) [
    | none ↦ none
    | some c' ↦ elim c'.aborted [ true ↦ some c' | false ↦ logs ndebug ls c' ]
  ]

  abbrev pub expected_lines : Bool → List (Macro × M) → List (Stream × List (Piece M))
  expected_lines ndebug [] = []
  expected_lines ndebug ((k, m) ∷ ls) =
      let rest = expected_lines ndebug ls in expected ndebug k m ∷ (if is_fatal k then [] else rest)

  abbrev pub any_fatal : List (Macro × M) → Bool
  any_fatal [] = false
  any_fatal ((k, m) ∷ ls) = is_fatal k || any_fatal ls

  -- Whatever messages a program logs one after another, at levels of the macros or others, on streams
  -- that keep nothing and with the lock free: no call hangs on the lock or recurs more than once; each
  -- message up to the first fatal one is shown at once, as one whole line, on the stream and with the
  -- header of its level (a level that is none of the macros' as the fatal error of that), and the
  -- program is stopped exactly if one is fatal.
  pub logs-shown :
      (ndebug : Bool) (ls : List (Macro × M)) (c : Console M)
      → Idle c
      → c.aborted ≡ false
      → (c' : Console M) × (logs ndebug ls c ≡ some c')
        × Idle c'
        × (c'.shown ≡ c.shown ++ expected_lines ndebug ls)
        × (c'.aborted ≡ any_fatal ls)
  unfolding logs
  logs-shown ndebug [] c v running = (c, refl, v, sym (append-nil c.shown), running)
  logs-shown ndebug ((k, m) ∷ ls) c v running =
      let (c1, e, w, shown, stopped) = do_log-shown ndebug k m c v in
      elim (Bool-cases (is_fatal k)) [
        | inl h ↦ (
          c1,
          simp (logs, e, stopped, h) refl,
          w,
          shown
              ∙ ap
                  (λ b.
                    c.shown ++ expected ndebug k m ∷ (if b then [] else expected_lines ndebug ls))
                  (sym h),
          stopped ∙ (h ∙ ap (λ b. b || any_fatal ls) (sym h)),
        )
        | inr h ↦
            (let (c2, e2, w2, shown2, stopped2) = logs-shown ndebug ls c1 w (stopped ∙ h) in
              (
                c2,
                simp (logs, e, stopped, h) e2,
                w2,
                shown2
                    ∙ (ap (λ xs. xs ++ expected_lines ndebug ls) shown
                        ∙ (append_assoc c.shown (expected ndebug k m ∷ [])
                              (expected_lines ndebug ls)
                            ∙ ap
                                (λ b.
                                  c.shown
                                  ++ expected ndebug k m
                                    ∷ (if b then [] else expected_lines ndebug ls))
                                (sym h))),
                stopped2 ∙ ap (λ b. b || any_fatal ls) (sym h),
              ))
      ]
