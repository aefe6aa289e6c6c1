-- ===== src/Logger/Lines.antt =====
-- Logger.cc: what uses of the macros write.
use moduo_write.Common.{
  false, ℕ, ◌+◌, ◌<◌, ◌≡◌, refl, sym, ap, ◌∙◌, Bool, true, Option, some, List, [], ◌∷◌, ◌++◌,
  append-nil, append_assoc, leb, length, arith, done, bind,
}
use moduo_write.System.Libc.{Libc, LibcLaws}
use moduo_write.Timestamp.{Tm, now, new, print_time}
use moduo_write.Timestamp.Printing.{IsTm, to_string-length}
use moduo_write.Logger.{
  After, goes_on, exits, and_then, LogLevel, info, error, fatal, debug, number, Logger,
  set_log_level, prefix, body, Call, log, log_text, log_by, log_all,
}

module _ {libc : Libc} (laws : LibcLaws libc) (localtime : ℕ → Option Tm) where
  -- A call whose text fits the buffer, at a time of four-digit years.
  pub record IsPrintable (c : Call) : Type 0 where
    pub short : length c.text < 1024
    pub tm : Tm
    pub local : localtime c.time ≡ some tm
    pub valid : IsTm tm

  -- "[INFO] ", "[ERROR] ", "[FATAL] " and "[DEBUG] ".
  abbrev pub tag : LogLevel → List ℕ
  tag info = 91 ∷ 73 ∷ 78 ∷ 70 ∷ 79 ∷ 93 ∷ 32 ∷ []
  tag error = 91 ∷ 69 ∷ 82 ∷ 82 ∷ 79 ∷ 82 ∷ 93 ∷ 32 ∷ []
  tag fatal = 91 ∷ 70 ∷ 65 ∷ 84 ∷ 65 ∷ 76 ∷ 93 ∷ 32 ∷ []
  tag debug = 91 ∷ 68 ∷ 69 ∷ 66 ∷ 85 ∷ 71 ∷ 93 ∷ 32 ∷ []

  -- "time - ", " : " and the end of the line.
  abbrev pub time_is : List ℕ
  time_is = 116 ∷ 105 ∷ 109 ∷ 101 ∷ 32 ∷ 45 ∷ 32 ∷ []

  abbrev pub separator : List ℕ
  separator = 32 ∷ 58 ∷ 32 ∷ []

  abbrev pub end_of_line : List ℕ
  end_of_line = 10 ∷ []

  -- The line of a call.
  abbrev pub line : (c : Call) → IsPrintable c → List ℕ
  line c p =
      tag c.level ++ (time_is ++ (print_time libc p.tm ++ (separator ++ (c.text ++ end_of_line))))

  abbrev pub ArePrintable : List Call → Type 0
  ArePrintable [] = Unit
  ArePrintable (c ∷ cs) = IsPrintable c × ArePrintable cs

  -- LOG_DEBUG without MUDEBUG writes nothing, and LOG_FATAL is the last to write.
  abbrev pub written : Bool → LogLevel → List ℕ → List ℕ → List ℕ
  written mudebug info text rest = text ++ rest
  written mudebug error text rest = text ++ rest
  written mudebug fatal text rest = text
  written true debug text rest = text ++ rest
  written false debug text rest = rest

  abbrev pub lines : Bool → (cs : List Call) → ArePrintable cs → List ℕ
  lines mudebug [] p = []
  lines mudebug (c ∷ cs) (p, ps) = written mudebug c.level (line c p) (lines mudebug cs ps)

  abbrev pub by_level : LogLevel → Logger → After → After
  by_level info l rest = rest
  by_level error l rest = rest
  by_level fatal l rest = exits l
  by_level debug l rest = rest

  -- The process is ended by a LOG_FATAL, or goes on.
  abbrev pub ended : List Call → Logger → After
  ended [] l = goes_on l
  ended (c ∷ cs) l = by_level c.level l (ended cs l)

  prefix-tag : (level : LogLevel) → prefix (number level) ≡ tag level
  unfolding prefix
  prefix-tag info = refl
  prefix-tag error = refl
  prefix-tag fatal = refl
  prefix-tag debug = refl

  log_text-line :
      (mudebug : Bool) (c : Call) (l : Logger) (p : IsPrintable c)
      → log_text libc localtime mudebug c l
        ≡ done (record { log_level = number c.level; out = l.out ++ line c p })
  unfolding body log_text log set_log_level now new
  log_text-line mudebug c l p =
      let short : leb (length c.text + 1) 1024 ≡ true = ground (arith, p.short) in
      let (text, e, is, _) = to_string-length laws localtime (now c.time) p.tm p.local p.valid in
      rw (short, e, bind)
        (ap
            (λ (t : List ℕ). done (record {
              log_level = number c.level;
              out = l.out ++ (prefix (number c.level) ++ body t c.text);
            }))
            is
          ∙ ap
              (λ (xs : List ℕ). done (record {
                log_level = number c.level;
                out = l.out ++ (xs ++ body (print_time libc p.tm) c.text);
              }))
              (prefix-tag c.level))

  -- What the uses leave behind the text `out`.
  abbrev Writes : Bool → (cs : List Call) → ArePrintable cs → Logger → Type 0
  Writes mudebug cs ps l =
      (l' : Logger) × (log_all libc localtime mudebug cs l ≡ done (ended cs l'))
      × (l'.out ≡ l.out ++ lines mudebug cs ps)

  after_line :
      (mudebug : Bool) (c : Call) (cs : List Call) (p : IsPrintable c) (ps : ArePrintable cs)
      (l : Logger)
      → Writes mudebug cs ps (record { log_level = number c.level; out = l.out ++ line c p })
      → (l' : Logger) × (bind
            (bind (log_text libc localtime mudebug c l) λ m. done (goes_on m))
            (and_then (log_all libc localtime mudebug cs))
          ≡ done (ended cs l'))
        × (l'.out ≡ l.out ++ (line c p ++ lines mudebug cs ps))
  unfolding and_then
  after_line mudebug c cs p ps l (l', e, out) = (
    l',
    ap (λ m. bind (bind m λ l₁. done (goes_on l₁)) (and_then (log_all libc localtime mudebug cs)))
          (log_text-line mudebug c l p)
        ∙ e,
    out ∙ append_assoc l.out (line c p) (lines mudebug cs ps),
  )

  use_and_rest :
      (mudebug : Bool) (level : LogLevel) (c : Call) (cs : List Call) (p : IsPrintable c)
      (ps : ArePrintable cs) (l : Logger)
      → ((m : Logger) → Writes mudebug cs ps m)
      → (l' : Logger) × (bind
            (log_by libc localtime mudebug level c l)
            (and_then (log_all libc localtime mudebug cs))
          ≡ done (by_level level l' (ended cs l')))
        × (l'.out ≡ l.out ++ written mudebug level (line c p) (lines mudebug cs ps))
  unfolding log_by and_then
  use_and_rest mudebug info c cs p ps l rest = after_line mudebug c cs p ps l (rest _)
  use_and_rest mudebug error c cs p ps l rest = after_line mudebug c cs p ps l (rest _)
  use_and_rest mudebug fatal c cs p ps l rest = (
    record { log_level = number c.level; out = l.out ++ line c p },
    ap (λ m. bind (bind m λ l₁. done (exits l₁)) (and_then (log_all libc localtime mudebug cs)))
        (log_text-line mudebug c l p),
    refl,
  )
  use_and_rest true debug c cs p ps l rest = after_line true c cs p ps l (rest _)
  use_and_rest false debug c cs p ps l rest = rest l

  -- Uses of the macros in one thread, with texts below 1024 bytes and in years below 10000: each
  -- writes one whole line in its turn, its level, its time and its text, or nothing if it is LOG_DEBUG
  -- and MUDEBUG is not defined. Nothing else is written and nothing undefined happens. The first
  -- LOG_FATAL writes its line, too, and then the process exits, whatever would follow; without one it
  -- goes on.
  pub log_all-lines :
      (mudebug : Bool) (cs : List Call) (l : Logger) (p : ArePrintable cs)
      → (l' : Logger) × (log_all libc localtime mudebug cs l ≡ done (ended cs l'))
        × (l'.out ≡ l.out ++ lines mudebug cs p)
  unfolding log_all
  log_all-lines mudebug [] l p = (l, refl, sym (append-nil l.out))
  log_all-lines mudebug (c ∷ cs) l (p, ps) =
      use_and_rest mudebug c.level c cs p ps l (λ m. log_all-lines mudebug cs m ps)
