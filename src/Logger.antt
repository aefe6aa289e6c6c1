-- ===== src/Logger.antt =====
-- Logger.h and Logger.cc: the log, as the characters that it writes.
pub mod Lines
mod Tests
use moduo_write.Common.{
  ℕ, ◌+◌, Bool, true, false, Option, List, [], ◌∷◌, ◌++◌, leb, ◌==◌, length, if◌then◌else◌, Outcome,
  done, undefined, bind,
}
use moduo_write.System.Libc.{Libc}
use moduo_write.Timestamp.{Tm, now, to_string}

-- `enum LogLevel`.
pub data LogLevel : Type 0 where
  info error fatal debug : LogLevel

abbrev pub number : LogLevel → ℕ
number info = 0
number error = 1
number fatal = 2
number debug = 3

-- `class Logger`, with what `std::cout` has got.
pub record Logger : Type 0 where
  pub log_level : ℕ
  pub out : List ℕ

-- `instance()`: the one static object, whose level is zero before it is set.
unfoldable pub instance_of : List ℕ → Logger
instance_of out = record { log_level = 0; out = out }

unfoldable pub set_log_level : ℕ → Logger → Logger
set_log_level level l = record l { log_level = level }

-- "[INFO] ", "[ERROR] ", "[FATAL] ", "[DEBUG] ", or nothing.
unfoldable pub prefix : ℕ → List ℕ
prefix level =
    if level == 0
    then 91 ∷ 73 ∷ 78 ∷ 70 ∷ 79 ∷ 93 ∷ 32 ∷ []
    else if level == 1
    then 91 ∷ 69 ∷ 82 ∷ 82 ∷ 79 ∷ 82 ∷ 93 ∷ 32 ∷ []
    else if level == 2
    then 91 ∷ 70 ∷ 65 ∷ 84 ∷ 65 ∷ 76 ∷ 93 ∷ 32 ∷ []
    else if level == 3
    then 91 ∷ 68 ∷ 69 ∷ 66 ∷ 85 ∷ 71 ∷ 93 ∷ 32 ∷ []
    else []

-- "time - ", " : " and the end of the line around the time and the message.
unfoldable pub body : List ℕ → List ℕ → List ℕ
body time msg = 116 ∷ 105 ∷ 109 ∷ 101 ∷ 32 ∷ 45 ∷ 32 ∷ (time ++ 32 ∷ 58 ∷ 32 ∷ (msg ++ 10 ∷ []))

-- A use of a macro: its level, what the clock says, and the text that `sprintf` makes.
pub record Call : Type 0 where
  pub level : LogLevel
  pub time : ℕ
  pub text : List ℕ

-- What a use leaves: the process goes on, or `exit(-1)` ends it after what has been written.
pub data After : Type 0 where
  goes_on exits : Logger → After

-- What follows a use is not reached when the process has ended.
unfoldable pub and_then : (Logger → Outcome After) → After → Outcome After
and_then rest (goes_on l) = rest l
and_then rest (exits l) = done (exits l)

-- `localtime` is that of the C library; `mudebug` tells whether MUDEBUG is defined.
module _ (libc : Libc) (localtime : ℕ → Option Tm) (mudebug : Bool) where
  unfoldable pub log : ℕ → List ℕ → Logger → Outcome Logger
  log time msg l =
      bind (to_string libc localtime (now time))
        λ text. done (record l { out = l.out ++ (prefix l.log_level ++ body text msg) })

  -- What all macros do. `sprintf` writes the text and a zero into 1024 bytes; beyond them is undefined.
  unfoldable pub log_text : Call → Logger → Outcome Logger
  log_text c l =
      if leb (length c.text + 1) 1024
      then log c.time c.text (set_log_level (number c.level) l)
      else undefined

  -- LOG_INFO, LOG_ERROR, LOG_FATAL and LOG_DEBUG.
  unfoldable pub log_by : LogLevel → Call → Logger → Outcome After
  log_by info c l = bind (log_text c l) λ l'. done (goes_on l')
  log_by error c l = bind (log_text c l) λ l'. done (goes_on l')
  log_by fatal c l = bind (log_text c l) λ l'. done (exits l')
  log_by debug c l =
      if mudebug then bind (log_text c l) (λ l'. done (goes_on l')) else done (goes_on l)

  -- Uses of the macros in one thread, one after another.
  unfoldable pub log_all : List Call → Logger → Outcome After
  log_all [] l = done (goes_on l)
  log_all (c ∷ cs) l = bind (log_by c.level c l) (and_then (log_all cs))
