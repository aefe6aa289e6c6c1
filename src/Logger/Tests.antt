-- ===== src/Logger/Tests.antt =====
-- The theorem on the log at two concrete uses of the macros.
use moduo_write.Common.{◌≡◌, refl, false, some, List, [], ◌∷◌, ◌++◌, arith, done}
use moduo_write.System.ToyLibc.{toy_libc, toy_libc_laws}
use moduo_write.Timestamp.{Tm}
use moduo_write.Logger.{LogLevel, error, fatal, debug, exits, Logger, Call, log_all}
use moduo_write.Logger.Lines.{IsPrintable, ArePrintable, lines, log_all-lines}

abbrev midnight : Tm
midnight = record { tm_year = 126; tm_mon = 0; tm_mday = 1; tm_hour = 0; tm_min = 0; tm_sec = 0 }

abbrev call_at : LogLevel → Call
call_at level = record { level = level; time = 5; text = 104 ∷ 105 ∷ [] }

printable : (level : LogLevel) → IsPrintable toy_libc_laws (λ s. some midnight) (call_at level)
printable level = record {
  short = omega arith;
  tm = midnight;
  local = refl;
  valid = record {
    year = omega arith;
    mon = omega arith;
    mday = omega arith;
    hour = omega arith;
    min = omega arith;
    sec = omega arith;
  };
}

abbrev uses : List Call
uses = call_at error ∷ call_at debug ∷ call_at fatal ∷ call_at error ∷ []

all_printable : ArePrintable toy_libc_laws (λ s. some midnight) uses
all_printable = (printable error, (printable debug, (printable fatal, (printable error, tt))))

abbrev logger : Logger
logger = record { log_level = 0; out = [] }

log_all-lines_example :
    (l' : Logger) × (log_all toy_libc (λ s. some midnight) false uses logger ≡ done (exits l'))
    × (l'.out ≡ [] ++ lines toy_libc_laws (λ s. some midnight) false uses all_printable)
log_all-lines_example =
    log_all-lines toy_libc_laws (λ s. some midnight) false uses logger all_printable
