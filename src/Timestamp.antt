-- ===== src/Timestamp.antt =====
-- Timestamp.h and Timestamp.cc: a point in time, and its printed form.
pub mod Printing
use moduo_write.Common.{
  ℕ, ◌+◌, ◌-◌, Option, none, some, List, [], ◌∷◌, ◌++◌, length, take, replicate, Outcome, done,
  undefined,
}
use moduo_write.System.Libc.{Libc}

-- `class Timestamp`. Times before the epoch are left out.
pub record Timestamp : Type 0 where
  pub micro_seconds_since_epoch : ℕ

-- The two constructors.
unfoldable pub zero_time : Timestamp
zero_time = record { micro_seconds_since_epoch = 0 }

unfoldable pub new : ℕ → Timestamp
new micro_seconds_since_epoch = record { micro_seconds_since_epoch = micro_seconds_since_epoch }

-- What `time(NULL)` returns is the argument.
unfoldable pub now : ℕ → Timestamp
now time = new time

-- The fields of `struct tm` that are printed.
pub record Tm : Type 0 where
  pub tm_year : ℕ
  pub tm_mon : ℕ
  pub tm_mday : ℕ
  pub tm_hour : ℕ
  pub tm_min : ℕ
  pub tm_sec : ℕ

-- What `%4d` and `%02d` put before a number.
abbrev pub padded : ℕ → ℕ → List ℕ → List ℕ
padded char width text = replicate (width - length text) char ++ text

module _ (libc : Libc) where
  unfoldable pub two_digits : ℕ → List ℕ
  two_digits n = padded 48 2 (libc.decimal n)

  -- "%4d/%02d/%02d %02d:%02d:%02d"
  unfoldable pub print_time : Tm → List ℕ
  print_time t =
      padded 32 4 (libc.decimal (t.tm_year + 1900))
      ++ 47
        ∷ (two_digits (t.tm_mon + 1)
            ++ 47
              ∷ (two_digits t.tm_mday
                  ++ 32
                    ∷ (two_digits t.tm_hour
                        ++ 58 ∷ (two_digits t.tm_min ++ 58 ∷ two_digits t.tm_sec))))

  -- `toString`, by `snprintf` into 128 bytes with a zero at the end. Where `localtime` returns a null
  -- pointer, this dereferences it.
  unfoldable pub to_string : (ℕ → Option Tm) → Timestamp → Outcome (List ℕ)
  to_string localtime s = elim (localtime s.micro_seconds_since_epoch) [
    | none ↦ undefined
    | some t ↦ done (take 127 (print_time t))
  ]
