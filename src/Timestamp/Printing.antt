-- ===== src/Timestamp/Printing.antt =====
-- Timestamp.cc, `toString`: the width of what is printed.
use moduo_write.Common.{
  ℕ, ◌+◌, ◌-◌, ◌≤◌, ◌<◌, ◌≡◌, refl, ap, ◌∙◌, Option, some, List, ◌∷◌, ◌++◌, length, length-append,
  replicate, length-replicate, take_all, arith, done,
}
use moduo_write.System.Libc.{Libc, LibcLaws}
use moduo_write.Timestamp.{Timestamp, Tm, padded, two_digits, print_time, to_string}

-- What `localtime` gives: its manual page, for years of four digits.
pub record IsTm (t : Tm) : Type 0 where
  pub year : t.tm_year + 1900 < 10000
  pub mon : t.tm_mon < 12
  pub mday : t.tm_mday ≤ 31
  pub hour : t.tm_hour < 24
  pub min : t.tm_min < 60
  pub sec : t.tm_sec ≤ 60

length-padded :
    (c width : ℕ) (text : List ℕ) → length text ≤ width → length (padded c width text) ≡ width
length-padded c width text h =
    length-append (replicate (width - length text) c) text
    ∙ ap (λ n. n + length text) (length-replicate (width - length text) c)
    ∙ omega (arith, h)

-- Two texts with a character between them.
length-joined :
    (xs ys : List ℕ) (c : ℕ) {m n : ℕ}
    → length xs ≡ m
    → length ys ≡ n
    → length (xs ++ c ∷ ys) ≡ m + (n + 1)
length-joined xs ys c e f = length-append xs (c ∷ ys) ∙ omega (arith, e, f)

module _ {libc : Libc} (laws : LibcLaws libc) where
  length-two_digits : (n : ℕ) → n < 100 → length (two_digits libc n) ≡ 2
  unfolding two_digits
  length-two_digits n h =
      length-padded 48 2 (libc.decimal n) (laws.decimal_length n 2 (omega arith) (omega arith))

  length-print_time : (t : Tm) → IsTm t → length (print_time libc t) ≡ 19
  unfolding print_time
  length-print_time t v =
      let year = padded 32 4 (libc.decimal (t.tm_year + 1900)) in
      let wide : length year ≡ 4 =
        length-padded 32 4 (libc.decimal (t.tm_year + 1900))
          (laws.decimal_length (t.tm_year + 1900) 4 (omega arith) (omega (arith, v.year))) in
      let mon = length-two_digits (t.tm_mon + 1) (omega (arith, v.mon)) in
      let mday = length-two_digits t.tm_mday (omega (arith, v.mday)) in
      let hour = length-two_digits t.tm_hour (omega (arith, v.hour)) in
      let min = length-two_digits t.tm_min (omega (arith, v.min)) in
      let sec = length-two_digits t.tm_sec (omega (arith, v.sec)) in
      length-joined year _ _ wide (
        length-joined (two_digits libc (t.tm_mon + 1)) _ _ mon (
          length-joined (two_digits libc t.tm_mday) _ _ mday (
            length-joined (two_digits libc t.tm_hour) _ _ hour
              (length-joined (two_digits libc t.tm_min) _ _ min sec))))

  -- For a year below 10000, where `localtime` gives a time whose fields are in their ranges, `toString`
  -- returns the whole printed form, which has 19 characters: the 128 bytes are enough.
  pub to_string-length :
      (localtime : ℕ → Option Tm) (s : Timestamp) (t : Tm)
      → localtime s.micro_seconds_since_epoch ≡ some t
      → IsTm t
      → (text : List ℕ) × (to_string libc localtime s ≡ done text)
        × (text ≡ print_time libc t)
        × (length text ≡ 19)
  unfolding to_string
  to_string-length localtime s t e v =
      let short = length-print_time t v in
      (
        print_time libc t,
        rw (to_string, e) (ap done (take_all 127 (print_time libc t) (omega (arith, short)))),
        refl,
        short,
      )
