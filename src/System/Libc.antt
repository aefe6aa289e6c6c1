-- ===== src/System/Libc.antt =====
-- The functions of the C library that print and convert, as parameters. A string is the list of its
-- characters, without the zero that ends it.
use moduo_write.Common.{ℕ, ◌≡◌, ◌<◌, ◌≤◌, ◌^◌, List, length}

pub record Libc : Type 0 where
  pub htons : ℕ → ℕ
  pub ntohs : ℕ → ℕ
  -- `inet_addr(text)`, and the text that `inet_ntop(AF_INET, …)` stores
  pub inet_addr : List ℕ → ℕ
  pub inet_ntop : ℕ → List ℕ
  -- what `%d` and `%u` print of a number that is not negative
  pub decimal : ℕ → List ℕ

-- What the manual pages say.
pub record LibcLaws (libc : Libc) : Type 0 where
  pub htons_short : (p : ℕ) → p < 2 ^ 16 → libc.htons p < 2 ^ 16
  pub ntohs_short : (p : ℕ) → p < 2 ^ 16 → libc.ntohs p < 2 ^ 16
  pub ntohs_htons : (p : ℕ) → p < 2 ^ 16 → libc.ntohs (libc.htons p) ≡ p
  pub htons_ntohs : (p : ℕ) → p < 2 ^ 16 → libc.htons (libc.ntohs p) ≡ p
  -- the text of an address is at most "255.255.255.255", and is read back
  pub ntop_length : (a : ℕ) → a < 2 ^ 32 → length (libc.inet_ntop a) ≤ 15
  pub addr_ntop : (a : ℕ) → a < 2 ^ 32 → libc.inet_addr (libc.inet_ntop a) ≡ a
  -- a number below 10 ^ k has at most k digits, and its digits determine it
  pub decimal_length : (n k : ℕ) → 1 ≤ k → n < 10 ^ k → length (libc.decimal n) ≤ k
  pub decimal_injective : (m n : ℕ) → libc.decimal m ≡ libc.decimal n → m ≡ n
