-- ===== src/Common/Words.antt =====
-- `size_t` arithmetic: 64 bits, with the wrap-around written out.
use Prim.Native.Nat.{ℕ, ◌+◌, ◌-◌, ◌%◌, ◌^◌, ◌≤◌, ◌<◌}
use mathlib.Core.Path.{◌≡◌}
use native.Mathlib.Omega.{arith}

abbrev pub add_size : ℕ → ℕ → ℕ
add_size a b = (a + b) % 2 ^ 64

abbrev pub sub_size : ℕ → ℕ → ℕ
sub_size a b = (a + 2 ^ 64 - b) % 2 ^ 64

pub add_size-eq-add : (a b : ℕ) → a + b < 2 ^ 64 → add_size a b ≡ a + b
add_size-eq-add a b h = omega arith

pub sub_size-eq-sub : (a b : ℕ) → b ≤ a → a < 2 ^ 64 → sub_size a b ≡ a - b
sub_size-eq-sub a b h l = omega arith
