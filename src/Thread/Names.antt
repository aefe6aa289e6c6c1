-- ===== src/Thread/Names.antt =====
-- Thread.cc: the names that threads get.
use moduo_write.Common.{
  ℕ, ◌+◌, ◌^◌, ◌<◌, ◌≤◌, ◌≡◌, ◌≢◌, refl, sym, ◌∙◌, false, List, [], ◌∷◌, ◌++◌, arith, ◌==◌, length,
  take_all,
}
use mathlib.Core.List.{append_cancel_left}
use moduo_write.System.Libc.{Libc, LibcLaws}
use moduo_write.Thread.{prefix, new, set_default_name}

module _ {libc : Libc} (laws : LibcLaws libc) where
  new-unnamed :
      (n : ℕ) → n + 1 < 2 ^ 31 → (new libc.decimal [] n).0.name ≡ prefix ++ libc.decimal (n + 1)
  unfolding new set_default_name
  new-unnamed n h =
      let digits : length (libc.decimal (n + 1)) ≤ 10 =
        laws.decimal_length (n + 1) 10 (omega arith) (omega arith) in
      take_all 31 (prefix ++ libc.decimal (n + 1)) (omega arith)

  -- A thread keeps the name that it is given. Without one it is named after the count of threads, and
  -- two such threads, made at different counts, have different names.
  pub new-name :
      (name : List ℕ) (m n : ℕ)
      → name ≢ []
      → m + 1 < 2 ^ 31
      → n + 1 < 2 ^ 31
      → m ≢ n
      → ((new libc.decimal name n).0.name ≡ name)
        × ((new libc.decimal name n).1 ≡ n + 1)
        × ((new libc.decimal [] m).0.name ≢ (new libc.decimal [] n).0.name)
  unfolding new set_default_name
  new-name [] m n h hm hn apart = absurd (h refl)
  new-name (c ∷ cs) m n h hm hn apart = (
    (let given : (length (c ∷ cs) == 0) ≡ false = ground arith in rw given refl),
    refl,
    λ e.
        let digits =
          append_cancel_left prefix (libc.decimal (m + 1)) (libc.decimal (n + 1))
            (sym (new-unnamed m hm) ∙ e ∙ new-unnamed n hn) in
        apart (omega (arith, laws.decimal_injective (m + 1) (n + 1) digits)),
  )
