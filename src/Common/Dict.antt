-- ===== src/Common/Dict.antt =====
-- `std::unordered_map` as an association list: `erase`, `m[k] = v` and `find`.
use Prim.Native.Nat.{ℕ}
use mathlib.Core.Path.{◌≡◌, refl}
use mathlib.Core.Option.{Option, none, some}
use mathlib.Core.List.{List, [], ◌∷◌}
use native.Mathlib.Omega.{arith}
use moduo_write.Common.Tests.{◌==◌, if◌then◌else◌}

module _ {ℓ} {A : Type ℓ} where
  unfoldable pub erase : ℕ → List (ℕ × A) → List (ℕ × A)
  erase key [] = []
  erase key (entry ∷ es) = let kept = erase key es in if entry.0 == key then kept else entry ∷ kept

  unfoldable pub insert : ℕ → A → List (ℕ × A) → List (ℕ × A)
  insert key a [] = (key, a) ∷ []
  insert key a (entry ∷ es) =
      let others = insert key a es in if entry.0 == key then (key, a) ∷ es else entry ∷ others

  unfoldable pub lookup : ℕ → List (ℕ × A) → Option A
  lookup key [] = none
  lookup key (entry ∷ es) =
      let found = lookup key es in if entry.0 == key then some entry.1 else found

  -- After `erase` a key is not found, and any other key as before.
  pub lookup-erase :
      (gone key : ℕ) (es : List (ℕ × A))
      → lookup key (erase gone es) ≡ (if gone == key then none else lookup key es)
  unfolding erase lookup
  lookup-erase gone key [] = ground arith
  lookup-erase gone key (entry ∷ es) = ground (arith, lookup-erase gone key es)

  -- After `m[k] = v` the key has the new value, and any other key the old one.
  pub lookup-insert :
      (new key : ℕ) (a : A) (es : List (ℕ × A))
      → lookup key (insert new a es) ≡ (if new == key then some a else lookup key es)
  unfolding insert lookup
  lookup-insert new key a [] = refl
  lookup-insert new key a (entry ∷ es) = ground (arith, lookup-insert new key a es)

  -- What was put in is found.
  pub lookup-inserted :
      (key : ℕ) (a : A) (es : List (ℕ × A)) → lookup key (insert key a es) ≡ some a
  lookup-inserted key a es = ground (arith, lookup-insert key key a es)
