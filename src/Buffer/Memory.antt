-- ===== src/Buffer/Memory.antt =====
-- What Buffer.h asks of `std::vector<char>`, `std::copy` and `std::string`, over a list of bytes.
use native.Mathlib.Numerals.{add-one}
use moduo_write.Common.{
  ℕ, zero, suc, ◌+◌, ◌-◌, ◌≤◌, ◌≡◌, refl, sym, ap, ◌∙◌, Option, none, some, List, [], ◌∷◌, ◌++◌,
  append_assoc, arith, leb, if◌then◌else◌, length, get_or, set, take, drop, replicate, slice,
  length-append, length-set, length-take, length-replicate, take-append-drop, take_all, slice-suc,
  drop-set, take-set, drop-append_le, drop-take, take-append_length, length-drop, take-append_le,
}

-- `buffer_.resize(n)`: new bytes are zero.
unfoldable pub resize : List ℕ → ℕ → List ℕ
resize xs n = take n xs ++ replicate (n - length xs) 0

-- `std::copy(data, data + len, begin + i)` from memory outside the vector.
unfoldable pub copy_in : List ℕ → ℕ → List ℕ → List ℕ
copy_in xs i [] = xs
copy_in xs i (d ∷ ds) = copy_in (set xs i d) (i + 1) ds

-- `std::copy(begin + src, begin + src + n, begin + dst)` within the vector, byte by byte.
unfoldable pub copy_within : List ℕ → ℕ → ℕ → ℕ → List ℕ
copy_within xs src dst zero = xs
copy_within xs src dst (suc n) = copy_within (set xs dst (get_or xs src 0)) (src + 1) (dst + 1) n

-- `std::string(begin + i, n)`; `none` where it would read beyond the vector.
unfoldable pub read_at : List ℕ → ℕ → ℕ → Option (List ℕ)
read_at xs i n = if leb (i + n) (length xs) then some (slice xs i n) else none

pub length-resize : (xs : List ℕ) (n : ℕ) → length (resize xs n) ≡ n
unfolding resize
length-resize xs n = omega (
  arith,
  length-append (take n xs) (replicate (n - length xs) 0),
  length-take n xs,
  length-replicate (n - length xs) (let z : ℕ = 0 in z),
)

-- Growing keeps the bytes that were there.
pub resize-grow :
    (xs : List ℕ) (n : ℕ) → length xs ≤ n → resize xs n ≡ xs ++ replicate (n - length xs) 0
unfolding resize
resize-grow xs n h = rw (take_all n xs h)

pub length-copy_in : (xs : List ℕ) (i : ℕ) (ds : List ℕ) → length (copy_in xs i ds) ≡ length xs
unfolding copy_in
length-copy_in xs i [] = refl
length-copy_in xs i (d ∷ ds) = length-copy_in (set xs i d) (i + 1) ds ∙ length-set xs i d

pub length-copy_within :
    (xs : List ℕ) (src dst n : ℕ) → length (copy_within xs src dst n) ≡ length xs
unfolding copy_within
length-copy_within xs src dst zero = refl
length-copy_within xs src dst (suc n) =
    length-copy_within (set xs dst (get_or xs src 0)) (src + 1) (dst + 1) n
    ∙ length-set xs dst (get_or xs src 0)

-- Copying in replaces exactly the bytes from `i` on.
pub copy_in-splice :
    (xs : List ℕ) (i : ℕ) (ds : List ℕ)
    → i + length ds ≤ length xs
    → copy_in xs i ds ≡ take i xs ++ (ds ++ drop (i + length ds) xs)
unfolding copy_in
copy_in-splice xs i [] h =
    sym (take-append-drop i xs) ∙ ap (λ k. take i xs ++ drop k xs) {x = i} (omega arith)
copy_in-splice xs i (d ∷ ds) h =
    copy_in-splice (set xs i d) (i + 1) ds (omega (arith, length-set xs i d))
    ∙ rw
        (
          add-one,
          take-set xs i d (omega arith),
          append_assoc,
          drop-set xs i (suc i + length ds) d (omega arith),
        )
        (ap (λ k. take i xs ++ (d ∷ (ds ++ drop k xs))) {x = suc i + length ds} (omega arith))

-- The overlapping copy of `makeSpace` moves towards the front, so it never reads a byte that it has
-- overwritten: it puts the old bytes in place.
pub copy_within-copy_in :
    (xs : List ℕ) (src dst n : ℕ)
    → dst ≤ src
    → src + n ≤ length xs
    → copy_within xs src dst n ≡ copy_in xs dst (slice xs src n)
unfolding copy_within copy_in
copy_within-copy_in xs src dst zero h l = refl
copy_within-copy_in xs src dst (suc n) h l =
    let v = get_or xs src 0 in
    copy_within-copy_in (set xs dst v) (src + 1) (dst + 1) n (omega arith)
      (omega (arith, length-set xs dst v))
    ∙ rw (drop-set xs dst (src + 1) v (omega arith), slice-suc xs src n 0 (omega arith))
        (ap (λ k. copy_in (set xs dst v) (dst + 1) (take n (drop k xs))) {x = src + 1} {y = suc src}
          (omega arith))

-- Bytes copied in behind a slice extend it.
pub slice-copy_in :
    (xs : List ℕ) (r w : ℕ) (ds : List ℕ)
    → r ≤ w
    → w + length ds ≤ length xs
    → slice (copy_in xs w ds) r (w + length ds - r) ≡ slice xs r (w - r) ++ ds
slice-copy_in xs r w ds h l =
    rw
      (
        copy_in-splice xs w ds l,
        drop-append_le r (take w xs) (ds ++ drop (w + length ds) xs)
            (omega (arith, length-take w xs)),
        drop-take r w xs h,
        ← append_assoc,
      )
      (take-append_length (w + length ds - r) (slice xs r (w - r) ++ ds) (drop (w + length ds) xs) (
        omega (
          arith,
          length-append (slice xs r (w - r)) ds,
          length-take (w - r) (drop r xs),
          length-drop r xs,
        )))

-- Growing changes no slice.
pub slice-resize :
    (xs : List ℕ) (n i k : ℕ)
    → length xs ≤ n
    → i + k ≤ length xs
    → slice (resize xs n) i k ≡ slice xs i k
slice-resize xs n i k h l =
    rw (resize-grow xs n h, drop-append_le i xs (replicate (n - length xs) 0) (omega arith))
      (take-append_le k (drop i xs) (replicate (n - length xs) 0) (omega (arith, length-drop i xs)))
