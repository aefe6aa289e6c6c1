-- ===== src/System/ToyLibc.antt =====
-- Such functions to run the model on. An address is printed as one number, which `inet_addr` reads
-- too.
use moduo_write.Common.{
  ℕ, zero, suc, ◌+◌, ◌-◌, ◌*◌, ◌/◌, ◌%◌, ◌^◌, ◌≡◌, refl, sym, ap, ◌∙◌, ◌<◌, ◌≤◌, inl, inr, true,
  List, [], ◌∷◌, ◌++◌, arith, length, ltb, if◌then◌else◌, Bool-cases, length-append,
}
use moduo_write.System.Libc.{Libc, LibcLaws}

-- The last digit last.
pub digits : ℕ → ℕ → List ℕ
digits zero n = []
digits (suc f) n =
    let rest = digits f (n / 10) in if ltb n 10 then (n + 48) ∷ [] else rest ++ (n % 10 + 48) ∷ []

pub value_from : ℕ → List ℕ → ℕ
value_from acc [] = acc
value_from acc (c ∷ cs) = value_from (acc * 10 + (c - 48)) cs

pub decimal : ℕ → List ℕ
decimal n = digits (suc n) n

pub value : List ℕ → ℕ
value cs = value_from 0 cs

value_from-snoc :
    (acc : ℕ) (cs : List ℕ) (c : ℕ)
    → value_from acc (cs ++ c ∷ []) ≡ value_from acc cs * 10 + (c - 48)
unfolding value_from
value_from-snoc acc [] c = refl
value_from-snoc acc (d ∷ cs) c = value_from-snoc (acc * 10 + (d - 48)) cs c

value-digits : (f n : ℕ) → n < f → value (digits f n) ≡ n
unfolding digits value value_from
value-digits zero n h = absurd (omega arith)
value-digits (suc f) n h = elim (Bool-cases (ltb n 10)) [
  | inl e ↦ rw e (omega arith)
  | inr e ↦
      let ten : 10 ≤ n = ground arith in
      rw (e, value_from-snoc 0 (digits f (n / 10)) (n % 10 + 48))
        (omega (arith, value-digits f (n / 10) (omega arith)))
]

length-digits : (k f n : ℕ) → n < 10 ^ suc k → length (digits f n) ≤ suc k
unfolding digits
length-digits k zero n h = omega arith
length-digits zero (suc f) n h =
    let small : ltb n 10 ≡ true = ground arith in rw small (omega arith)
length-digits (suc k) (suc f) n h = elim (Bool-cases (ltb n 10)) [
  | inl e ↦ rw e (omega arith)
  | inr e ↦
      let smaller : n / 10 < 10 ^ suc k = omega arith in
      rw e (
        omega (
          arith,
          length-append (digits f (n / 10)) ((n % 10 + 48) ∷ []),
          length-digits k f (n / 10) smaller,
        ))
]

decimal_injective : (m n : ℕ) → decimal m ≡ decimal n → m ≡ n
unfolding decimal
decimal_injective m n e =
    sym (value-digits (suc m) m (omega arith)) ∙ ap value e ∙ value-digits (suc n) n (omega arith)

length-decimal : (n k : ℕ) → 1 ≤ k → n < 10 ^ k → length (decimal n) ≤ k
unfolding decimal
length-decimal n zero h l = absurd (omega arith)
length-decimal n (suc k) h l = length-digits k (suc n) n l

abbrev pub swapped : ℕ → ℕ
swapped p = (p % 256) * 256 + p / 256

short : (p : ℕ) → p < 2 ^ 16 → swapped p < 2 ^ 16
short p h = omega arith

twice : (p : ℕ) → p < 2 ^ 16 → swapped (swapped p) ≡ p
twice p h = omega arith

ntop : (a : ℕ) → a < 2 ^ 32 → length (decimal a) ≤ 15
ntop a h = length-decimal a 15 (omega arith) (omega arith)

again : (a : ℕ) → value (decimal a) ≡ a
unfolding decimal
again a = value-digits (suc a) a (omega arith)

abbrev pub toy_libc : Libc
toy_libc = record {
  htons = swapped;
  ntohs = swapped;
  inet_addr = value;
  inet_ntop = decimal;
  decimal = decimal;
}

pub toy_libc_laws : LibcLaws toy_libc
toy_libc_laws = record {
  htons_short = short;
  ntohs_short = short;
  ntohs_htons = twice;
  htons_ntohs = twice;
  ntop_length = ntop;
  addr_ntop = λ a h. again a;
  decimal_length = length-decimal;
  decimal_injective = decimal_injective;
}
