-- ===== src/Common/Outcomes.antt =====
-- How a call of the library ends: it returns, the process exits (`LOG_FATAL`), it calls an empty
-- `std::function` (`std::bad_function_call`), or it does what C++ leaves undefined.
use mathlib.Core.Path.{◌≡◌, refl, subst}
use mathlib.Core.Bool.{Bool, true, false}
use mathlib.Core.Option.{some}
use moduo_write.Common.Tests.{if◌then◌else◌}

pub data Outcome {ℓ} (A : Type ℓ) : Type ℓ where
  done : A → Outcome A
  exited : Outcome A
  bad_call : Outcome A
  undefined : Outcome A

abbrev pub bind {ℓ κ} : {A : Type ℓ} {B : Type κ} → Outcome A → (A → Outcome B) → Outcome B
bind (done a) f = f a
bind exited f = exited
bind bad_call f = bad_call
bind undefined f = undefined

-- Inversion of a chain that returns.
pub bind-eq-done {ℓ κ} :
    {A : Type ℓ} {B : Type κ} (m : Outcome A) (f : A → Outcome B) {b : B}
    → bind m f ≡ done b
    → (a : A) × (m ≡ done a) × (f a ≡ done b)
bind-eq-done (done a) f h = (a, refl, h)
bind-eq-done exited f h = cc
bind-eq-done bad_call f h = cc
bind-eq-done undefined f h = cc

-- A call that returns only in states where `P` holds, unless the process exits: it calls no empty
-- function and does nothing undefined.
abbrev pub Ensures : {A : Type 0} → (A → Type 0) → Outcome A → Type 0
Ensures P (done a) = P a
Ensures P exited = Unit
Ensures P bad_call = ⊥
Ensures P undefined = ⊥

-- It calls no empty function and does nothing undefined.
abbrev pub IsClean : {A : Type 0} → Outcome A → Type 0
IsClean m = Ensures (λ _. Unit) m

pub Ensures-IsClean :
    {A : Type 0} (P : A → Type 0) (m : Outcome A)
    → IsClean m
    → ((a : A) → m ≡ done a → P a)
    → Ensures P m
Ensures-IsClean P (done a) c h = h a refl
Ensures-IsClean P exited c h = tt
Ensures-IsClean P bad_call c h = c
Ensures-IsClean P undefined c h = c

pub bind-IsClean :
    {A B : Type 0} (m : Outcome A) (f : A → B) → IsClean m → IsClean (bind m λ a. done (f a))
bind-IsClean (done a) f h = tt
bind-IsClean exited f h = tt
bind-IsClean bad_call f h = h
bind-IsClean undefined f h = h

pub Ensures-bind :
    {A B : Type 0} (P : A → Type 0) (Q : B → Type 0) (m : Outcome A) (f : A → Outcome B)
    → Ensures P m
    → ((a : A) → P a → Ensures Q (f a))
    → Ensures Q (bind m f)
Ensures-bind P Q (done a) f e h = h a e
Ensures-bind P Q exited f e h = tt
Ensures-bind P Q bad_call f e h = absurd e
Ensures-bind P Q undefined f e h = absurd e

pub Ensures-mono :
    {A : Type 0} (P Q : A → Type 0) (m : Outcome A)
    → Ensures P m
    → ((a : A) → P a → Q a)
    → Ensures Q m
Ensures-mono P Q (done a) e h = h a e
Ensures-mono P Q exited e h = tt
Ensures-mono P Q bad_call e h = e
Ensures-mono P Q undefined e h = e

-- What holds of the result, if there is one.
abbrev pub WhenDone : {A : Type 0} → (A → Type 0) → Outcome A → Type 0
WhenDone {A = A} P m = (a : A) → m ≡ done a → P a

pub some-injective : {A : Type 0} {a b : A} → some a ≡ some b → a ≡ b
some-injective e = cc e

pub done-injective : {A : Type 0} {a b : A} → done a ≡ done b → a ≡ b
done-injective e = cc e

pub done-WhenDone : {A : Type 0} (P : A → Type 0) (a : A) → P a → WhenDone P (done a)
done-WhenDone P a p b e = subst P (done-injective e) p

pub undefined-WhenDone : {A : Type 0} (P : A → Type 0) → WhenDone P undefined
undefined-WhenDone P b e = cc e

pub WhenDone-bind :
    {A B : Type 0} (Q : B → Type 0) (m : Outcome A) (f : A → Outcome B)
    → ((a : A) → m ≡ done a → WhenDone Q (f a))
    → WhenDone Q (bind m f)
WhenDone-bind Q (done a) f h = h a refl
WhenDone-bind Q exited f h = λ b e. cc e
WhenDone-bind Q bad_call f h = λ b e. cc e
WhenDone-bind Q undefined f h = λ b e. cc e

pub WhenDone-if :
    {A : Type 0} (P : A → Type 0) (b : Bool) {m n : Outcome A}
    → WhenDone P m
    → WhenDone P n
    → WhenDone P (if b then m else n)
WhenDone-if P true p q = p
WhenDone-if P false p q = q

pub Ensures-WhenDone :
    {A : Type 0} (P Q : A → Type 0) (m : Outcome A)
    → Ensures P m
    → WhenDone Q m
    → Ensures (λ a. P a × Q a) m
Ensures-WhenDone P Q (done a) e h = (e, h a refl)
Ensures-WhenDone P Q exited e h = tt
Ensures-WhenDone P Q bad_call e h = absurd e
Ensures-WhenDone P Q undefined e h = absurd e
