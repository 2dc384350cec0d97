-- ===== src/Common/Results.antt =====
-- What a Go call that may fail comes to: a value, an error value, or a run-time panic (an index or
-- slice out of range, or a `panic` statement).
use mathlib.Core.Path.{◌≡◌, refl}
use mathlib.Core.Logic.{◌≢◌, ◌⊎◌, inl, inr}
use mathlib.Core.Bool.{Bool, true, false}

pub data Outcome (E A : Type 0) : Type 0 where
  ok : A → Outcome E A
  err : E → Outcome E A
  panic : Outcome E A

-- The run-time check of an index or a slice.
abbrev pub in_range : {E A : Type 0} → Bool → A → Outcome E A
in_range true a = ok a
in_range false a = panic

-- `if bad { return e }`
abbrev pub refuse : {E : Type 0} → Bool → E → Outcome E Unit
refuse false e = ok tt
refuse true e = err e

-- What follows a call is reached only by its value.
infixl 5 ◌>>=◌ ◌>>◌
abbrev pub ◌>>=◌ : {E A B : Type 0} → Outcome E A → (A → Outcome E B) → Outcome E B
panic >>= after = panic
err e >>= after = err e
ok a >>= after = after a

abbrev pub ◌>>◌ : {E B : Type 0} → Outcome E Unit → Outcome E B → Outcome E B
first >> second = first >>= λ done. second

pub >>=-ne-panic :
    {E A B : Type 0} (m : Outcome E A) (f : A → Outcome E B)
    → m ≢ panic
    → ((a : A) → m ≡ ok a → f a ≢ panic)
    → (m >>= f) ≢ panic
>>=-ne-panic (ok a) f h k = k a refl
>>=-ne-panic (err e) f h k = λ p. cc
>>=-ne-panic panic f h k = absurd (h refl)

-- Where a chain succeeds, its first call did.
pub >>=-eq-ok :
    {E A B : Type 0} (first : Outcome E A) (after : A → Outcome E B) {last : B}
    → (first >>= after) ≡ ok last
    → (value : A) × (first ≡ ok value) × (after value ≡ ok last)
>>=-eq-ok panic after e = cc
>>=-eq-ok (err x) after e = cc
>>=-eq-ok (ok value) after e = (value, refl, e)

pub Outcome-cases :
    {E A : Type 0} (m : Outcome E A)
    → ((a : A) × (m ≡ ok a)) ⊎ (((e : E) × (m ≡ err e)) ⊎ (m ≡ panic))
Outcome-cases (ok a) = inl (a, refl)
Outcome-cases (err e) = inr (inl (e, refl))
Outcome-cases panic = inr (inr refl)
