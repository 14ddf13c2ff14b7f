-- ===== src/Prelude/Result.antt =====
-- Python functions that may raise. A `ValidationException` carries its reason; the other
-- exceptions are told apart by their class alone.
use mathlib.Core.Path.{◌≡◌, refl}
use mathlib.Core.Logic.{◌⊎◌, inl, inr}
use mathlib.Core.Bool.{Bool, true, false}

module _ {ℓ κ} (E : Type κ) (A : Type ℓ) where
  pub data Result : Type (ℓ ⊔ κ) where
    ok : A → Result
    err : E → Result

abbrev pub guard {κ} : {E : Type κ} → Bool → E → Result E (Unit {0})
guard false failure = err failure
guard true _ = ok tt

pub Result-cases {ℓ μ} :
    {E : Type μ} {A : Type ℓ} (m : Result E A) → ((a : A) × (m ≡ ok a)) ⊎ ((e : E) × (m ≡ err e))
Result-cases (ok a) = inl (a, refl)
Result-cases (err e) = inr (e, refl)

infixl 5 ◌>>=◌ ◌>>◌
abbrev pub ◌>>=◌ {ℓ κ μ} :
    {E : Type μ} {A : Type ℓ} {B : Type κ} → Result E A → (A → Result E B) → Result E B
err failure >>= k = err failure
ok value >>= k = k value

abbrev pub ◌>>◌ {ℓ κ μ} :
    {E : Type μ} {A : Type ℓ} {B : Type κ} → Result E A → Result E B → Result E B
m >> k = m >>= λ _. k
