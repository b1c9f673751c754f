-- ===== src/Base/Outcome.antt =====
-- Go's pair of a value and an error, as one value, and its chains.
use mathlib.Core.Path.{◌≡◌, refl}
use mathlib.Core.Logic.{◌⊎◌, inl, inr}
use mathlib.Core.Bool.{Bool, true, false}

pub data Result {ℓ κ} (E : Type κ) (A : Type ℓ) : Type (ℓ ⊔ κ) where
  ok : A → Result E A
  err : E → Result E A

infixl 5 ◌>>=◌ ◌>>◌
abbrev pub ◌>>=◌ {ℓ κ μ} :
    {E : Type κ} {A : Type ℓ} {B : Type μ} → Result E A → (A → Result E B) → Result E B
ok a >>= f = f a
err e >>= f = err e

abbrev pub ◌>>◌ {κ μ} : {E : Type κ} {B : Type μ} → Result E (Unit {0}) → Result E B → Result E B
m >> k = m >>= λ _. k

-- `if bad { return err }`.
abbrev pub refuse {κ} : {E : Type κ} → Bool → E → Result E (Unit {0})
refuse true e = err e
refuse false e = ok tt

abbrev pub map_err {ℓ κ μ} :
    {E : Type κ} {F : Type μ} {A : Type ℓ} → (E → F) → Result E A → Result F A
map_err f (ok a) = ok a
map_err f (err e) = err (f e)

pub >>=-eq_ok {ℓ κ μ} :
    {E : Type κ} {A : Type ℓ} {B : Type μ} (m : Result E A) (f : A → Result E B) {b : B}
    → (m >>= f) ≡ ok b
    → (a : A) × (m ≡ ok a) × (f a ≡ ok b)
>>=-eq_ok (ok a) f h = (a, refl, h)
>>=-eq_ok (err e) f h = cc

pub Result-cases {ℓ κ} :
    {E : Type κ} {A : Type ℓ} (r : Result E A) → ((a : A) × (r ≡ ok a)) ⊎ ((e : E) × (r ≡ err e))
Result-cases (ok a) = inl (a, refl)
Result-cases (err e) = inr (e, refl)
