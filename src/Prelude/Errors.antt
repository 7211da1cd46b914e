-- ===== src/Prelude/Errors.antt =====
-- Functions that return `(value, error)`: a value or an error, never both.
use mathlib.Core.Path.{◌≡◌, refl}
use mathlib.Core.Logic.{◌⊎◌, inl, inr}
use mathlib.Core.Bool.{Bool, true, false}

pub data Result {ℓ} (E : Type ℓ) (A : Type ℓ) : Type ℓ where
  ok : A → Result E A
  err : E → Result E A

infixl 10 ◌>>=◌ ◌>>◌
abbrev pub ◌>>=◌ {ℓ} : {E A B : Type ℓ} → Result E A → (A → Result E B) → Result E B
err z >>= k = err z
ok x >>= k = k x

abbrev pub ◌>>◌ {ℓ} : {E A B : Type ℓ} → Result E A → Result E B → Result E B
m >> k = m >>= λ _. k

-- `if failed { return err }`
abbrev pub refuse_if : {E : Type 0} → Bool → E → Result E (Unit {0})
refuse_if true e = err e
refuse_if false e = ok tt

abbrev pub is_ok {ℓ} : {E A : Type ℓ} → Result E A → Bool
is_ok (ok a) = true
is_ok (err e) = false

-- What a call that succeeds is made of: its first part succeeded, and so did the rest on its value.
pub >>=-eq-ok {ℓ} :
    {E X Y : Type ℓ} {y : Y} (r : Result E X) (k : X → Result E Y)
    → r >>= k ≡ ok y
    → (x : X) × (r ≡ ok x) × (k x ≡ ok y)
>>=-eq-ok (err z) k p = cc
>>=-eq-ok (ok x) k p = (x, refl, p)

-- To split on a check that may fail.
pub check-cases : {E : Type 0} (r : Result E Unit) → (r ≡ ok tt) ⊎ ((e : E) × (r ≡ err e))
check-cases (ok _) = inl refl
check-cases (err e) = inr (e, refl)

pub Result-cases {ℓ} :
    {E A : Type ℓ} (r : Result E A) → ((a : A) × (r ≡ ok a)) ⊎ ((e : E) × (r ≡ err e))
Result-cases (ok a) = inl (a, refl)
Result-cases (err e) = inr (e, refl)
