-- ===== src/Base/Errors.antt =====
-- A Go call that returns a value and an error: `err` carries the error.

use mathlib.Core.Path.{Path, ◌≡◌, refl}
use mathlib.Core.Logic.{◌⊎◌, inl, inr}
use mathlib.Core.Bool.{Bool, true, false}

pub data Result {ℓ} (E : Type 0) (A : Type ℓ) : Type ℓ where
  ok : A → Result E A
  err : E → Result E A

-- A call has succeeded or failed.
pub Result-cases {ℓ} :
    {E : Type 0} {A : Type ℓ} (r : Result E A) → ((e : E) × (r ≡ err e)) ⊎ ((a : A) × (r ≡ ok a))
Result-cases (ok value) = inr (value, refl)
Result-cases (err e) = inl (e, refl)

-- Go's `if cond { return err }`.
abbrev pub fail_if : {E : Type 0} → Bool → E → Result E (Unit {0})
fail_if false e = ok tt
fail_if true e = err e

-- A call after which the function returns if there is an error
infixl 5 ◌>>=◌
abbrev pub ◌>>=◌ {ℓ κ} :
    {E : Type 0} {A : Type ℓ} {B : Type κ} (call : Result E A) (rest : A → Result E B) → Result E B
err e >>= rest = err e
ok value >>= rest = rest value

infixl 5 ◌>>◌
abbrev pub ◌>>◌ {κ} :
    {E : Type 0} {B : Type κ} (call : Result E (Unit {0})) (rest : Result E B) → Result E B
call >> rest = call >>= (λ nothing. rest)

-- If the function succeeds, so did the call.
pub >>=-eq-ok {ℓ κ} :
    {E : Type 0} {A : Type ℓ} {B : Type κ} (call : Result E A) (rest : A → Result E B) {b : B}
    → (call >>= rest) ≡ ok b
    → (value : A) × (call ≡ ok value) × (rest value ≡ ok b)
>>=-eq-ok (err e) rest h = cc
>>=-eq-ok (ok value) rest h = (value, refl, h)

pub ok-ne-err {ℓ} : {E : Type 0} {A : Type ℓ} {value : A} {e : E} → ok value ≡ err e → ⊥
ok-ne-err same = cc

pub ok_inj {ℓ} : {E : Type 0} {A : Type ℓ} {a b : A} → Path (Result E A) (ok a) (ok b) → a ≡ b
ok_inj e = cc
