-- ===== src/Prelude/Results.antt =====
-- Go's pair of a value and an error, as a sum.
use mathlib.Core.Path.{◌≡◌, refl}
use mathlib.Core.Bool.{Bool, true, false}

pub data Result {ℓ κ} (E : Type ℓ) (A : Type κ) : Type (ℓ ⊔ κ) where
  ok : A → Result E A
  err : E → Result E A

-- What a check returns where there is nothing to return.
abbrev pub Done : Type 0
Done = Unit {0}

infixl 5 ◌>>=◌ ◌>>◌
abbrev pub ◌>>=◌ {ℓ ℓₐ ℓᵦ} :
    {Err : Type ℓ} {Val : Type ℓₐ} {Next : Type ℓᵦ}
    → Result Err Val
    → (Val → Result Err Next)
    → Result Err Next
err fault >>= continue = err fault
ok value >>= continue = continue value

abbrev pub ◌>>◌ {ℓ ℓᵦ} :
    {Err : Type ℓ} {Next : Type ℓᵦ} → Result Err Done → Result Err Next → Result Err Next
checked >> continue = checked >>= λ _. continue

-- `if test { return err }`.
abbrev pub refuse_if {ℓ} : {E : Type ℓ} → Bool → E → Result E Done
refuse_if true e = err e
refuse_if false e = ok tt

pub >>=-eq-ok {ℓ ℓₐ ℓᵦ} :
    {Err : Type ℓ} {Val : Type ℓₐ} {Next : Type ℓᵦ} (step : Result Err Val)
    (continue : Val → Result Err Next) {last : Next}
    → (step >>= continue) ≡ ok last
    → (value : Val) × (step ≡ ok value) × (continue value ≡ ok last)
>>=-eq-ok (err fault) continue done = cc
>>=-eq-ok (ok value) continue done = (value, refl, done)
