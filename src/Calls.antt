-- ===== src/Calls.antt =====
-- Code that changes a state and returns a value or an error, as functions on the state: an error
-- leaves the state that the calls before it have made.
pub mod Laws
pub mod Outcomes
pub mod Certain
use mathlib.Core.Bool.{Bool, true, false}
use mathlib.Core.List.{List, [], ◌∷◌}
use deevnet_provisioning_api.Prelude.{Done, Result, ok, err}

pub data Outcome {ℓ κ ι} (E : Type ℓ) (S : Type κ) (A : Type ι) : Type (ℓ ⊔ κ ⊔ ι) where
  returns : A → S → Outcome E S A
  raises : E → S → Outcome E S A

abbrev pub Call {ℓ κ ι} : Type ℓ → Type κ → Type ι → Type (ℓ ⊔ κ ⊔ ι)
Call E S A = S → Outcome E S A

module _ {ℓ κ} {E : Type ℓ} {S : Type κ} where
  abbrev pub state_of {ι} : {A : Type ι} → Outcome E S A → S
  state_of (returns a s) = s
  state_of (raises e s) = s

  unfoldable pub give {ι} : {A : Type ι} → A → Call E S A
  give a s = returns a s

  unfoldable pub fail_with {ι} : {A : Type ι} → E → Call E S A
  fail_with e s = raises e s

  unfoldable pub gets {ι} : {A : Type ι} → (S → A) → Call E S A
  gets f s = returns (f s) s

  unfoldable pub modify : (S → S) → Call E S Done
  modify f s = returns tt (f s)

  abbrev pub next {ι μ} :
      {A : Type ι} {B : Type μ} → (A → Call E S B) → Outcome E S A → Outcome E S B
  next k (returns a s) = k a s
  next k (raises e s) = raises e s

  infixl 5 ◌>>=◌ ◌>>◌
  unfoldable pub ◌>>=◌ {ι μ} :
      {A : Type ι} {B : Type μ} → Call E S A → (A → Call E S B) → Call E S B
  (call >>= k) s = next k (call s)

  abbrev pub ◌>>◌ {μ} : {B : Type μ} → Call E S Done → Call E S B → Call E S B
  call >> k = call >>= λ _. k

  unfoldable pub refuse_when : Bool → E → Call E S Done
  refuse_when true e s = raises e s
  refuse_when false e s = returns tt s

  -- A result already at hand.
  unfoldable pub checked {ι} : {A : Type ι} → Result E A → Call E S A
  checked (ok a) s = returns a s
  checked (err e) s = raises e s

  -- The loop over a list that stops at the first error.
  unfoldable pub for_each {ι} : {A : Type ι} → List A → (A → Call E S Done) → Call E S Done
  for_each [] body = give tt
  for_each (a ∷ rest) body = body a >> for_each rest body

  abbrev pub dropped {ι} : {A : Type ι} → Outcome E S A → Outcome E S Done
  dropped (returns a s) = returns tt s
  dropped (raises e s) = returns tt s

  -- An error that is seen and dropped, as one that is only logged.
  unfoldable pub logged {ι} : {A : Type ι} → Call E S A → Call E S Done
  logged call s = dropped (call s)

  abbrev pub answered {ι} : {A : Type ι} → Outcome E S A → Outcome E S (Result E A)
  answered (returns a s) = returns (ok a) s
  answered (raises e s) = returns (err e) s

  -- The value or the error, where the caller tells errors apart.
  unfoldable pub attempt {ι} : {A : Type ι} → Call E S A → Call E S (Result E A)
  attempt call s = answered (call s)
