-- ===== src/Calls/Laws.antt =====
-- What a call leaves of a state, from what the calls in it leave of it: one rule for each way to
-- build a call.
use mathlib.Core.Bool.{Bool, true, false}
use mathlib.Core.List.{List, [], ◌∷◌}
use deevnet_provisioning_api.Prelude.{Done, Result, ok, err, ◌≡◌, ◌≢◌, refl, if◌then◌else◌}
use deevnet_provisioning_api.Calls.{
  Outcome, returns, raises, Call, state_of, give, fail_with, gets, next, ◌>>=◌, refuse_when,
  checked, for_each, dropped, logged, answered, attempt,
}

-- A relation between the state before a call and the one after it, which calls in a row keep.
pub record Change {ℓ} (S : Type ℓ) : Type (ℓ + 1) where
  pub relates : S → S → Type ℓ
  pub reflexive : (s : S) → relates s s
  pub transitive : (s t u : S) → relates s t → relates t u → relates s u

pub record Leaves {ℓ κ ι} {E : Type ℓ} {S : Type κ} {A : Type ι} (c : Change S) (call : Call E S A)
    : Type κ where
  pub after : (s : S) → c.relates s (state_of (call s))

module _ {ℓ κ} {E : Type ℓ} {S : Type κ} (c : Change S) where
  dropped_lem {ι} :
      {A : Type ι} (s : S) (o : Outcome E S A)
      → c.relates s (state_of o)
      → c.relates s (state_of (dropped o))
  dropped_lem s (returns a t) h = h
  dropped_lem s (raises e t) h = h

  answered_lem {ι} :
      {A : Type ι} (s : S) (o : Outcome E S A)
      → c.relates s (state_of o)
      → c.relates s (state_of (answered o))
  answered_lem s (returns a t) h = h
  answered_lem s (raises e t) h = h

module _ {ℓ κ} {E : Type ℓ} {S : Type κ} {c : Change S} where
  pub give-Leaves {ι} : {A : Type ι} (a : A) → Leaves {E = E} c (give a)
  unfolding give
  give-Leaves a = record { after = λ s. c.reflexive s }

  pub fail_with-Leaves {ι} : {A : Type ι} (e : E) → Leaves c (fail_with {A = A} e)
  unfolding fail_with
  fail_with-Leaves e = record { after = λ s. c.reflexive s }

  pub gets-Leaves {ι} : {A : Type ι} (f : S → A) → Leaves {E = E} c (gets f)
  unfolding gets
  gets-Leaves f = record { after = λ s. c.reflexive s }

  pub refuse_when-Leaves : (test : Bool) (e : E) → Leaves c (refuse_when test e)
  unfolding refuse_when
  refuse_when-Leaves true e = record { after = λ s. c.reflexive s }
  refuse_when-Leaves false e = record { after = λ s. c.reflexive s }

  pub checked-Leaves {ι} : {A : Type ι} (r : Result E A) → Leaves c (checked r)
  unfolding checked
  checked-Leaves (ok a) = record { after = λ s. c.reflexive s }
  checked-Leaves (err e) = record { after = λ s. c.reflexive s }

  pub if-Leaves {ι} :
      {A : Type ι} (test : Bool) (one other : Call E S A)
      → Leaves c one
      → Leaves c other
      → Leaves c (if test then one else other)
  if-Leaves true one other h k = h
  if-Leaves false one other h k = k

  next_lem {ι μ} :
      {A : Type ι} {B : Type μ} (s : S) (o : Outcome E S A) (k : A → Call E S B)
      → c.relates s (state_of o)
      → ((a : A) → Leaves c (k a))
      → c.relates s (state_of (next k o))
  next_lem s (returns a t) k first rest =
      c.transitive s t (state_of (k a t)) first ((rest a).after t)
  next_lem s (raises e t) k first rest = first

  pub bind-Leaves {ι μ} :
      {A : Type ι} {B : Type μ} (call : Call E S A) (k : A → Call E S B)
      → Leaves c call
      → ((a : A) → Leaves c (k a))
      → Leaves c (call >>= k)
  unfolding ◌>>=◌
  bind-Leaves call k first rest = record { after = λ s. next_lem s (call s) k (first.after s) rest }

  pub for_each-Leaves {ι} :
      {A : Type ι} (list : List A) (body : A → Call E S Done)
      → ((a : A) → Leaves c (body a))
      → Leaves c (for_each list body)
  unfolding for_each
  for_each-Leaves [] body each = give-Leaves tt
  for_each-Leaves (a ∷ rest) body each =
      bind-Leaves (body a) (λ _. for_each rest body) (each a) (λ _. for_each-Leaves rest body each)

  pub logged-Leaves {ι} : {A : Type ι} (call : Call E S A) → Leaves c call → Leaves c (logged call)
  unfolding logged
  logged-Leaves call h = record { after = λ s. dropped_lem c s (call s) (h.after s) }

  pub attempt-Leaves {ι} :
      {A : Type ι} (call : Call E S A) → Leaves c call → Leaves c (attempt call)
  unfolding attempt
  attempt-Leaves call h = record { after = λ s. answered_lem c s (call s) (h.after s) }

-- What a call that returned has gone through.
module _ {ℓ κ} {E : Type ℓ} {S : Type κ} where
  next-eq-returns {ι μ} :
      {A : Type ι} {B : Type μ} (o : Outcome E S A) (k : A → Call E S B) (b : B) (t : S)
      → next k o ≡ returns b t
      → (a : A) × (u : S) × (o ≡ returns a u) × (k a u ≡ returns b t)
  next-eq-returns (returns a u) k b t h = (a, u, refl, h)
  next-eq-returns (raises e u) k b t h = absurd (cc)

  pub bind-eq-returns {ι μ} :
      {A : Type ι} {B : Type μ} (call : Call E S A) (k : A → Call E S B) (s : S) (b : B) (t : S)
      → (call >>= k) s ≡ returns b t
      → (a : A) × (u : S) × (call s ≡ returns a u) × (k a u ≡ returns b t)
  unfolding ◌>>=◌
  bind-eq-returns call k s b t h = next-eq-returns (call s) k b t h

  pub give-eq-returns {ι} :
      {A : Type ι} (a b : A) (s t : S) → give {E = E} a s ≡ returns b t → a ≡ b
  unfolding give
  give-eq-returns a b s t h = cc

  pub state_of-give {ι} : {A : Type ι} (a b : A) (s t : S) → give {E = E} a s ≡ returns b t → s ≡ t
  unfolding give
  state_of-give a b s t h = cc

  pub fail_with-ne-returns {ι} :
      {A : Type ι} (e : E) (b : A) (s t : S) → fail_with e s ≢ returns b t
  unfolding fail_with
  fail_with-ne-returns e b s t h = cc

pub ruleset call_rules = (
  give-Leaves, fail_with-Leaves, gets-Leaves, refuse_when-Leaves, checked-Leaves, if-Leaves,
  bind-Leaves, for_each-Leaves, logged-Leaves, attempt-Leaves,
)
