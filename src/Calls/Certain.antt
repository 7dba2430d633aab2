-- ===== src/Calls/Certain.antt =====
-- Calls that raise no error in the states that satisfy a condition, and leave it satisfied: one
-- rule for each way to build a call.
use deevnet_provisioning_api.Prelude.{
  Bool, true, false, List, [], ◌∷◌, Done, Result, ok, err, if◌then◌else◌,
}
use deevnet_provisioning_api.Calls.{
  Outcome, returns, raises, Call, give, gets, ◌>>=◌, for_each, logged, attempt,
}
use deevnet_provisioning_api.Calls.Outcomes.{
  After, Ensures, give-Ensures, gets-Ensures, bind-Ensures, attempt-Ensures, logged-Ensures,
}

abbrev pub IsOk : {E A : Type 0} → Result E A → Type 0
IsOk (ok a) = Unit
IsOk (err e) = ⊥

module _ {E S : Type 0} where
  pub record Sure {A : Type 0} (before : S → Type 0) (call : Call E S A) : Type 0 where
    pub sure : Ensures before call (λ a. before) (λ e s. ⊥)

  ok-After :
      {A : Type 0} (before : S → Type 0) (o : Outcome E S A)
      → After (λ (a : A). before) (λ (e : E) (s : S). ⊥) o
      → After (λ (a : A) s. before s × Unit) (λ (e : E) s. before s × ⊥) o
  ok-After before (returns a t) h = (h, tt)
  ok-After before (raises e t) h = absurd h

  either-After :
      {A : Type 0} (before : S → Type 0) (o : Outcome E S A)
      → After (λ (a : A). before) (λ (e : E) (s : S). ⊥) o
      → After (λ (a : A). before) (λ (e : E). before) o
  either-After before (returns a t) h = h
  either-After before (raises e t) h = absurd h

  module _ {before : S → Type 0} where
    pub give-Sure : {A : Type 0} (a : A) → Sure before (give a)
    give-Sure a = record { sure = give-Ensures a (λ s h. h) }

    pub gets-Sure : {A : Type 0} (f : S → A) → Sure before (gets f)
    gets-Sure f = record { sure = gets-Ensures f (λ s h. h) }

    pub bind-Sure :
        {A B : Type 0} (call : Call E S A) (k : A → Call E S B)
        → Sure before call
        → ((a : A) → Sure before (k a))
        → Sure before (call >>= k)
    bind-Sure call k first rest = record { sure = bind-Ensures first.sure (λ a. (rest a).sure) }

    pub for_each-Sure :
        {A : Type 0} (list : List A) (body : A → Call E S Done)
        → ((a : A) → Sure before (body a))
        → Sure before (for_each list body)
    unfolding for_each
    for_each-Sure [] body each = give-Sure tt
    for_each-Sure (a ∷ rest) body each =
        bind-Sure (body a) (λ d. for_each rest body) (each a) (λ d. for_each-Sure rest body each)

    pub if-Sure :
        {A : Type 0} (test : Bool) (one other : Call E S A)
        → Sure before one
        → Sure before other
        → Sure before (if test then one else other)
    if-Sure true one other h k = h
    if-Sure false one other h k = k

    -- The answer of a call that raises no error is no error.
    pub attempt-IsOk :
        {A : Type 0} {bad : E → S → Type 0} {call : Call E S A}
        → Sure before call
        → Ensures before (attempt call) (λ answer s. before s × IsOk answer) bad
    attempt-IsOk {call = call} h =
        attempt-Ensures {good = λ answer s. before s × IsOk answer}
          (record { run = λ s b. ok-After before (call s) (h.sure.run s b) })

    pub attempt-Sure :
        {A : Type 0} (call : Call E S A) → Sure before call → Sure before (attempt call)
    attempt-Sure call h = record {
      sure =
          attempt-Ensures {good = λ answer. before}
            (record { run = λ s b. either-After before (call s) (h.sure.run s b) });
    }

    pub logged-Sure :
        {A : Type 0} (call : Call E S A) → Sure before call → Sure before (logged call)
    logged-Sure call h = record {
      sure = logged-Ensures (record { run = λ s b. either-After before (call s) (h.sure.run s b) });
    }

pub ruleset sure_rules =
    (give-Sure, gets-Sure, bind-Sure, for_each-Sure, if-Sure, attempt-Sure, logged-Sure)
