-- ===== src/Calls/Outcomes.antt =====
-- What holds after a call, of the value and the state or of the error and the state, from what
-- holds before it: one rule for each way to build a call.
use deevnet_provisioning_api.Prelude.{
  ◌≡◌, refl, Bool, true, false, Done, Result, ok, err, if◌then◌else◌,
}
use deevnet_provisioning_api.Calls.{
  Outcome, returns, raises, Call, state_of, give, fail_with, gets, modify, next, ◌>>=◌, refuse_when,
  checked, dropped, logged, answered, attempt,
}
use deevnet_provisioning_api.Calls.Laws.{Change, Leaves}

module _ {E S : Type 0} where
  -- The value with its state, or the error with its state, as the outcome has it.
  abbrev pub After : {A : Type 0} → (A → S → Type 0) → (E → S → Type 0) → Outcome E S A → Type 0
  After good bad (returns a s) = good a s
  After good bad (raises e s) = bad e s

  pub record Ensures {A : Type 0} (before : S → Type 0) (call : Call E S A) (good : A → S → Type 0)
      (bad : E → S → Type 0) : Type 0 where
    pub run : (s : S) → before s → After good bad (call s)

  next-After :
      {A B : Type 0} {good : A → S → Type 0} {bad : E → S → Type 0} (o : Outcome E S B)
      (k : B → Call E S A) (middle : B → S → Type 0)
      → After middle bad o
      → ((b : B) → Ensures (middle b) (k b) good bad)
      → After good bad (next k o)
  next-After (returns b t) k middle first rest = (rest b).run t first
  next-After (raises e t) k middle first rest = first

  answered-After :
      {A : Type 0} (bad : E → S → Type 0) (good : Result E A → S → Type 0) (o : Outcome E S A)
      → After (λ a. good (ok a)) (λ e. good (err e)) o
      → After good bad (answered o)
  answered-After bad good (returns a t) h = h
  answered-After bad good (raises e t) h = h

  dropped-After :
      {A : Type 0} (bad : E → S → Type 0) (good : S → Type 0) (o : Outcome E S A)
      → After (λ a. good) (λ e. good) o
      → After (λ (d : Done). good) bad (dropped o)
  dropped-After bad good (returns a t) h = h
  dropped-After bad good (raises e t) h = h

  kept-After :
      {A : Type 0} (c : Change S) (holds : S → Type 0) (s : S) (o : Outcome E S A)
      → ((t : S) → c.relates s t → holds t)
      → c.relates s (state_of o)
      → After (λ (a : A). holds) (λ (e : E). holds) o
  kept-After c holds s (returns a t) k h = k t h
  kept-After c holds s (raises e t) k h = k t h

  module _ {A : Type 0} {before : S → Type 0} {good : A → S → Type 0} {bad : E → S → Type 0} where
    pub give-Ensures : (a : A) → ((s : S) → before s → good a s) → Ensures before (give a) good bad
    unfolding give
    give-Ensures a h = record { run = h }

    pub fail_with-Ensures :
        (e : E) → ((s : S) → before s → bad e s) → Ensures before (fail_with e) good bad
    unfolding fail_with
    fail_with-Ensures e h = record { run = h }

    pub gets-Ensures :
        (f : S → A) → ((s : S) → before s → good (f s) s) → Ensures before (gets f) good bad
    unfolding gets
    gets-Ensures f h = record { run = h }

    pub if-Ensures :
        (test : Bool) (one other : Call E S A)
        → Ensures before one good bad
        → Ensures before other good bad
        → Ensures before (if test then one else other) good bad
    if-Ensures true one other h k = h
    if-Ensures false one other h k = k

    pub bind-Ensures :
        {B : Type 0} {call : Call E S B} {k : B → Call E S A} {middle : B → S → Type 0}
        → Ensures before call middle bad
        → ((b : B) → Ensures (middle b) (k b) good bad)
        → Ensures before (call >>= k) good bad
    unfolding ◌>>=◌
    bind-Ensures {call = call} {k = k} {middle = middle} first rest = record {
      run = λ s h. next-After (call s) k middle (first.run s h) rest;
    }

  module _ {A : Type 0} {before : S → Type 0} {bad : E → S → Type 0} where
    pub attempt-Ensures :
        {call : Call E S A} {good : Result E A → S → Type 0}
        → Ensures before call (λ a. good (ok a)) (λ e. good (err e))
        → Ensures before (attempt call) good bad
    unfolding attempt
    attempt-Ensures {call = call} {good = good} h = record {
      run = λ s b. answered-After bad good (call s) (h.run s b);
    }

    pub logged-Ensures :
        {call : Call E S A} {good : S → Type 0}
        → Ensures before call (λ a. good) (λ e. good)
        → Ensures before (logged call) (λ (d : Done). good) bad
    unfolding logged
    logged-Ensures {call = call} {good = good} h = record {
      run = λ s b. dropped-After bad good (call s) (h.run s b);
    }

  module _ {before : S → Type 0} {good : Done → S → Type 0} {bad : E → S → Type 0} where
    pub modify-Ensures :
        (f : S → S) → ((s : S) → before s → good tt (f s)) → Ensures before (modify f) good bad
    unfolding modify
    modify-Ensures f h = record { run = h }

  -- A property that a change cannot break holds still after a call that makes no other change.
  pub kept-Ensures :
      {A : Type 0} (c : Change S) (holds : S → Type 0) {call : Call E S A}
      → ((s t : S) → c.relates s t → holds s → holds t)
      → Leaves c call
      → Ensures holds call (λ a. holds) (λ e. holds)
  kept-Ensures c holds {call = call} stable leaves = record {
    run = λ s b. kept-After c holds s (call s) (λ t r. stable s t r b) (leaves.after s);
  }

  -- What is known before a call, as a hypothesis.
  pub given-Ensures :
      {A Fact : Type 0} {before : S → Type 0} {call : Call E S A} {good : A → S → Type 0}
      {bad : E → S → Type 0}
      → (Fact → Ensures before call good bad)
      → Ensures (λ s. before s × Fact) call good bad
  given-Ensures h = record { run = λ s b. (h b.1).run s b.0 }

  pub weaken-Ensures :
      {A : Type 0} {before weaker : S → Type 0} {call : Call E S A} {good : A → S → Type 0}
      {bad : E → S → Type 0}
      → ((s : S) → before s → weaker s)
      → Ensures weaker call good bad
      → Ensures before call good bad
  weaken-Ensures h first = record { run = λ s b. first.run s (h s b) }

  pub passed-Ensures :
      {before : S → Type 0} {bad : E → S → Type 0} (test : Bool) (e : E)
      → test ≡ false
      → Ensures before (refuse_when test e) (λ d. before) bad
  unfolding refuse_when
  passed-Ensures true e h = absurd (cc)
  passed-Ensures false e h = record { run = λ s b. b }

  dropped_any :
      {A : Type 0} (before : S → Type 0) (bad : E → S → Type 0) (o : Outcome E S A)
      → ((s : S) → before s)
      → After (λ (d : Done). before) bad (dropped o)
  dropped_any before bad (returns a t) h = h t
  dropped_any before bad (raises e t) h = h t

  -- A call whose error is dropped, before something that holds in every state.
  pub logged_any :
      {A : Type 0} {before : S → Type 0} {bad : E → S → Type 0} (call : Call E S A)
      → ((s : S) → before s)
      → Ensures before (logged call) (λ d. before) bad
  unfolding logged
  logged_any {before = before} {bad = bad} call h = record {
    run = λ s b. dropped_any before bad (call s) h;
  }

  any_After :
      {A : Type 0} (o : Outcome E S A) → After (λ (a : A) (s : S). Unit) (λ (e : E) s. Unit) o
  any_After (returns a t) = tt
  any_After (raises e t) = tt

  -- Of a call that nothing is known of, nothing holds but that it ends.
  pub any-Ensures :
      {A : Type 0} (call : Call E S A) → Ensures (λ s. Unit) call (λ a s. Unit) (λ e s. Unit)
  any-Ensures call = record { run = λ s h. any_After (call s) }

  pub checked-Ensures :
      {A : Type 0} (r : Result E A)
      → Ensures (λ (s : S). Unit) (checked r) (λ a s. Unit × (r ≡ ok a)) (λ e s. Unit)
  unfolding checked
  checked-Ensures (ok a) = record { run = λ s h. (tt, refl) }
  checked-Ensures (err e) = record { run = λ s h. tt }
