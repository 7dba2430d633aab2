-- ===== src/Lifecycle/Readiness.antt =====
-- When a tenant is ready: what ensure leaves of its row.
use deevnet_provisioning_api.Prelude.{
  ◌≡◌, refl, sym, ap, ◌∙◌, subst, true, Option, none, some, List, [], ◌∷◌, Text, text_eq, Result,
  ok, err, Done, Bool-cases, inl, inr, if◌then◌else◌, arith,
}
use deevnet_provisioning_api.Alloc.Address.{Status, ready}
use deevnet_provisioning_api.Calls.{
  Outcome, returns, raises, Call, state_of, give, fail_with, gets, modify, answered, ◌>>=◌, attempt,
}
use deevnet_provisioning_api.Calls.Laws.{Leaves, bind-eq-returns, give-eq-returns, call_rules}
use deevnet_provisioning_api.Registry.{Error, step, Record, State, Store}
use deevnet_provisioning_api.Registry.Tenants.{
  find_row, update_rows, found, write_row, exec_one, set_status,
}
use deevnet_provisioning_api.Registry.Spares.{same_rows, get-Spares}
use deevnet_provisioning_api.Lifecycle.{Service}
use deevnet_provisioning_api.Lifecycle.Steps.{
  reload, Run, create_steps, after_step, after_status, run_steps, ensure,
}

-- The tenant has a row, with this status.
abbrev pub HasStatus : {W : Type 0} → Text → Status → State W → Type 0
HasStatus name status s =
    (row : Record) × (find_row name s.registry.tenants ≡ some row) × (row.status ≡ status)

here_updated_lem :
    (name : Text) (f : Record → Record) (r row : Record) (others : Option Record)
    → text_eq (f r).name name ≡ true
    → r ≡ row
    → (if text_eq (f r).name name then some (f r) else others) ≡ some (f row)
here_updated_lem name f r row others same eq = rw same (ap (λ x. some (f x)) eq)

pub find_row-update_rows :
    (name : Text) (f : Record → Record) (rows : List Record) (row : Record)
    → ((r : Record) → (f r).name ≡ r.name)
    → find_row name rows ≡ some row
    → find_row name (update_rows name f rows) ≡ some (f row)
unfolding find_row update_rows
find_row-update_rows name f [] row h e = absurd (cc)
find_row-update_rows name f (r ∷ rows) row h e = elim (Bool-cases (text_eq r.name name)) [
  | inl same ↦
      rw same
        (here_updated_lem name f r row _ (ap (λ n. text_eq n name) (h r) ∙ same) (ground arith))
  | inr differs ↦ rw (differs, differs) (find_row-update_rows name f rows row h (rw differs at e))
]

module _ {W : Type 0} (p : Store W) where
  pub found-eq-returns :
      (row : Option Record) (r : Record) (s t : State W)
      → found p row s ≡ returns r t
      → (row ≡ some r) × (s ≡ t)
  unfolding give fail_with
  found-eq-returns none r s t h = absurd (cc)
  found-eq-returns (some x) r s t h = (cc, cc)

  pub gets-eq-returns :
      {A : Type 0} (f : State W → A) (s t : State W) (a : A)
      → gets {E = Error} f s ≡ returns a t
      → (f s ≡ a) × (s ≡ t)
  unfolding gets
  gets-eq-returns f s t a h = (cc, cc)

  write_row-HasStatus :
      (name : Text) (status : Status) (s t : State W) (d : Done) (r : Record)
      → find_row name s.registry.tenants ≡ some r
      → write_row p name (λ x. record x { status = status }) s ≡ returns d t
      → HasStatus name status t
  unfolding write_row modify
  write_row-HasStatus name status s t d r e h =
      let written : state_of (write_row p name (λ x. record x { status = status }) s) ≡ t =
        ap state_of h in
      subst (HasStatus name status) written (
        record r { status = status },
        find_row-update_rows name (λ x. record x { status = status }) s.registry.tenants r
            (λ x. refl) e,
        refl,
      )

  set_status-HasStatus :
      (name : Text) (status : Status) (s t : State W) (d : Done)
      → set_status p name status s ≡ returns d t
      → HasStatus name status t
  unfolding set_status exec_one
  set_status-HasStatus name status s t d h =
      let (q, u, asked, rest) = bind-eq-returns _ _ s d t h in
      let (row, v, read, rest2) = bind-eq-returns _ _ u d t rest in
      let (r, w, seen, written) = bind-eq-returns _ _ v d t rest2 in
      let (is_there, same) = found-eq-returns row r v w seen in
      let (looked_up, unmoved) = gets-eq-returns _ u v row read in
      write_row-HasStatus name status w t d r
        (subst (λ (x : State W). find_row name x.registry.tenants ≡ some r) (unmoved ∙ same)
          (looked_up ∙ is_there))
        written

module _ {W : Type 0} (sv : Service W) where
  reload-Leaves : (rec : Record) → Leaves same_rows (reload sv rec)
  unfolding reload
  reload-Leaves rec = search (call_rules, get-Spares)

  answered-eq-ok :
      {A : Type 0} (o : Outcome Error (State W) A) (a : A) (t : State W)
      → answered o ≡ returns (ok a) t
      → o ≡ returns a t
  answered-eq-ok (returns b u) a t h = cc
  answered-eq-ok (raises e u) a t h = absurd (cc)

  pub attempt-eq-ok :
      {A : Type 0} (call : Call Error (State W) A) (s : State W) (a : A) (t : State W)
      → attempt call s ≡ returns (ok a) t
      → call s ≡ returns a t
  unfolding attempt
  attempt-eq-ok call s a t h = answered-eq-ok (call s) a t h

  -- An answer with an error is not one without.
  error_given :
      (fresh x : Record) (e : Error) (s t : State W)
      → give {E = Error} {A = Record × Option Error} (fresh, some e) s ≡ returns (x, none) t
      → ⊥
  error_given fresh x e s t h =
      let same : ◌≡◌ {A = Option Error} (some e) none =
        ap (λ (p : Record × Option Error). p.1) (give-eq-returns _ (x, none) s t h) in
      cc

  reloaded :
      (rec x : Record) (name : Text) (s t : State W)
      → HasStatus name ready s
      → (reload sv rec >>= λ fresh. give {A = Record × Option Error} (fresh, none)) s
        ≡ returns (x, none) t
      → HasStatus name ready t
  reloaded rec x name s t was h =
      let both : Leaves same_rows
          (reload sv rec >>= λ fresh. give {E = Error} {A = Record × Option Error} (fresh, none)) =
        search (call_rules, reload-Leaves) in
      let rows : t.registry.tenants ≡ s.registry.tenants =
        ap (λ (o : Outcome Error (State W) (Record × Option Error)). (state_of o).registry.tenants)
          (sym h)
        ∙ (both.after s).0 in
      subst (λ l. (row : Record) × (find_row name l ≡ some row) × (row.status ≡ ready)) (sym rows)
        was

  after_status-HasStatus :
      (rec x : Record) (answer : Result Error Done) (s t : State W)
      → ((d : Done) → answer ≡ ok d → HasStatus rec.name ready s)
      → after_status sv rec answer s ≡ returns (x, none) t
      → HasStatus rec.name ready t
  after_status-HasStatus rec x (err e) s t was h = absurd (error_given rec x e s t h)
  after_status-HasStatus rec x (ok d) s t was h = reloaded rec x rec.name s t (was d refl) h

  after_step-HasStatus :
      (rec x : Record) (name : Text) (answer : Result Error Done)
      (rest : Call Error (State W) (Record × Option Error)) (s t : State W)
      → ((u : State W) → rest u ≡ returns (x, none) t → HasStatus rec.name ready t)
      → after_step sv rec name answer rest s ≡ returns (x, none) t
      → HasStatus rec.name ready t
  after_step-HasStatus rec x name (ok d) rest s t later h = later s h
  after_step-HasStatus rec x name (err e) rest s t later h =
      let (d, u, logged_it, after_log) = bind-eq-returns _ _ s (x, none) t h in
      let (fresh, v, read, given) = bind-eq-returns _ _ u (x, none) t after_log in
      absurd (error_given fresh x (step name e) v t given)

  run_steps-HasStatus :
      (rec x : Record) (steps : List (Run sv)) (s t : State W)
      → run_steps sv rec steps s ≡ returns (x, none) t
      → HasStatus rec.name ready t
  unfolding run_steps
  run_steps-HasStatus rec x [] s t h =
      let (answer, u, tried, after) = bind-eq-returns _ _ s (x, none) t h in
      after_status-HasStatus rec x answer u t
        (λ d good. set_status-HasStatus sv.store rec.name ready s u d (
          attempt-eq-ok (set_status sv.store rec.name ready) s d u
            (subst (λ a. attempt (set_status sv.store rec.name ready) s ≡ returns a u) good tried)))
        after
  run_steps-HasStatus rec x ((name, run) ∷ steps) s t h =
      let (answer, u, tried, after) = bind-eq-returns _ _ s (x, none) t h in
      let (d, v, recorded, after_record) = bind-eq-returns _ _ u (x, none) t after in
      after_step-HasStatus rec x name answer (run_steps sv rec steps) v t
        (λ w. run_steps-HasStatus rec x steps w t) after_record

  -- When ensure reports no error, the tenant's row is there and its status is ready.
  pub ensure-HasStatus :
      (rec x : Record) (s t : State W)
      → ensure sv rec s ≡ returns (x, none) t
      → HasStatus rec.name ready t
  unfolding ensure
  ensure-HasStatus rec x s t h = run_steps-HasStatus rec x (create_steps sv rec) s t h
