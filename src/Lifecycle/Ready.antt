-- ===== src/Lifecycle/Ready.antt =====
-- A create or a reconcile that reports no error leaves its tenant ready.
use deevnet_provisioning_api.Prelude.{
  ℕ, ◌≡◌, refl, sym, ap, ◌∙◌, subst, Option, none, some, List, [], ◌∷◌, Text, text_eq, text_eq_iff,
  Result, ok, err, Bool-cases, inl, inr, arith,
}
use deevnet_provisioning_api.Alloc.Address.{Status, provisioning, ready, deleting}
use deevnet_provisioning_api.Calls.{Outcome, returns, Call, state_of, give, checked}
use deevnet_provisioning_api.Calls.Laws.{
  bind-eq-returns, give-eq-returns, state_of-give, fail_with-ne-returns, call_rules,
}
use deevnet_provisioning_api.Registry.{
  Error, not_found, exists, Secrets, Record, AdmissionKey, State, Store,
}
use deevnet_provisioning_api.Registry.Tenants.{find_row, get, picked, create_tenant}
use deevnet_provisioning_api.Registry.Spares.{
  Spares, get_admission_key-Spares, put_wifi_key-Spares, delete_admission_key-Spares,
}
use deevnet_provisioning_api.Lifecycle.{
  CreateRequest, TenantOutcome, TenantResult, reconciled, resumed, Service,
}
use deevnet_provisioning_api.Lifecycle.Validate.{supplies_all_secrets}
use deevnet_provisioning_api.Lifecycle.Steps.{ensure}
use deevnet_provisioning_api.Lifecycle.Create.{
  Answer, adopted, adopt_admission_key, create_new, restore_existing, adopt_if_finished,
  create_and_adopt, resume_and_adopt, by_status, by_row, create, reconcile,
}
use deevnet_provisioning_api.Lifecycle.Readiness.{
  HasStatus, ensure-HasStatus, found-eq-returns, gets-eq-returns, attempt-eq-ok,
}

pub find_row-name :
    (name : Text) (rows : List Record) (r : Record) → find_row name rows ≡ some r → r.name ≡ name
unfolding find_row
find_row-name name [] r h = absurd (cc)
find_row-name name (x ∷ rows) r h = elim (Bool-cases (text_eq x.name name)) [
  | inl same ↦
      (let eq : x ≡ r = ground arith in
        ap (λ (y : Record). y.name) (sym eq) ∙ (text_eq_iff x.name name).0 same)
  | inr differs ↦ find_row-name name rows r (rw differs at h)
]

module _ {W : Type 0} (p : Store W) where
  get-name :
      (name : Text) (s t : State W) (rec : Record) → get p name s ≡ returns rec t → rec.name ≡ name
  unfolding get
  get-name name s t rec h =
      let (d, s1, asked, h1) = bind-eq-returns _ _ s rec t h in
      let (row, s2, read, h2) = bind-eq-returns _ _ s1 rec t h1 in
      let (r, s3, seen, h3) = bind-eq-returns _ _ s2 rec t h2 in
      let (secrets, s4, opened, h4) = bind-eq-returns _ _ s3 rec t h3 in
      let given = give-eq-returns _ rec s4 t h4 in
      let (is_there, same) = found-eq-returns p row r s2 s3 seen in
      let (looked_up, unmoved) = gets-eq-returns p _ s1 s2 row read in
      ap (λ (y : Record). y.name) (sym given)
      ∙ find_row-name name s1.registry.tenants r (looked_up ∙ is_there)

  picked-name :
      (name : Text) (x sealed : Secrets) (n : Option ℕ) (s t : State W) (rec : Record)
      → picked p name x sealed n s ≡ returns rec t
      → rec.name ≡ name
  picked-name name x sealed none s t rec h = absurd (fail_with-ne-returns _ rec s t h)
  picked-name name x sealed (some n) s t rec h =
      let (d, u, put, given) = bind-eq-returns _ _ s rec t h in
      ap (λ (y : Record). y.name) (sym (give-eq-returns _ rec u t given))

  create_tenant-name :
      (name : Text) (x : Secrets) (pick : List (ℕ × Text) → Option ℕ) (s t : State W) (rec : Record)
      → create_tenant p name x pick s ≡ returns rec t
      → rec.name ≡ name
  unfolding create_tenant
  create_tenant-name name x pick s t rec h =
      let (sealed, s1, done, h1) = bind-eq-returns _ _ s rec t h in
      let (d, s2, asked, h2) = bind-eq-returns _ _ s1 rec t h1 in
      let (held, s3, read, h3) = bind-eq-returns _ _ s2 rec t h2 in
      let (d2, s4, new, h4) = bind-eq-returns _ _ s3 rec t h3 in
      picked-name name x sealed (pick held) s4 t rec h4

module _ {W : Type 0} (sv : Service W) where
  -- A tenant of this name is ready where the answer carries no error.
  abbrev pub ReadyAfter : Text → Answer sv → State W → Type 0
  ReadyAfter name answer t = answer.1 ≡ none → HasStatus name ready t

  ensured :
      (name : Text) (rec : Record) (s w t : State W) (left : Record × Option Error)
      (x answer : Answer sv)
      → rec.name ≡ name
      → ensure sv rec s ≡ returns left w
      → give {E = Error} x w ≡ returns answer t
      → x.1 ≡ left.1
      → ReadyAfter name answer t
  ensured name rec s w t left x answer named ran given kept no_error =
      let same_answer = give-eq-returns x answer w t given in
      let none_left : left.1 ≡ none =
        sym kept ∙ ap (λ (a : Answer sv). a.1) same_answer ∙ no_error in
      let finished : HasStatus rec.name ready w =
        ensure-HasStatus sv rec left.0 s w (ran ∙ ap (λ e. returns (left.0, e) w) none_left) in
      subst (λ n. HasStatus n ready t) named
        (subst (λ u. HasStatus rec.name ready u) (state_of-give x answer w t given) finished)

  -- A reconcile that reports no error leaves its tenant's row ready.
  pub reconcile-HasStatus :
      (name : Text) (s t : State W) (result : TenantResult)
      → reconcile sv name s ≡ returns (result, none) t
      → HasStatus name ready t
  unfolding reconcile
  reconcile-HasStatus name s t result h =
      let (rec, s1, read, h1) = bind-eq-returns _ _ s (result, none) t h in
      let (d, s2, kept, h2) = bind-eq-returns _ _ s1 (result, none) t h1 in
      let (d2, s3, noted, h3) = bind-eq-returns _ _ s2 (result, none) t h2 in
      let (left, s4, ran, given) = bind-eq-returns _ _ s3 (result, none) t h3 in
      ensured name rec s3 s4 t left _ (result, none) (get-name sv.store name s s1 rec read) ran
        given refl refl

  restore_existing-HasStatus :
      (rec : Record) (r : CreateRequest) (outcome : TenantOutcome) (s t : State W)
      (result : TenantResult)
      → restore_existing sv rec r outcome s ≡ returns (result, none) t
      → HasStatus rec.name ready t
  unfolding restore_existing
  restore_existing-HasStatus rec r outcome s t result h =
      let (made, s1, drawn, h1) = bind-eq-returns _ _ s (result, none) t h in
      let (d, s2, put, h2) = bind-eq-returns _ _ s1 (result, none) t h1 in
      let (d2, s3, noted, h3) = bind-eq-returns _ _ s2 (result, none) t h2 in
      let (left, s4, ran, given) = bind-eq-returns _ _ s3 (result, none) t h3 in
      ensured rec.name (record rec { secrets = made.1 }) s3 s4 t left _ (result, none) refl ran
        given refl refl

  create_new-ready :
      (r : CreateRequest) (s t : State W) (answer : Answer sv)
      → create_new sv r s ≡ returns answer t
      → ReadyAfter r.name answer t
  unfolding create_new
  create_new-ready r s t answer h =
      let (read, s1, asked, h1) = bind-eq-returns _ _ s answer t h in
      let (claims, s2, seen, h2) = bind-eq-returns _ _ s1 answer t h1 in
      let (made, s3, drawn, h3) = bind-eq-returns _ _ s2 answer t h2 in
      let (rec, s4, inserted, h4) = bind-eq-returns _ _ s3 answer t h3 in
      let (d, s5, noted, h5) = bind-eq-returns _ _ s4 answer t h4 in
      let (left, s6, ran, given) = bind-eq-returns _ _ s5 answer t h5 in
      ensured r.name rec s5 s6 t left _ answer
        (create_tenant-name sv.store r.name made.1 _ s3 s4 rec inserted) ran given refl

  adopted-Spares :
      (name : Text) (answer : Result Error AdmissionKey) → Spares (adopted sv name answer)
  adopted-Spares name (ok k) = search (call_rules, put_wifi_key-Spares, delete_admission_key-Spares)
  adopted-Spares name (err not_found) = search call_rules
  adopted-Spares name (err _) = search call_rules

  adopt_admission_key-Spares : (name : Text) → Spares (adopt_admission_key sv name)
  unfolding adopt_admission_key
  adopt_admission_key-Spares name = search (call_rules, get_admission_key-Spares, adopted-Spares)

  adopt_if_finished-Spares : (name : Text) (e : Option Error) → Spares (adopt_if_finished sv name e)
  adopt_if_finished-Spares name none = search (call_rules, adopt_admission_key-Spares)
  adopt_if_finished-Spares name (some e) = search call_rules

  -- What a call that spares the table leaves ready.
  still_ready :
      {A : Type 0} (name : Text) (call : Call Error (State W) A) (s t : State W) (a : A)
      → Spares call
      → call s ≡ returns a t
      → HasStatus name ready s
      → HasStatus name ready t
  still_ready {A = A} name call s t a spares h was =
      let rows : t.registry.tenants ≡ s.registry.tenants =
        ap (λ (o : Outcome Error (State W) A). (state_of o).registry.tenants) (sym h)
        ∙ (spares.after s).0 in
      subst (λ l. (row : Record) × (find_row name l ≡ some row) × (row.status ≡ ready)) (sym rows)
        was

  create_and_adopt-HasStatus :
      (r : CreateRequest) (s t : State W) (result : TenantResult)
      → create_and_adopt sv r s ≡ returns (result, none) t
      → HasStatus r.name ready t
  create_and_adopt-HasStatus r s t result h =
      let (answer, s1, made, h1) = bind-eq-returns _ _ s (result, none) t h in
      let (d, s2, adoption, given) = bind-eq-returns _ _ s1 (result, none) t h1 in
      let same_answer = give-eq-returns answer (result, none) s2 t given in
      let finished =
        create_new-ready r s s1 answer made (ap (λ (a : Answer sv). a.1) same_answer) in
      subst (λ u. HasStatus r.name ready u) (state_of-give answer (result, none) s2 t given)
        (still_ready r.name _ s1 s2 d (adopt_if_finished-Spares r.name answer.1) adoption finished)

  checked-eq-returns :
      {A : Type 0} (x : Result Error A) (a : A) (s t : State W)
      → checked x s ≡ returns a t
      → (x ≡ ok a) × (s ≡ t)
  unfolding checked
  checked-eq-returns (ok b) a s t h = (cc, cc)
  checked-eq-returns (err e) a s t h = absurd (cc)

  resume_and_adopt-HasStatus :
      (rec : Record) (r : CreateRequest) (s t : State W) (result : TenantResult)
      → resume_and_adopt sv rec r s ≡ returns (result, none) t
      → HasStatus rec.name ready t
  resume_and_adopt-HasStatus rec r s t result h =
      let (tried, s1, restored, h1) = bind-eq-returns _ _ s (result, none) t h in
      let (d, s2, adoption, given) = bind-eq-returns _ _ s1 (result, none) t h1 in
      let (good, same) = checked-eq-returns tried (result, none) s2 t given in
      let finished =
        restore_existing-HasStatus rec r resumed s s1 result
          (attempt-eq-ok sv _ s (result, none) s1 (restored ∙ ap (λ x. returns x s1) good)) in
      subst (λ u. HasStatus rec.name ready u) same
        (still_ready rec.name _ s1 s2 d (adopt_if_finished-Spares r.name none) adoption finished)

  by_status-HasStatus :
      (r : CreateRequest) (rec : Record) (status : Status) (s t : State W) (result : TenantResult)
      → by_status sv r rec status s ≡ returns (result, none) t
      → HasStatus rec.name ready t
  by_status-HasStatus r rec ready s t result h = elim (Bool-cases (supplies_all_secrets r)) [
    | inl brings ↦ restore_existing-HasStatus rec r reconciled s t result (rw brings at h)
    | inr lacks ↦ absurd (fail_with-ne-returns exists (result, none) s t (rw lacks at h))
  ]
  by_status-HasStatus r rec provisioning s t result h =
      resume_and_adopt-HasStatus rec r s t result h
  by_status-HasStatus r rec deleting s t result h =
      absurd (fail_with-ne-returns _ (result, none) s t h)

  by_row-HasStatus :
      (r : CreateRequest) (row : Result Error Record) (s t : State W) (result : TenantResult)
      → ((rec : Record) → row ≡ ok rec → rec.name ≡ r.name)
      → by_row sv r row s ≡ returns (result, none) t
      → HasStatus r.name ready t
  by_row-HasStatus r (ok rec) s t result named h =
      subst (λ n. HasStatus n ready t) (named rec refl)
        (by_status-HasStatus r rec rec.status s t result h)
  by_row-HasStatus r (err not_found) s t result named h = create_and_adopt-HasStatus r s t result h
  by_row-HasStatus r (err e) s t result named h =
      absurd (fail_with-ne-returns e (result, none) s t h)

  -- A create that reports no error leaves the row of its tenant ready, whether it made the tenant
  -- or restored it.
  pub create-HasStatus :
      (r : CreateRequest) (s t : State W) (result : TenantResult)
      → create sv r s ≡ returns (result, none) t
      → HasStatus r.name ready t
  unfolding create
  create-HasStatus r s t result h =
      let (d, s1, passed, h1) = bind-eq-returns _ _ s (result, none) t h in
      let (d2, s2, not_foreign, h2) = bind-eq-returns _ _ s1 (result, none) t h1 in
      let (row, s3, read, h3) = bind-eq-returns _ _ s2 (result, none) t h2 in
      by_row-HasStatus r row s3 t result
        (λ rec good.
          get-name sv.store r.name s2 s3 rec
            (attempt-eq-ok sv _ s2 rec s3 (read ∙ ap (λ x. returns x s3) good)))
        h3
