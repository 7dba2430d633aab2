-- ===== src/Lifecycle/Growth.antt =====
-- The registry under Create and Reconcile: it stays well numbered, and the tenants that are there
-- keep their indexes.
use deevnet_provisioning_api.Prelude.{
  ℕ, ◌≤◌, ◌≡◌, refl, ◌⊎◌, inl, inr, false, not, ◌&&◌, Option, none, some, List, [], ◌∷◌, ◌++◌, Text,
  Result, ok, err, Done, ℤ, pos, negsuc, to_ℕ, within, is_zero, Bool-cases, arith,
}
use mathlib.Core.List.{Memᴰ}
use mathlib.Core.List.Memᴰ.{append_left}
use deevnet_provisioning_api.Alloc.Address.{Status, provisioning, ready, deleting}
use deevnet_provisioning_api.Alloc.Index.{Claim, pick_index}
use deevnet_provisioning_api.Alloc.Index.Choice.{pick_index-is_new}
use deevnet_provisioning_api.Calls.{
  state_of, give, fail_with, gets, modify, refuse_when, checked, ◌>>=◌, ◌>>◌, attempt,
}
use deevnet_provisioning_api.Calls.Laws.{Leaves, bind-Leaves, attempt-Leaves, call_rules}
use deevnet_provisioning_api.Registry.{
  Error, not_found, exists, invalid, foreign_token, Secrets, Record, AdmissionKey, State,
}
use deevnet_provisioning_api.Registry.Tenants.{
  held_indexes, holds_name, get, insert_row, new_row, picked, create_tenant,
}
use deevnet_provisioning_api.Registry.Keeps.{
  numbers, Keeps, outside-Keeps, seal_secrets-Keeps, get-Keeps, set_secrets-Keeps,
  get_admission_key-Keeps, put_wifi_key-Keeps, delete_admission_key-Keeps,
}
use deevnet_provisioning_api.Lifecycle.{CreateRequest, TenantOutcome, Service}
use deevnet_provisioning_api.Lifecycle.Validate.{validate_create}
use deevnet_provisioning_api.Lifecycle.Keeps.{
  secrets_for-Keeps, issue_token-Keeps, audited-Keeps, ensure-Keeps,
}
use deevnet_provisioning_api.Lifecycle.Leases.{taken}
use deevnet_provisioning_api.Lifecycle.Invariant.{
  IsNumbered, holds_name-mem, append-IsNumbered, grows, Keeps-grows,
}
use deevnet_provisioning_api.Lifecycle.Create.{
  step_error, foreign, adopted, adopt_admission_key, create_new, restored_secrets, restore_existing,
  adopt_if_finished, create_and_adopt, resume_and_adopt, by_status, by_row, create, reconcile,
}

held_indexes-append :
    (rows : List Record) (row : Record)
    → held_indexes (rows ++ row ∷ []) ≡ held_indexes rows ++ (row.index, row.name) ∷ []
unfolding held_indexes
held_indexes-append [] row = refl
held_indexes-append (r ∷ rows) row = cc (held_indexes-append rows row)

valid_index_bound : (z : ℤ) → (not (is_zero z) && not (within 1 62 z)) ≡ false → to_ℕ z ≤ 62
valid_index_bound (pos n) h = ground arith
valid_index_bound (negsuc n) h = omega arith

index_of_valid : (r : CreateRequest) → validate_create r ≡ ok tt → to_ℕ r.index ≤ 62
unfolding validate_create
index_of_valid r h = valid_index_bound r.index (ground arith)

module _ {W : Type 0} (sv : Service W) where
  -- A row for a new name, at a new index.
  inserted :
      (s : State W) (name : Text) (n : ℕ) (x : Secrets)
      → (1 ≤ n) × (n ≤ 62) × ((holder : Text) → ¬ (Memᴰ (n, holder) (numbers s)))
      → holds_name name (numbers s) ≡ false
      → grows.relates s (state_of (insert_row sv.store (new_row sv.store name n x) s))
  unfolding insert_row modify
  inserted s name n x (lo, hi, fresh) absent =
      let same = held_indexes-append s.registry.tenants (new_row sv.store name n x) in
      (
        (λ i. rw same (
            append-IsNumbered (numbers s) n name i lo (omega arith) fresh
              (λ m. holds_name-mem name (numbers s) m absent))),
        (λ p m. rw same (append_left ((n, name) ∷ []) m)),
        refl,
        rw same (taken (numbers s) n name absent fresh lo hi),
      )

  picked-grows :
      (s : State W) (name : Text) (x sealed : Secrets) (answer : Option ℕ)
      → ((n : ℕ)
          → answer ≡ some n
          → (1 ≤ n) × (n ≤ 62) × ((holder : Text) → ¬ (Memᴰ (n, holder) (numbers s))))
      → holds_name name (numbers s) ≡ false
      → grows.relates s (state_of (picked sv.store name x sealed answer s))
  unfolding fail_with give ◌>>=◌ insert_row modify
  picked-grows s name x sealed none h absent = grows.reflexive s
  picked-grows s name x sealed (some n) h absent = inserted s name n sealed (h n refl) absent

  chosen-grows :
      (name : Text) (x sealed : Secrets) (claims : List Claim) (requested : ℕ)
      → requested ≤ 62
      → Leaves grows (do
        held ← gets (λ (s : State W). held_indexes s.registry.tenants)
        refuse_when (holds_name name held) exists
        picked sv.store name x sealed (pick_index name held claims requested))
  unfolding gets ◌>>=◌ refuse_when
  chosen-grows name x sealed claims requested bound = record {
    after = λ s. elim (Bool-cases (holds_name name (numbers s))) [
      | inl e ↦ rw e (grows.reflexive s)
      | inr e ↦ rw e (
          picked-grows s name x sealed (pick_index name (numbers s) claims requested)
            (λ n. pick_index-is_new name (numbers s) claims requested n bound) e)
    ];
  }

  create_tenant-grows :
      (name : Text) (x : Secrets) (claims : List Claim) (requested : ℕ)
      → requested ≤ 62
      → Leaves grows (create_tenant sv.store name x (λ held. pick_index name held claims requested))
  unfolding create_tenant
  create_tenant-grows name x claims requested bound =
      bind-Leaves _ _ (Keeps-grows _ (seal_secrets-Keeps sv.store x)) (λ sealed.
        bind-Leaves _ _ (Keeps-grows _ (outside-Keeps sv.store.query))
          (λ d. chosen-grows name x sealed claims requested bound))

  pub step_error-Keeps :
      {A : Type 0} (name : Text) (r : Result Error A) → Keeps (step_error sv name r)
  step_error-Keeps name (ok a) = search call_rules
  step_error-Keeps name (err e) = search call_rules

  create_new-grows : (r : CreateRequest) → to_ℕ r.index ≤ 62 → Leaves grows (create_new sv r)
  unfolding create_new
  create_new-grows r bound =
      bind-Leaves _ _ (Keeps-grows _ (attempt-Leaves _ (outside-Keeps sv.claims))) (λ read.
        bind-Leaves _ _ (Keeps-grows _ (step_error-Keeps _ read)) (λ claims.
          bind-Leaves _ _ (Keeps-grows _ (secrets_for-Keeps sv r)) (λ made.
            bind-Leaves _ _ (create_tenant-grows r.name made.1 claims (to_ℕ r.index) bound) (λ rec.
              Keeps-grows _ (search (call_rules, audited-Keeps sv, ensure-Keeps sv) depth 12)))))

  restored_secrets-Keeps : (rec : Record) (r : CreateRequest) → Keeps (restored_secrets sv rec r)
  unfolding restored_secrets
  restored_secrets-Keeps rec r = search (call_rules, issue_token-Keeps) depth 12

  restore_existing-Keeps :
      (rec : Record) (r : CreateRequest) (outcome : TenantOutcome)
      → Keeps (restore_existing sv rec r outcome)
  unfolding restore_existing
  restore_existing-Keeps rec r outcome =
      search (call_rules, restored_secrets-Keeps, set_secrets-Keeps, audited-Keeps, ensure-Keeps)
        depth 12

  adopted-Keeps :
      (name : Text) (answer : Result Error AdmissionKey) → Keeps (adopted sv name answer)
  adopted-Keeps name (ok k) = search (call_rules, put_wifi_key-Keeps, delete_admission_key-Keeps)
  adopted-Keeps name (err not_found) = search call_rules
  adopted-Keeps name (err _) = search call_rules

  adopt_admission_key-Keeps : (name : Text) → Keeps (adopt_admission_key sv name)
  unfolding adopt_admission_key
  adopt_admission_key-Keeps name = search (call_rules, get_admission_key-Keeps, adopted-Keeps)

  adopt_if_finished-Keeps : (name : Text) (e : Option Error) → Keeps (adopt_if_finished sv name e)
  adopt_if_finished-Keeps name none = search (call_rules, adopt_admission_key-Keeps)
  adopt_if_finished-Keeps name (some e) = search call_rules

  create_and_adopt-grows :
      (r : CreateRequest) → to_ℕ r.index ≤ 62 → Leaves grows (create_and_adopt sv r)
  create_and_adopt-grows r bound =
      bind-Leaves _ _ (create_new-grows r bound)
        (λ answer. Keeps-grows _ (search (call_rules, adopt_if_finished-Keeps)))

  resume_and_adopt-Keeps : (rec : Record) (r : CreateRequest) → Keeps (resume_and_adopt sv rec r)
  resume_and_adopt-Keeps rec r =
      search (call_rules, restore_existing-Keeps, adopt_admission_key-Keeps) depth 12

  by_status-Keeps :
      (r : CreateRequest) (rec : Record) (status : Status) → Keeps (by_status sv r rec status)
  by_status-Keeps r rec ready = search (call_rules, restore_existing-Keeps)
  by_status-Keeps r rec provisioning = resume_and_adopt-Keeps rec r
  by_status-Keeps r rec deleting = search call_rules

  by_row-grows :
      (r : CreateRequest) (row : Result Error Record)
      → to_ℕ r.index ≤ 62
      → Leaves grows (by_row sv r row)
  by_row-grows r (ok rec) bound = Keeps-grows _ (by_status-Keeps r rec rec.status)
  by_row-grows r (err not_found) bound = create_and_adopt-grows r bound
  by_row-grows r (err _) bound = search call_rules

  pub create-grows : (r : CreateRequest) → Leaves grows (create sv r)
  unfolding create checked ◌>>=◌
  create-grows r = record {
    after = λ s. elim (validate_cases (validate_create r)) [
      | inl h ↦ rw h ((rest-grows r (index_of_valid r h)).after s)
      | inr (e, h) ↦ rw h (grows.reflexive s)
    ];
  }
    where
      validate_cases : (v : Result Error Done) → (v ≡ ok tt) ⊎ ((e : Error) × (v ≡ err e))
      validate_cases (ok tt) = inl refl
      validate_cases (err e) = inr (e, refl)

      rest-grows :
          (r : CreateRequest)
          → to_ℕ r.index ≤ 62
          → Leaves grows (do
            refuse_when (foreign sv r) (invalid foreign_token)
            row ← attempt (get sv.store r.name)
            by_row sv r row)
      rest-grows r bound = bind-Leaves _ _ (search call_rules) (λ d.
          bind-Leaves _ _ (Keeps-grows _ (attempt-Leaves _ (get-Keeps sv.store r.name)))
            (λ row. by_row-grows r row bound))

  pub reconcile-Keeps : (name : Text) → Keeps (reconcile sv name)
  unfolding reconcile
  reconcile-Keeps name = search (call_rules, get-Keeps, audited-Keeps, ensure-Keeps) depth 12

  -- Create leaves the registry well numbered, every tenant with a name and an index of its own,
  -- from 1 to 63, whether it succeeds or fails and at whichever step; and every tenant that was
  -- there keeps its index.
  pub create-IsNumbered :
      (r : CreateRequest) (s : State W)
      → IsNumbered (numbers s)
      → IsNumbered (numbers (state_of (create sv r s)))
        × ((p : ℕ × Text) → Memᴰ p (numbers s) → Memᴰ p (numbers (state_of (create sv r s))))
  create-IsNumbered r s i = (((create-grows r).after s).0 i, ((create-grows r).after s).1)

  -- Reconcile gives no tenant another index, adds none and removes none, whichever of its steps
  -- fails.
  pub numbers-reconcile :
      (name : Text) (s : State W) → numbers (state_of (reconcile sv name s)) ≡ numbers s
  numbers-reconcile name s = ((reconcile-Keeps name).after s).0
