-- ===== src/Registry/Keeps.antt =====
-- Which calls of the store leave every tenant its name and its index, and its workloads.
use deevnet_provisioning_api.Prelude.{
  ℕ, ◌≡◌, refl, ap, ap₂, ◌∙◌, true, false, Option, List, [], ◌∷◌, Text, text_eq, if◌then◌else◌,
}
use deevnet_provisioning_api.Alloc.Address.{Status}
use deevnet_provisioning_api.Calls.{Call, modify}
use deevnet_provisioning_api.Calls.Laws.{Change, Leaves, bind-Leaves, call_rules}
use deevnet_provisioning_api.Registry.{
  Error, Secrets, Record, WifiKey, AuditEntry, State, Store, outside,
}
use deevnet_provisioning_api.Registry.Sealing.{seal_secrets}
use deevnet_provisioning_api.Registry.Tenants.{
  on_row, update_rows, held_indexes, found, get, write_row, exec_one, set_status, set_secrets,
  set_dashboard_org, record_step, audit,
}
use deevnet_provisioning_api.Registry.Parts.{
  list_workloads, list_wifi_keys, list_broker_accounts, list_device_addresses, put_wifi_key,
  get_admission_key, delete_admission_key,
}
use deevnet_provisioning_api.Registry.Spares.{
  Spares, outside-Spares, seal_secrets-Spares, found-Spares, get-Spares, audit-Spares,
  list_workloads-Spares, list_wifi_keys-Spares, list_broker_accounts-Spares,
  list_device_addresses-Spares, put_wifi_key-Spares, get_admission_key-Spares,
  delete_admission_key-Spares,
}

-- The indexes and the names in use.
abbrev pub numbers : {W : Type 0} → State W → List (ℕ × Text)
numbers s = held_indexes s.registry.tenants

-- No tenant gets another index, none is added and none removed, and no workload changes.
abbrev pub same_numbers : {W : Type 0} → Change (State W)
same_numbers = record {
  relates = λ s t. (numbers t ≡ numbers s) × (t.registry.workloads ≡ s.registry.workloads);
  reflexive = λ s. (refl, refl);
  transitive = λ s t u e f. (f.0 ∙ e.0, f.1 ∙ e.1);
}

on_row-number :
    (name : Text) (f : Record → Record) (r : Record)
    → (f r).name ≡ r.name
    → (f r).index ≡ r.index
    → ◌≡◌ {A = ℕ × Text} ((on_row name f r).index, (on_row name f r).name) (r.index, r.name)
on_row-number name f r n i =
    elim (text_eq r.name name)
      as (λ b.
        ◌≡◌ {A = ℕ × Text} ((if b then f r else r).index, (if b then f r else r).name)
          (r.index, r.name)) [ true ↦ ap₂ (λ (a : ℕ) (b : Text). (a, b)) i n | false ↦ refl ]

pub held_indexes-update_rows :
    (name : Text) (f : Record → Record) (rows : List Record)
    → ((r : Record) → ((f r).name ≡ r.name) × ((f r).index ≡ r.index))
    → held_indexes (update_rows name f rows) ≡ held_indexes rows
unfolding held_indexes update_rows
held_indexes-update_rows name f [] h = refl
held_indexes-update_rows name f (r ∷ rows) h =
    cc (on_row-number name f r (h r).0 (h r).1, held_indexes-update_rows name f rows h)

module _ {W : Type 0} where
  abbrev pub Keeps : {A : Type 0} → Call Error (State W) A → Type 0
  Keeps call = Leaves same_numbers call

  Spares-Keeps : {A : Type 0} (call : Call Error (State W) A) → Spares call → Keeps call
  Spares-Keeps call h = record { after = λ s. (ap held_indexes (h.after s).0, (h.after s).1) }

  pub outside-Keeps : {A : Type 0} (call : Call Error W A) → Keeps (outside call)
  outside-Keeps call = Spares-Keeps _ (outside-Spares call)

  pub seal_secrets-Keeps : (p : Store W) (x : Secrets) → Keeps (seal_secrets p x)
  seal_secrets-Keeps p x = Spares-Keeps _ (seal_secrets-Spares p x)

module _ {W : Type 0} (p : Store W) where
  pub found-Keeps : (row : Option Record) → Keeps (found p row)
  found-Keeps row = Spares-Keeps _ (found-Spares p row)

  pub get-Keeps : (name : Text) → Keeps (get p name)
  get-Keeps name = Spares-Keeps _ (get-Spares p name)

  write_row-Keeps :
      (name : Text) (f : Record → Record)
      → ((r : Record) → ((f r).name ≡ r.name) × ((f r).index ≡ r.index))
      → Keeps (write_row p name f)
  unfolding write_row modify
  write_row-Keeps name f h = record {
    after = λ s. (held_indexes-update_rows name f s.registry.tenants h, refl);
  }

  exec_one-Keeps :
      (name : Text) (f : Record → Record)
      → ((r : Record) → ((f r).name ≡ r.name) × ((f r).index ≡ r.index))
      → Keeps (exec_one p name f)
  unfolding exec_one
  exec_one-Keeps name f h = bind-Leaves _ _ (outside-Keeps p.query) (λ q.
      bind-Leaves _ _ (search call_rules)
        (λ row. bind-Leaves _ _ (found-Keeps row) (λ r. write_row-Keeps name f h)))

  pub set_status-Keeps : (name : Text) (status : Status) → Keeps (set_status p name status)
  unfolding set_status
  set_status-Keeps name status = exec_one-Keeps name _ (λ r. (refl, refl))

  pub set_secrets-Keeps : (name : Text) (x : Secrets) → Keeps (set_secrets p name x)
  unfolding set_secrets
  set_secrets-Keeps name x =
      bind-Leaves _ _ (seal_secrets-Keeps p x) (λ sealed. exec_one-Keeps name _ (λ r. (refl, refl)))

  pub set_dashboard_org-Keeps : (name : Text) (org : ℕ) → Keeps (set_dashboard_org p name org)
  unfolding set_dashboard_org
  set_dashboard_org-Keeps name org = exec_one-Keeps name _ (λ r. (refl, refl))

  pub record_step-Keeps :
      (name step : Text) (error : Option Error) → Keeps (record_step p name step error)
  unfolding record_step
  record_step-Keeps name step error = exec_one-Keeps name _ (λ r. (refl, refl))

  pub audit-Keeps : (entry : AuditEntry) → Keeps (audit p entry)
  audit-Keeps entry = Spares-Keeps _ (audit-Spares p entry)

  pub list_workloads-Keeps : (name : Text) → Keeps (list_workloads p name)
  list_workloads-Keeps name = Spares-Keeps _ (list_workloads-Spares p name)

  pub list_wifi_keys-Keeps : (name : Text) → Keeps (list_wifi_keys p name)
  list_wifi_keys-Keeps name = Spares-Keeps _ (list_wifi_keys-Spares p name)

  pub list_broker_accounts-Keeps : (name : Text) → Keeps (list_broker_accounts p name)
  list_broker_accounts-Keeps name = Spares-Keeps _ (list_broker_accounts-Spares p name)

  pub list_device_addresses-Keeps : (name : Text) → Keeps (list_device_addresses p name)
  list_device_addresses-Keeps name = Spares-Keeps _ (list_device_addresses-Spares p name)

  pub put_wifi_key-Keeps : (k : WifiKey) → Keeps (put_wifi_key p k)
  put_wifi_key-Keeps k = Spares-Keeps _ (put_wifi_key-Spares p k)

  pub get_admission_key-Keeps : (name : Text) → Keeps (get_admission_key p name)
  get_admission_key-Keeps name = Spares-Keeps _ (get_admission_key-Spares p name)

  pub delete_admission_key-Keeps : (name : Text) → Keeps (delete_admission_key p name)
  delete_admission_key-Keeps name = Spares-Keeps _ (delete_admission_key-Spares p name)
