-- ===== src/Registry/Spares.antt =====
-- Which calls of the store write nothing to the tables of tenants and of workloads.
use deevnet_provisioning_api.Prelude.{◌≡◌, refl, ap, ◌∙◌, Option, none, some, List, [], ◌∷◌, Text}
use deevnet_provisioning_api.Calls.{Call, modify}
use deevnet_provisioning_api.Calls.Laws.{Change, Leaves, bind-Leaves, call_rules}
use deevnet_provisioning_api.Registry.{
  Error, Registry, Secrets, Record, WifiKey, AdmissionKey, AuditEntry, State, Sealer, Store,
  outside,
}
use deevnet_provisioning_api.Registry.Sealing.{open_one, seal_secrets}
use deevnet_provisioning_api.Registry.Tenants.{found, get, write_audit, audit}
use deevnet_provisioning_api.Registry.Parts.{
  list_workloads, open_key, open_keys, list_wifi_keys, list_broker_accounts, list_device_addresses,
  seal_one, write_key, put_wifi_key, open_admission_key, found_admission_key, get_admission_key,
  drop_admission_key, delete_admission_key,
}
use deevnet_provisioning_api.Registry.Reads.{
  Reads, outside-Reads, open_one-Reads, seal_secrets-Reads, found-Reads, get-Reads,
}

-- The tables of tenants and of workloads stay as they are.
abbrev pub same_rows : {W : Type 0} → Change (State W)
same_rows = record {
  relates = λ s t.
      (t.registry.tenants ≡ s.registry.tenants) × (t.registry.workloads ≡ s.registry.workloads);
  reflexive = λ s. (refl, refl);
  transitive = λ s t u e f. (f.0 ∙ e.0, f.1 ∙ e.1);
}

module _ {W : Type 0} where
  abbrev pub Spares : {A : Type 0} → Call Error (State W) A → Type 0
  Spares call = Leaves same_rows call

  Reads-Spares : {A : Type 0} (call : Call Error (State W) A) → Reads call → Spares call
  Reads-Spares call h = record {
    after = λ s. (
      ap (λ (r : Registry). r.tenants) (h.after s),
      ap (λ (r : Registry). r.workloads) (h.after s),
    );
  }

  pub outside-Spares : {A : Type 0} (call : Call Error W A) → Spares (outside call)
  outside-Spares call = Reads-Spares _ (outside-Reads call)

  open_one-Spares : (sealer : Sealer W) (stored : Text) → Spares (open_one sealer stored)
  open_one-Spares sealer stored = Reads-Spares _ (open_one-Reads sealer stored)

  pub seal_secrets-Spares : (p : Store W) (x : Secrets) → Spares (seal_secrets p x)
  seal_secrets-Spares p x = Reads-Spares _ (seal_secrets-Reads p x)

  pub found-Spares : (p : Store W) (row : Option Record) → Spares (found p row)
  found-Spares p row = Reads-Spares _ (found-Reads p row)

  pub get-Spares : (p : Store W) (name : Text) → Spares (get p name)
  get-Spares p name = Reads-Spares _ (get-Reads p name)

module _ {W : Type 0} (p : Store W) where
  write_audit-Spares : (entry : AuditEntry) → Spares (write_audit p entry)
  unfolding write_audit modify
  write_audit-Spares entry = record { after = λ s. (refl, refl) }

  pub audit-Spares : (entry : AuditEntry) → Spares (audit p entry)
  unfolding audit
  audit-Spares entry = search (call_rules, outside-Spares, write_audit-Spares)

  pub list_workloads-Spares : (name : Text) → Spares (list_workloads p name)
  unfolding list_workloads
  list_workloads-Spares name = search (call_rules, outside-Spares)

  open_key-Spares : (sealer : Option (Sealer W)) (k : WifiKey) → Spares (open_key p sealer k)
  open_key-Spares none k = search call_rules
  open_key-Spares (some sealer) k = search (call_rules, open_one-Spares)

  open_keys-Spares : (keys : List WifiKey) → Spares (open_keys p keys)
  unfolding open_keys
  open_keys-Spares [] = search call_rules
  open_keys-Spares (k ∷ keys) =
      bind-Leaves _ _ (open_key-Spares p.sealer k)
        (λ first. bind-Leaves _ _ (open_keys-Spares keys) (λ rest. search call_rules))

  pub list_wifi_keys-Spares : (name : Text) → Spares (list_wifi_keys p name)
  unfolding list_wifi_keys
  list_wifi_keys-Spares name = search (call_rules, outside-Spares, open_keys-Spares) depth 12

  pub list_broker_accounts-Spares : (name : Text) → Spares (list_broker_accounts p name)
  unfolding list_broker_accounts
  list_broker_accounts-Spares name = search (call_rules, outside-Spares)

  pub list_device_addresses-Spares : (name : Text) → Spares (list_device_addresses p name)
  unfolding list_device_addresses
  list_device_addresses-Spares name = search (call_rules, outside-Spares)

  seal_one-Spares : (sealer : Option (Sealer W)) (plain : Text) → Spares (seal_one p sealer plain)
  seal_one-Spares none plain = search call_rules
  seal_one-Spares (some sealer) plain = search outside-Spares

  write_key-Spares : (k : WifiKey) → Spares (write_key p k)
  unfolding write_key modify
  write_key-Spares k = record { after = λ s. (refl, refl) }

  pub put_wifi_key-Spares : (k : WifiKey) → Spares (put_wifi_key p k)
  unfolding put_wifi_key
  put_wifi_key-Spares k =
      search (call_rules, outside-Spares, seal_one-Spares, found-Spares p, write_key-Spares) depth
        12

  open_admission_key-Spares :
      (sealer : Option (Sealer W)) (k : AdmissionKey) → Spares (open_admission_key p sealer k)
  open_admission_key-Spares none k = search call_rules
  open_admission_key-Spares (some sealer) k = search (call_rules, open_one-Spares)

  found_admission_key-Spares : (key : Option AdmissionKey) → Spares (found_admission_key p key)
  found_admission_key-Spares none = search call_rules
  found_admission_key-Spares (some k) = open_admission_key-Spares p.sealer k

  pub get_admission_key-Spares : (name : Text) → Spares (get_admission_key p name)
  unfolding get_admission_key
  get_admission_key-Spares name =
      search (call_rules, outside-Spares, found_admission_key-Spares) depth 12

  drop_admission_key-Spares : (name : Text) → Spares (drop_admission_key p name)
  unfolding drop_admission_key modify
  drop_admission_key-Spares name = record { after = λ s. (refl, refl) }

  pub delete_admission_key-Spares : (name : Text) → Spares (delete_admission_key p name)
  unfolding delete_admission_key
  delete_admission_key-Spares name =
      search (call_rules, outside-Spares, drop_admission_key-Spares) depth 12
