-- ===== src/Registry/Tenants.antt =====
-- The table of tenants and what is written to it: internal/store/store.go.
use deevnet_provisioning_api.Prelude.{
  ℕ, Bool, false, ◌||◌, Option, none, some, List, [], ◌∷◌, ◌++◌, map, Text, text_eq, Done,
  if◌then◌else◌,
}
use deevnet_provisioning_api.Alloc.Address.{Status, provisioning}
use deevnet_provisioning_api.Calls.{Call, give, fail_with, refuse_when, gets, modify, ◌>>=◌, ◌>>◌}
use deevnet_provisioning_api.Registry.{
  Error, not_found, exists, exhausted, Secrets, no_secrets, Step, Record, Workload, WifiKey,
  BrokerAccount, Certificate, Device, AddressRow, ExtraRecord, AuditEntry, Registry, State, Store,
  outside,
}
use deevnet_provisioning_api.Registry.Sealing.{seal_secrets, open_secrets}

unfoldable pub find_row : Text → List Record → Option Record
find_row name [] = none
find_row name (r ∷ rows) = if text_eq r.name name then some r else find_row name rows

abbrev pub on_row : Text → (Record → Record) → Record → Record
on_row name f r = if text_eq r.name name then f r else r

-- `WHERE name = $1`
unfoldable pub update_rows : Text → (Record → Record) → List Record → List Record
update_rows name f = map (on_row name f)

-- The rows of a table that are not this tenant's.
unfoldable pub without {ℓ} : {A : Type ℓ} → (A → Text) → Text → List A → List A
without tenant_of name [] = []
without tenant_of name (a ∷ as_) =
    let rest = without tenant_of name as_ in if text_eq (tenant_of a) name then rest else a ∷ rest

-- `SELECT idx, name FROM tenants`
unfoldable pub held_indexes : List Record → List (ℕ × Text)
held_indexes [] = []
held_indexes (r ∷ rows) = (r.index, r.name) ∷ held_indexes rows

unfoldable pub holds_name : Text → List (ℕ × Text) → Bool
holds_name name [] = false
holds_name name ((index, holder) ∷ held) = text_eq holder name || holds_name name held

-- `ON CONFLICT (tenant, step) DO UPDATE`: the step's outcome is now the latest.
unfoldable pub put_step : Step → List Step → List Step
put_step new [] = new ∷ []
put_step new (old ∷ steps) =
    let rest = put_step new steps in if text_eq old.name new.name then rest else old ∷ rest

abbrev pub with_tenants : Registry → List Record → Registry
with_tenants r tenants = record r { tenants = tenants }

module _ {W : Type 0} (p : Store W) where
  abbrev pub found : Option Record → Call Error (State W) Record
  found none = fail_with not_found
  found (some r) = give r

  unfoldable pub get : Text → Call Error (State W) Record
  get name = do
    outside p.query
    row ← gets (λ s. find_row name s.registry.tenants)
    r ← found row
    secrets ← open_secrets p r.secrets
    give (record r { secrets = secrets })

  abbrev pub as_listed : Record → Record
  as_listed r = record r { secrets = no_secrets; steps = [] }

  -- Oldest first here; the service sorts them by index.
  unfoldable pub list_tenants : Call Error (State W) (List Record)
  list_tenants = do outside p.query; gets (λ s. map as_listed s.registry.tenants)

  abbrev pub new_row : Text → ℕ → Secrets → Record
  new_row name n secrets = record {
    name = name;
    index = n;
    status = provisioning;
    secrets = secrets;
    dashboard_org = 0;
    steps = [];
  }

  unfoldable pub insert_row : Record → Call Error (State W) Done
  insert_row row =
      modify (λ s. record s { registry = with_tenants s.registry (s.registry.tenants ++ row ∷ []) })

  -- The index that pick returns; its only error is ErrExhausted.
  abbrev pub picked : Text → Secrets → Secrets → Option ℕ → Call Error (State W) Record
  picked name secrets sealed none = fail_with exhausted
  picked name secrets sealed (some n) = do
    insert_row (new_row name n sealed)
    give (new_row name n secrets)

  -- Create, in one transaction under the allocation lock.
  unfoldable pub create_tenant :
      Text → Secrets → (List (ℕ × Text) → Option ℕ) → Call Error (State W) Record
  create_tenant name secrets pick = do
    sealed ← seal_secrets p secrets
    outside p.query
    held ← gets (λ s. held_indexes s.registry.tenants)
    refuse_when (holds_name name held) exists
    picked name secrets sealed (pick held)

  unfoldable pub write_row : Text → (Record → Record) → Call Error (State W) Done
  write_row name f =
      modify (λ s. record s {
        registry = with_tenants s.registry (update_rows name f s.registry.tenants);
      })

  -- execOne of an UPDATE
  unfoldable pub exec_one : Text → (Record → Record) → Call Error (State W) Done
  exec_one name f = do
    outside p.query
    row ← gets (λ s. find_row name s.registry.tenants)
    r ← found row
    write_row name f

  unfoldable pub set_status : Text → Status → Call Error (State W) Done
  set_status name status = exec_one name (λ r. record r { status = status })

  unfoldable pub set_secrets : Text → Secrets → Call Error (State W) Done
  set_secrets name secrets = do
    sealed ← seal_secrets p secrets
    exec_one name (λ r. record r { secrets = sealed })

  unfoldable pub set_dashboard_org : Text → ℕ → Call Error (State W) Done
  set_dashboard_org name org = exec_one name (λ r. record r { dashboard_org = org })

  -- RecordStep: a step of a tenant without a row violates the foreign key.
  unfoldable pub record_step : Text → Text → Option Error → Call Error (State W) Done
  record_step name step error =
      exec_one name
        (λ r. record r { steps = put_step (record { name = step; error = error }) r.steps })

  abbrev pub drop_tenant : Text → Registry → Registry
  drop_tenant name r = record r {
    tenants = without (λ (x : Record). x.name) name r.tenants;
    workloads = without (λ (x : Workload). x.tenant) name r.workloads;
    wifi_keys = without (λ (x : WifiKey). x.tenant) name r.wifi_keys;
    broker_accounts = without (λ (x : BrokerAccount). x.tenant) name r.broker_accounts;
    devices = without (λ (x : Device). x.tenant) name r.devices;
    device_addresses = without (λ (x : AddressRow). x.tenant) name r.device_addresses;
    records = without (λ (x : ExtraRecord). x.tenant) name r.records;
    certificates = without (λ (x : Certificate). x.tenant) name r.certificates;
  }

  unfoldable pub remove_row : Text → Call Error (State W) Done
  remove_row name = modify (λ s. record s { registry = drop_tenant name s.registry })

  -- Delete, whose foreign keys cascade to the tenant's other rows.
  unfoldable pub delete_tenant : Text → Call Error (State W) Done
  delete_tenant name = do
    outside p.query
    row ← gets (λ s. find_row name s.registry.tenants)
    r ← found row
    remove_row name

  unfoldable pub write_audit : AuditEntry → Call Error (State W) Done
  write_audit entry = modify (λ s. record s {
    registry = record s.registry { audit_log = s.registry.audit_log ++ entry ∷ [] };
  })

  unfoldable pub audit : AuditEntry → Call Error (State W) Done
  audit entry = do outside p.query; write_audit entry
