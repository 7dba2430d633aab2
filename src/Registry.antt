-- ===== src/Registry.antt =====
-- The registry in PostgreSQL: the types of internal/tenant/tenant.go that it keeps, and the errors
-- of the service. Registry.Sealing and Registry.Tenants are internal/store/store.go, and
-- Registry.Parts what a tenant's deletion lists, of the other files there. A table is the list of
-- its rows, oldest first, without the times. Whether PostgreSQL answers is the parameter `query` of
-- the store, on a world that every call may change.
pub mod Sealing
pub mod Tenants
pub mod Parts
pub mod Addresses
pub mod Workloads
pub mod Placed
pub mod Placing
pub mod Accounts
pub mod Certificates
pub mod Answering
pub mod WifiKeys
pub mod Keys
pub mod Unique
pub mod Reads
pub mod Sample
pub mod Spares
mod Tests
pub mod Keeps
use deevnet_provisioning_api.Prelude.{ℕ, Bool, false, Option, List, [], Text, Done}
use deevnet_provisioning_api.Alloc.Address.{Status}
use deevnet_provisioning_api.Site.{Site}
use deevnet_provisioning_api.Broker.Patterns.{Refusal}
use deevnet_provisioning_api.Calls.{Outcome, returns, raises, Call}

pub data Invalid : Type 0 where
  bad_name reserved_name bad_index some_secrets bad_tsig_secret bad_state_secret : Invalid
  foreign_token : Invalid
  -- The tenant's status: it is being deleted.
  unfinished : Status → Invalid
  not_ready : Status → Invalid
  no_reservations device_unknown device_without_mac no_range bad_address holds_other : Invalid
  bad_device_name bad_trust_class bad_mac class_changed address_held : Invalid
  workload_name record_name record_points : Invalid
  no_accounts bad_account_name foreign_device no_broker_path : Invalid
  no_keys bad_key_name bad_psk key_class_changed bad_admission_class : Invalid
  account_refused : Refusal → Invalid
  no_signer too_many_certificates bad_certificate_name reserved_certificate_name : Invalid
  name_twice too_many_names unknown_site site_twice bad_request : Invalid
  no_compute bad_workload_name negative_size device_name bad_record_name foreign_address : Invalid

pub data Error : Type 0 where
  not_found exists exhausted fabric_in_use secrets_unavailable not_redeemable no_enrollment : Error
  has_workloads workloads_exhausted address_conflict addresses_exhausted address_quota : Error
  invalid : Invalid → Error
  step : Text → Error → Error
  -- Another error, by its text.
  other : Text → Error

pub record Secrets : Type 0 where
  pub tsig : Text
  pub state : Text
  pub api_token_hash : Text
  pub log_ingest : Text
  pub log_read : Text
  pub dashboard_password : Text
  pub unreadable : Bool

abbrev pub no_secrets : Secrets
no_secrets = record {
  tsig = [];
  state = [];
  api_token_hash = [];
  log_ingest = [];
  log_read = [];
  dashboard_password = [];
  unreadable = false;
}

-- Step, where OK is that there is no error
pub record Step : Type 0 where
  pub name : Text
  pub error : Option Error

pub record Record : Type 0 where
  pub name : Text
  pub index : ℕ
  pub status : Status
  pub secrets : Secrets
  pub dashboard_org : ℕ
  pub steps : List Step

pub record Workload : Type 0 where
  pub tenant : Text
  pub name : Text
  pub ordinal : ℕ
  pub vmid : ℕ
  pub mac : Text
  pub address : Text
  pub cores : ℕ
  pub memory_mb : ℕ
  pub disk_gb : ℕ
  pub ssh_keys : List Text
  pub status : Status

pub record WifiKey : Type 0 where
  pub tenant : Text
  pub name : Text
  pub trust_class : Text
  pub psk : Text
  pub mac : Text
  pub status : Status
  pub unreadable : Bool

-- An admission's Wi-Fi key, of a tenant that is not there yet
pub record AdmissionKey : Type 0 where
  pub tenant : Text
  pub psk : Text
  pub mac : Text
  pub unreadable : Bool

pub record BrokerAccount : Type 0 where
  pub tenant : Text
  pub name : Text
  pub device : Text
  pub publish : List Text
  pub subscribe : List Text
  pub password_hash : Text
  pub status : Status

-- A server certificate, without the times of its row. An instant is a number of nanoseconds.
pub record Certificate : Type 0 where
  pub tenant : Text
  pub name : Text
  pub names : List Text
  pub key_fingerprint : Text
  pub serial : Text
  pub not_before : ℕ
  pub not_after : ℕ
  pub pem : Text
  pub chain : Text

pub record Device : Type 0 where
  pub tenant : Text
  pub name : Text
  pub trust_class : Text
  pub mac : Text
  pub status : Status

-- A row of tenant_device_addresses
pub record AddressRow : Type 0 where
  pub tenant : Text
  pub device : Text
  pub trust_class : Text
  pub address : Text
  pub status : Status

pub record AuditEntry : Type 0 where
  pub actor : Text
  pub action : Text
  pub tenant : Text

-- A row of tenant_records
pub record ExtraRecord : Type 0 where
  pub tenant : Text
  pub name : Text
  pub address : Text

-- The rows of tenant_steps stand in their tenant's row.
pub record Registry : Type 0 where
  pub tenants : List Record
  pub workloads : List Workload
  pub wifi_keys : List WifiKey
  pub admission_keys : List AdmissionKey
  pub broker_accounts : List BrokerAccount
  pub devices : List Device
  pub device_addresses : List AddressRow
  pub records : List ExtraRecord
  pub certificates : List Certificate
  pub audit_log : List AuditEntry

pub record State (W : Type 0) : Type 0 where
  pub registry : Registry
  pub world : W

pub record Sealer (W : Type 0) : Type 0 where
  pub seal : Text → Call Error W Text
  pub open_sealed : Text → Call Error W Text

pub record Store (W : Type 0) : Type 0 where
  pub query : Call Error W Done
  pub site : Site
  pub sealer : Option (Sealer W)

-- A call to something outside the registry.
abbrev pub keep : {W A : Type 0} → Registry → Outcome Error W A → Outcome Error (State W) A
keep r (returns a w) = returns a (record { registry = r; world = w })
keep r (raises e w) = raises e (record { registry = r; world = w })

unfoldable pub outside : {W A : Type 0} → Call Error W A → Call Error (State W) A
outside call s = keep s.registry (call s.world)
