-- ===== src/Lifecycle.antt =====
-- The life of a tenant: internal/tenant/service.go, logtokens.go and dashboards.go. This file has
-- the service and what its backends are given, of internal/tenant/tenant.go; Validate has the
-- checks of a create, Requests its secrets, Steps the backend steps, Create and Delete the
-- operations. A backend is the parameter that its interface is: a record of calls on the world,
-- which may change it and may fail.
pub mod Answers
pub mod Base64
pub mod Validate
pub mod Requests
pub mod Steps
pub mod Keeps
pub mod Leases
pub mod Invariant
pub mod Growth
pub mod Removal
pub mod Restore
pub mod Readiness
pub mod Ready
pub mod Finishing
pub mod Finished
pub mod Tenancy
pub mod Listing
pub mod Reach
pub mod Distinct
pub mod Sample
mod Retries
mod Tests
pub mod Create
pub mod Delete
use deevnet_provisioning_api.Prelude.{Bool, ℕ, Option, List, Text, codes, ◌++◌, [], ◌∷◌, ℤ, Done}
use deevnet_provisioning_api.Alloc.Index.{Claim}
use deevnet_provisioning_api.Calls.{Outcome, Call}
use deevnet_provisioning_api.Registry.{Error, Record, BrokerAccount, Store}
use deevnet_provisioning_api.Site.{Site, NetworkSpec}

pub record CreateRequest : Type 0 where
  pub name : Text
  pub index : ℤ
  pub tsig_secret : Text
  pub state_secret : Text
  pub api_token : Text

pub data TenantOutcome : Type 0 where
  created restored reissued resumed reconciled : TenantOutcome

pub record Issued : Type 0 where
  pub log_ingest_token : Text
  pub log_read_token : Text
  pub dashboard_password : Text
  pub tsig_secret : Text
  pub state_secret : Text
  pub api_token : Text

-- Result
pub record TenantResult : Type 0 where
  pub tenant : Record
  pub outcome : TenantOutcome
  pub issued : Issued

pub record DnsTenant : Type 0 where
  pub key_name : Text
  pub algorithm : Text
  pub secret : Text
  pub zones : List Text
  pub apex_ns : Text
  pub update_from : List Text

pub record DnsRecord : Type 0 where
  pub name : Text
  pub address : Text
  pub reverse : Bool

pub record Forward : Type 0 where
  pub domain : Text
  pub server : Text
  pub description : Text

pub record StateTenant : Type 0 where
  pub user : Text
  pub secret : Text
  pub bucket : Text
  pub prefix : Text

pub record LogTenant : Type 0 where
  pub name : Text
  pub index : ℕ
  pub ingest_token : Text
  pub read_token : Text

pub record DashTenant : Type 0 where
  pub name : Text
  pub index : ℕ
  pub password : Text
  pub read_token : Text

pub record WorkloadSpec : Type 0 where
  pub name : Text
  pub node : Text
  pub vmid : ℕ
  pub mac : Text
  pub bridge : Text
  pub address : Text
  pub gateway : Text
  pub nameserver : Text
  pub cores : ℕ
  pub memory_mb : ℕ
  pub disk_gb : ℕ
  pub disk : Text
  pub storage : Text
  pub ci_user : Text
  pub ssh_keys : List Text
  pub tags : List Text
  pub template_prefix : Text

pub record WifiKeySpec : Type 0 where
  pub ssid : Text
  pub name : Text
  pub psk : Text
  pub vlan : ℕ
  pub mac : Text

pub record Reservation : Type 0 where
  pub subnet : Text
  pub address : Text
  pub mac : Text
  pub hostname : Text
  pub description : Text

module _ (W : Type 0) where
  pub record Dns : Type 0 where
    pub ensure_zones : DnsTenant → Call Error W Done
    pub remove_zones : DnsTenant → Call Error W Done
    pub ensure_records : Text → Text → List DnsRecord → Call Error W Done
    pub remove_records : Text → Text → List DnsRecord → Call Error W Done

  pub record Resolver : Type 0 where
    pub ensure_forwards : List Forward → Call Error W Done
    pub remove_forwards : List Text → Call Error W Done

  pub record StateStore : Type 0 where
    pub ensure_state : StateTenant → Call Error W Done
    pub remove_state : Text → Call Error W Done

  pub record Network : Type 0 where
    pub ensure_network : NetworkSpec → Call Error W Done
    pub remove_network : NetworkSpec → Call Error W Done

  pub record Compute : Type 0 where
    pub ensure_workload : WorkloadSpec → Call Error W Done
    pub remove_workload : Text → ℕ → Call Error W Done

  pub record Reservations : Type 0 where
    pub ensure_reservation : Reservation → Call Error W Done
    pub remove_reservation : Text → Call Error W Done

  pub record Wireless : Type 0 where
    pub ensure_key : WifiKeySpec → Call Error W Done
    pub remove_key : Text → Text → Call Error W Done

  pub record BrokerWriter : Type 0 where
    pub put_account : BrokerAccount → Call Error W Done
    pub remove_account : Text → Text → Call Error W Done

  -- The data behind a token is the tenant's name alone.
  pub record Enroller : Type 0 where
    pub wrap : Text → ℕ → Call Error W (Text × ℕ)
    pub unwrap : Text → Call Error W Text

  pub record LogWriter : Type 0 where
    pub put_users : LogTenant → Call Error W Done
    pub remove_users : Text → ℕ → Call Error W Done

  pub record Dashboards : Type 0 where
    pub ensure_org : DashTenant → Call Error W ℕ
    pub remove_org : Text → Call Error W Done

  -- The service; an optional backend is one that a site may lack. `random` is rand.Read, which
  -- fills as many bytes as it is asked for, and `hmac` and `sha256` are the standard library's.
  pub record Service : Type 0 where
    pub site : Site
    pub store : Store W
    pub dns : Dns
    pub resolver : Resolver
    pub state_store : StateStore
    pub claims : Call Error W (List Claim)
    pub network : Option Network
    pub compute : Option Compute
    pub wireless : Option Wireless
    pub broker_writer : Option BrokerWriter
    pub enroller : Option Enroller
    -- In seconds
    pub enrollment_ttl : ℤ
    pub reservations : Option Reservations
    pub log_writer : Option LogWriter
    pub dashboards : Option Dashboards
    pub token_key : Text
    pub hmac : Text → Text → Text
    pub sha256 : Text → Text
    pub random : Call Error W (ℕ → ℕ)
    -- rand.Int below a bound, and bcrypt's hash of a password
    pub random_int : ℕ → Call Error W ℕ
    pub hash_password : Text → Call Error W Text
    -- Who the request is from, for the audit log
    pub actor : Text
