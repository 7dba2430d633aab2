-- ===== src/Workloads.antt =====
-- A tenant's workloads and the names it publishes beside them: CreateWorkload, DeleteWorkload,
-- PutRecord, DeleteRecord and what they call, of internal/tenant/service.go and addresses.go. The
-- texts of refusals are left out.
pub mod Placement
mod Tests
use deevnet_provisioning_api.Prelude.{
  ℕ, suc, zero, ◌+◌, ◌<◌, ltb, Bool, true, false, not, ◌&&◌, ◌||◌, Option, none, some, List, [],
  ◌∷◌, ◌++◌, is_empty, any, has_prefix, Text, text_eq, codes, decimal, ℤ, pos, negsuc, to_ℕ, Result,
  Done, ok, err, if◌then◌else◌,
}
use deevnet_provisioning_api.Names.{valid_workload_name}
use deevnet_provisioning_api.Alloc.Address.{DeviceAddress, provisioning, ready}
use deevnet_provisioning_api.Site.{VnetSpec, numbering, network, zone, tenant_address}
use deevnet_provisioning_api.Calls.{Call, give, fail_with, refuse_when, ◌>>=◌, ◌>>◌, attempt}
use deevnet_provisioning_api.Registry.{
  Error, not_found, invalid, step, not_ready, no_compute, bad_workload_name, negative_size,
  device_name, bad_record_name, foreign_address, Record, Workload, ExtraRecord, State, outside,
}
use deevnet_provisioning_api.Registry.Tenants.{get}
use deevnet_provisioning_api.Registry.Parts.{get_workload, list_records, list_device_addresses}
use deevnet_provisioning_api.Registry.Addresses.{get_device_address}
use deevnet_provisioning_api.Registry.Workloads.{
  create_workload_row, set_workload_status, delete_workload_row, put_record_row, delete_record_row,
}
use deevnet_provisioning_api.Lifecycle.{Service, WorkloadSpec, Compute, DnsRecord}
use deevnet_provisioning_api.Lifecycle.Steps.{audited}
use deevnet_provisioning_api.Lifecycle.Delete.{is_none}
use deevnet_provisioning_api.Lifecycle.Create.{step_error}
use deevnet_provisioning_api.Devices.{parse_addr, is_ready, if_there}

pub record WorkloadRequest : Type 0 where
  pub name : Text
  pub cores : ℤ
  pub memory_mb : ℤ
  pub disk_gb : ℤ
  pub ssh_keys : List Text

abbrev is_negative : ℤ → Bool
is_negative (pos n) = false
is_negative (negsuc n) = true

-- orDefaultInt
unfoldable pub or_default : ℤ → ℕ → ℕ
or_default (pos zero) default = default
or_default (pos (suc n)) default = suc n
or_default (negsuc n) default = default

abbrev or_old_keys : List Text → List Text → List Text
or_old_keys [] old = old
or_old_keys (key ∷ keys) old = key ∷ keys

-- The workload that a first request asks for, before the store gives it an ordinal.
unfoldable pub requested : Text → WorkloadRequest → Workload
requested tenant r = record {
  tenant = tenant;
  name = r.name;
  ordinal = 0;
  vmid = 0;
  mac = [];
  address = [];
  cores = or_default r.cores 2;
  memory_mb = or_default r.memory_mb 2048;
  disk_gb = to_ℕ r.disk_gb;
  ssh_keys = r.ssh_keys;
  status = provisioning;
}

-- A re-applied workload keeps its identity and takes the new sizing.
unfoldable pub resized : Workload → WorkloadRequest → Workload
resized w r = record w {
  cores = or_default r.cores w.cores;
  memory_mb = or_default r.memory_mb w.memory_mb;
  disk_gb = or_default r.disk_gb w.disk_gb;
  ssh_keys = or_old_keys r.ssh_keys w.ssh_keys;
}

-- `net.VNets[0].ID`, of a list that the site always gives one
abbrev first_vnet : List VnetSpec → Text
first_vnet [] = []
first_vnet (v ∷ vnets) = v.id

module _ {W : Type 0} (sv : Service W) where
  unfoldable pub workload_spec : Record → Workload → WorkloadSpec
  workload_spec rec w = record {
    name = rec.name ++ b'-' ∷ w.name;
    node = sv.site.node;
    vmid = w.vmid;
    mac = w.mac;
    bridge = first_vnet (network sv.site rec.name rec.index).vnets;
    address = w.address ++ codes "/24";
    gateway = (numbering sv.site rec.index).gateway;
    nameserver = sv.site.workload_resolver;
    cores = w.cores;
    memory_mb = w.memory_mb;
    disk_gb = w.disk_gb;
    disk = sv.site.disk;
    storage = sv.site.storage;
    ci_user = sv.site.ci_user;
    ssh_keys = w.ssh_keys;
    tags = codes "tenant" ∷ rec.name ∷ [];
    template_prefix = sv.site.template_prefix;
  }

  -- deviceHoldsName
  unfoldable pub device_holds_name : Text → Text → Call Error (State W) Done
  device_holds_name tenant name = do
    read ← attempt (get_device_address sv.store tenant name)
    held ← if_there read
    refuse_when (not (is_none held)) (invalid device_name)

  -- The row of the workload, made or re-applied.
  unfoldable pub apply_workload :
      Text → WorkloadRequest → Option Workload → Call Error (State W) Workload
  apply_workload tenant r none = do
    device_holds_name tenant r.name
    w ← create_workload_row sv.store (requested tenant r)
    audited sv (codes "workload-create") tenant
    give w
  apply_workload tenant r (some old) = do
    stored ← create_workload_row sv.store (resized old r)
    give (resized old r)

  abbrev pub build_with : Option (Compute W) → WorkloadSpec → Call Error (State W) Done
  build_with none spec = give tt
  build_with (some compute) spec = outside (compute.ensure_workload spec)

  abbrev pub published : Workload → List DnsRecord
  published w = record { name = w.name; address = w.address; reverse = true } ∷ []

  -- The workload as it is handed back, with the error of a step after its row was written: the code
  -- returns both.
  abbrev pub Answer : Type 0
  Answer = Workload × Option Error

  abbrev pub marked : Workload → Result Error Done → Answer
  marked w (ok d) = (record w { status = ready }, none)
  marked w (err e) = (w, some e)

  abbrev pub after_names : Text → Workload → Result Error Done → Call Error (State W) Answer
  after_names tenant w (err e) = give (w, some (step (codes "dns") e))
  after_names tenant w (ok d) = do
    answer ← attempt (set_workload_status sv.store tenant w.name ready)
    give (marked w answer)

  -- The name of the machine, after the answer about the machine
  abbrev pub after_build :
      Text → Record → Workload → Result Error Done → Call Error (State W) Answer
  after_build tenant rec w (err e) = give (w, some (step (codes "workload") e))
  after_build tenant rec w (ok d) = do
    named ← attempt (
        outside (
          sv.dns.ensure_records (zone sv.site tenant) (numbering sv.site rec.index).reverse_zone
            (published w)))
    after_names tenant w named

  -- The machine, its name and its status.
  unfoldable pub build_workload : Text → Record → Workload → Call Error (State W) Answer
  build_workload tenant rec w = do
    built ← attempt (build_with sv.compute (workload_spec rec w))
    after_build tenant rec w built

  -- CreateWorkload
  unfoldable pub create_workload : Text → WorkloadRequest → Call Error (State W) Answer
  create_workload tenant r = do
    refuse_when (is_none sv.compute) (invalid no_compute)
    rec ← get sv.store tenant
    refuse_when (not (is_ready rec.status)) (invalid (not_ready rec.status))
    refuse_when (not (valid_workload_name r.name)) (invalid bad_workload_name)
    refuse_when (is_negative r.cores || (is_negative r.memory_mb || is_negative r.disk_gb))
        (invalid negative_size)
    read ← attempt (get_workload sv.store tenant r.name)
    old ← if_there read
    w ← apply_workload tenant r old
    build_workload tenant rec w

  abbrev pub remove_with : Option (Compute W) → Workload → Call Error (State W) Done
  remove_with none w = give tt
  remove_with (some compute) w = outside (compute.remove_workload sv.site.node w.vmid)

  unfoldable pub delete_workload : Text → Text → Call Error (State W) Done
  delete_workload tenant name = do
    rec ← get sv.store tenant
    w ← get_workload sv.store tenant name
    gone ← attempt (remove_with sv.compute w)
    step_error sv (codes "workload") gone
    unnamed ← attempt (
        outside (
          sv.dns.remove_records (zone sv.site tenant) (numbering sv.site rec.index).reverse_zone
            (published w)))
    step_error sv (codes "dns") unnamed
    audited sv (codes "workload-delete") tenant
    delete_workload_row sv.store tenant name

  -- inTenantSubnet
  unfoldable pub in_tenant_subnet : Record → Text → Bool
  in_tenant_subnet rec address =
      has_prefix address (tenant_address sv.site.octet rec.index [])
      && not (is_none (parse_addr address))

  -- What holdsAddress looks for.
  unfoldable pub holds_address : Text → List DeviceAddress → Bool
  holds_address address [] = false
  holds_address address (a ∷ held) = text_eq a.address address || holds_address address held

  abbrev pub address_allowed : Text → Text → Bool → Call Error (State W) Done
  address_allowed tenant address true = give tt
  address_allowed tenant address false = do
    held ← list_device_addresses sv.store tenant
    refuse_when (not (holds_address address held)) (invalid foreign_address)

  abbrev pub alias : Text → Text → List DnsRecord
  alias name address = record { name = name; address = address; reverse = false } ∷ []

  unfoldable pub put_record : Text → Text → Text → Call Error (State W) Done
  put_record tenant name address = do
    rec ← get sv.store tenant
    refuse_when (not (valid_workload_name name)) (invalid bad_record_name)
    device_holds_name tenant name
    address_allowed tenant address (in_tenant_subnet rec address)
    named ← attempt (
        outside (
          sv.dns.ensure_records (zone sv.site tenant) (numbering sv.site rec.index).reverse_zone
            (alias name address)))
    step_error sv (codes "dns") named
    put_record_row sv.store (record { tenant = tenant; name = name; address = address })
    audited sv (codes "record-put") tenant

  unfoldable pub remove_record : Text → Record → Text → ExtraRecord → Call Error (State W) Done
  remove_record tenant rec name r = do
    unnamed ← attempt (
        outside (
          sv.dns.remove_records (zone sv.site tenant) (numbering sv.site rec.index).reverse_zone
            (alias r.name r.address)))
    step_error sv (codes "dns") unnamed
    delete_record_row sv.store tenant name
    audited sv (codes "record-delete") tenant

  -- The loop of DeleteRecord over a tenant's records
  unfoldable pub delete_found : Text → Record → Text → List ExtraRecord → Call Error (State W) Done
  delete_found tenant rec name [] = fail_with not_found
  delete_found tenant rec name (r ∷ records) =
      if text_eq r.name name
      then remove_record tenant rec name r
      else delete_found tenant rec name records

  unfoldable pub delete_record : Text → Text → Call Error (State W) Done
  delete_record tenant name = do
    rec ← get sv.store tenant
    records ← list_records sv.store tenant
    delete_found tenant rec name records
