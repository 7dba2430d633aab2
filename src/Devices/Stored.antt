-- ===== src/Devices/Stored.antt =====
-- What the store's calls that the operations on devices make leave of the addresses given out.
use deevnet_provisioning_api.Prelude.{
  IsUnique, sym, subst, Option, none, some, List, Text, Result, ok, err,
}
use deevnet_provisioning_api.Calls.{Call, modify}
use deevnet_provisioning_api.Calls.Laws.{Leaves, bind-Leaves, call_rules}
use deevnet_provisioning_api.Registry.{
  Error, not_found, AuditEntry, Workload, Device, AddressRow, Record, State, Registry, Store,
  outside,
}
use deevnet_provisioning_api.Registry.Tenants.{found, audit, write_audit, get}
use deevnet_provisioning_api.Registry.Parts.{found_workload, get_workload, list_records}
use deevnet_provisioning_api.Registry.Addresses.{
  found_address, get_device_address, list_class_addresses, found_device, get_device, write_device,
  put_device, drop_device, delete_device_row,
}
use deevnet_provisioning_api.Registry.Keys.{keys, without_address-IsUnique}
use deevnet_provisioning_api.Registry.Unique.{unique_addresses}
use deevnet_provisioning_api.Registry.Reads.{Reads, outside-Reads, found-Reads, get-Reads}
use deevnet_provisioning_api.Devices.{if_there}

module _ {W : Type 0} where
  abbrev pub Unique : {A : Type 0} → Call Error (State W) A → Type 0
  Unique call = Leaves unique_addresses call

  pub Reads-Unique : {A : Type 0} (call : Call Error (State W) A) → Reads call → Unique call
  Reads-Unique call h = record {
    after = λ s u. subst (λ (r : Registry). IsUnique (keys r.device_addresses)) (sym (h.after s)) u;
  }

  pub outside-Unique : {A : Type 0} (call : Call Error W A) → Unique (outside call)
  outside-Unique call = Reads-Unique _ (outside-Reads call)

  pub if_there-Reads : {A : Type 0} (r : Result Error A) → Reads (if_there {W = W} r)
  if_there-Reads (ok a) = search call_rules
  if_there-Reads (err not_found) = search call_rules
  if_there-Reads (err _) = search call_rules

  module _ (p : Store W) where
    pub get-Unique : (name : Text) → Unique (get p name)
    get-Unique name = Reads-Unique _ (get-Reads p name)

    pub write_audit-Unique : (entry : AuditEntry) → Unique (write_audit p entry)
    unfolding write_audit modify
    write_audit-Unique entry = record { after = λ s u. u }

    pub audit-Unique : (entry : AuditEntry) → Unique (audit p entry)
    unfolding audit
    audit-Unique entry = search (call_rules, outside-Unique, write_audit-Unique)

    pub found_workload-Reads : (w : Option Workload) → Reads (found_workload p w)
    found_workload-Reads none = search call_rules
    found_workload-Reads (some w) = search call_rules

    pub get_workload-Reads : (tenant name : Text) → Reads (get_workload p tenant name)
    unfolding get_workload
    get_workload-Reads tenant name = search (call_rules, outside-Reads, found_workload-Reads)

    pub list_records-Reads : (tenant : Text) → Reads (list_records p tenant)
    unfolding list_records
    list_records-Reads tenant = search (call_rules, outside-Reads)

    pub found_address-Reads :
        (devices : List Device) (row : Option AddressRow) → Reads (found_address p devices row)
    found_address-Reads devices none = search call_rules
    found_address-Reads devices (some a) = search call_rules

    pub get_device_address-Reads :
        (tenant device : Text) → Reads (get_device_address p tenant device)
    unfolding get_device_address
    get_device_address-Reads tenant device =
        search (call_rules, outside-Reads, found_address-Reads) depth 12

    pub list_class_addresses-Reads : (class : Text) → Reads (list_class_addresses p class)
    unfolding list_class_addresses
    list_class_addresses-Reads class = search (call_rules, outside-Reads)

    pub found_device-Reads : (row : Option Device) → Reads (found_device p row)
    found_device-Reads none = search call_rules
    found_device-Reads (some d) = search call_rules

    pub get_device-Reads : (tenant name : Text) → Reads (get_device p tenant name)
    unfolding get_device
    get_device-Reads tenant name = search (call_rules, outside-Reads, found_device-Reads)

    pub write_device-Unique : (d : Device) → Unique (write_device p d)
    unfolding write_device modify
    write_device-Unique d = record { after = λ s u. u }

    pub found_device-Unique : (row : Option Device) → Unique (found_device p row)
    found_device-Unique row = Reads-Unique _ (found_device-Reads row)

    pub found-Unique : (row : Option Record) → Unique (found p row)
    found-Unique row = Reads-Unique _ (found-Reads p row)

    pub put_device-Unique : (d : Device) → Unique (put_device p d)
    unfolding put_device
    put_device-Unique d =
        search (call_rules, outside-Unique, found-Unique, write_device-Unique, found_device-Unique)
          depth 12

    pub drop_device-Unique : (tenant name : Text) → Unique (drop_device p tenant name)
    unfolding drop_device modify
    drop_device-Unique tenant name = record {
      after = λ s. without_address-IsUnique tenant name s.registry.device_addresses;
    }

    pub delete_device_row-Unique : (tenant name : Text) → Unique (delete_device_row p tenant name)
    unfolding delete_device_row
    delete_device_row-Unique tenant name =
        bind-Leaves _ _ (outside-Unique p.query) (λ d. drop_device-Unique tenant name)
