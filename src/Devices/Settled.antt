-- ===== src/Devices/Settled.antt =====
-- The operations on devices leave the tenants' numbers and the workloads as they are.
use deevnet_provisioning_api.Prelude.{refl, Option, none, some, List, Text, Result}
use deevnet_provisioning_api.Alloc.Address.{DeviceAddress, Status}
use deevnet_provisioning_api.Calls.{Call, modify}
use deevnet_provisioning_api.Calls.Laws.{bind-Leaves, call_rules}
use deevnet_provisioning_api.Registry.{Error, Record, Device, AddressRow, State, outside}
use deevnet_provisioning_api.Registry.Tenants.{found}
use deevnet_provisioning_api.Registry.Addresses.{
  change_addresses, without_address, write_address_status, insert_address, place, create_address,
  get_device_address, address_there, set_address_status, delete_address, found_device, write_device,
  put_device, drop_device, delete_device_row,
}
use deevnet_provisioning_api.Registry.Reads.{outside-Reads, found-Reads}
use deevnet_provisioning_api.Registry.Keeps.{audit-Keeps}
use deevnet_provisioning_api.Registry.Placing.{stays_placed, Places, Keeps-Places, Reads-Places}
use deevnet_provisioning_api.Lifecycle.{Service}
use deevnet_provisioning_api.Devices.Stored.{get_device_address-Reads, found_device-Reads}
use deevnet_provisioning_api.Devices.Changes.{DeviceChange}

module _ {W : Type 0} (sv : Service W) where
  abbrev Settles : {A : Type 0} → Call Error (State W) A → Type 0
  Settles call = Places sv.store call

  outside-Settles : {A : Type 0} (call : Call Error W A) → Settles (outside call)
  outside-Settles call = Reads-Places sv.store _ (outside-Reads call)

  found-Settles : (row : Option Record) → Settles (found sv.store row)
  found-Settles row = Reads-Places sv.store _ (found-Reads sv.store row)

  found_device-Settles : (row : Option Device) → Settles (found_device sv.store row)
  found_device-Settles row = Reads-Places sv.store _ (found_device-Reads sv.store row)

  get_device_address-Settles :
      (tenant device : Text) → Settles (get_device_address sv.store tenant device)
  get_device_address-Settles tenant device =
      Reads-Places sv.store _ (get_device_address-Reads sv.store tenant device)

  change_addresses-Settles :
      (f : List AddressRow → List AddressRow) → Settles (change_addresses sv.store f)
  unfolding modify
  change_addresses-Settles f = record { after = λ s. (refl, λ h. h) }

  write_address_status-Settles :
      (tenant device : Text) (status : Status)
      → Settles (write_address_status sv.store tenant device status)
  unfolding write_address_status
  write_address_status-Settles tenant device status = change_addresses-Settles _

  insert_address-Settles : (row : AddressRow) → Settles (insert_address sv.store row)
  unfolding insert_address
  insert_address-Settles row = change_addresses-Settles _

  place-Settles :
      (a : AddressRow) (pick : List DeviceAddress → Result Error Text) (row : Option AddressRow)
      → Settles (place sv.store a pick row)
  place-Settles a pick none = search (call_rules, insert_address-Settles) depth 16
  place-Settles a pick (some row) = write_address_status-Settles a.tenant a.device a.status

  create_address-Settles :
      (a : AddressRow) (pick : List DeviceAddress → Result Error Text)
      → Settles (create_address sv.store a pick)
  unfolding create_address
  create_address-Settles a pick =
      search (call_rules, outside-Settles, place-Settles, get_device_address-Settles) depth 12

  address_there-Settles : (row : Option AddressRow) → Settles (address_there sv.store row)
  address_there-Settles none = search call_rules
  address_there-Settles (some a) = search call_rules

  set_address_status-Settles :
      (tenant device : Text) (status : Status)
      → Settles (set_address_status sv.store tenant device status)
  unfolding set_address_status
  set_address_status-Settles tenant device status =
      search (call_rules, outside-Settles, address_there-Settles, write_address_status-Settles)
        depth 12

  delete_address-Settles : (tenant device : Text) → Settles (delete_address sv.store tenant device)
  unfolding delete_address
  delete_address-Settles tenant device =
      bind-Leaves _ _ (outside-Settles sv.store.query)
        (λ d. change_addresses-Settles (without_address tenant device))

  write_device-Settles : (d : Device) → Settles (write_device sv.store d)
  unfolding write_device modify
  write_device-Settles d = record { after = λ s. (refl, λ h. h) }

  put_device-Settles : (d : Device) → Settles (put_device sv.store d)
  unfolding put_device
  put_device-Settles d =
      search
        (call_rules, outside-Settles, found-Settles, write_device-Settles, found_device-Settles)
        depth 12

  drop_device-Settles : (tenant name : Text) → Settles (drop_device sv.store tenant name)
  unfolding drop_device modify
  drop_device-Settles tenant name = record { after = λ s. (refl, λ h. h) }

  delete_device_row-Settles :
      (tenant name : Text) → Settles (delete_device_row sv.store tenant name)
  unfolding delete_device_row
  delete_device_row-Settles tenant name =
      bind-Leaves _ _ (outside-Settles sv.store.query) (λ d. drop_device-Settles tenant name)

  pub settled_change : DeviceChange sv (stays_placed sv.store)
  settled_change = record {
    reads = λ A call. Reads-Places sv.store call;
    audits = λ entry. Keeps-Places sv.store _ (audit-Keeps sv.store entry);
    puts = put_device-Settles;
    drops = delete_device_row-Settles;
    sets = set_address_status-Settles;
    deletes = delete_address-Settles;
    creates = λ tenant device class mac requested r. create_address-Settles _ _;
  }
