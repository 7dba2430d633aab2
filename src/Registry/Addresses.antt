-- ===== src/Registry/Addresses.antt =====
-- The tables of devices and of their fixed addresses: internal/store/addresses.go and devices.go.
-- An address is read through the join with its device, which holds the MAC.
use deevnet_provisioning_api.Prelude.{
  Bool, true, false, ◌&&◌, Option, none, some, List, [], ◌∷◌, ◌++◌, map, Text, text_eq, Result, ok,
  err, Done, if◌then◌else◌,
}
use deevnet_provisioning_api.Alloc.Address.{DeviceAddress, Status, PickFault}
use deevnet_provisioning_api.Alloc.Address
use deevnet_provisioning_api.Calls.{
  Call, give, fail_with, gets, modify, refuse_when, checked, ◌>>=◌, ◌>>◌,
}
use deevnet_provisioning_api.Registry.{
  Error, not_found, address_conflict, address_quota, addresses_exhausted, Device, AddressRow, State,
  Store, outside,
}
use deevnet_provisioning_api.Registry.Tenants.{find_row, found}
use deevnet_provisioning_api.Registry.Parts.{joined}

-- The errors of pickAddress among those of the service
abbrev pub as_error : Result PickFault Text → Result Error Text
as_error (ok address) = ok address
as_error (err Address.address_conflict) = err address_conflict
as_error (err Address.address_quota) = err address_quota
as_error (err Address.addresses_exhausted) = err addresses_exhausted

abbrev pub is_device : Text → Text → Device → Bool
is_device tenant name d = text_eq d.tenant tenant && text_eq d.name name

abbrev pub is_row : Text → Text → AddressRow → Bool
is_row tenant device a = text_eq a.tenant tenant && text_eq a.device device

unfoldable pub find_device : Text → Text → List Device → Option Device
find_device tenant name [] = none
find_device tenant name (d ∷ devices) =
    if is_device tenant name d then some d else find_device tenant name devices

unfoldable pub find_address : Text → Text → List AddressRow → Option AddressRow
find_address tenant device [] = none
find_address tenant device (a ∷ rows) =
    if is_row tenant device a then some a else find_address tenant device rows

abbrev pub with_status : Text → Text → Status → AddressRow → AddressRow
with_status tenant device status a =
    if is_row tenant device a then record a { status = status } else a

-- `WHERE trust_class = $1`
unfoldable pub of_class : Text → List AddressRow → List AddressRow
of_class trust_class [] = []
of_class trust_class (a ∷ rows) =
    let rest = of_class trust_class rows in
    if text_eq a.trust_class trust_class then a ∷ rest else rest

unfoldable pub without_address : Text → Text → List AddressRow → List AddressRow
without_address tenant device [] = []
without_address tenant device (a ∷ rows) =
    let rest = without_address tenant device rows in
    if is_row tenant device a then rest else a ∷ rest

unfoldable pub upsert_device : Device → List Device → List Device
upsert_device d [] = d ∷ []
upsert_device d (old ∷ devices) =
    if is_device d.tenant d.name old
    then record old { mac = d.mac; status = d.status } ∷ devices
    else old ∷ upsert_device d devices

unfoldable pub without_device : Text → Text → List Device → List Device
without_device tenant name [] = []
without_device tenant name (d ∷ devices) =
    let rest = without_device tenant name devices in
    if is_device tenant name d then rest else d ∷ rest

module _ {W : Type 0} (p : Store W) where
  abbrev pub change_addresses : (List AddressRow → List AddressRow) → Call Error (State W) Done
  change_addresses f = modify (λ s. record s {
    registry = record s.registry { device_addresses = f s.registry.device_addresses };
  })

  abbrev pub found_address : List Device → Option AddressRow → Call Error (State W) DeviceAddress
  found_address devices none = fail_with not_found
  found_address devices (some a) = give (joined p devices a)

  unfoldable pub get_device_address : Text → Text → Call Error (State W) DeviceAddress
  get_device_address tenant device = do
    outside p.query
    devices ← gets (λ s. s.registry.devices)
    row ← gets (λ s. find_address tenant device s.registry.device_addresses)
    found_address devices row

  unfoldable pub list_class_addresses : Text → Call Error (State W) (List DeviceAddress)
  list_class_addresses trust_class = do
    outside p.query
    gets (λ s. map (joined p s.registry.devices) (of_class trust_class s.registry.device_addresses))

  abbrev pub no_device : Option Device → Bool
  no_device none = true
  no_device (some d) = false

  unfoldable pub insert_address : AddressRow → Call Error (State W) Done
  insert_address row = change_addresses (λ rows. rows ++ row ∷ [])

  unfoldable pub write_address_status : Text → Text → Status → Call Error (State W) Done
  write_address_status tenant device status =
      change_addresses (map (with_status tenant device status))

  -- What the transaction does with the row that is there, or without one.
  abbrev pub place :
      AddressRow
      → (List DeviceAddress → Result Error Text)
      → Option AddressRow
      → Call Error (State W) Done
  place a pick (some row) = write_address_status a.tenant a.device a.status
  place a pick none = do
    held ← gets (λ s.
        map (joined p s.registry.devices) (of_class a.trust_class s.registry.device_addresses))
    address ← checked (pick held)
    device ← gets (λ s. find_device a.tenant a.device s.registry.devices)
    refuse_when (no_device device) not_found
    insert_address (record a { address = address })

  -- CreateDeviceAddress, in one transaction under the allocation lock
  unfoldable pub create_address :
      AddressRow → (List DeviceAddress → Result Error Text) → Call Error (State W) DeviceAddress
  create_address a pick = do
    outside p.query
    row ← gets (λ s. find_address a.tenant a.device s.registry.device_addresses)
    place a pick row
    get_device_address a.tenant a.device

  abbrev pub address_there : Option AddressRow → Call Error (State W) Done
  address_there none = fail_with not_found
  address_there (some a) = give tt

  unfoldable pub set_address_status : Text → Text → Status → Call Error (State W) Done
  set_address_status tenant device status = do
    outside p.query
    row ← gets (λ s. find_address tenant device s.registry.device_addresses)
    address_there row
    write_address_status tenant device status

  unfoldable pub delete_address : Text → Text → Call Error (State W) Done
  delete_address tenant device = do
    outside p.query
    change_addresses (without_address tenant device)

  abbrev pub found_device : Option Device → Call Error (State W) Device
  found_device none = fail_with not_found
  found_device (some d) = give d

  unfoldable pub get_device : Text → Text → Call Error (State W) Device
  get_device tenant name = do
    outside p.query
    device ← gets (λ s. find_device tenant name s.registry.devices)
    found_device device

  unfoldable pub write_device : Device → Call Error (State W) Done
  write_device d = modify (λ s. record s {
    registry = record s.registry { devices = upsert_device d s.registry.devices };
  })

  -- PutDevice, whose conflict leaves the trust class
  unfoldable pub put_device : Device → Call Error (State W) Device
  put_device d = do
    outside p.query
    row ← gets (λ s. find_row d.tenant s.registry.tenants)
    r ← found p row
    write_device d
    device ← gets (λ s. find_device d.tenant d.name s.registry.devices)
    found_device device

  -- The row of a device, and by the foreign key the one of its address
  unfoldable pub drop_device : Text → Text → Call Error (State W) Done
  drop_device tenant name = modify (λ s. record s {
    registry = record s.registry {
      devices = without_device tenant name s.registry.devices;
      device_addresses = without_address tenant name s.registry.device_addresses;
    };
  })

  -- DeleteDevice, to which a device that is not there is no error
  unfoldable pub delete_device_row : Text → Text → Call Error (State W) Done
  delete_device_row tenant name = do outside p.query; drop_device tenant name
