-- ===== src/Devices/Changes/Registration.antt =====
-- CreateDevice and DeleteDevice of internal/tenant/devices.go, for any relation between states
use deevnet_provisioning_api.Prelude.{
  Bool, true, false, Option, none, some, Text, Result, Done, ok, err,
}
use deevnet_provisioning_api.Alloc.Address.{DeviceAddress}
use deevnet_provisioning_api.Calls.Laws.{Change, Leaves, call_rules}
use deevnet_provisioning_api.Registry.{Error, Device, State}
use deevnet_provisioning_api.Registry.Addresses.{list_class_addresses}
use deevnet_provisioning_api.Devices.Stored.{list_class_addresses-Reads}
use deevnet_provisioning_api.Lifecycle.{Service}
use deevnet_provisioning_api.Devices.Registration.{
  DeviceRequest, check_move, push_moved, move_address, create_device, delete_device,
}
use deevnet_provisioning_api.Devices.Changes.{
  DeviceChange, get-Leaves, get_device-Leaves, get_device_address-Leaves, if_there-Leaves,
  put_device-Leaves, audited-Leaves, delete_device_row-Leaves, set_address_status-Leaves,
  push_address-Leaves,
}

module _ {W : Type 0} (sv : Service W) (c : Change (State W)) (h : DeviceChange sv c) where
  ruleset change_rules = (
    call_rules, get-Leaves, get_device-Leaves, get_device_address-Leaves, if_there-Leaves,
    put_device-Leaves, audited-Leaves, delete_device_row-Leaves, set_address_status-Leaves,
    push_address-Leaves,
  )

  get_class-Leaves : (class : Text) → Leaves c (list_class_addresses sv.store class)
  get_class-Leaves class = h.reads _ _ (list_class_addresses-Reads sv.store class)

  check_move-Leaves :
      (tenant device mac : Text) (moved : Bool) (held : Option DeviceAddress)
      → Leaves c (check_move sv tenant device mac moved held)
  check_move-Leaves tenant device mac moved none = search call_rules
  check_move-Leaves tenant device mac false (some held) = search call_rules
  check_move-Leaves tenant device mac true (some held) =
      search (call_rules, get_class-Leaves) depth 12

  push_moved-Leaves :
      (d : Device) (held : DeviceAddress) (answer : Result Error Done)
      → Leaves c (push_moved sv d held answer)
  push_moved-Leaves d held (ok done) = search change_rules
  push_moved-Leaves d held (err e) = search call_rules

  move_address-Leaves :
      (d : Device) (moved : Bool) (held : Option DeviceAddress)
      → Leaves c (move_address sv d moved held)
  move_address-Leaves d moved none = search call_rules
  move_address-Leaves d false (some held) = search call_rules
  move_address-Leaves d true (some held) = search (change_rules, push_moved-Leaves) depth 12

  pub create_device-Leaves :
      (tenant : Text) (r : DeviceRequest) → Leaves c (create_device sv tenant r)
  unfolding create_device
  create_device-Leaves tenant r =
      search (change_rules, check_move-Leaves, move_address-Leaves) depth 30

  pub delete_device-Leaves : (tenant name : Text) → Leaves c (delete_device sv tenant name)
  unfolding delete_device
  delete_device-Leaves tenant name = search change_rules depth 24
