-- ===== src/Devices/Registration.antt =====
-- CreateDevice and DeleteDevice of internal/tenant/devices.go.
use deevnet_provisioning_api.Prelude.{
  Bool, true, false, not, ◌&&◌, ◌||◌, Option, none, some, List, [], ◌∷◌, is_empty, Text, text_eq,
  codes, Result, Done, ok, err, if◌then◌else◌,
}
use deevnet_provisioning_api.Names.{valid_workload_name}
use deevnet_provisioning_api.Mac.{normalize_mac}
use deevnet_provisioning_api.Alloc.Address.{DeviceAddress, provisioning, ready}
use deevnet_provisioning_api.Site.{trust_class}
use deevnet_provisioning_api.Calls.{Call, give, refuse_when, checked, ◌>>=◌, ◌>>◌, attempt}
use deevnet_provisioning_api.Registry.{
  Error, address_conflict, invalid, not_ready, no_reservations, bad_device_name, bad_trust_class,
  bad_mac, class_changed, address_held, Device, State,
}
use deevnet_provisioning_api.Registry.Tenants.{get}
use deevnet_provisioning_api.Registry.Addresses.{
  get_device_address, list_class_addresses, set_address_status, get_device, put_device,
  delete_device_row,
}
use deevnet_provisioning_api.Lifecycle.{Service}
use deevnet_provisioning_api.Lifecycle.Steps.{audited}
use deevnet_provisioning_api.Lifecycle.Delete.{is_none}
use deevnet_provisioning_api.Devices.{is_ready, if_there}
use deevnet_provisioning_api.Devices.Addresses.{Answer, push_address}

pub record DeviceRequest : Type 0 where
  pub name : Text
  pub trust_class : Text
  pub mac : Text

abbrev pub mac_or_refused : Option Text → Result Error Text
mac_or_refused none = err (invalid bad_mac)
mac_or_refused (some mac) = ok mac

abbrev pub changes_class : Text → Option Device → Bool
changes_class class none = false
changes_class class (some old) = not (text_eq old.trust_class class)

abbrev pub mac_before : Option Device → Text
mac_before none = []
mac_before (some old) = old.mac

unfoldable pub other_holds : Text → Text → Text → List DeviceAddress → Bool
other_holds tenant device mac [] = false
other_holds tenant device mac (o ∷ others) =
    (text_eq o.mac mac && (not (text_eq o.tenant tenant) || not (text_eq o.device device)))
    || other_holds tenant device mac others

module _ {W : Type 0} (sv : Service W) where
  abbrev pub check_move :
      Text → Text → Text → Bool → Option DeviceAddress → Call Error (State W) Done
  check_move tenant device mac moved none = give tt
  check_move tenant device mac false (some held) = give tt
  check_move tenant device mac true (some held) = do
    refuse_when (is_empty mac) (invalid address_held)
    refuse_when (is_none sv.reservations) (invalid no_reservations)
    others ← list_class_addresses sv.store held.trust_class
    refuse_when (other_holds tenant device mac others) address_conflict

  -- The error of a write, or the one that comes with an address
  abbrev pub error_of : Result Error (Answer sv) → Option Error
  error_of (err e) = some e
  error_of (ok (a, e)) = e

  abbrev pub push_moved :
      Device → DeviceAddress → Result Error Done → Call Error (State W) (Option Error)
  push_moved d held (err e) = give (some e)
  push_moved d held (ok done) = do
    pushed ← attempt (push_address sv (record held { mac = d.mac }) false)
    give (error_of pushed)

  abbrev pub move_address :
      Device → Bool → Option DeviceAddress → Call Error (State W) (Option Error)
  move_address d moved none = give none
  move_address d false (some held) = give none
  move_address d true (some held) = do
    answer ← attempt (set_address_status sv.store d.tenant d.name provisioning)
    push_moved d held answer

  -- CreateDevice: the device, with the error of a step after its row was written
  unfoldable pub create_device : Text → DeviceRequest → Call Error (State W) (Device × Option Error)
  create_device tenant r = do
    rec ← get sv.store tenant
    refuse_when (not (is_ready rec.status)) (invalid (not_ready rec.status))
    refuse_when (not (valid_workload_name r.name)) (invalid bad_device_name)
    refuse_when (is_none (trust_class sv.site r.trust_class)) (invalid bad_trust_class)
    mac ← checked (if is_empty r.mac then ok [] else mac_or_refused (normalize_mac r.mac))
    there ← attempt (get_device sv.store tenant r.name)
    existing ← if_there there
    refuse_when (changes_class r.trust_class existing) (invalid class_changed)
    read ← attempt (get_device_address sv.store tenant r.name)
    held ← if_there read
    let moved : Bool = not (text_eq (mac_before existing) mac)
    check_move tenant r.name mac moved held
    d ← put_device sv.store (record {
      tenant = tenant;
      name = r.name;
      trust_class = r.trust_class;
      mac = mac;
      status = ready;
    })
    audited sv (codes "device-create") tenant
    pushed ← move_address d moved held
    give (d, pushed)

  unfoldable pub delete_device : Text → Text → Call Error (State W) Done
  delete_device tenant name = do
    d ← get_device sv.store tenant name
    read ← attempt (get_device_address sv.store tenant name)
    held ← if_there read
    refuse_when (not (is_none held)) (invalid address_held)
    audited sv (codes "device-delete") tenant
    delete_device_row sv.store tenant name
