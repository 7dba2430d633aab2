-- ===== src/Devices/Addresses.antt =====
-- CreateDeviceAddress, DeleteDeviceAddress and what they call, of internal/tenant/addresses.go.
use deevnet_provisioning_api.Prelude.{
  ℕ, Bool, true, false, not, ◌&&◌, ◌||◌, Option, none, some, List, [], ◌∷◌, ◌++◌, is_empty, Text,
  text_eq, codes, Result, Done, ok, err, if◌then◌else◌,
}
use deevnet_provisioning_api.Alloc.Address.{
  DeviceAddress, provisioning, ready, addr_text, pick_address,
}
use deevnet_provisioning_api.Site.{
  AddressRange, range_contains, lookup, numbering, zone, address_quota,
}
use deevnet_provisioning_api.Calls.{
  Call, give, fail_with, refuse_when, checked, ◌>>=◌, ◌>>◌, logged, attempt,
}
use deevnet_provisioning_api.Registry.{
  Error, address_conflict, invalid, step, not_ready, no_reservations, device_unknown,
  device_without_mac, no_range, bad_address, holds_other, workload_name, record_name, record_points,
  Device, ExtraRecord, Record, State, outside,
}
use deevnet_provisioning_api.Registry.Tenants.{get}
use deevnet_provisioning_api.Registry.Parts.{get_workload, list_records}
use deevnet_provisioning_api.Registry.Addresses.{
  get_device_address, create_address, set_address_status, delete_address, get_device, as_error,
}
use deevnet_provisioning_api.Lifecycle.{Service, Reservation, Reservations, DnsRecord}
use deevnet_provisioning_api.Lifecycle.Steps.{audited, reservation, reservation_description}
use deevnet_provisioning_api.Lifecycle.Delete.{remove_reservation, is_none}
use deevnet_provisioning_api.Lifecycle.Create.{step_error}
use deevnet_provisioning_api.Devices.{parse_addr, is_ready, if_there}

-- IssuedAddress
pub record IssuedAddress : Type 0 where
  pub held : DeviceAddress
  pub fqdn : Text

-- The address asked for, as netip.Addr.String spells it.
abbrev pub in_range : AddressRange → Option ℕ → Result Error Text
in_range r none = err (invalid bad_address)
in_range r (some addr) =
    if range_contains r addr then ok (addr_text addr) else err (invalid bad_address)

unfoldable pub requested_address : AddressRange → Text → Result Error Text
requested_address r requested =
    if is_empty requested then ok [] else in_range r (parse_addr requested)

unfoldable pub names_record : Text → List ExtraRecord → Bool
names_record name [] = false
names_record name (r ∷ records) = text_eq r.name name || names_record name records

unfoldable pub points_at : Text → List ExtraRecord → Bool
points_at address [] = false
points_at address (r ∷ records) = text_eq r.address address || points_at address records

abbrev pub holds_another : Text → Option DeviceAddress → Bool
holds_another requested none = false
holds_another requested (some old) = not (is_empty requested) && not (text_eq requested old.address)

-- `existing.Address == ""`, on no address also
abbrev pub is_fresh : Option DeviceAddress → Bool
is_fresh none = true
is_fresh (some old) = is_empty old.address

abbrev pub device_name : DeviceAddress → DnsRecord
device_name a = record { name = a.device; address = a.address; reverse = false }

module _ {W : Type 0} (sv : Service W) where
  -- reservation, which a class without a range gives the text of no prefix
  abbrev pub reservation_in : Option AddressRange → DeviceAddress → Reservation
  reservation_in none a = record {
    subnet = codes "invalid Prefix";
    address = a.address;
    mac = a.mac;
    hostname = a.tenant ++ b'-' ∷ a.device;
    description = reservation_description sv a.tenant a.device;
  }
  reservation_in (some r) a = reservation sv r a

  abbrev pub ensure_reservation_with :
      Option (Reservations W) → DeviceAddress → Call Error (State W) Done
  ensure_reservation_with none a = give tt
  ensure_reservation_with (some backend) a =
      outside (
        backend.ensure_reservation (reservation_in (lookup a.trust_class sv.site.address_ranges) a))

  abbrev pub issued : DeviceAddress → IssuedAddress
  issued a = record { held = a; fqdn = a.device ++ b'.' ∷ zone sv.site a.tenant }

  -- The address as it is handed back, with the error of a step that can be tried again: the code
  -- returns both.
  abbrev pub Answer : Type 0
  Answer = IssuedAddress × Option Error

  -- A conflict on the DHCP server takes the row back that this call made.
  unfoldable pub withdraw : DeviceAddress → Bool → Error → Call Error (State W) Answer
  withdraw a true address_conflict = do
    logged (delete_address sv.store a.tenant a.device)
    fail_with address_conflict
  withdraw a false address_conflict = fail_with address_conflict
  withdraw a fresh e = give (issued a, some (step (codes "device-address") e))

  abbrev pub marked : DeviceAddress → Result Error Done → Answer
  marked a (ok done) = (issued (record a { status = ready }), none)
  marked a (err e) = (issued a, some e)

  abbrev pub after_name : DeviceAddress → Result Error Done → Call Error (State W) Answer
  after_name a (err e) = give (issued a, some (step (codes "dns") e))
  after_name a (ok done) = do
    answer ← attempt (set_address_status sv.store a.tenant a.device ready)
    give (marked a answer)

  -- The name, where the tenant is read
  abbrev pub publish : DeviceAddress → Result Error Record → Call Error (State W) Answer
  publish a (err e) = give (issued a, some e)
  publish a (ok rec) = do
    named ← attempt (
        outside (
          sv.dns.ensure_records (zone sv.site a.tenant) (numbering sv.site rec.index).reverse_zone
            (device_name a ∷ [])))
    after_name a named

  abbrev pub reserved_or : DeviceAddress → Bool → Result Error Done → Call Error (State W) Answer
  reserved_or a fresh (ok done) = do rec ← attempt (get sv.store a.tenant); publish a rec
  reserved_or a fresh (err e) = withdraw a fresh e

  -- pushAddress; the service calls it where there is a backend of reservations
  unfoldable pub push_address : DeviceAddress → Bool → Call Error (State W) Answer
  push_address a fresh = do
    answer ← attempt (ensure_reservation_with sv.reservations a)
    reserved_or a fresh answer

  unfoldable pub name_is_free : Text → Text → Call Error (State W) Done
  name_is_free tenant name = do
    read ← attempt (get_workload sv.store tenant name)
    workload ← if_there read
    refuse_when (not (is_none workload)) (invalid workload_name)
    records ← list_records sv.store tenant
    refuse_when (names_record name records) (invalid record_name)

  abbrev pub known : Option Device → Call Error (State W) Device
  known none = fail_with (invalid device_unknown)
  known (some d) = give d

  abbrev pub ranged : Option AddressRange → Call Error (State W) AddressRange
  ranged none = fail_with (invalid no_range)
  ranged (some r) = give r

  abbrev pub free_or_same : Text → Text → Text → Option DeviceAddress → Call Error (State W) Done
  free_or_same tenant device requested none = name_is_free tenant device
  free_or_same tenant device requested (some old) =
      refuse_when (holds_another requested (some old)) (invalid holds_other)

  unfoldable pub create_device_address : Text → Text → Text → Call Error (State W) Answer
  create_device_address tenant device wanted = do
    refuse_when (is_none sv.reservations) (invalid no_reservations)
    rec ← get sv.store tenant
    refuse_when (not (is_ready rec.status)) (invalid (not_ready rec.status))
    there ← attempt (get_device sv.store tenant device)
    row ← if_there there
    d ← known row
    refuse_when (is_empty d.mac) (invalid device_without_mac)
    r ← ranged (lookup d.trust_class sv.site.address_ranges)
    requested ← checked (requested_address r wanted)
    read ← attempt (get_device_address sv.store tenant device)
    existing ← if_there read
    free_or_same tenant device requested existing
    a ←
        create_address sv.store
          (record {
            tenant = tenant;
            device = device;
            trust_class = d.trust_class;
            address = [];
            status = provisioning;
          })
          (λ held. as_error (pick_address r (address_quota sv.site) tenant d.mac requested held))
    audited sv (codes "device-address-create") tenant
    push_address (record a { mac = d.mac }) (is_fresh existing)

  unfoldable pub delete_device_address : Text → Text → Call Error (State W) Done
  delete_device_address tenant device = do
    rec ← get sv.store tenant
    a ← get_device_address sv.store tenant device
    records ← list_records sv.store tenant
    refuse_when (points_at a.address records) (invalid record_points)
    gone ← attempt (remove_reservation sv a)
    step_error sv (codes "device-address") gone
    unpublished ← attempt (
        outside (
          sv.dns.remove_records (zone sv.site tenant) (numbering sv.site rec.index).reverse_zone
            (device_name a ∷ [])))
    step_error sv (codes "dns") unpublished
    audited sv (codes "device-address-delete") tenant
    delete_address sv.store tenant device
