-- ===== src/Devices/Changes.antt =====
-- The operations on devices leave what the store's calls in them leave: one proof for every
-- relation between states.
pub mod Registration
use deevnet_provisioning_api.Prelude.{
  Bool, true, false, Option, none, some, [], Text, Result, Done, ok, err,
}
use deevnet_provisioning_api.Alloc.Address.{pick_address, DeviceAddress, Status, provisioning}
use deevnet_provisioning_api.Site.{AddressRange, address_quota}
use deevnet_provisioning_api.Calls.{Call}
use deevnet_provisioning_api.Calls.Laws.{
  Change, Leaves, bind-Leaves, logged-Leaves, fail_with-Leaves, call_rules,
}
use deevnet_provisioning_api.Registry.{
  AuditEntry, outside, Error, address_conflict, Device, Record, State,
}
use deevnet_provisioning_api.Registry.Parts.{list_records}
use deevnet_provisioning_api.Registry.Addresses.{
  create_address, as_error, get_device_address, list_class_addresses, get_device,
  set_address_status, delete_address, put_device, delete_device_row,
}
use deevnet_provisioning_api.Devices.Stored.{
  if_there-Reads, get_workload-Reads, list_records-Reads, get_device_address-Reads,
  list_class_addresses-Reads, get_device-Reads,
}
use deevnet_provisioning_api.Registry.Tenants.{get, audit}
use deevnet_provisioning_api.Registry.Reads.{Reads, outside-Reads, get-Reads}
use deevnet_provisioning_api.Lifecycle.{Service, Reservations}
use deevnet_provisioning_api.Lifecycle.Steps.{audited}
use deevnet_provisioning_api.Lifecycle.Delete.{remove_reservation, remove_reservation_with}
use deevnet_provisioning_api.Lifecycle.Create.{step_error}
use deevnet_provisioning_api.Devices.{if_there}
use deevnet_provisioning_api.Devices.Addresses.{
  ensure_reservation_with, withdraw, after_name, publish, reserved_or, push_address, name_is_free,
  known, ranged, free_or_same, create_device_address, delete_device_address,
}
use deevnet_provisioning_api.Devices.Registration.{
  DeviceRequest, check_move, push_moved, move_address, create_device, delete_device,
}

-- What the calls in the operations leave.
pub record DeviceChange {W : Type 0} (sv : Service W) (c : Change (State W)) : Type 1 where
  pub reads : (A : Type 0) (call : Call Error (State W) A) → Reads call → Leaves c call
  pub audits : (entry : AuditEntry) → Leaves c (audit sv.store entry)
  pub puts : (d : Device) → Leaves c (put_device sv.store d)
  pub drops : (tenant name : Text) → Leaves c (delete_device_row sv.store tenant name)
  pub sets :
      (tenant device : Text) (status : Status)
      → Leaves c (set_address_status sv.store tenant device status)
  pub deletes : (tenant device : Text) → Leaves c (delete_address sv.store tenant device)
  pub creates :
      (tenant device class mac requested : Text) (r : AddressRange)
      → Leaves c (
          create_address sv.store
            (record {
              tenant = tenant;
              device = device;
              trust_class = class;
              address = [];
              status = provisioning;
            })
            (λ held. as_error (pick_address r (address_quota sv.site) tenant mac requested held)))

module _ {W : Type 0} (sv : Service W) (c : Change (State W)) (h : DeviceChange sv c) where
  outside-Leaves : {A : Type 0} (call : Call Error W A) → Leaves c (outside call)
  outside-Leaves call = h.reads _ _ (outside-Reads call)

  pub get-Leaves : (name : Text) → Leaves c (get sv.store name)
  get-Leaves name = h.reads _ _ (get-Reads sv.store name)

  audit-Leaves : (entry : AuditEntry) → Leaves c (audit sv.store entry)
  audit-Leaves entry = h.audits entry

  pub set_address_status-Leaves :
      (tenant device : Text) (status : Status)
      → Leaves c (set_address_status sv.store tenant device status)
  set_address_status-Leaves tenant device status = h.sets tenant device status

  delete_address-Leaves : (tenant device : Text) → Leaves c (delete_address sv.store tenant device)
  delete_address-Leaves tenant device = h.deletes tenant device

  pub put_device-Leaves : (d : Device) → Leaves c (put_device sv.store d)
  put_device-Leaves d = h.puts d

  pub delete_device_row-Leaves :
      (tenant name : Text) → Leaves c (delete_device_row sv.store tenant name)
  delete_device_row-Leaves tenant name = h.drops tenant name

  pub audited-Leaves : (action name : Text) → Leaves c (audited sv action name)
  audited-Leaves action name = search (call_rules, audit-Leaves)

  step_error-Leaves :
      {A : Type 0} (name : Text) (r : Result Error A) → Leaves c (step_error sv name r)
  step_error-Leaves name (ok a) = search call_rules
  step_error-Leaves name (err e) = search call_rules

  ensure_reservation-Leaves :
      (backend : Option (Reservations W)) (a : DeviceAddress)
      → Leaves c (ensure_reservation_with sv backend a)
  ensure_reservation-Leaves none a = search call_rules
  ensure_reservation-Leaves (some backend) a = search (call_rules, outside-Leaves)

  remove_with-Leaves :
      (backend : Option (Reservations W)) (a : DeviceAddress)
      → Leaves c (remove_reservation_with sv backend a)
  remove_with-Leaves none a = search call_rules
  remove_with-Leaves (some backend) a = search (call_rules, outside-Leaves)

  remove_reservation-Leaves : (a : DeviceAddress) → Leaves c (remove_reservation sv a)
  unfolding remove_reservation
  remove_reservation-Leaves a = remove_with-Leaves sv.reservations a

  withdraw-Leaves :
      (a : DeviceAddress) (fresh : Bool) (e : Error) → Leaves c (withdraw sv a fresh e)
  unfolding withdraw
  withdraw-Leaves a true address_conflict =
      bind-Leaves _ _ (logged-Leaves _ (h.deletes a.tenant a.device))
        (λ d. fail_with-Leaves address_conflict)
  withdraw-Leaves a true _ = search call_rules
  withdraw-Leaves a false address_conflict = search call_rules
  withdraw-Leaves a false _ = search call_rules

  after_name-Leaves :
      (a : DeviceAddress) (named : Result Error Done) → Leaves c (after_name sv a named)
  after_name-Leaves a (ok done) = search (call_rules, set_address_status-Leaves)
  after_name-Leaves a (err e) = search call_rules

  publish-Leaves : (a : DeviceAddress) (rec : Result Error Record) → Leaves c (publish sv a rec)
  publish-Leaves a (ok rec) = search (call_rules, outside-Leaves, after_name-Leaves) depth 12
  publish-Leaves a (err e) = search call_rules

  reserved_or-Leaves :
      (a : DeviceAddress) (fresh : Bool) (answer : Result Error Done)
      → Leaves c (reserved_or sv a fresh answer)
  reserved_or-Leaves a fresh (ok done) = search (call_rules, get-Leaves, publish-Leaves)
  reserved_or-Leaves a fresh (err e) = withdraw-Leaves a fresh e

  pub push_address-Leaves : (a : DeviceAddress) (fresh : Bool) → Leaves c (push_address sv a fresh)
  unfolding push_address
  push_address-Leaves a fresh = search (call_rules, ensure_reservation-Leaves, reserved_or-Leaves)

  name_is_free-Reads : (tenant name : Text) → Reads (name_is_free sv tenant name)
  unfolding name_is_free
  name_is_free-Reads tenant name =
      search (call_rules, get_workload-Reads, if_there-Reads, list_records-Reads) depth 12

  known-Reads : (row : Option Device) → Reads (known sv row)
  known-Reads none = search call_rules
  known-Reads (some d) = search call_rules

  ranged-Reads : (r : Option AddressRange) → Reads (ranged sv r)
  ranged-Reads none = search call_rules
  ranged-Reads (some r) = search call_rules

  free_or_same-Reads :
      (tenant device requested : Text) (old : Option DeviceAddress)
      → Reads (free_or_same sv tenant device requested old)
  free_or_same-Reads tenant device requested none = name_is_free-Reads tenant device
  free_or_same-Reads tenant device requested (some old) = search call_rules

  pub get_device-Leaves : (tenant name : Text) → Leaves c (get_device sv.store tenant name)
  get_device-Leaves tenant name = h.reads _ _ (get_device-Reads sv.store tenant name)

  pub get_device_address-Leaves :
      (tenant name : Text) → Leaves c (get_device_address sv.store tenant name)
  get_device_address-Leaves tenant name =
      h.reads _ _ (get_device_address-Reads sv.store tenant name)

  pub if_there-Leaves : {A : Type 0} (r : Result Error A) → Leaves c (if_there {W = W} r)
  if_there-Leaves r = h.reads _ _ (if_there-Reads r)

  known-Leaves : (row : Option Device) → Leaves c (known sv row)
  known-Leaves row = h.reads _ _ (known-Reads row)

  ranged-Leaves : (r : Option AddressRange) → Leaves c (ranged sv r)
  ranged-Leaves r = h.reads _ _ (ranged-Reads r)

  free_or_same-Leaves :
      (tenant device requested : Text) (old : Option DeviceAddress)
      → Leaves c (free_or_same sv tenant device requested old)
  free_or_same-Leaves tenant device requested old =
      h.reads _ _ (free_or_same-Reads tenant device requested old)

  list_records-Leaves : (tenant : Text) → Leaves c (list_records sv.store tenant)
  list_records-Leaves tenant = h.reads _ _ (list_records-Reads sv.store tenant)

  new_row-Leaves :
      (tenant device class mac requested : Text) (r : AddressRange)
      → Leaves c (
          create_address sv.store
            (record {
              tenant = tenant;
              device = device;
              trust_class = class;
              address = [];
              status = provisioning;
            })
            (λ held. as_error (pick_address r (address_quota sv.site) tenant mac requested held)))
  new_row-Leaves tenant device class mac requested r = h.creates tenant device class mac requested r

  pub create_device_address-Leaves :
      (tenant device wanted : Text) → Leaves c (create_device_address sv tenant device wanted)
  unfolding create_device_address
  create_device_address-Leaves tenant device wanted =
      search
        (
          call_rules, get-Leaves, get_device-Leaves, if_there-Leaves, known-Leaves, ranged-Leaves,
          get_device_address-Leaves, free_or_same-Leaves, new_row-Leaves, audited-Leaves,
          push_address-Leaves,
        )
        depth 30

  pub delete_device_address-Leaves :
      (tenant device : Text) → Leaves c (delete_device_address sv tenant device)
  unfolding delete_device_address
  delete_device_address-Leaves tenant device =
      search
        (
          call_rules, get-Leaves, get_device_address-Leaves, list_records-Leaves,
          remove_reservation-Leaves, outside-Leaves, step_error-Leaves, audited-Leaves,
          delete_address-Leaves,
        )
        depth 24
