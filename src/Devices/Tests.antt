-- ===== src/Devices/Tests.antt =====
-- The device operations at a concrete registry: a device without an address, in the class that
-- another tenant's device holds one of.
use deevnet_provisioning_api.Prelude.{
  IsUnique, ℕ, ◌≡◌, ◌≢◌, refl, text_eq, none, some, [], ◌∷◌, codes,
}
use deevnet_provisioning_api.Alloc.Address.{ready}
use deevnet_provisioning_api.Calls.{
  returns, raises, state_of, give, fail_with, gets, modify, refuse_when, ◌>>=◌, logged, attempt,
}
use deevnet_provisioning_api.Registry.{State, invalid, address_held, not_found, outside}
use deevnet_provisioning_api.Registry.Keys.{keys}
use deevnet_provisioning_api.Registry.Sample.{registry}
use deevnet_provisioning_api.Lifecycle.{Service}
use deevnet_provisioning_api.Lifecycle.Sample.{accepts, service, row}
use deevnet_provisioning_api.Names.{is_digit}
use deevnet_provisioning_api.Devices.{parse_addr, read_fields, read_byte, add_digit}
use deevnet_provisioning_api.Devices.Addresses.{create_device_address, delete_device_address}
use deevnet_provisioning_api.Devices.Registration.{DeviceRequest, create_device, delete_device}
use deevnet_provisioning_api.Devices.Held.{delete_device-find_address}
use deevnet_provisioning_api.Registry.Tenants.{audit, write_audit}
use deevnet_provisioning_api.Registry.Parts.{mac_of}
use deevnet_provisioning_api.Registry.Addresses.{
  find_device, find_address, get_device, get_device_address, delete_device_row, drop_device,
  without_device, without_address,
}
use deevnet_provisioning_api.Devices.Reserved.{devices-IsUnique}

abbrev reserving : Service ℕ
reserving = record service {
  reservations =
      some (record { ensure_reservation = λ a. accepts; remove_reservation = λ text. accepts });
}

abbrev request : DeviceRequest
request = record { name = codes "lamp"; trust_class = codes "iot"; mac = codes "AA-BB-CC-DD-EE-01" }

abbrev begin : State ℕ
begin = record {
  registry = record registry { tenants = record row { status = ready } ∷ [] };
  world = 0;
}

read_address : parse_addr (codes "10.20.40.100") ≡ some 169093220
unfolding parse_addr read_fields read_byte add_digit is_digit
read_address = refl

leading_zero : parse_addr (codes "10.20.040.1") ≡ none
unfolding parse_addr read_fields read_byte add_digit is_digit
leading_zero = refl

short_address : parse_addr (codes "10.20.40") ≡ none
unfolding parse_addr read_fields read_byte add_digit is_digit
short_address = refl

field_too_large : parse_addr (codes "10.20.256.1") ≡ none
unfolding parse_addr read_fields read_byte add_digit is_digit
field_too_large = refl

devices-IsUnique_example :
    IsUnique (
      keys
        (state_of (create_device reserving (codes "eds") request begin)).registry.device_addresses)
    × IsUnique (
        keys
          (state_of
            (delete_device reserving (codes "eds") (codes "lamp") begin)).registry.device_addresses)
    × IsUnique (
        keys
          (state_of (
            create_device_address reserving
              (codes "eds")
              (codes "lamp")
              []
              begin)).registry.device_addresses)
    × IsUnique (
        keys
          (state_of (
            delete_device_address reserving
              (codes "eds")
              (codes "lamp")
              begin)).registry.device_addresses)
devices-IsUnique_example =
    devices-IsUnique reserving (codes "eds") (codes "lamp") [] request begin ((λ m. elim m [ ]), tt)

abbrev without_lamp : State ℕ
without_lamp = state_of (delete_device reserving (codes "eds") (codes "lamp") begin)

lamp_removed : delete_device reserving (codes "eds") (codes "lamp") begin ≡ returns tt without_lamp
unfolding delete_device give fail_with gets modify refuse_when ◌>>=◌ logged attempt outside audit
    write_audit find_device find_address get_device get_device_address delete_device_row drop_device
    without_device without_address text_eq
lamp_removed = refl

-- The fan's owner has to give its address back first.
fan_kept :
    delete_device reserving (codes "web") (codes "fan") begin
    ≡ raises (invalid address_held) (record begin { world = 2 })
unfolding delete_device give fail_with gets modify refuse_when ◌>>=◌ logged attempt outside audit
    write_audit find_device find_address get_device get_device_address delete_device_row drop_device
    without_device without_address text_eq mac_of
fan_kept = refl

delete_device-find_address_example :
    find_address (codes "eds") (codes "lamp") begin.registry.device_addresses ≡ none
delete_device-find_address_example =
    delete_device-find_address reserving (codes "eds") (codes "lamp") begin without_lamp
      (λ w u e. accepts_lem w u e) lamp_removed
  where
    accepts_lem : (w u : ℕ) → accepts w ≢ raises not_found u
    accepts_lem w u e = cc
