-- ===== src/Registry/Tests.antt =====
-- The store at a concrete registry: one device, and an address that another device holds.
use deevnet_provisioning_api.Prelude.{ℕ, ◌≡◌, refl, none, [], ◌∷◌, codes, text_eq, decimal}
use deevnet_provisioning_api.Alloc.Address.{
  provisioning, pick_address, addr_text, is_taken, count_mine, first_free, lowest_free, address_of,
  pick_below_quota,
}
use deevnet_provisioning_api.Site.{range_contains}
use deevnet_provisioning_api.Site.Sample.{lab, iot_range}
use deevnet_provisioning_api.Calls.{
  returns, state_of, give, fail_with, gets, modify, refuse_when, checked, ◌>>=◌,
}
use deevnet_provisioning_api.Registry.{AddressRow, State, Store, outside}
use deevnet_provisioning_api.Registry.Parts.{mac_of}
use deevnet_provisioning_api.Registry.Addresses.{
  find_device, find_address, of_class, create_address, get_device_address, insert_address, as_error,
}
use deevnet_provisioning_api.Registry.Sample.{lamp, registry}
use deevnet_provisioning_api.Registry.Keys.{keys}

abbrev store : Store ℕ
store = record { site = lab; query = λ w. returns tt w; sealer = none }

abbrev lamp_address : AddressRow
lamp_address = record {
  tenant = codes "eds";
  device = codes "lamp";
  trust_class = codes "iot";
  address = [];
  status = provisioning;
}

abbrev start : State ℕ
start = record { registry = registry; world = 0 }

-- The lamp is given the next address of the range.
lamp_placed :
    keys
      (state_of (
        create_address store lamp_address
          (λ held. as_error (pick_address iot_range 16 (codes "eds") lamp.mac [] held))
          start)).registry.device_addresses
    ≡ (codes "iot", codes "10.20.40.100") ∷ (codes "iot", codes "10.20.40.101") ∷ []
unfolding create_address give fail_with gets modify refuse_when checked ◌>>=◌ outside find_device
    find_address of_class mac_of insert_address get_device_address text_eq decimal pick_address
    addr_text is_taken count_mine first_free lowest_free address_of pick_below_quota range_contains
lamp_placed = refl
