-- ===== src/Registry/Unique.antt =====
-- No address is given out twice in a trust class: what the store's calls leave of the table of
-- addresses.
use deevnet_provisioning_api.Prelude.{
  IsUnique, snoc-IsUnique, ℕ, ◌≡◌, ◌≢◌, refl, sym, subst, Option, none, some, List, map, Text,
  Result, ok, err,
}
use mathlib.Core.List.{Memᴰ}
use deevnet_provisioning_api.Alloc.Address.{DeviceAddress, Status, PickFault, pick_address}
use deevnet_provisioning_api.Alloc.Address.Choice.{pick_address-IsPicked}
use deevnet_provisioning_api.Alloc.Address
use deevnet_provisioning_api.Site.{AddressRange}
use deevnet_provisioning_api.Calls.{
  Outcome, returns, raises, Call, state_of, gets, modify, refuse_when, checked, next, ◌>>=◌, ◌>>◌,
}
use deevnet_provisioning_api.Calls.Laws.{Change, Leaves, bind-Leaves, call_rules}
use deevnet_provisioning_api.Registry.{
  Error, not_found, Device, AddressRow, State, Store, outside, keep,
}
use deevnet_provisioning_api.Registry.Parts.{joined}
use deevnet_provisioning_api.Registry.Addresses.{
  of_class, without_address, change_addresses, found_address, get_device_address, find_device,
  no_device, insert_address, write_address_status, place, create_address, address_there,
  set_address_status, delete_address, as_error,
}
use deevnet_provisioning_api.Registry.Keys.{
  keys, keys-append, keys-with_status, without_address-IsUnique, shown,
}

-- The addresses given out stay each given out once in its trust class.
abbrev pub unique_addresses : {W : Type 0} → Change (State W)
unique_addresses = record {
  relates = λ s t.
      IsUnique (keys s.registry.device_addresses) → IsUnique (keys t.registry.device_addresses);
  reflexive = λ s u. u;
  transitive = λ s t v f g u. g (f u);
}

module _ {W : Type 0} (p : Store W) where
  keep_lem :
      {A : Type 0} (s : State W) (o : Outcome Error W A)
      → unique_addresses.relates s (state_of (keep s.registry o))
  keep_lem s (returns a w) u = u
  keep_lem s (raises e w) u = u

  outside_unique : {A : Type 0} (call : Call Error W A) → Leaves unique_addresses (outside call)
  unfolding outside
  outside_unique call = record { after = λ s. keep_lem s (call s.world) }

  found_address_unique :
      (devices : List Device) (row : Option AddressRow)
      → Leaves unique_addresses (found_address p devices row)
  found_address_unique devices none = search call_rules
  found_address_unique devices (some a) = search call_rules

  get_device_address_unique :
      (tenant device : Text) → Leaves unique_addresses (get_device_address p tenant device)
  unfolding get_device_address
  get_device_address_unique tenant device =
      search (call_rules, outside_unique, found_address_unique) depth 12

  write_address_status_unique :
      (tenant device : Text) (status : Status)
      → Leaves unique_addresses (write_address_status p tenant device status)
  unfolding write_address_status modify
  write_address_status_unique tenant device status = record {
    after = λ s u.
        subst IsUnique (sym (keys-with_status tenant device status s.registry.device_addresses)) u;
  }

  -- A choice of an address that none of those it is shown has.
  abbrev pub IsFresh : (List DeviceAddress → Result Error Text) → Type 0
  IsFresh pick =
      (held : List DeviceAddress) (address : Text)
      → pick held ≡ ok address
      → (h : DeviceAddress) → Memᴰ h held
      → h.address ≢ address

  placed :
      (s : State W) (a : AddressRow) (choice : Result Error Text) (device : State W → Option Device)
      → ((address : Text)
          → choice ≡ ok address
          → ¬ (Memᴰ (a.trust_class, address) (keys s.registry.device_addresses)))
      → unique_addresses.relates s (
          state_of (
            (do
              address ← checked choice
              d ← gets device
              refuse_when (no_device p d) not_found
              insert_address p (record a { address = address }))
              s))
  unfolding checked gets refuse_when ◌>>=◌ insert_address modify
  placed s a (err e) device h u = u
  placed s a (ok address) device h u =
      elim (device s)
        as (λ d. IsUnique (
          keys
            (state_of (
              next (λ _. insert_address p (record a { address = address }))
                (refuse_when (no_device p d) not_found s))).registry.device_addresses)) [
                  | none ↦ u
                  | some d ↦
                      subst IsUnique
                        (sym (
                          keys-append s.registry.device_addresses (record a { address = address })))
                        (snoc-IsUnique (keys s.registry.device_addresses) (a.trust_class, address) u
                          (h address refl))
                ]

  place_unique :
      (a : AddressRow) (pick : List DeviceAddress → Result Error Text) (row : Option AddressRow)
      → IsFresh pick
      → Leaves unique_addresses (place p a pick row)
  unfolding checked gets refuse_when ◌>>=◌
  place_unique a pick (some row) fresh = write_address_status_unique a.tenant a.device a.status
  place_unique a pick none fresh = record {
    after = λ s.
        placed s a
          (pick (
            map (joined p s.registry.devices) (of_class a.trust_class s.registry.device_addresses)))
          (λ t. find_device a.tenant a.device t.registry.devices)
          (λ address chosen m.
            let (h, among, same) =
              shown p s.registry.devices a.trust_class address s.registry.device_addresses m in
            fresh _ address chosen h among same);
  }

  create_address_unique :
      (a : AddressRow) (pick : List DeviceAddress → Result Error Text)
      → IsFresh pick
      → Leaves unique_addresses (create_address p a pick)
  unfolding create_address
  create_address_unique a pick fresh = bind-Leaves _ _ (outside_unique p.query) (λ d.
      bind-Leaves _ _ (search call_rules) (λ row.
        bind-Leaves _ _ (place_unique a pick row fresh)
          (λ d2. get_device_address_unique a.tenant a.device)))

  address_there_unique : (row : Option AddressRow) → Leaves unique_addresses (address_there p row)
  address_there_unique none = search call_rules
  address_there_unique (some a) = search call_rules

  pub set_address_status_unique :
      (tenant device : Text) (status : Status)
      → Leaves unique_addresses (set_address_status p tenant device status)
  unfolding set_address_status
  set_address_status_unique tenant device status =
      search (call_rules, outside_unique, address_there_unique, write_address_status_unique) depth
        12

  drop_address_unique :
      (tenant device : Text)
      → Leaves unique_addresses (change_addresses p (without_address tenant device))
  unfolding modify
  drop_address_unique tenant device = record {
    after = λ s. without_address-IsUnique tenant device s.registry.device_addresses;
  }

  pub delete_address_unique :
      (tenant device : Text) → Leaves unique_addresses (delete_address p tenant device)
  unfolding delete_address
  delete_address_unique tenant device =
      bind-Leaves _ _ (outside_unique p.query) (λ d. drop_address_unique tenant device)

  as_error-ok :
      (x : Result PickFault Text) (address : Text) → as_error x ≡ ok address → x ≡ ok address
  as_error-ok (ok a) address h = cc
  as_error-ok (err Address.address_conflict) address h = absurd (cc)
  as_error-ok (err Address.address_quota) address h = absurd (cc)
  as_error-ok (err Address.addresses_exhausted) address h = absurd (cc)

  pick-IsFresh :
      (r : AddressRange) (quota : ℕ) (tenant mac requested : Text)
      → IsFresh (λ held. as_error (pick_address r quota tenant mac requested held))
  pick-IsFresh r quota tenant mac requested held address chosen =
      (pick_address-IsPicked r quota tenant mac held requested address (
        as_error-ok (pick_address r quota tenant mac requested held) address chosen)).address_unused

  pub create_picked_unique :
      (a : AddressRow) (r : AddressRange) (quota : ℕ) (mac requested : Text)
      → Leaves unique_addresses
          (create_address p a (λ held. as_error (pick_address r quota a.tenant mac requested held)))
  create_picked_unique a r quota mac requested =
      create_address_unique a _ (pick-IsFresh r quota a.tenant mac requested)
