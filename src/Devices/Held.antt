-- ===== src/Devices/Held.antt =====
-- What a successful DeleteDevice of internal/tenant/devices.go has read.
use deevnet_provisioning_api.Prelude.{
  ◌≡◌, ◌≢◌, refl, sym, ap, not, Option, none, some, List, Text, Result, Done, ◌∙◌, subst,
}
use deevnet_provisioning_api.Alloc.Address.{DeviceAddress}
use deevnet_provisioning_api.Calls.{
  Outcome, returns, raises, state_of, next, give, fail_with, gets, refuse_when, attempt, answered,
  ◌>>=◌,
}
use deevnet_provisioning_api.Calls.Laws.{bind-eq-returns}
use deevnet_provisioning_api.Registry.{
  Error, not_found, invalid, address_held, Device, AddressRow, Registry, State, Store, outside,
  keep,
}
use deevnet_provisioning_api.Registry.Addresses.{
  find_address, found_address, get_device_address, get_device,
}
use deevnet_provisioning_api.Lifecycle.{Service}
use deevnet_provisioning_api.Lifecycle.Delete.{is_none}
use deevnet_provisioning_api.Devices.{if_there}
use deevnet_provisioning_api.Devices.Stored.{get_device-Reads}
use deevnet_provisioning_api.Devices.Registration.{delete_device}

module _ {W : Type 0} (p : Store W) where
  -- The database's own failures are not the answer that a row is missing.
  abbrev pub NeverMissing : Type 0
  NeverMissing = (w u : W) → p.query w ≢ raises not_found u

  raises-error :
      {A : Type 0} {S : Type 0} (e f : Error) (s t : S)
      → ◌≡◌ {A = Outcome Error S A} (raises e s) (raises f t)
      → e ≡ f
  raises-error e f s t h = cc

  found_address-missing :
      (devices : List Device) (row : Option AddressRow) (s u : State W)
      → found_address p devices row s ≡ raises not_found u
      → row ≡ none
  unfolding give
  found_address-missing devices none s u h = refl
  found_address-missing devices (some a) s u h = absurd (cc)

  missing_after :
      (tenant device : Text) (s u : State W) (o : Outcome Error W Done)
      → ((v : W) → o ≢ raises not_found v)
      → next {B = DeviceAddress}
          (λ d. gets (λ (s : State W). s.registry.devices) >>= λ devices.
            gets (λ (s : State W). find_address tenant device s.registry.device_addresses)
            >>= λ row. found_address p devices row)
          (keep s.registry o)
        ≡ raises not_found u
      → find_address tenant device s.registry.device_addresses ≡ none
  unfolding gets ◌>>=◌
  missing_after tenant device s u (returns d w) never h =
      found_address-missing _ (find_address tenant device s.registry.device_addresses) _ u h
  missing_after tenant device s u (raises e w) never h = absurd (
      never w (
        subst (λ (x : Error). ◌≡◌ {A = Outcome Error W Done} (raises e w) (raises x w))
          (raises-error {A = DeviceAddress} e not_found _ u h) refl))

  get_device_address-missing :
      (tenant device : Text) (s u : State W)
      → NeverMissing
      → get_device_address p tenant device s ≡ raises not_found u
      → find_address tenant device s.registry.device_addresses ≡ none
  unfolding get_device_address outside ◌>>=◌
  get_device_address-missing tenant device s u never h =
      missing_after tenant device s u (p.query s.world) (never s.world) h

  -- No device: what the reading of the address answered, once it is taken for none.
  answered-missing :
      (o : Outcome Error (State W) DeviceAddress) (read : Result Error DeviceAddress)
      (s t u : State W)
      → answered o ≡ returns read t
      → if_there read t ≡ returns none u
      → (v : State W) × (o ≡ raises not_found v)
  unfolding give fail_with
  answered-missing (returns a v) read s t u h k = absurd (cc)
  answered-missing (raises not_found v) read s t u h k = (v, refl)
  answered-missing (raises e v) read s t u h k = absurd (cc)

module _ {W : Type 0} (sv : Service W) where
  none_held :
      (held : Option DeviceAddress) (s t : State W)
      → refuse_when {E = Error} (not (is_none held)) (invalid address_held) s ≡ returns tt t
      → held ≡ none
  unfolding refuse_when
  none_held none s t h = refl
  none_held (some a) s t h = absurd (cc)

  -- Unless the database answers a failure of its own with the error for a missing row, a removal of
  -- a device that succeeds found no row for the device in the table of addresses.
  pub delete_device-find_address :
      (tenant name : Text) (s t : State W)
      → NeverMissing sv.store
      → delete_device sv tenant name s ≡ returns tt t
      → find_address tenant name s.registry.device_addresses ≡ none
  unfolding delete_device attempt
  delete_device-find_address tenant name s t never h =
      let (d, s1, got, rest) = bind-eq-returns (get_device sv.store tenant name) _ s tt t h in
      let (read, s2, looked, rest2) =
        bind-eq-returns (attempt (get_device_address sv.store tenant name)) _ s1 tt t rest in
      let (held, s3, there, rest3) = bind-eq-returns (if_there read) _ s2 tt t rest2 in
      let (done, s4, passed, rest4) =
        bind-eq-returns (refuse_when (not (is_none held)) (invalid address_held)) _ s3 tt t rest3 in
      let empty : held ≡ none = none_held held s3 s4 passed in
      let (v, missing) =
        answered-missing sv.store (get_device_address sv.store tenant name s1) read s1 s2 s3 looked
          (there ∙ ap (λ (x : Option DeviceAddress). returns x s3) empty) in
      let same : s1.registry ≡ s.registry =
        ap (λ (o : Outcome Error (State W) Device). (state_of o).registry) (sym got)
        ∙ (get_device-Reads sv.store tenant name).after s in
      subst (λ (r : Registry). find_address tenant name r.device_addresses ≡ none) same
        (get_device_address-missing sv.store tenant name s1 v never missing)
