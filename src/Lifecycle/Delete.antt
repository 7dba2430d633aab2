-- ===== src/Lifecycle/Delete.antt =====
-- Delete of internal/tenant/service.go and what its steps call.
use deevnet_provisioning_api.Prelude.{
  Bool, true, false, not, ◌&&◌, ◌||◌, Option, none, some, List, [], ◌∷◌, ◌++◌, is_empty, Text,
  text_eq, codes, Result, Done, ok, err,
}
use deevnet_provisioning_api.Alloc.Address.{DeviceAddress, deleting}
use deevnet_provisioning_api.Alloc.Index.{Claim}
use deevnet_provisioning_api.Site.{TrustClass, network, trust_class}
use deevnet_provisioning_api.Calls.{
  Call, give, fail_with, refuse_when, ◌>>=◌, ◌>>◌, for_each, logged, attempt,
}
use deevnet_provisioning_api.Registry.{
  Error, fabric_in_use, has_workloads, step, Record, WifiKey, BrokerAccount, State, outside,
}
use deevnet_provisioning_api.Registry.Tenants.{set_status, record_step, delete_tenant}
use deevnet_provisioning_api.Registry.Parts.{
  list_workloads, list_wifi_keys, list_broker_accounts, list_device_addresses,
}
use deevnet_provisioning_api.Lifecycle.{Service, Network, Wireless, BrokerWriter, Reservations}
use deevnet_provisioning_api.Lifecycle.Steps.{
  Run, audited, dns_tenant, zones, reservation_description, for_backend,
}
use deevnet_provisioning_api.Lifecycle.Create.{step_error, get_tenant}

abbrev pub is_none {ℓ} : {A : Type ℓ} → Option A → Bool
is_none none = true
is_none (some a) = false

-- A zone by the tenant's name is on the fabric.
unfoldable pub carries_zone : Text → List Claim → Bool
carries_zone name [] = false
carries_zone name (c ∷ claims) = text_eq c.zone name || carries_zone name claims

module _ {W : Type 0} (sv : Service W) where
  abbrev pub remove_account_with : Option (BrokerWriter W) → Text → Text → Call Error (State W) Done
  remove_account_with none tenant name = give tt
  remove_account_with (some writer) tenant name = outside (writer.remove_account tenant name)

  abbrev pub remove_key_with :
      Option (Wireless W) → Option TrustClass → WifiKey → Call Error (State W) Done
  remove_key_with none tc k = give tt
  remove_key_with (some wireless) none k = give tt
  remove_key_with (some wireless) (some tc) k =
      outside (wireless.remove_key tc.ssid (k.tenant ++ b'-' ∷ k.name))

  -- removeKeyFromController
  unfoldable pub remove_key_from_controller : WifiKey → Call Error (State W) Done
  remove_key_from_controller k = remove_key_with sv.wireless (trust_class sv.site k.trust_class) k

  abbrev pub remove_reservation_with :
      Option (Reservations W) → DeviceAddress → Call Error (State W) Done
  remove_reservation_with none a = give tt
  remove_reservation_with (some backend) a =
      outside (backend.remove_reservation (reservation_description sv a.tenant a.device))

  unfoldable pub remove_reservation : DeviceAddress → Call Error (State W) Done
  remove_reservation = remove_reservation_with sv.reservations

  abbrev pub remove_network_with : Option (Network W) → Record → Call Error (State W) Done
  remove_network_with none rec = give tt
  remove_network_with (some n) rec = outside (n.remove_network (network sv.site rec.name rec.index))

  unfoldable pub remove_network : Record → Call Error (State W) Done
  remove_network = remove_network_with sv.network

  unfoldable pub delete_steps :
      Record → List BrokerAccount → List WifiKey → List DeviceAddress → List (Run sv)
  delete_steps rec accounts keys addresses =
      for_backend sv sv.dashboards (λ b. (codes "dashboards", outside (b.remove_org rec.name)))
      ++ (for_backend sv sv.log_writer
            (λ b. (codes "log-store", outside (b.remove_users rec.name rec.index)))
          ++ ((
            codes "broker-account",
            for_each accounts (λ a. remove_account_with sv.broker_writer rec.name a.name),
          )
              ∷ (codes "wifi-key", for_each keys remove_key_from_controller)
              ∷ (codes "device-address", for_each addresses remove_reservation)
              ∷ (codes "network", remove_network rec)
              ∷ (codes "resolver", outside (sv.resolver.remove_forwards (zones sv rec)))
              ∷ (codes "dns", outside (sv.dns.remove_zones (dns_tenant sv rec)))
              ∷ (codes "state", outside (sv.state_store.remove_state rec.name))
              ∷ []))

  abbrev pub after_removal :
      Text → Text → Result Error Done → Call Error (State W) Done → Call Error (State W) Done
  after_removal name at (ok done) rest = rest
  after_removal name at (err e) rest = do
    logged (record_step sv.store name at (some e))
    fail_with (step at e)

  unfoldable pub run_removal : Text → List (Run sv) → Call Error (State W) Done
  run_removal name [] = delete_tenant sv.store name
  run_removal name ((at, run) ∷ steps) = do
    answer ← attempt run
    after_removal name at answer (run_removal name steps)

  unfoldable pub delete : Text → Call Error (State W) Done
  delete name = do
    rec ← get_tenant sv name
    workloads ← list_workloads sv.store name
    refuse_when (not (is_empty workloads)) has_workloads
    read ← attempt (outside sv.claims)
    claims ← step_error sv (codes "fabric") read
    refuse_when (carries_zone name claims && is_none sv.network) fabric_in_use
    set_status sv.store name deleting
    audited sv (codes "delete") name
    keys ← list_wifi_keys sv.store name
    accounts ← list_broker_accounts sv.store name
    addresses ← list_device_addresses sv.store name
    run_removal name (delete_steps rec accounts keys addresses)
