-- ===== src/Registry/Parts.antt =====
-- The rest of what a tenant's creation and deletion need: its workloads, keys, accounts and
-- addresses, of internal/store/workloads.go, wifikeys.go, brokeraccounts.go and addresses.go.
use deevnet_provisioning_api.Prelude.{
  Bool, ◌&&◌, Option, none, some, List, [], ◌∷◌, map, Text, text_eq, if◌then◌else◌, Done,
}
use deevnet_provisioning_api.Alloc.Address.{DeviceAddress}
use deevnet_provisioning_api.Calls.{Call, give, fail_with, gets, modify, ◌>>=◌, ◌>>◌}
use deevnet_provisioning_api.Registry.{
  Error, not_found, Workload, WifiKey, AdmissionKey, BrokerAccount, Device, AddressRow, ExtraRecord,
  State, Sealer, Store, outside,
}
use deevnet_provisioning_api.Registry.Sealing.{open_one}
use deevnet_provisioning_api.Registry.Tenants.{find_row, found, without}

-- `WHERE tenant = $1`
unfoldable pub of_tenant {ℓ} : {A : Type ℓ} → (A → Text) → Text → List A → List A
of_tenant tenant_of name [] = []
of_tenant tenant_of name (a ∷ rows) =
    let rest = of_tenant tenant_of name rows in
    if text_eq (tenant_of a) name then a ∷ rest else rest

unfoldable pub mac_of : Text → Text → List Device → Text
mac_of tenant device [] = []
mac_of tenant device (d ∷ devices) =
    if text_eq d.tenant tenant && text_eq d.name device then d.mac else mac_of tenant device devices

unfoldable pub find_workload : Text → Text → List Workload → Option Workload
find_workload tenant name [] = none
find_workload tenant name (w ∷ workloads) =
    if text_eq w.tenant tenant && text_eq w.name name
    then some w
    else find_workload tenant name workloads

module _ {W : Type 0} (p : Store W) where
  unfoldable pub list_workloads : Text → Call Error (State W) (List Workload)
  unfolding of_tenant
  list_workloads name = do
    outside p.query
    gets (λ s. of_tenant (λ (x : Workload). x.tenant) name s.registry.workloads)

  abbrev pub open_key : Option (Sealer W) → WifiKey → Call Error (State W) WifiKey
  open_key none k = give k
  open_key (some sealer) k = do
    (psk, bad) ← open_one sealer k.psk
    give (record k { psk = psk; unreadable = bad })

  -- The loop of ListWiFiKeys
  unfoldable pub open_keys : List WifiKey → Call Error (State W) (List WifiKey)
  unfolding open_one
  open_keys [] = give []
  open_keys (k ∷ keys) = do first ← open_key p.sealer k; rest ← open_keys keys; give (first ∷ rest)

  unfoldable pub list_wifi_keys : Text → Call Error (State W) (List WifiKey)
  list_wifi_keys name = do
    outside p.query
    keys ← gets (λ s. of_tenant (λ (x : WifiKey). x.tenant) name s.registry.wifi_keys)
    open_keys keys

  unfoldable pub list_broker_accounts : Text → Call Error (State W) (List BrokerAccount)
  list_broker_accounts name = do
    outside p.query
    gets (λ s. of_tenant (λ (x : BrokerAccount). x.tenant) name s.registry.broker_accounts)

  abbrev pub joined : List Device → AddressRow → DeviceAddress
  joined devices a = record {
    tenant = a.tenant;
    device = a.device;
    trust_class = a.trust_class;
    address = a.address;
    mac = mac_of a.tenant a.device devices;
    status = a.status;
  }

  unfoldable pub list_device_addresses : Text → Call Error (State W) (List DeviceAddress)
  unfolding mac_of
  list_device_addresses name = do
    outside p.query
    gets (λ s.
        map (joined s.registry.devices)
          (of_tenant (λ (x : AddressRow). x.tenant) name s.registry.device_addresses))

  -- sealOne
  abbrev pub seal_one : Option (Sealer W) → Text → Call Error (State W) Text
  seal_one none plain = give plain
  seal_one (some sealer) plain = outside (sealer.seal plain)

  abbrev pub same_key : WifiKey → WifiKey → Bool
  same_key k old = text_eq old.tenant k.tenant && text_eq old.name k.name

  -- `ON CONFLICT (tenant, name) DO UPDATE`, which leaves the trust class
  unfoldable pub upsert_key : WifiKey → List WifiKey → List WifiKey
  upsert_key k [] = k ∷ []
  upsert_key k (old ∷ keys) =
      if same_key k old
      then record old { psk = k.psk; mac = k.mac; status = k.status } ∷ keys
      else old ∷ upsert_key k keys

  unfoldable pub write_key : WifiKey → Call Error (State W) Done
  unfolding upsert_key
  write_key k = modify (λ s. record s {
    registry = record s.registry { wifi_keys = upsert_key k s.registry.wifi_keys };
  })

  -- PutWiFiKey, without the row it hands back
  unfoldable pub put_wifi_key : WifiKey → Call Error (State W) Done
  put_wifi_key k = do
    psk ← seal_one p.sealer k.psk
    outside p.query
    row ← gets (λ s. find_row k.tenant s.registry.tenants)
    r ← found p row
    write_key (record k { psk = psk })

  unfoldable pub find_admission_key : Text → List AdmissionKey → Option AdmissionKey
  find_admission_key name [] = none
  find_admission_key name (k ∷ keys) =
      if text_eq k.tenant name then some k else find_admission_key name keys

  abbrev pub open_admission_key :
      Option (Sealer W) → AdmissionKey → Call Error (State W) AdmissionKey
  open_admission_key none k = give k
  open_admission_key (some sealer) k = do
    (psk, bad) ← open_one sealer k.psk
    give (record k { psk = psk; unreadable = bad })

  abbrev pub found_admission_key : Option AdmissionKey → Call Error (State W) AdmissionKey
  found_admission_key none = fail_with not_found
  found_admission_key (some k) = open_admission_key p.sealer k

  unfoldable pub get_admission_key : Text → Call Error (State W) AdmissionKey
  unfolding find_admission_key open_one
  get_admission_key name = do
    outside p.query
    key ← gets (λ s. find_admission_key name s.registry.admission_keys)
    found_admission_key key

  unfoldable pub drop_admission_key : Text → Call Error (State W) Done
  unfolding without
  drop_admission_key name = modify (λ s. record s {
    registry = record s.registry {
      admission_keys = without (λ (k : AdmissionKey). k.tenant) name s.registry.admission_keys;
    };
  })

  unfoldable pub delete_admission_key : Text → Call Error (State W) Done
  delete_admission_key name = do outside p.query; drop_admission_key name

  abbrev pub found_workload : Option Workload → Call Error (State W) Workload
  found_workload none = fail_with not_found
  found_workload (some w) = give w

  unfoldable pub get_workload : Text → Text → Call Error (State W) Workload
  get_workload tenant name = do
    outside p.query
    workload ← gets (λ s. find_workload tenant name s.registry.workloads)
    found_workload workload

  -- ListRecords, whose order no caller here reads
  unfoldable pub list_records : Text → Call Error (State W) (List ExtraRecord)
  unfolding of_tenant
  list_records name = do
    outside p.query
    gets (λ s. of_tenant (λ (x : ExtraRecord). x.tenant) name s.registry.records)
