-- ===== src/Registry/WifiKeys.antt =====
-- The tables of Wi-Fi keys and of admission keys, but for what Registry.Parts has of them:
-- internal/store/wifikeys.go.
use deevnet_provisioning_api.Prelude.{
  Bool, ◌&&◌, Option, none, some, List, [], ◌∷◌, map, drop_where, Text, text_eq, Done,
  if◌then◌else◌,
}
use deevnet_provisioning_api.Alloc.Address.{Status}
use deevnet_provisioning_api.Calls.{Call, give, fail_with, gets, modify, ◌>>=◌, ◌>>◌}
use deevnet_provisioning_api.Registry.{
  Error, not_found, WifiKey, AdmissionKey, State, Store, outside,
}
use deevnet_provisioning_api.Registry.Parts.{open_key, seal_one, put_wifi_key}

abbrev pub is_key : Text → Text → WifiKey → Bool
is_key tenant name k = text_eq k.tenant tenant && text_eq k.name name

unfoldable pub find_key : Text → Text → List WifiKey → Option WifiKey
find_key tenant name [] = none
find_key tenant name (k ∷ keys) = if is_key tenant name k then some k else find_key tenant name keys

abbrev pub on_key : Text → Text → (WifiKey → WifiKey) → WifiKey → WifiKey
on_key tenant name f k = if is_key tenant name k then f k else k

unfoldable pub upsert_admission_key : AdmissionKey → List AdmissionKey → List AdmissionKey
upsert_admission_key k [] = k ∷ []
upsert_admission_key k (old ∷ keys) =
    if text_eq old.tenant k.tenant then k ∷ keys else old ∷ upsert_admission_key k keys

module _ {W : Type 0} (p : Store W) where
  unfoldable pub change_keys : (List WifiKey → List WifiKey) → Call Error (State W) Done
  change_keys f =
      modify (λ s. record s { registry = record s.registry { wifi_keys = f s.registry.wifi_keys } })

  abbrev pub found_key : Option WifiKey → Call Error (State W) WifiKey
  found_key none = fail_with not_found
  found_key (some k) = open_key p p.sealer k

  unfoldable pub get_wifi_key : Text → Text → Call Error (State W) WifiKey
  get_wifi_key tenant name = do
    outside p.query
    row ← gets (λ s. find_key tenant name s.registry.wifi_keys)
    found_key row

  abbrev pub stored_key : WifiKey → Option WifiKey → Call Error (State W) WifiKey
  stored_key k none = fail_with not_found
  stored_key k (some row) = give (record row { psk = k.psk })

  -- PutWiFiKey, with the row it hands back: the text of the key is the caller's, not the sealed
  -- one.
  unfoldable pub put_wifi_key_row : WifiKey → Call Error (State W) WifiKey
  put_wifi_key_row k = do
    put_wifi_key p k
    row ← gets (λ s. find_key k.tenant k.name s.registry.wifi_keys)
    stored_key k row

  abbrev pub key_there : Option WifiKey → Call Error (State W) Done
  key_there none = fail_with not_found
  key_there (some k) = give tt

  unfoldable pub set_wifi_key_status : Text → Text → Status → Call Error (State W) Done
  set_wifi_key_status tenant name status = do
    outside p.query
    row ← gets (λ s. find_key tenant name s.registry.wifi_keys)
    key_there row
    change_keys (map (on_key tenant name (λ k. record k { status = status })))

  unfoldable pub delete_wifi_key_row : Text → Text → Call Error (State W) Done
  delete_wifi_key_row tenant name = do
    outside p.query
    change_keys (drop_where (is_key tenant name))

  unfoldable pub write_admission_key : AdmissionKey → Call Error (State W) Done
  write_admission_key k = modify (λ s. record s {
    registry = record s.registry {
      admission_keys = upsert_admission_key k s.registry.admission_keys;
    };
  })

  unfoldable pub put_admission_key : AdmissionKey → Call Error (State W) Done
  put_admission_key k = do
    psk ← seal_one p p.sealer k.psk
    outside p.query
    write_admission_key (record k { psk = psk })
