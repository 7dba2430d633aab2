-- ===== src/Wireless/Issue.antt =====
-- CreateWiFiKey and DeleteWiFiKey of internal/tenant/wifikeys.go.
use deevnet_provisioning_api.Prelude.{
  ℕ, Bool, false, not, ◌&&◌, Option, none, some, List, [], ◌∷◌, ◌++◌, is_empty, map, Text, text_eq,
  codes, Result, Done, ok, err, if◌then◌else◌,
}
use deevnet_provisioning_api.Names.{valid_workload_name}
use deevnet_provisioning_api.Mac.{normalize_mac, controller_mac}
use deevnet_provisioning_api.Alloc.Address.{provisioning, ready}
use deevnet_provisioning_api.Site.{TrustClass, trust_class}
use deevnet_provisioning_api.Calls.{
  Call, give, fail_with, refuse_when, checked, ◌>>=◌, ◌>>◌, attempt,
}
use deevnet_provisioning_api.Registry.{
  Error, step, invalid, not_ready, no_keys, bad_key_name, bad_trust_class, bad_psk,
  key_class_changed, WifiKey, State, outside,
}
use deevnet_provisioning_api.Registry.Tenants.{get}
use deevnet_provisioning_api.Registry.Parts.{list_wifi_keys}
use deevnet_provisioning_api.Registry.WifiKeys.{
  get_wifi_key, put_wifi_key_row, set_wifi_key_status, delete_wifi_key_row,
}
use deevnet_provisioning_api.Lifecycle.{Service, Wireless, WifiKeySpec}
use deevnet_provisioning_api.Lifecycle.Steps.{audited}
use deevnet_provisioning_api.Lifecycle.Delete.{is_none, remove_key_from_controller}
use deevnet_provisioning_api.Lifecycle.Create.{step_error}
use deevnet_provisioning_api.Devices.{is_ready, if_there}
use deevnet_provisioning_api.Devices.Registration.{mac_or_refused}
use deevnet_provisioning_api.Wireless.{valid_psk, random_psk}

pub record KeyRequest : Type 0 where
  pub name : Text
  pub trust_class : Text
  pub psk : Text
  pub mac : Text

pub record IssuedKey : Type 0 where
  pub key : WifiKey
  pub ssid : Text
  pub vlan : ℕ

abbrev pub moves_class : Text → Option WifiKey → Bool
moves_class class none = false
moves_class class (some old) = not (text_eq old.trust_class class)

-- The stored text, of no row the empty one
abbrev pub psk_of : Option WifiKey → Text
psk_of none = []
psk_of (some old) = old.psk

-- `if req.MAC != "" { spec.MAC = ControllerMAC(req.MAC) }`
abbrev pub spec_mac : Text → Text
spec_mac mac = if is_empty mac then [] else controller_mac mac

module _ {W : Type 0} (sv : Service W) where
  -- choosePSK
  unfoldable pub choose_psk : Text → Text → Call Error (State W) Text
  choose_psk supplied stored =
      if not (is_empty supplied)
      then give supplied
      else if not (is_empty stored)
      then give stored
      else random_psk sv

  abbrev pub served : Option TrustClass → Error → Call Error (State W) TrustClass
  served none e = fail_with e
  served (some tc) e = give tc

  abbrev pub ensure_key_with : Option (Wireless W) → WifiKeySpec → Call Error (State W) Done
  ensure_key_with none spec = give tt
  ensure_key_with (some wireless) spec = outside (wireless.ensure_key spec)

  abbrev pub key_spec : Text → Text → Text → Text → TrustClass → WifiKeySpec
  key_spec tenant name psk mac tc = record {
    ssid = tc.ssid;
    name = tenant ++ b'-' ∷ name;
    psk = psk;
    vlan = tc.vlan;
    mac = spec_mac mac;
  }

  -- The checks of a request: the trust class, and the MAC as NormalizeMAC writes it.
  unfoldable pub check_key_request : Text → KeyRequest → Call Error (State W) (TrustClass × Text)
  check_key_request tenant r = do
    refuse_when (is_none sv.wireless) (invalid no_keys)
    rec ← get sv.store tenant
    refuse_when (not (is_ready rec.status)) (invalid (not_ready rec.status))
    refuse_when (not (valid_workload_name r.name)) (invalid bad_key_name)
    tc ← served (trust_class sv.site r.trust_class) (invalid bad_trust_class)
    refuse_when (not (is_empty r.psk) && not (valid_psk r.psk)) (invalid bad_psk)
    mac ← checked (if is_empty r.mac then ok [] else mac_or_refused (normalize_mac r.mac))
    give (tc, mac)

  -- The key as it is handed back, with the error of a step after the row was written: the code returns
  -- both.
  abbrev pub Answer : Type 0
  Answer = IssuedKey × Option Error

  abbrev pub marked : IssuedKey → Result Error Done → Answer
  marked issued (ok d) = (record issued { key = record issued.key { status = ready } }, none)
  marked issued (err e) = (issued, some e)

  abbrev pub after_ensure : Text → IssuedKey → Result Error Done → Call Error (State W) Answer
  after_ensure tenant issued (err e) = give (issued, some (step (codes "wifi-key") e))
  after_ensure tenant issued (ok d) = do
    answer ← attempt (set_wifi_key_status sv.store tenant issued.key.name ready)
    give (marked issued answer)

  -- From the row to the controller.
  unfoldable pub write_key :
      Text → KeyRequest → TrustClass → Text → Text → Call Error (State W) Answer
  write_key tenant r tc mac psk = do
    k ← put_wifi_key_row sv.store (record {
      tenant = tenant;
      name = r.name;
      trust_class = r.trust_class;
      psk = psk;
      mac = mac;
      status = provisioning;
      unreadable = false;
    })
    audited sv (codes "wifi-key-create") tenant
    sent ← attempt (ensure_key_with sv.wireless (key_spec tenant k.name psk mac tc))
    after_ensure tenant (record { key = k; ssid = tc.ssid; vlan = tc.vlan }) sent

  -- CreateWiFiKey
  unfoldable pub create_wifi_key : Text → KeyRequest → Call Error (State W) Answer
  create_wifi_key tenant r = do
    (tc, mac) ← check_key_request tenant r
    read ← attempt (get_wifi_key sv.store tenant r.name)
    existing ← if_there read
    refuse_when (moves_class r.trust_class existing) (invalid key_class_changed)
    psk ← choose_psk r.psk (psk_of existing)
    write_key tenant r tc mac psk

  unfoldable pub delete_wifi_key : Text → Text → Call Error (State W) Done
  delete_wifi_key tenant name = do
    k ← get_wifi_key sv.store tenant name
    gone ← attempt (remove_key_from_controller sv k)
    step_error sv (codes "wifi-key") gone
    audited sv (codes "wifi-key-delete") tenant
    delete_wifi_key_row sv.store tenant name

  -- withClass: a class that is no longer served has no SSID and no VLAN.
  abbrev pub with_class_of : WifiKey → Option TrustClass → IssuedKey
  with_class_of k none = record { key = k; ssid = []; vlan = 0 }
  with_class_of k (some tc) = record { key = k; ssid = tc.ssid; vlan = tc.vlan }

  unfoldable pub with_class : WifiKey → IssuedKey
  with_class k = with_class_of k (trust_class sv.site k.trust_class)

  unfoldable pub view_wifi_key : Text → Text → Call Error (State W) IssuedKey
  view_wifi_key tenant name = do k ← get_wifi_key sv.store tenant name; give (with_class k)

  unfoldable pub list_keys : Text → Call Error (State W) (List IssuedKey)
  list_keys tenant = do keys ← list_wifi_keys sv.store tenant; give (map with_class keys)
