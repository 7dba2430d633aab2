-- ===== src/Wireless/Settled.antt =====
-- The operations on Wi-Fi keys, Admit and Redeem leave the tenants' numbers and the workloads as
-- they are.
use deevnet_provisioning_api.Prelude.{refl, Option, none, some, List, Text, Result, Done, ok, err}
use deevnet_provisioning_api.Site.{TrustClass}
use deevnet_provisioning_api.Calls.{modify}
use deevnet_provisioning_api.Calls.Laws.{bind-Leaves, call_rules}
use deevnet_provisioning_api.Registry.{Error, Sealer, WifiKey, AdmissionKey, not_redeemable}
use deevnet_provisioning_api.Registry.Reads.{Reads, open_one-Reads}
use deevnet_provisioning_api.Registry.Keeps.{
  put_wifi_key-Keeps, get_admission_key-Keeps, delete_admission_key-Keeps,
}
use deevnet_provisioning_api.Registry.Placing.{Reads-Places, Keeps-Places}
use deevnet_provisioning_api.Registry.Parts.{
  open_key, seal_one, put_wifi_key, get_admission_key, delete_admission_key,
}
use deevnet_provisioning_api.Registry.WifiKeys.{
  change_keys, found_key, get_wifi_key, stored_key, put_wifi_key_row, key_there,
  set_wifi_key_status, delete_wifi_key_row, write_admission_key, put_admission_key,
}
use deevnet_provisioning_api.Lifecycle.{Service, Wireless, WifiKeySpec, Enroller}
use deevnet_provisioning_api.Lifecycle.Delete.{remove_key_with, remove_key_from_controller}
use deevnet_provisioning_api.Workloads.Placement.{
  Settles, outside-Settles, get-Settles, audited-Settles, step_error-Settles, if_there-Settles,
}
use deevnet_provisioning_api.Wireless.{random_psk}
use deevnet_provisioning_api.Wireless.Issue.{
  KeyRequest, IssuedKey, after_ensure, choose_psk, served, ensure_key_with, check_key_request,
  write_key, create_wifi_key, delete_wifi_key,
}
use deevnet_provisioning_api.Wireless.Admission.{
  mint_admission_key, mint_for, issue_admission_key, wrap_with, admit, redeemed, redeem_with,
  redeem, revoke_with, revoke_admission,
}
use deevnet_provisioning_api.Accounts.Stored.{random_psk-Reads}

module _ {W : Type 0} (sv : Service W) where
  change_keys-Settles : (f : List WifiKey → List WifiKey) → Settles sv (change_keys sv.store f)
  unfolding change_keys modify
  change_keys-Settles f = record { after = λ s. (refl, λ h. h) }

  write_admission_key-Settles : (k : AdmissionKey) → Settles sv (write_admission_key sv.store k)
  unfolding write_admission_key modify
  write_admission_key-Settles k = record { after = λ s. (refl, λ h. h) }

  random_psk-Settles : Settles sv (random_psk sv)
  random_psk-Settles = Reads-Places sv.store _ (random_psk-Reads sv)

  open_key-Reads : (sealer : Option (Sealer W)) (k : WifiKey) → Reads (open_key sv.store sealer k)
  open_key-Reads none k = search call_rules
  open_key-Reads (some sealer) k = search (call_rules, open_one-Reads)

  found_key-Reads : (k : Option WifiKey) → Reads (found_key sv.store k)
  found_key-Reads none = search call_rules
  found_key-Reads (some k) = open_key-Reads sv.store.sealer k

  seal_one-Settles :
      (sealer : Option (Sealer W)) (text : Text) → Settles sv (seal_one sv.store sealer text)
  seal_one-Settles none text = search call_rules
  seal_one-Settles (some sealer) text = search outside-Settles

  found_key-Settles : (k : Option WifiKey) → Settles sv (found_key sv.store k)
  found_key-Settles k = Reads-Places sv.store _ (found_key-Reads k)

  put_wifi_key-Settles : (k : WifiKey) → Settles sv (put_wifi_key sv.store k)
  put_wifi_key-Settles k = Keeps-Places sv.store _ (put_wifi_key-Keeps sv.store k)

  get_admission_key-Settles : (name : Text) → Settles sv (get_admission_key sv.store name)
  get_admission_key-Settles name = Keeps-Places sv.store _ (get_admission_key-Keeps sv.store name)

  delete_admission_key-Settles : (name : Text) → Settles sv (delete_admission_key sv.store name)
  delete_admission_key-Settles name =
      Keeps-Places sv.store _ (delete_admission_key-Keeps sv.store name)

  stored_key-Settles : (k : WifiKey) (row : Option WifiKey) → Settles sv (stored_key sv.store k row)
  stored_key-Settles k none = search call_rules
  stored_key-Settles k (some row) = search call_rules

  key_there-Settles : (k : Option WifiKey) → Settles sv (key_there sv.store k)
  key_there-Settles none = search call_rules
  key_there-Settles (some k) = search call_rules

  served-Settles : (tc : Option TrustClass) (e : Error) → Settles sv (served sv tc e)
  served-Settles none e = search call_rules
  served-Settles (some tc) e = search call_rules

  ensure_key_with-Settles :
      (b : Option (Wireless W)) (spec : WifiKeySpec) → Settles sv (ensure_key_with sv b spec)
  ensure_key_with-Settles none spec = search call_rules
  ensure_key_with-Settles (some b) spec = search outside-Settles

  remove_key_with-Settles :
      (b : Option (Wireless W)) (tc : Option TrustClass) (k : WifiKey)
      → Settles sv (remove_key_with sv b tc k)
  remove_key_with-Settles none tc k = search call_rules
  remove_key_with-Settles (some b) none k = search call_rules
  remove_key_with-Settles (some b) (some tc) k = search outside-Settles

  ruleset key_rules = (
    call_rules, outside-Settles, get-Settles, audited-Settles, step_error-Settles, if_there-Settles,
    change_keys-Settles, write_admission_key-Settles, random_psk-Settles, found_key-Settles,
    put_wifi_key-Settles, get_admission_key-Settles, delete_admission_key-Settles,
    stored_key-Settles, key_there-Settles, served-Settles, ensure_key_with-Settles,
    remove_key_with-Settles,
  )

  get_wifi_key-Settles : (tenant name : Text) → Settles sv (get_wifi_key sv.store tenant name)
  unfolding get_wifi_key
  get_wifi_key-Settles tenant name = search key_rules depth 12

  check_key_request-Settles :
      (tenant : Text) (r : KeyRequest) → Settles sv (check_key_request sv tenant r)
  unfolding check_key_request
  check_key_request-Settles tenant r = search key_rules depth 20

  choose_psk-Settles : (supplied stored : Text) → Settles sv (choose_psk sv supplied stored)
  unfolding choose_psk
  choose_psk-Settles supplied stored = search key_rules depth 12

  after_ensure-Settles :
      (tenant : Text) (issued : IssuedKey) (sent : Result Error Done)
      → Settles sv (after_ensure sv tenant issued sent)
  unfolding set_wifi_key_status
  after_ensure-Settles tenant issued (ok d) = search key_rules depth 16
  after_ensure-Settles tenant issued (err e) = search key_rules

  write_key-Settles :
      (tenant : Text) (r : KeyRequest) (tc : TrustClass) (mac psk : Text)
      → Settles sv (write_key sv tenant r tc mac psk)
  unfolding write_key put_wifi_key_row
  write_key-Settles tenant r tc mac psk = search (key_rules, after_ensure-Settles) depth 20

  pub create_wifi_key-Settles :
      (tenant : Text) (r : KeyRequest) → Settles sv (create_wifi_key sv tenant r)
  unfolding create_wifi_key
  create_wifi_key-Settles tenant r =
      search
        (
          key_rules, get_wifi_key-Settles, check_key_request-Settles, choose_psk-Settles,
          write_key-Settles,
        )
        depth 20

  pub delete_wifi_key-Settles : (tenant name : Text) → Settles sv (delete_wifi_key sv tenant name)
  unfolding delete_wifi_key delete_wifi_key_row remove_key_from_controller
  delete_wifi_key-Settles tenant name = search (key_rules, get_wifi_key-Settles) depth 16

  put_admission_key-Settles : (k : AdmissionKey) → Settles sv (put_admission_key sv.store k)
  unfolding put_admission_key
  put_admission_key-Settles k =
      bind-Leaves _ _ (seal_one-Settles sv.store.sealer k.psk) (λ psk. search key_rules depth 12)

  mint_for-Settles :
      (name mac : Text) (tc : Option TrustClass) → Settles sv (mint_for sv name mac tc)
  unfolding mint_admission_key
  mint_for-Settles name mac none = search key_rules
  mint_for-Settles name mac (some tc) = search (key_rules, put_admission_key-Settles) depth 16

  issue_admission_key-Settles : (name mac : Text) → Settles sv (issue_admission_key sv name mac)
  unfolding issue_admission_key
  issue_admission_key-Settles name mac = search (key_rules, mint_for-Settles) depth 12

  wrap_with-Settles : (b : Option (Enroller W)) (name : Text) → Settles sv (wrap_with sv b name)
  wrap_with-Settles none name = search call_rules
  wrap_with-Settles (some b) name = search outside-Settles

  pub admit-Settles : (name wanted : Text) → Settles sv (admit sv name wanted)
  unfolding admit
  admit-Settles name wanted =
      search (key_rules, issue_admission_key-Settles, wrap_with-Settles) depth 24

  redeemed-Settles :
      (name : Text) (answer : Result Error Text) → Settles sv (redeemed sv name answer)
  redeemed-Settles name (err not_redeemable) = search call_rules
  redeemed-Settles name (err _) = search call_rules
  redeemed-Settles name (ok tenant) = search key_rules depth 12

  redeem_with-Settles :
      (b : Option (Enroller W)) (token name : Text) → Settles sv (redeem_with sv b token name)
  redeem_with-Settles none token name = search call_rules
  redeem_with-Settles (some b) token name = search (key_rules, redeemed-Settles) depth 12

  pub redeem-Settles : (token name : Text) → Settles sv (redeem sv token name)
  unfolding redeem
  redeem-Settles token name = redeem_with-Settles sv.enroller token name

  revoke_with-Settles :
      (b : Option (Wireless W)) (name : Text) (tc : Option TrustClass)
      → Settles sv (revoke_with sv b name tc)
  revoke_with-Settles none name tc = search call_rules
  revoke_with-Settles (some b) name none = search call_rules
  revoke_with-Settles (some b) name (some tc) = search outside-Settles

  pub revoke_admission-Settles : (name : Text) → Settles sv (revoke_admission sv name)
  unfolding revoke_admission
  revoke_admission-Settles name = search (key_rules, revoke_with-Settles) depth 16
