-- ===== src/Wireless/Admission.antt =====
-- Admit and Redeem of internal/tenant/service.go, issueAdmissionKey and RevokeAdmission of
-- internal/tenant/admissionkeys.go.
use deevnet_provisioning_api.Prelude.{
  ℕ, ltb, false, not, ◌||◌, Option, none, some, [], ◌∷◌, ◌++◌, is_empty, Text, text_eq, codes, ℤ,
  pos, negsuc, Result, Done, ok, err, if◌then◌else◌,
}
use deevnet_provisioning_api.Names.{valid_name, reserved}
use deevnet_provisioning_api.Mac.{normalize_mac}
use deevnet_provisioning_api.Site.{TrustClass, trust_class}
use deevnet_provisioning_api.Calls.{
  Call, give, fail_with, refuse_when, checked, ◌>>=◌, ◌>>◌, attempt,
}
use deevnet_provisioning_api.Registry.{
  Error, exists, no_enrollment, not_redeemable, step, invalid, bad_name, reserved_name,
  bad_admission_class, State, outside,
}
use deevnet_provisioning_api.Registry.Tenants.{get}
use deevnet_provisioning_api.Registry.Parts.{get_admission_key, delete_admission_key}
use deevnet_provisioning_api.Registry.WifiKeys.{put_admission_key}
use deevnet_provisioning_api.Lifecycle.{Service, Wireless, Enroller}
use deevnet_provisioning_api.Lifecycle.Steps.{audited}
use deevnet_provisioning_api.Lifecycle.Delete.{is_none}
use deevnet_provisioning_api.Lifecycle.Create.{step_error}
use deevnet_provisioning_api.Devices.{if_there}
use deevnet_provisioning_api.Devices.Registration.{mac_or_refused}
use deevnet_provisioning_api.Wireless.{random_psk}
use deevnet_provisioning_api.Wireless.Issue.{ensure_key_with, key_spec}

pub record AdmissionWifi : Type 0 where
  pub ssid : Text
  pub psk : Text
  pub mac : Text

pub record Admission : Type 0 where
  pub name : Text
  pub enrollment_token : Text
  pub expires_at : ℕ
  pub wifi : Option AdmissionWifi

-- AdmissionKeyName
abbrev pub admission_key_name : Text
admission_key_name = codes "admission"

-- 72 hours, unless the service has another time
abbrev pub ttl_of : ℤ → ℕ
ttl_of (pos n) = if ltb 0 n then n else 259_200
ttl_of (negsuc n) = 259_200

module _ {W : Type 0} (sv : Service W) where
  unfoldable pub mint_admission_key :
      Text → Text → TrustClass → Call Error (State W) (Option AdmissionWifi)
  mint_admission_key name mac tc = do
    psk ← random_psk sv
    put_admission_key sv.store (record { tenant = name; psk = psk; mac = mac; unreadable = false })
    sent ← attempt (ensure_key_with sv sv.wireless (key_spec sv name admission_key_name psk mac tc))
    step_error sv (codes "wifi-key") sent
    give (some (record { ssid = tc.ssid; psk = psk; mac = mac }))

  abbrev pub mint_for :
      Text → Text → Option TrustClass → Call Error (State W) (Option AdmissionWifi)
  mint_for name mac none = fail_with (invalid bad_admission_class)
  mint_for name mac (some tc) = mint_admission_key name mac tc

  unfoldable pub issue_admission_key : Text → Text → Call Error (State W) (Option AdmissionWifi)
  issue_admission_key name mac =
      if is_empty sv.site.admission_class || is_none sv.wireless
      then give none
      else mint_for name mac (trust_class sv.site sv.site.admission_class)

  abbrev pub wrap_with : Option (Enroller W) → Text → Call Error (State W) (Text × ℕ)
  wrap_with none name = fail_with no_enrollment
  wrap_with (some enroller) name = outside (enroller.wrap name (ttl_of sv.enrollment_ttl))

  unfoldable pub admit : Text → Text → Call Error (State W) Admission
  admit name wanted = do
    refuse_when (is_none sv.enroller) no_enrollment
    refuse_when (not (valid_name name)) (invalid bad_name)
    refuse_when (reserved name) (invalid reserved_name)
    mac ← checked (if is_empty wanted then ok [] else mac_or_refused (normalize_mac wanted))
    read ← attempt (get sv.store name)
    row ← if_there read
    refuse_when (not (is_none row)) exists
    wrapped ← attempt (wrap_with sv.enroller name)
    (token, expires) ← step_error sv (codes "enrollment") wrapped
    wifi ← issue_admission_key name mac
    audited sv (codes "admit") name
    give (record { name = name; enrollment_token = token; expires_at = expires; wifi = wifi })

  -- What Redeem makes of the answer of Unwrap.
  abbrev pub redeemed : Text → Result Error Text → Call Error (State W) Done
  redeemed name (err not_redeemable) = fail_with not_redeemable
  redeemed name (err e) = fail_with (step (codes "enrollment") e)
  redeemed name (ok tenant) =
      if text_eq tenant name
      then audited sv (codes "enroll") name
      else (do audited sv (codes "enrollment-mismatch") name; fail_with not_redeemable)

  abbrev pub redeem_with : Option (Enroller W) → Text → Text → Call Error (State W) Done
  redeem_with none token name = fail_with no_enrollment
  redeem_with (some enroller) token name = do
    answer ← attempt (outside (enroller.unwrap token))
    redeemed name answer

  unfoldable pub redeem : Text → Text → Call Error (State W) Done
  redeem token name = redeem_with sv.enroller token name

  abbrev pub revoke_with :
      Option (Wireless W) → Text → Option TrustClass → Call Error (State W) Done
  revoke_with none name class = give tt
  revoke_with (some wireless) name none = give tt
  revoke_with (some wireless) name (some tc) =
      outside (wireless.remove_key tc.ssid (name ++ b'-' ∷ admission_key_name))

  unfoldable pub revoke_admission : Text → Call Error (State W) Done
  revoke_admission name = do
    k ← get_admission_key sv.store name
    gone ← attempt (revoke_with sv.wireless name (trust_class sv.site sv.site.admission_class))
    step_error sv (codes "wifi-key") gone
    audited sv (codes "admission-revoke") name
    delete_admission_key sv.store name
