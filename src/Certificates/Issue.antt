-- ===== src/Certificates/Issue.antt =====
-- PutCertificate, GetCertificate, ListCertificates and DeleteCertificate of
-- internal/tenant/certificates.go. The second result of PutCertificate says whether it issued one.
use deevnet_provisioning_api.Prelude.{
  ℕ, Bool, true, false, not, ◌&&◌, leb, ltb, ◌+◌, Option, none, some, List, length, Text, text_eq,
  codes, Done, if◌then◌else◌,
}
use deevnet_provisioning_api.Calls.{
  Call, give, fail_with, gets, refuse_when, checked, ◌>>=◌, ◌>>◌, attempt,
}
use deevnet_provisioning_api.Registry.{
  Error, invalid, not_ready, no_signer, too_many_certificates, Certificate, State, outside,
}
use deevnet_provisioning_api.Registry.Tenants.{get}
use deevnet_provisioning_api.Registry.Certificates.{
  get_certificate, list_certificates, put_certificate_row, delete_certificate_row,
}
use deevnet_provisioning_api.Lifecycle.Steps.{audited}
use deevnet_provisioning_api.Lifecycle.Create.{step_error}
use deevnet_provisioning_api.Lifecycle.Delete.{is_none}
use deevnet_provisioning_api.Devices.{is_ready, if_there}
use deevnet_provisioning_api.Certificates.{CertificateRequest, Signed, Signer, Issuer}
use deevnet_provisioning_api.Certificates.Checks.{
  renew_before, max_held, certificate_labels, certificate_sites, certificate_names, names_eq,
  parse_certificate_request, check_signed,
}

module _ {W : Type 0} (at : Issuer W) where
  abbrev pub clock : Call Error (State W) ℕ
  clock = gets (λ s. at.now s.world)

  -- The names to certify, the request for the signer, and the key's fingerprint.
  unfoldable pub check_request :
      Text → Text → CertificateRequest → Call Error (State W) (List Text × Text × Text)
  check_request tenant name r = do
    refuse_when (is_none at.signer) (invalid no_signer)
    rec ← get at.service.store tenant
    refuse_when (not (is_ready rec.status)) (invalid (not_ready rec.status))
    labels ← checked (certificate_labels name r.names)
    sites ← checked (certificate_sites at.service.site r.sites)
    (csr, fingerprint) ← checked (parse_certificate_request at.x509 r.csr)
    give (certificate_names at.service.site tenant labels sites, csr, fingerprint)

  -- `s.now().Before(existing.RenewAfter())`, for a certificate of the same key and the same names
  abbrev pub still_good : Certificate → List Text → Text → ℕ → Bool
  still_good old names fingerprint now =
      text_eq old.key_fingerprint fingerprint
      && (names_eq old.names names && ltb (now + renew_before) old.not_after)

  abbrev pub sign_with : Option (Signer W) → Text → List Text → Call Error (State W) Signed
  sign_with none csr names = fail_with (invalid no_signer)
  sign_with (some signer) csr names = outside (signer.sign_server csr names)

  unfoldable pub sign_new :
      Text → Text → List Text → Text → Text → Call Error (State W) (Certificate × Bool)
  sign_new tenant name names csr fingerprint = do
    answer ← attempt (sign_with at.signer csr names)
    signed ← step_error at.service (codes "certificate") answer
    now ← clock
    cert ←
        step_error at.service (codes "certificate")
          (check_signed at.x509 signed names fingerprint now)
    row ← put_certificate_row at.service.store (record cert { tenant = tenant; name = name })
    audited at.service (codes "certificate-issue") tenant
    give (row, true)

  abbrev pub or_issued :
      Text
      → Text
      → List Text × Text × Text
      → Option Certificate
      → ℕ
      → Call Error (State W) (Certificate × Bool)
  or_issued tenant name (names, csr, fingerprint) none now = do
    held ← list_certificates at.service.store tenant
    refuse_when (leb max_held (length held)) (invalid too_many_certificates)
    sign_new tenant name names csr fingerprint
  or_issued tenant name (names, csr, fingerprint) (some old) now =
      if still_good old names fingerprint now
      then give (old, false)
      else sign_new tenant name names csr fingerprint

  unfoldable pub put_certificate :
      Text → Text → CertificateRequest → Call Error (State W) (Certificate × Bool)
  put_certificate tenant name r = do
    wanted ← check_request tenant name r
    read ← attempt (get_certificate at.service.store tenant name)
    existing ← if_there read
    now ← clock
    or_issued tenant name wanted existing now

  unfoldable pub view_certificate : Text → Text → Call Error (State W) Certificate
  view_certificate tenant name = get_certificate at.service.store tenant name

  unfoldable pub tenant_certificates : Text → Call Error (State W) (List Certificate)
  tenant_certificates tenant = list_certificates at.service.store tenant

  unfoldable pub delete_certificate : Text → Text → Call Error (State W) Done
  delete_certificate tenant name = do
    c ← get_certificate at.service.store tenant name
    audited at.service (codes "certificate-delete") tenant
    delete_certificate_row at.service.store tenant name
