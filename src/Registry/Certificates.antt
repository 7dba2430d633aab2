-- ===== src/Registry/Certificates.antt =====
-- The table of certificates: internal/store/certificates.go.
use deevnet_provisioning_api.Prelude.{
  Bool, ◌&&◌, Option, none, some, List, [], ◌∷◌, drop_where, Text, text_eq, Done, if◌then◌else◌,
}
use deevnet_provisioning_api.Calls.{Call, give, fail_with, gets, modify, ◌>>=◌, ◌>>◌}
use deevnet_provisioning_api.Registry.{Error, not_found, Certificate, State, Store, outside}
use deevnet_provisioning_api.Registry.Tenants.{find_row, found}
use deevnet_provisioning_api.Registry.Parts.{of_tenant}

abbrev pub is_certificate : Text → Text → Certificate → Bool
is_certificate tenant name c = text_eq c.tenant tenant && text_eq c.name name

unfoldable pub find_certificate : Text → Text → List Certificate → Option Certificate
find_certificate tenant name [] = none
find_certificate tenant name (c ∷ rows) =
    if is_certificate tenant name c then some c else find_certificate tenant name rows

unfoldable pub upsert_certificate : Certificate → List Certificate → List Certificate
upsert_certificate c [] = c ∷ []
upsert_certificate c (old ∷ rows) =
    if is_certificate c.tenant c.name old then c ∷ rows else old ∷ upsert_certificate c rows

module _ {W : Type 0} (p : Store W) where
  unfoldable pub change_certificates :
      (List Certificate → List Certificate) → Call Error (State W) Done
  change_certificates f =
      modify (λ s. record s {
        registry = record s.registry { certificates = f s.registry.certificates };
      })

  abbrev pub found_certificate : Option Certificate → Call Error (State W) Certificate
  found_certificate none = fail_with not_found
  found_certificate (some c) = give c

  unfoldable pub get_certificate : Text → Text → Call Error (State W) Certificate
  get_certificate tenant name = do
    outside p.query
    row ← gets (λ s. find_certificate tenant name s.registry.certificates)
    found_certificate row

  -- ListCertificates, whose order no caller here reads
  unfoldable pub list_certificates : Text → Call Error (State W) (List Certificate)
  list_certificates tenant = do
    outside p.query
    gets (λ s. of_tenant (λ (c : Certificate). c.tenant) tenant s.registry.certificates)

  -- PutCertificate, whose row is the certificate as it was given
  unfoldable pub put_certificate_row : Certificate → Call Error (State W) Certificate
  put_certificate_row c = do
    outside p.query
    row ← gets (λ s. find_row c.tenant s.registry.tenants)
    r ← found p row
    change_certificates (upsert_certificate c)
    give c

  unfoldable pub delete_certificate_row : Text → Text → Call Error (State W) Done
  delete_certificate_row tenant name = do
    outside p.query
    change_certificates (drop_where (is_certificate tenant name))
