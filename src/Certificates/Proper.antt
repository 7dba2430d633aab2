-- ===== src/Certificates/Proper.antt =====
-- What a certificate says that PutCertificate of internal/tenant/certificates.go has issued.
use deevnet_provisioning_api.Prelude.{◌≡◌, true, Bool, List, Text, Result, ok, err}
use deevnet_provisioning_api.Registry.{Error, Certificate, State}
use deevnet_provisioning_api.Certificates.{CertificateRequest, Signed, Issuer}
use deevnet_provisioning_api.Certificates.Issued.{Came, IsProper}

module _ {W : Type 0} (at : Issuer W) (tenant : Text) (r : CertificateRequest) where
  -- Nothing is asked of an error.
  abbrev Nothing : Error → State W → Type 0
  Nothing e s = Unit

  abbrev Issues : Text → Certificate × Bool → State W → Type 0
  Issues name answer s = answer.1 ≡ true → IsProper at tenant r name answer.0

  -- What the signer answered, where it did.
  abbrev Answered : Text → List Text → Result Error Signed → State W → Type 0
  Answered sent names (ok signed) s = Unit × Came at sent names signed
  Answered sent names (err e) s = Unit
