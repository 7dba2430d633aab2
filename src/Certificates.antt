-- ===== src/Certificates.antt =====
-- Server certificates of tenants: internal/tenant/certificates.go. This file has what is read of a
-- request and of a certificate; Checks has the checks, Issue the operations. PEM and X.509 are the
-- standard library's and stand as the parameter X509.
pub mod Checks
pub mod Named
pub mod Issue
pub mod Asked
pub mod Issued
pub mod Proper
pub mod Fuel
mod Tests
use deevnet_provisioning_api.Prelude.{ℕ, Bool, Option, List, Text}
use deevnet_provisioning_api.Calls.{Call}
use deevnet_provisioning_api.Registry.{Error}
use deevnet_provisioning_api.Lifecycle.{Service}

pub record CertificateRequest : Type 0 where
  pub csr : Text
  pub names : List Text
  pub sites : List Text

-- SignedCertificate
pub record Signed : Type 0 where
  pub certificate : Text
  pub chain : List Text

pub record Block : Type 0 where
  pub kind : Text
  pub bytes : Text

pub data PublicKey : Type 0 where
  -- The bits of the modulus
  rsa : ℕ → PublicKey
  -- Whether the curve is P-256
  ecdsa : Bool → PublicKey
  another : PublicKey

-- What is read of x509.CertificateRequest.
pub record Csr : Type 0 where
  pub raw : Text
  pub signed_by_key : Bool
  pub key : PublicKey
  pub key_info : Text

pub data Usage : Type 0 where
  server_auth another_usage : Usage

-- What is read of x509.Certificate; an instant is a number of nanoseconds.
pub record Leaf : Type 0 where
  pub raw : Text
  pub key_info : Text
  pub dns_names : List Text
  pub common_name : Text
  pub ip_addresses : List Text
  pub uris : List Text
  pub email_addresses : List Text
  pub is_ca : Bool
  pub usages : List Usage
  pub unknown_usages : List Text
  pub may_sign : Bool
  pub not_before : ℕ
  pub not_after : ℕ
  pub serial : Text
  pub subject : Text
  pub issuer : Text

pub record X509 : Type 0 where
  -- pem.Decode: the first block, and what follows it
  pub decode : Text → Option (Block × Text)
  pub encode : Block → Text
  -- bytes.TrimSpace leaves nothing
  pub blank : Text → Bool
  pub parse_request : Text → Option Csr
  pub parse_certificate : Text → Option Leaf
  pub sha256 : Text → Text

pub record Signer (W : Type 0) : Type 0 where
  pub sign_server : Text → List Text → Call Error W Signed

-- The service with its signer, which a site may lack, and its clock.
pub record Issuer (W : Type 0) : Type 0 where
  pub service : Service W
  pub signer : Option (Signer W)
  pub now : W → ℕ
  pub x509 : X509
