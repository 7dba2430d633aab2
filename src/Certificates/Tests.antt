-- ===== src/Certificates/Tests.antt =====
-- Certificates at a concrete site, whose signer answers with a leaf of the names asked for, or of
-- another tenant's.
use deevnet_provisioning_api.Prelude.{
  ℕ, suc, ◌≡◌, ◌<◌, length, arith, refl, true, false, none, some, [], ◌∷◌, ◌++◌, Option, Text,
  codes, text_eq, contains, has_prefix, ends_in, split, is_empty, hex_byte, join, if◌then◌else◌,
}
use deevnet_provisioning_api.Names.{
  valid_workload_name, is_label, is_label_byte, is_name_byte, is_lower, is_digit,
}
use deevnet_provisioning_api.Alloc.Address.{ready}
use deevnet_provisioning_api.Site.{service_zone, site_zone, certificate_site_list}
use deevnet_provisioning_api.Calls.{
  returns, raises, give, fail_with, gets, modify, refuse_when, checked, ◌>>=◌, logged, attempt,
}
use deevnet_provisioning_api.Registry.{step, other, State, outside}
use deevnet_provisioning_api.Registry.Sealing.{open_secrets}
use deevnet_provisioning_api.Registry.Tenants.{find_row, get, audit, write_audit}
use deevnet_provisioning_api.Registry.Parts.{of_tenant}
use deevnet_provisioning_api.Registry.Certificates.{
  find_certificate, upsert_certificate, change_certificates, get_certificate, list_certificates,
  put_certificate_row,
}
use deevnet_provisioning_api.Lifecycle.Requests.{hex_text}
use deevnet_provisioning_api.Lifecycle.Sample.{service, row, no_rows}
use deevnet_provisioning_api.Certificates.{
  CertificateRequest, Block, rsa, Csr, server_auth, Leaf, X509, Issuer,
}
use deevnet_provisioning_api.Certificates.Checks.{
  has_name, check_label, more_labels, certificate_labels, more_sites, certificate_sites,
  names_at_sites, certificate_names, text_leb, insert_text, sort_texts, names_eq, same_names, pairs,
  serial_text, parse_certificate_request, blocks, clean_blocks, clean_entries, clean_chain,
  check_leaf, check_signed,
}
use deevnet_provisioning_api.Certificates.Issue.{check_request, sign_new, put_certificate}
use deevnet_provisioning_api.Certificates.Fuel.{Shrinks, blocks_enough}

running : Unit {0}
unfolding give fail_with gets modify refuse_when checked ◌>>=◌ logged attempt outside
    valid_workload_name is_label is_label_byte is_name_byte is_lower is_digit text_eq contains
    has_prefix ends_in split hex_byte join service_zone site_zone certificate_site_list open_secrets
    find_row get audit write_audit of_tenant find_certificate upsert_certificate change_certificates
    get_certificate list_certificates put_certificate_row hex_text has_name check_label more_labels
    certificate_labels more_sites certificate_sites names_at_sites certificate_names text_leb
    insert_text sort_texts names_eq same_names pairs serial_text parse_certificate_request blocks
    clean_blocks clean_entries clean_chain check_leaf check_signed check_request sign_new
    put_certificate
running = tt

-- The leaf has its names in another order than they are asked for.
abbrev leaf : Text → Leaf
leaf tenant = record {
  raw = codes "leaf";
  key_info = codes "key";
  dns_names =
      (codes "web." ++ (tenant ++ codes ".lab.dvnt.net"))
      ∷ (codes "web." ++ (tenant ++ codes ".dvnt.net"))
      ∷ [];
  common_name = codes "web." ++ (tenant ++ codes ".dvnt.net");
  ip_addresses = [];
  uris = [];
  email_addresses = [];
  is_ca = false;
  usages = server_auth ∷ [];
  unknown_usages = [];
  may_sign = false;
  not_before = 0;
  not_after = 7_776_000_000_000_000;
  serial = 10 ∷ 255 ∷ [];
  subject = codes "leaf";
  issuer = codes "ca";
}

abbrev csr : Csr
csr = record { raw = codes "csr"; signed_by_key = true; key = rsa 2048; key_info = codes "key" }

abbrev ca : Leaf
ca = record (leaf []) {
  raw = codes "ca";
  is_ca = true;
  subject = codes "ca";
  issuer = codes "root";
}

-- A text is its own block, by what it says.
abbrev kind_of : Text → Text
kind_of text =
    if text_eq text (codes "csr") then codes "CERTIFICATE REQUEST" else codes "CERTIFICATE"

abbrev decode : Text → Option (Block × Text)
decode [] = none
decode (c ∷ text) = some (record { kind = kind_of (c ∷ text); bytes = c ∷ text }, [])

abbrev x509_of : Text → X509
x509_of tenant = record {
  decode = decode;
  encode = λ block. block.bytes;
  blank = is_empty;
  parse_request = λ text. some csr;
  parse_certificate = λ text. some (if text_eq text (codes "leaf") then leaf tenant else ca);
  sha256 = λ text. text;
}

abbrev issuer_of : Text → Issuer ℕ
issuer_of tenant = record {
  service = service;
  signer = some (record {
    sign_server = λ csr names w.
        returns (record { certificate = codes "leaf"; chain = codes "ca" ∷ [] }) (suc w);
  });
  now = λ w. 1;
  x509 = x509_of tenant;
}

abbrev request : CertificateRequest
request = record { csr = codes "csr"; names = []; sites = [] }

abbrev begin : State ℕ
begin = record {
  registry = record no_rows { tenants = record row { status = ready } ∷ [] };
  world = 0;
}

-- A leaf for another tenant's names is handed to nobody.
refused_run :
    (t : State ℕ) × (put_certificate
        (issuer_of (codes "web"))
        (codes "eds")
        (codes "web")
        request
        begin
      ≡ raises (step (codes "certificate") (other (codes "its names are not those asked for"))) t)
unfolding running
refused_run = (_, refl)

decode-Shrinks : Shrinks (x509_of (codes "eds"))
decode-Shrinks = record { shrinks = shorter }
  where
    shorter :
        (text rest : Text) (block : Block)
        → decode text ≡ some (block, rest)
        → length rest < length text
    shorter [] rest block h = absurd (cc)
    shorter (c ∷ text) rest block h = let e : ◌≡◌ {A = Text} [] rest = cc in rw (← e) (omega arith)

blocks_enough_example :
    blocks (x509_of (codes "eds")) 2 (codes "ca") ≡ blocks (x509_of (codes "eds")) 9 (codes "ca")
blocks_enough_example =
    blocks_enough (x509_of (codes "eds")) 2 9 (codes "ca") decode-Shrinks (omega arith)
      (omega arith)
