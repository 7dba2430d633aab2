-- ===== src/Certificates/Checks.antt =====
-- What a certificate may say: certificateLabels, certificateSites, certificateNames,
-- parseCertificateRequest, checkSigned, sameNames, cleanChain and serialString of
-- internal/tenant/certificates.go.
use deevnet_provisioning_api.Prelude.{
  ℕ, zero, suc, ◌*◌, ◌+◌, Bool, true, false, not, ◌&&◌, ◌||◌, ltb, ◌==◌, Option, none, some, List,
  [], ◌∷◌, ◌++◌, map, length, is_empty, Text, codes, text_eq, join, Result, Done, ok, err, ◌>>=◌,
  ◌>>◌, refuse_if, if◌then◌else◌,
}
use deevnet_provisioning_api.Names.{valid_workload_name}
use deevnet_provisioning_api.Site.{Site, service_zone, site_zone, certificate_site_list}
use deevnet_provisioning_api.Registry.{
  Error, invalid, other, bad_certificate_name, reserved_certificate_name, name_twice,
  too_many_names, unknown_site, site_twice, bad_request, Certificate,
}
use deevnet_provisioning_api.Lifecycle.Requests.{hex_text}
use deevnet_provisioning_api.Certificates.{
  Signed, Block, PublicKey, rsa, ecdsa, another, Csr, Usage, server_auth, another_usage, Leaf, X509,
}

abbrev pub nanoseconds : ℕ → ℕ
nanoseconds seconds = seconds * 1_000_000_000

-- 60 days
abbrev pub renew_before : ℕ
renew_before = nanoseconds 5_184_000

abbrev pub max_names : ℕ
max_names = 8

abbrev pub max_held : ℕ
max_held = 64

-- 366 days and an hour
abbrev pub max_lifetime : ℕ
max_lifetime = nanoseconds 31_626_000

-- slices.Contains
unfoldable pub has_name : List Text → Text → Bool
has_name [] name = false
has_name (n ∷ names) name = text_eq n name || has_name names name

unfoldable pub check_label : List Text → Text → Result Error Done
check_label labels label = do
  refuse_if (not (valid_workload_name label)) (invalid bad_certificate_name)
  refuse_if (text_eq label (codes "device")) (invalid reserved_certificate_name)
  refuse_if (has_name labels label) (invalid name_twice)

-- The loop of certificateLabels, over what is left of the labels.
unfoldable pub more_labels : List Text → List Text → Result Error (List Text)
more_labels labels [] = ok labels
more_labels labels (label ∷ more) = do
  check_label labels label
  more_labels (labels ++ label ∷ []) more

unfoldable pub certificate_labels : Text → List Text → Result Error (List Text)
certificate_labels name more = do
  refuse_if (not (valid_workload_name name)) (invalid bad_certificate_name)
  refuse_if (text_eq name (codes "device")) (invalid reserved_certificate_name)
  labels ← more_labels (name ∷ []) more
  refuse_if (ltb max_names (length labels)) (invalid too_many_names)
  ok labels

-- The loop of certificateSites
unfoldable pub more_sites : List Text → List Text → List Text → Result Error (List Text)
more_sites allowed out [] = ok out
more_sites allowed out (site ∷ asked) = do
  refuse_if (not (has_name allowed site)) (invalid unknown_site)
  refuse_if (has_name out site) (invalid site_twice)
  more_sites allowed (out ++ site ∷ []) asked

unfoldable pub certificate_sites : Site → List Text → Result Error (List Text)
certificate_sites site [] = ok (site.name ∷ [])
certificate_sites site (first ∷ asked) = more_sites (certificate_site_list site) [] (first ∷ asked)

-- Each label in one zone.
abbrev pub in_zone : Text → List Text → List Text
in_zone zone labels = map (λ label. label ++ b'.' ∷ zone) labels

unfoldable pub names_at_sites : Site → Text → List Text → List Text → List Text
names_at_sites site tenant labels [] = []
names_at_sites site tenant labels (at ∷ sites) =
    in_zone (site_zone site tenant at) labels ++ names_at_sites site tenant labels sites

unfoldable pub certificate_names : Site → Text → List Text → List Text → List Text
certificate_names site tenant labels sites =
    in_zone (service_zone site tenant) labels ++ names_at_sites site tenant labels sites

-- The order of strings, and slices.Sort, whose result has no equal parts to tell apart.
unfoldable pub text_leb : Text → Text → Bool
text_leb [] t = true
text_leb (c ∷ s) [] = false
text_leb (c ∷ s) (d ∷ t) =
    let rest = text_leb s t in if ltb c d then true else if c == d then rest else false

unfoldable pub insert_text : Text → List Text → List Text
insert_text t [] = t ∷ []
insert_text t (u ∷ texts) = if text_leb t u then t ∷ u ∷ texts else u ∷ insert_text t texts

unfoldable pub sort_texts : List Text → List Text
sort_texts [] = []
sort_texts (t ∷ texts) = insert_text t (sort_texts texts)

-- slices.Equal
unfoldable pub names_eq : List Text → List Text → Bool
names_eq [] [] = true
names_eq (n ∷ names) (m ∷ more) = text_eq n m && names_eq names more
names_eq _ _ = false

unfoldable pub same_names : List Text → List Text → Bool
same_names names more = names_eq (sort_texts names) (sort_texts more)

-- serialString
unfoldable pub pairs : Text → List Text
pairs [] = []
pairs (a ∷ []) = (a ∷ []) ∷ []
pairs (a ∷ b ∷ rest) = (a ∷ b ∷ []) ∷ pairs rest

unfoldable pub serial_text : Text → Text
serial_text serial = join b':' (pairs (hex_text serial))

abbrev pub key_passes : PublicKey → Bool
key_passes (rsa bits) = not (ltb bits 2048 || ltb 8192 bits)
key_passes (ecdsa p256) = p256
key_passes another = false

-- `names[0]`, of names that are never none
abbrev pub first_of : List Text → Text
first_of [] = []
first_of (name ∷ names) = name

abbrev pub serves_alone : List Usage → Bool
serves_alone (server_auth ∷ []) = true
serves_alone (another_usage ∷ []) = false
serves_alone _ = false

module _ (x : X509) where
  abbrev pub fingerprint_of : Text → Text
  fingerprint_of key_info = hex_text (x.sha256 key_info)

  abbrev pub read_request : Option Csr → Result Error (Text × Text)
  read_request none = err (invalid bad_request)
  read_request (some csr) = do
    refuse_if (not csr.signed_by_key) (invalid bad_request)
    refuse_if (not (key_passes csr.key)) (invalid bad_request)
    ok (
      x.encode (record { kind = codes "CERTIFICATE REQUEST"; bytes = csr.raw }),
      fingerprint_of csr.key_info,
    )

  abbrev pub request_block : Option (Block × Text) → Result Error (Text × Text)
  request_block none = err (invalid bad_request)
  request_block (some (block, rest)) = do
    refuse_if (not (text_eq block.kind (codes "CERTIFICATE REQUEST"))) (invalid bad_request)
    refuse_if (not (x.blank rest)) (invalid bad_request)
    read_request (x.parse_request block.bytes)

  -- parseCertificateRequest: the request again, and its key's fingerprint
  unfoldable pub parse_certificate_request : Text → Result Error (Text × Text)
  parse_certificate_request csr = request_block (x.decode csr)

  -- The inner loop of cleanChain, on fuel: each block takes a byte at least.
  unfoldable pub blocks : ℕ → Text → List Block
  blocks zero text = []
  blocks (suc fuel) text = elim (x.decode text) [
    | none ↦ []
    | some (block, rest) ↦ block ∷ blocks fuel rest
  ]

  abbrev pub keep_ca : Block → Option Leaf → Result Error Text
  keep_ca block none = err (other (codes "unreadable certificate in the chain"))
  keep_ca block (some ca) = do
    refuse_if (not ca.is_ca) (other (codes "the chain holds a certificate that is not a CA"))
    ok (
        if text_eq ca.subject ca.issuer
        then []
        else x.encode (record { kind = codes "CERTIFICATE"; bytes = ca.raw }))

  unfoldable pub clean_blocks : List Block → Result Error Text
  clean_blocks [] = ok []
  clean_blocks (block ∷ rest) = do
    refuse_if (not (text_eq block.kind (codes "CERTIFICATE")))
        (other (codes "the chain holds something that is not a certificate"))
    first ← keep_ca block (x.parse_certificate block.bytes)
    others ← clean_blocks rest
    ok (first ++ others)

  unfoldable pub clean_entries : List Text → Result Error Text
  clean_entries [] = ok []
  clean_entries (entry ∷ chain) = do
    first ← clean_blocks (blocks (length entry) entry)
    others ← clean_entries chain
    ok (first ++ others)

  unfoldable pub clean_chain : List Text → Result Error Text
  clean_chain chain = do
    out ← clean_entries chain
    refuse_if (is_empty out) (other (codes "no issuing CA came with it"))
    ok out

  unfoldable pub check_leaf : Leaf → List Text → Text → ℕ → Result Error Done
  check_leaf leaf names fingerprint now = do
    refuse_if (not (text_eq (fingerprint_of leaf.key_info) fingerprint))
        (other (codes "it certifies a key that is not the request's"))
    refuse_if (not (same_names leaf.dns_names names))
        (other (codes "its names are not those asked for"))
    refuse_if (not (text_eq leaf.common_name (first_of names))) (other (codes "its common name"))
    refuse_if
        (not (is_empty leaf.ip_addresses)
          || (not (is_empty leaf.uris) || not (is_empty leaf.email_addresses)))
        (other (codes "it carries a name that is not a DNS name"))
    refuse_if leaf.is_ca (other (codes "it is a CA"))
    refuse_if (not (serves_alone leaf.usages) || not (is_empty leaf.unknown_usages))
        (other (codes "its usage is not server authentication alone"))
    refuse_if leaf.may_sign (other (codes "it may sign certificates"))
    refuse_if (not (ltb now leaf.not_after)) (other (codes "it has already expired"))
    refuse_if (ltb (leaf.not_before + max_lifetime) leaf.not_after)
        (other (codes "it is valid for longer than a year"))

  -- The certificate, whose tenant and name the caller writes.
  abbrev pub certificate_of : Leaf → List Text → Text → Text → Certificate
  certificate_of leaf names fingerprint chain = record {
    tenant = [];
    name = [];
    names = names;
    key_fingerprint = fingerprint;
    serial = serial_text leaf.serial;
    not_before = leaf.not_before;
    not_after = leaf.not_after;
    pem = x.encode (record { kind = codes "CERTIFICATE"; bytes = leaf.raw });
    chain = chain;
  }

  abbrev pub read_leaf : List Text → List Text → Text → ℕ → Option Leaf → Result Error Certificate
  read_leaf chain names fingerprint now none = err (other (codes "unreadable certificate"))
  read_leaf chain names fingerprint now (some leaf) = do
    check_leaf leaf names fingerprint now
    clean ← clean_chain chain
    ok (certificate_of leaf names fingerprint clean)

  abbrev pub signed_block :
      List Text → List Text → Text → ℕ → Option (Block × Text) → Result Error Certificate
  signed_block chain names fingerprint now none = err (other (codes "not one PEM certificate"))
  signed_block chain names fingerprint now (some (block, rest)) = do
    refuse_if (not (text_eq block.kind (codes "CERTIFICATE")) || not (x.blank rest))
        (other (codes "not one PEM certificate"))
    read_leaf chain names fingerprint now (x.parse_certificate block.bytes)

  unfoldable pub check_signed : Signed → List Text → Text → ℕ → Result Error Certificate
  check_signed signed names fingerprint now =
      signed_block signed.chain names fingerprint now (x.decode signed.certificate)
