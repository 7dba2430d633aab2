-- ===== src/Certificates/Asked.antt =====
-- What parseCertificateRequest and checkSigned of internal/tenant/certificates.go have read where
-- they refuse nothing.
use deevnet_provisioning_api.Prelude.{
  ◌≡◌, ◌≤◌, ◌<◌, ◌+◌, refl, true, false, not, ◌||◌, Option, none, some, List, is_empty, Text, codes,
  text_eq, ok, >>=-eq-ok, refuse_if, arith, ℕ,
}
use deevnet_provisioning_api.Registry.{Certificate}
use deevnet_provisioning_api.Certificates.{Signed, Block, Csr, Leaf, X509}
use deevnet_provisioning_api.Certificates.Checks.{
  max_lifetime, serves_alone, fingerprint_of, same_names, first_of, key_passes, read_request,
  request_block, parse_certificate_request, clean_chain, check_leaf, certificate_of, read_leaf,
  signed_block, check_signed,
}

module _ (x : X509) where
  -- The text is one PEM block of the kind, with these bytes.
  pub record IsBlock (text kind bytes : Text) : Type 0 where
    pub block : Block
    pub rest : Text
    pub decoded : x.decode text ≡ some (block, rest)
    pub of_kind : text_eq block.kind kind ≡ true
    pub alone : x.blank rest ≡ true
    pub holds : block.bytes ≡ bytes

  -- The text is a request that its own key has signed; what is sent on is that request, and the
  -- fingerprint is that key's.
  pub record IsRequest (text sent fingerprint : Text) : Type 0 where
    pub bytes : Text
    pub csr : Csr
    pub read : IsBlock text (codes "CERTIFICATE REQUEST") bytes
    pub parsed : x.parse_request bytes ≡ some csr
    pub by_key : csr.signed_by_key ≡ true
    pub strong : key_passes csr.key ≡ true
    pub again : sent ≡ x.encode (record { kind = codes "CERTIFICATE REQUEST"; bytes = csr.raw })
    pub of_key : fingerprint ≡ fingerprint_of x csr.key_info

  -- The leaf has the key and the names, serves and does nothing else, and is neither over nor long.
  pub record IsAsked (leaf : Leaf) (names : List Text) (fingerprint : Text) (now : ℕ) : Type 0 where
    pub key : text_eq (fingerprint_of x leaf.key_info) fingerprint ≡ true
    pub same : same_names leaf.dns_names names ≡ true
    pub common : text_eq leaf.common_name (first_of names) ≡ true
    pub addresses : is_empty leaf.ip_addresses ≡ true
    pub uris : is_empty leaf.uris ≡ true
    pub emails : is_empty leaf.email_addresses ≡ true
    pub leaf_only : leaf.is_ca ≡ false
    pub usage : serves_alone leaf.usages ≡ true
    pub no_more_usage : is_empty leaf.unknown_usages ≡ true
    pub signs_nothing : leaf.may_sign ≡ false
    pub fresh : now < leaf.not_after
    pub short : leaf.not_after ≤ leaf.not_before + max_lifetime

  -- The certificate is made from the leaf that the signer's text parses to, and that leaf is as it
  -- was asked for.
  pub record IsSigned (signed : Signed) (names : List Text) (fingerprint : Text) (now : ℕ)
      (cert : Certificate) : Type 0 where
    pub bytes : Text
    pub leaf : Leaf
    pub clean : Text
    pub read : IsBlock signed.certificate (codes "CERTIFICATE") bytes
    pub parsed : x.parse_certificate bytes ≡ some leaf
    pub asked : IsAsked leaf names fingerprint now
    pub chain : clean_chain x signed.chain ≡ ok clean
    pub made : cert ≡ certificate_of x leaf names fingerprint clean

  read_request-IsRequest :
      (text sent fingerprint : Text) (block : Block) (rest : Text) (csr : Option Csr)
      → x.decode text ≡ some (block, rest)
      → text_eq block.kind (codes "CERTIFICATE REQUEST") ≡ true
      → x.blank rest ≡ true
      → x.parse_request block.bytes ≡ csr
      → read_request x csr ≡ ok (sent, fingerprint)
      → IsRequest text sent fingerprint
  read_request-IsRequest text sent fingerprint block rest none decoded kind alone parsed h =
      absurd (cc)
  read_request-IsRequest text sent fingerprint block rest (some csr) decoded kind alone parsed h =
      let (d, by_key, h₁) = >>=-eq-ok (refuse_if (not csr.signed_by_key) _) _ h in
      let (d₁, strong, h₂) = >>=-eq-ok (refuse_if (not (key_passes csr.key)) _) _ h₁ in
      record {
        bytes = block.bytes;
        csr = csr;
        read = record {
          block = block;
          rest = rest;
          decoded = decoded;
          of_kind = kind;
          alone = alone;
          holds = refl;
        };
        parsed = parsed;
        by_key = ground arith;
        strong = ground arith;
        again = cc;
        of_key = cc;
      }

  request_block-IsRequest :
      (text sent fingerprint : Text) (block : Option (Block × Text))
      → x.decode text ≡ block
      → request_block x block ≡ ok (sent, fingerprint)
      → IsRequest text sent fingerprint
  request_block-IsRequest text sent fingerprint none decoded h = absurd (cc)
  request_block-IsRequest text sent fingerprint (some (block, rest)) decoded h =
      let (d, kind, h₁) =
        >>=-eq-ok (refuse_if (not (text_eq block.kind (codes "CERTIFICATE REQUEST"))) _) _ h in
      let (d₁, alone, h₂) = >>=-eq-ok (refuse_if (not (x.blank rest)) _) _ h₁ in
      read_request-IsRequest text sent fingerprint block rest _ decoded (ground arith)
        (ground arith) refl h₂

  pub parse_certificate_request-IsRequest :
      (text sent fingerprint : Text)
      → parse_certificate_request x text ≡ ok (sent, fingerprint)
      → IsRequest text sent fingerprint
  unfolding parse_certificate_request
  parse_certificate_request-IsRequest text sent fingerprint h =
      request_block-IsRequest text sent fingerprint _ refl h

  check_leaf-IsAsked :
      (leaf : Leaf) (names : List Text) (fingerprint : Text) (now : ℕ)
      → check_leaf x leaf names fingerprint now ≡ ok tt
      → IsAsked leaf names fingerprint now
  unfolding check_leaf
  check_leaf-IsAsked leaf names fingerprint now h = ground arith

  read_leaf-IsSigned :
      (signed : Signed) (names : List Text) (fingerprint : Text) (now : ℕ) (cert : Certificate)
      (bytes : Text) (leaf : Option Leaf)
      → IsBlock signed.certificate (codes "CERTIFICATE") bytes
      → x.parse_certificate bytes ≡ leaf
      → read_leaf x signed.chain names fingerprint now leaf ≡ ok cert
      → IsSigned signed names fingerprint now cert
  read_leaf-IsSigned signed names fingerprint now cert bytes none read parsed h = absurd (cc)
  read_leaf-IsSigned signed names fingerprint now cert bytes (some leaf) read parsed h =
      let (d, passed, h₁) = >>=-eq-ok (check_leaf x leaf names fingerprint now) _ h in
      let (clean, c, h₂) = >>=-eq-ok (clean_chain x signed.chain) _ h₁ in
      record {
        bytes = bytes;
        leaf = leaf;
        clean = clean;
        read = read;
        parsed = parsed;
        asked = check_leaf-IsAsked leaf names fingerprint now passed;
        chain = c;
        made = cc;
      }

  signed_block-IsSigned :
      (signed : Signed) (names : List Text) (fingerprint : Text) (now : ℕ) (cert : Certificate)
      (block : Option (Block × Text))
      → x.decode signed.certificate ≡ block
      → signed_block x signed.chain names fingerprint now block ≡ ok cert
      → IsSigned signed names fingerprint now cert
  signed_block-IsSigned signed names fingerprint now cert none decoded h = absurd (cc)
  signed_block-IsSigned signed names fingerprint now cert (some (block, rest)) decoded h =
      let (d, one, h₁) =
        >>=-eq-ok
          (refuse_if (not (text_eq block.kind (codes "CERTIFICATE")) || not (x.blank rest)) _) _
          h in
      read_leaf-IsSigned signed names fingerprint now cert block.bytes _
        (record {
          block = block;
          rest = rest;
          decoded = decoded;
          of_kind = ground arith;
          alone = ground arith;
          holds = refl;
        })
        refl h₁

  pub check_signed-IsSigned :
      (signed : Signed) (names : List Text) (fingerprint : Text) (now : ℕ) (cert : Certificate)
      → check_signed x signed names fingerprint now ≡ ok cert
      → IsSigned signed names fingerprint now cert
  unfolding check_signed
  check_signed-IsSigned signed names fingerprint now cert h =
      signed_block-IsSigned signed names fingerprint now cert _ refl h
