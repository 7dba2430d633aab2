-- ===== src/Certificates/Issued.antt =====
-- What a certificate that PutCertificate of internal/tenant/certificates.go has issued comes from:
-- the request, the signer's answer and the leaf in it.
use deevnet_provisioning_api.Prelude.{◌≡◌, refl, sym, subst, some, List, All, Text, codes, ok}
use deevnet_provisioning_api.Calls.{returns}
use deevnet_provisioning_api.Registry.{Certificate}
use deevnet_provisioning_api.Certificates.{CertificateRequest, Signed, Signer, Leaf, Issuer}
use deevnet_provisioning_api.Certificates.Checks.{
  certificate_labels, certificate_sites, certificate_names, clean_chain, certificate_of,
}
use deevnet_provisioning_api.Certificates.Asked.{IsBlock, IsRequest, IsAsked, IsSigned}
use deevnet_provisioning_api.Certificates.Named.{
  IsOwn, certificate_labels-IsLabel, certificate_sites-IsServed, certificate_names-IsOwn,
  same_names-All,
}

module _ {W : Type 0} (at : Issuer W) where
  -- The signer of the site has answered so, asked for these names.
  pub record Came (sent : Text) (names : List Text) (signed : Signed) : Type 0 where
    pub signer : Signer W
    pub the_signer : at.signer ≡ some signer
    pub before : W
    pub after : W
    pub answered : signer.sign_server sent names before ≡ returns signed after

module _ {W : Type 0} (at : Issuer W) (tenant : Text) (r : CertificateRequest) where
  -- The names are those that the request asks for, of the tenant, and the request is one that its
  -- own key has signed.
  pub record IsWanted (name : Text) (names : List Text) (sent fingerprint : Text) : Type 0 where
    pub labels : List Text
    pub sites : List Text
    pub labelled : certificate_labels name r.names ≡ ok labels
    pub served : certificate_sites at.service.site r.sites ≡ ok sites
    pub named : names ≡ certificate_names at.service.site tenant labels sites
    pub request : IsRequest at.x509 r.csr sent fingerprint

  -- The certificate is what the signer has answered to the request: it is made from the leaf that
  -- the answer parses to, which is as it was asked for at some instant of the clock, and which names
  -- nothing but the tenant's own names.
  pub record IsProper (name : Text) (cert : Certificate) : Type 0 where
    pub sent : Text
    pub fingerprint : Text
    pub wanted : IsWanted name cert.names sent fingerprint
    pub signed : Signed
    pub came : Came at sent cert.names signed
    pub at_world : W
    pub bytes : Text
    pub leaf : Leaf
    pub read : IsBlock at.x509 signed.certificate (codes "CERTIFICATE") bytes
    pub parsed : at.x509.parse_certificate bytes ≡ some leaf
    pub asked : IsAsked at.x509 leaf cert.names fingerprint (at.now at_world)
    pub own : All (IsOwn at.service.site tenant) leaf.dns_names
    pub chain : clean_chain at.x509 signed.chain ≡ ok cert.chain
    pub made : cert ≡ record (certificate_of at.x509 leaf cert.names fingerprint cert.chain) {
      tenant = tenant;
      name = name;
    }

  wanted-IsOwn :
      (name sent fingerprint : Text) (names : List Text)
      → IsWanted name names sent fingerprint
      → All (IsOwn at.service.site tenant) names
  wanted-IsOwn name sent fingerprint names w =
      subst (λ (l : List Text). All (IsOwn at.service.site tenant) l) (sym w.named)
        (certificate_names-IsOwn at.service.site tenant w.labels w.sites
          (certificate_labels-IsLabel name r.names w.labels w.labelled)
          (certificate_sites-IsServed at.service.site r.sites w.sites w.served))

  pub signed-IsProper :
      (name sent fingerprint : Text) (names : List Text) (signed : Signed) (w : W)
      (cert : Certificate)
      → IsWanted name names sent fingerprint
      → Came at sent names signed
      → IsSigned at.x509 signed names fingerprint (at.now w) cert
      → IsProper name (record cert { tenant = tenant; name = name })
  signed-IsProper name sent fingerprint names signed w cert wanted came is =
      subst (λ (c : Certificate). IsProper name (record c { tenant = tenant; name = name }))
        (sym is.made)
        (record {
          sent = sent;
          fingerprint = fingerprint;
          wanted = wanted;
          signed = signed;
          came = came;
          at_world = w;
          bytes = is.bytes;
          leaf = is.leaf;
          read = is.read;
          parsed = is.parsed;
          asked = is.asked;
          own =
              same_names-All _ is.leaf.dns_names names is.asked.same
                (wanted-IsOwn name sent fingerprint names wanted);
          chain = is.chain;
          made = refl;
        })
