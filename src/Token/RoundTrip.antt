-- ===== src/Token/RoundTrip.antt =====
-- The tokens that verify are those that were issued.
use deevnet_provisioning_api.Prelude.{
  ◌≡◌, ◌≢◌, ◌↔◌, refl, sym, ap, ◌∙◌, true, false, some, List, [], ◌∷◌, ◌++◌, Text, text_eq_iff,
  text_eq_refl, contains, split, split-append, split_free, join, join-split, split-All_free, All,
  arith, subst,
}
use deevnet_provisioning_api.Names.{valid_name, is_name_byte, is_lower, is_digit}
use deevnet_provisioning_api.Names.Laws.{valid_name-free}
use deevnet_provisioning_api.Token.{token_version, mac, issue, check_parts, verify}

-- A nonce as the code makes it: some bytes of base64, with no dot.
pub record IsNonce (nonce : Text) : Type 0 where
  pub some_bytes : nonce ≢ []
  pub no_dot : contains b'.' nonce ≡ false

module _ (hmac : Text → Text → Text) (key : Text)
    (hmac-free : (k m : Text) → contains b'.' (hmac k m) ≡ false) where
  split-issue :
      (name nonce : Text)
      → valid_name name ≡ true
      → contains b'.' nonce ≡ false
      → split b'.' (issue hmac key name nonce)
        ≡ token_version ∷ name ∷ nonce ∷ mac hmac key name nonce ∷ []
  unfolding issue mac is_name_byte is_lower is_digit
  split-issue name nonce named no_dot =
      rw
        (split-append b'.' token_version (name ++ b'.' ∷ (nonce ++ b'.' ∷ mac hmac key name nonce))
          (unfold contains in refl))
        (rw
          (split-append b'.' name (nonce ++ b'.' ∷ mac hmac key name nonce)
            (valid_name-free b'.' name refl named))
          (rw (split-append b'.' nonce (mac hmac key name nonce) no_dot)
            (rw (split_free b'.' (mac hmac key name nonce) (hmac-free key _)) refl)))

  check_parts-issued :
      (name nonce : Text)
      → valid_name name ≡ true
      → nonce ≢ []
      → check_parts hmac key (token_version ∷ name ∷ nonce ∷ mac hmac key name nonce ∷ [])
        ≡ some name
  unfolding check_parts
  check_parts-issued name [] named some_bytes = absurd (some_bytes refl)
  check_parts-issued name (c ∷ s) named some_bytes =
      ground (arith, text_eq_refl token_version, text_eq_refl (mac hmac key name (c ∷ s)))

  pub verify-issue :
      (name nonce : Text)
      → valid_name name ≡ true
      → IsNonce nonce
      → verify hmac key (issue hmac key name nonce) ≡ some name
  unfolding verify
  verify-issue name nonce named i =
      rw (split-issue name nonce named i.no_dot) (check_parts-issued name nonce named i.some_bytes)

-- What the parts of a token that verifies are.
record IsIssued (hmac : Text → Text → Text) (key name : Text) (parts : List Text) : Type 0 where
  nonce : Text
  named : valid_name name ≡ true
  some_bytes : nonce ≢ []
  spelled : parts ≡ token_version ∷ name ∷ nonce ∷ mac hmac key name nonce ∷ []

check_parts-IsIssued :
    (hmac : Text → Text → Text) (key : Text) (parts : List Text) (name : Text)
    → check_parts hmac key parts ≡ some name
    → IsIssued hmac key name parts
unfolding check_parts
check_parts-IsIssued hmac key (v ∷ n ∷ r ∷ m ∷ []) name h = record {
  nonce = r;
  named = ground arith;
  some_bytes = ground arith;
  spelled = ground (arith, text_eq_iff v token_version, text_eq_iff m (mac hmac key n r));
}
check_parts-IsIssued hmac key _ name h = absurd (cc)

-- A token verifies for a tenant exactly when it is one that the API issues for that tenant's valid
-- name, with some nonce. The HMAC's text holds no dot, as base64 does not.
pub verify_iff :
    (hmac : Text → Text → Text) (key token name : Text)
    → ((k m : Text) → contains b'.' (hmac k m) ≡ false)
    → (verify hmac key token ≡ some name) ↔ (
        (valid_name name ≡ true)
        × ((nonce : Text) × IsNonce nonce × (token ≡ issue hmac key name nonce)))
unfolding verify
verify_iff hmac key token name hmac-free = (
  λ h.
      let i = check_parts-IsIssued hmac key (split b'.' token) name h in
      let free =
        subst (All (λ part. contains b'.' part ≡ false)) i.spelled (split-All_free b'.' token) in
      (
        i.named,
        (
          i.nonce,
          record { some_bytes = i.some_bytes; no_dot = free.1.1.0 },
          sym (join-split b'.' token) ∙ ap (join b'.') i.spelled ∙ (unfold join issue in refl),
        ),
      ),
  λ issued.
      let (named, (nonce, i, e)) = issued in
      rw e (verify-issue hmac key hmac-free name nonce named i),
)
