-- ===== src/Lifecycle/Restore.antt =====
-- What a create issues can be brought back: the secrets of the first answer restore the tenant.
use deevnet_provisioning_api.Prelude.{
  ℕ, zero, suc, ◌+◌, ◌≡◌, refl, sym, ap, ◌∙◌, true, false, not, ◌&&◌, ◌||◌, some, List, [], ◌∷◌,
  length, is_empty, split, contains, Text, text_eq_iff, ℤ, is_zero, within, hex_byte, ok, arith,
}
use deevnet_provisioning_api.Names.{valid_name, reserved}
use deevnet_provisioning_api.Token.{check_parts, verify}
use deevnet_provisioning_api.Token.RoundTrip.{verify_iff}
use deevnet_provisioning_api.Calls.{returns}
use deevnet_provisioning_api.Calls.Laws.{bind-eq-returns, give-eq-returns}
use deevnet_provisioning_api.Registry.{Secrets, State}
use deevnet_provisioning_api.Lifecycle.{CreateRequest, Issued, Service}
use deevnet_provisioning_api.Lifecycle.Base64.{
  encode_url, without_breaks, quanta, decoded_length, decoded_length-encode, encode_url-free,
}
use deevnet_provisioning_api.Lifecycle.Validate.{
  supplies_secrets, supplies_all_secrets, validate_create,
}
use deevnet_provisioning_api.Lifecycle.Requests.{
  first_bytes, hex_text, random_hex, issue_token, minted,
}
use deevnet_provisioning_api.Lifecycle.Create.{foreign}

length-hex_text : (bytes : List ℕ) → length (hex_text bytes) ≡ length bytes + length bytes
unfolding hex_text hex_byte
length-hex_text [] = refl
length-hex_text (b ∷ bytes) = omega (arith, length-hex_text bytes)

nonempty-length : (s : Text) (n : ℕ) → length s ≡ suc n → is_empty s ≡ false
nonempty-length [] n h = absurd (omega arith)
nonempty-length (c ∷ s) n h = refl

-- The request that a tenant restores itself with.
abbrev pub restore_of : Text → ℤ → Issued → CreateRequest
restore_of name index issued = record {
  name = name;
  index = index;
  tsig_secret = issued.tsig_secret;
  state_secret = issued.state_secret;
  api_token = issued.api_token;
}

-- Secrets that a restore accepts, and a token of this tenant.
record IsRestorable {W : Type 0} (sv : Service W) (name : Text) (issued : Issued) : Type 0 where
  pub tsig : decoded_length issued.tsig_secret ≡ some 32
  pub state : length issued.state_secret ≡ 40
  pub token : verify sv.hmac sv.token_key issued.api_token ≡ some name

decoded_nonempty : (s : Text) → decoded_length s ≡ some 32 → is_empty s ≡ false
unfolding decoded_length without_breaks quanta
decoded_nonempty [] h = absurd (cc)
decoded_nonempty (c ∷ s) h = refl

verified_nonempty :
    (hmac : Text → Text → Text) (key s name : Text)
    → verify hmac key s ≡ some name
    → is_empty s ≡ false
unfolding verify check_parts split
verified_nonempty hmac key [] name h = absurd (cc)
verified_nonempty hmac key (c ∷ s) name h = refl

validate-restore :
    {W : Type 0} (sv : Service W) (name : Text) (index : ℤ) (issued : Issued)
    → valid_name name ≡ true
    → reserved name ≡ false
    → (is_zero index || within 1 62 index) ≡ true
    → IsRestorable sv name issued
    → (validate_create (restore_of name index issued) ≡ ok tt)
      × (foreign sv (restore_of name index issued) ≡ false)
unfolding validate_create foreign supplies_secrets supplies_all_secrets
validate-restore sv name index issued named free in_range i =
    let index_ok : (not (is_zero index) && not (within 1 62 index)) ≡ false = ground arith in
    let some_tsig = decoded_nonempty issued.tsig_secret i.tsig in
    let some_state = nonempty-length issued.state_secret 39 i.state in
    let some_token = verified_nonempty sv.hmac sv.token_key issued.api_token name i.token in
    (
      rw (named, free, some_tsig, some_state, some_token, i.tsig, i.state, index_ok) refl,
      rw (some_token, i.token, (text_eq_iff name name).1 refl) refl,
    )

length-first_bytes : (n : ℕ) (bytes : ℕ → ℕ) → length (first_bytes n bytes) ≡ n
length-first_bytes zero bytes = refl
length-first_bytes (suc n) bytes = omega (arith, length-first_bytes n (λ i. bytes (suc i)))

module _ {W : Type 0} (sv : Service W) where
  length-random_hex :
      (n : ℕ) (s t : State W) (h : Text) → random_hex sv n s ≡ returns h t → length h ≡ n + n
  unfolding random_hex
  length-random_hex n s t h e =
      let (bytes, u, read, given) = bind-eq-returns _ _ s h t e in
      let same = give-eq-returns _ h u t given in
      rw (← same)
        (length-hex_text (first_bytes n bytes) ∙ ap (λ (k : ℕ). k + k) (length-first_bytes n bytes))

  verify-issue_token :
      (name : Text) (s t : State W) (token : Text)
      → ((k m : Text) → contains b'.' (sv.hmac k m) ≡ false)
      → valid_name name ≡ true
      → issue_token sv name s ≡ returns token t
      → verify sv.hmac sv.token_key token ≡ some name
  unfolding issue_token
  verify-issue_token name s t token free named e =
      let (bytes, u, read, given) = bind-eq-returns _ _ s token t e in
      let same = give-eq-returns _ token u t given in
      (verify_iff sv.hmac sv.token_key token name free).1 (
        named,
        (
          encode_url (first_bytes 24 bytes),
          record {
            some_bytes = (unfold encode_url in λ none_left. cc);
            no_dot = encode_url-free _;
          },
          sym same,
        ),
      )

  minted-IsRestorable :
      (name ingest read : Text) (s t : State W) (issued : Issued) (x : Secrets)
      → ((k m : Text) → contains b'.' (sv.hmac k m) ≡ false)
      → valid_name name ≡ true
      → minted sv name ingest read s ≡ returns (issued, x) t
      → IsRestorable sv name issued
  unfolding minted
  minted-IsRestorable name ingest read s t issued x free named h =
      let (raw, u, drawn, after_raw) = bind-eq-returns _ _ s (issued, x) t h in
      let (state, v, hexed, after_state) = bind-eq-returns _ _ u (issued, x) t after_raw in
      let (token, w, made, given) = bind-eq-returns _ _ v (issued, x) t after_state in
      let same = ap (λ (p : Issued × Secrets). p.0) (give-eq-returns _ (issued, x) w t given) in
      rw (← same) (record {
        tsig = decoded_length-encode (first_bytes 32 raw) ∙ ap some (length-first_bytes 32 raw);
        state = length-random_hex 20 u v state hexed;
        token = verify-issue_token name v w token free named made;
      })

  -- The secrets that a create generates for a tenant are ones that it can be restored with: for a
  -- valid name that is not reserved, and no index or one from 1 to 62, they pass the checks of a
  -- create, and the token is one that was issued for this tenant. The HMAC's text holds no dot.
  pub validate_create-minted :
      (name ingest read : Text) (index : ℤ) (s t : State W) (issued : Issued) (x : Secrets)
      → ((k m : Text) → contains b'.' (sv.hmac k m) ≡ false)
      → valid_name name ≡ true
      → reserved name ≡ false
      → (is_zero index || within 1 62 index) ≡ true
      → minted sv name ingest read s ≡ returns (issued, x) t
      → (validate_create (restore_of name index issued) ≡ ok tt)
        × (foreign sv (restore_of name index issued) ≡ false)
  validate_create-minted name ingest read index s t issued x free named unreserved in_range h =
      validate-restore sv name index issued named unreserved in_range
        (minted-IsRestorable name ingest read s t issued x free named h)
