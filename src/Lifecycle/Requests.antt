-- ===== src/Lifecycle/Requests.antt =====
-- The secrets that a create is given: secretsFor, logTokens and randomHex of
-- internal/tenant/service.go.
use deevnet_provisioning_api.Prelude.{
  ℕ, zero, suc, List, [], ◌∷◌, ◌++◌, Text, hex_byte, if◌then◌else◌,
}
use deevnet_provisioning_api.Token.{issue}
use deevnet_provisioning_api.Calls.{Call, give, ◌>>=◌}
use deevnet_provisioning_api.Registry.{Error, Secrets, no_secrets, State, outside}
use deevnet_provisioning_api.Lifecycle.{CreateRequest, Issued, Service}
use deevnet_provisioning_api.Lifecycle.Base64.{encode, encode_url}
use deevnet_provisioning_api.Lifecycle.Validate.{supplies_all_secrets}

-- The first bytes of what rand.Read writes.
abbrev pub first_bytes : ℕ → (ℕ → ℕ) → List ℕ
first_bytes zero bytes = []
first_bytes (suc n) bytes = bytes 0 ∷ first_bytes n (λ i. bytes (suc i))

-- hex.EncodeToString
unfoldable pub hex_text : List ℕ → Text
hex_text [] = []
hex_text (b ∷ bytes) = hex_byte b ++ hex_text bytes

module _ {W : Type 0} (sv : Service W) where
  unfoldable pub random_hex : ℕ → Call Error (State W) Text
  random_hex n = do bytes ← outside sv.random; give (hex_text (first_bytes n bytes))

  unfoldable pub log_tokens : Call Error (State W) (Text × Text)
  log_tokens = do ingest ← random_hex 32; read ← random_hex 32; give (ingest, read)

  -- HashToken
  unfoldable pub hash_token : Text → Text
  hash_token token = sv.sha256 token

  -- Tokens.Issue, with its random nonce
  unfoldable pub issue_token : Text → Call Error (State W) Text
  issue_token name = do
    bytes ← outside sv.random
    give (issue sv.hmac sv.token_key name (encode_url (first_bytes 24 bytes)))

  abbrev pub issued_pair : Text → Text → Text → Text → Text → Issued × Secrets
  issued_pair ingest read tsig state token = (
    record {
      log_ingest_token = ingest;
      log_read_token = read;
      dashboard_password = [];
      tsig_secret = tsig;
      state_secret = state;
      api_token = token;
    },
    record no_secrets {
      tsig = tsig;
      state = state;
      api_token_hash = hash_token token;
      log_ingest = ingest;
      log_read = read;
    },
  )

  -- What secretsFor generates where the request brings none.
  unfoldable pub minted : Text → Text → Text → Call Error (State W) (Issued × Secrets)
  minted name ingest read = do
    tsig_raw ← outside sv.random
    state ← random_hex 20
    token ← issue_token name
    give (issued_pair ingest read (encode (first_bytes 32 tsig_raw)) state token)

  unfoldable pub secrets_for : CreateRequest → Call Error (State W) (Issued × Secrets)
  secrets_for r = do
    (ingest, read) ← log_tokens
    if supplies_all_secrets r
        then give (issued_pair ingest read r.tsig_secret r.state_secret r.api_token)
        else minted r.name ingest read
