-- ===== src/Token.antt =====
-- Tenant API tokens: internal/tenant/token.go. HMAC-SHA256 and its base64 spelling are the
-- parameter `hmac`, from the key and the message to the text; the random nonce is an argument.
pub mod RoundTrip
mod Tests
use deevnet_provisioning_api.Prelude.{
  ℕ, Bool, not, ◌&&◌, Option, none, some, List, [], ◌∷◌, ◌++◌, length, is_empty, ltb, Text, codes,
  text_eq, split, if◌then◌else◌,
}
use deevnet_provisioning_api.Names.{valid_name}

abbrev pub token_version : Text
token_version = codes "dvt1"

-- NewTokens: `none` is its error.
unfoldable pub new_tokens : Text → Option Text
new_tokens key = if ltb (length key) 32 then none else some key

module _ (hmac : Text → Text → Text) (key : Text) where
  unfoldable pub mac : Text → Text → Text
  mac name nonce = hmac key (token_version ++ b'.' ∷ (name ++ b'.' ∷ nonce))

  unfoldable pub issue : Text → Text → Text
  issue name nonce = token_version ++ b'.' ∷ (name ++ b'.' ∷ (nonce ++ b'.' ∷ mac name nonce))

  -- The tests on the parts of the token.
  unfoldable pub check_parts : List Text → Option Text
  check_parts (version ∷ name ∷ nonce ∷ sum ∷ []) =
      if text_eq version token_version
        && (valid_name name && (not (is_empty nonce) && text_eq sum (mac name nonce)))
      then some name
      else none
  check_parts _ = none

  unfoldable pub verify : Text → Option Text
  verify token = check_parts (split b'.' token)
