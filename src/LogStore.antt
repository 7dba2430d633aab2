-- ===== src/LogStore.antt =====
-- The wire contract of the log store's users: internal/logauth/contract.go.
pub mod Users
mod Tests
use deevnet_provisioning_api.Prelude.{
  ℕ, Bool, true, false, not, ◌&&◌, ◌||◌, List, [], ◌∷◌, ◌++◌, length, all, is_empty, ltb, leb, Text,
  codes, text_eq, ℤ, within, Result, Done, ok, err, ◌>>=◌, ◌>>◌, refuse_if, ◌==◌, if◌then◌else◌,
}
use deevnet_provisioning_api.Names.{valid_name, is_lower, is_digit}

abbrev pub version : ℕ
version = 1

abbrev pub min_token_len : ℕ
min_token_len = 32

abbrev pub max_token_len : ℕ
max_token_len = 128

abbrev pub max_index : ℕ
max_index = 63

pub data Refusal : Type 0 where
  wrong_version bad_op bad_tenant bad_index delete_carries_tokens same_token : Refusal
  token_short token_long token_bytes : Bool → Refusal

pub record Request : Type 0 where
  pub version : ℕ
  pub op : Text
  pub tenant : Text
  pub index : ℤ
  pub ingest_token : Text
  pub read_token : Text

-- [A-Za-z0-9._~-]
unfoldable pub is_token_byte : ℕ → Bool
is_token_byte c =
    is_lower c
    || (leb b'A' c && leb c b'Z'
        || (is_digit c || (c == b'.' || (c == b'_' || (c == b'~' || c == b'-')))))

-- validToken, for the ingest token or the read token. Its last test, for white space at the ends,
-- is of bytes that the pattern before it refuses.
unfoldable pub valid_token : Bool → Text → Result Refusal Done
valid_token ingest tok = do
  refuse_if (ltb (length tok) min_token_len) (token_short ingest)
  refuse_if (ltb max_token_len (length tok)) (token_long ingest)
  refuse_if (not (all is_token_byte tok)) (token_bytes ingest)

unfoldable pub validate_tokens : Request → Result Refusal Done
validate_tokens r = do
  valid_token true r.ingest_token
  valid_token false r.read_token
  refuse_if (text_eq r.ingest_token r.read_token) same_token

unfoldable pub validate_op : Request → Result Refusal Done
validate_op r =
    if text_eq r.op (codes "delete")
    then refuse_if (not (is_empty r.ingest_token) || not (is_empty r.read_token))
        delete_carries_tokens
    else validate_tokens r

unfoldable pub validate : Request → Result Refusal Done
validate r = do
  refuse_if (not (r.version == version)) wrong_version
  refuse_if (not (text_eq r.op (codes "put") || text_eq r.op (codes "delete"))) bad_op
  refuse_if (not (valid_name r.tenant)) bad_tenant
  refuse_if (not (within 1 max_index r.index)) bad_index
  validate_op r

-- A partition of the log store: an account and a project.
abbrev pub Partition : Type 0
Partition = ℤ × ℕ

unfoldable pub ingest_partition : Request → Partition
ingest_partition r = (r.index, 0)

unfoldable pub read_partitions : Request → List Partition
read_partitions r = (r.index, 0) ∷ (r.index, 1) ∷ (r.index, 2) ∷ []

unfoldable pub device_partition : Request → Partition
device_partition r = (r.index, 2)

unfoldable pub ingest_user : Request → Text
ingest_user r = codes "ingest-" ++ r.tenant

unfoldable pub read_user : Request → Text
read_user r = codes "read-" ++ r.tenant
