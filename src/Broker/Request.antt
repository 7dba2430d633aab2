-- ===== src/Broker/Request.antt =====
-- A request to the account writer and its validation: Request, Username, Prefix, Validate and
-- validHash of internal/brokeracct/contract.go.
use deevnet_provisioning_api.Prelude.{
  ℕ, not, ◌||◌, List, [], ◌∷◌, ◌++◌, length, is_empty, Text, codes, text_eq, has_prefix, Result,
  Done, err, ◌>>◌, refuse_if, ◌==◌, if◌then◌else◌,
}
use deevnet_provisioning_api.Names.{valid_name, valid_workload_name}
use deevnet_provisioning_api.Broker.Patterns.{
  Refusal, wrong_version, bad_tenant, bad_account, delete_carries_more, bad_op, bad_hash, publish,
  subscribe, check_grant, valid_patterns,
}

abbrev pub version : ℕ
version = 1

abbrev pub bcrypt_len : ℕ
bcrypt_len = 60

pub record Request : Type 0 where
  pub version : ℕ
  pub op : Text
  pub tenant : Text
  pub account : Text
  pub password_hash : Text
  pub publish : List Text
  pub subscribe : List Text

unfoldable pub username : Request → Text
username r = r.tenant ++ b'-' ∷ r.account

unfoldable pub prefix : Request → Text
prefix r = r.tenant ++ b'/' ∷ []

unfoldable pub valid_hash : Text → Result Refusal Done
valid_hash h =
    refuse_if (not (length h == bcrypt_len) || not (has_prefix h (codes "$2a$"))) bad_hash

unfoldable pub validate_delete : Request → Result Refusal Done
validate_delete r =
    refuse_if
      (not (is_empty r.password_hash) || (not (is_empty r.publish) || not (is_empty r.subscribe)))
      delete_carries_more

unfoldable pub validate_put : Request → Result Refusal Done
validate_put r = do
  valid_hash r.password_hash
  check_grant r.publish r.subscribe
  valid_patterns publish r.publish (prefix r)
  valid_patterns subscribe r.subscribe (prefix r)

unfoldable pub validate_op : Request → Result Refusal Done
validate_op r =
    if text_eq r.op (codes "delete")
    then validate_delete r
    else if text_eq r.op (codes "put")
    then validate_put r
    else err bad_op

unfoldable pub validate : Request → Result Refusal Done
validate r = do
  refuse_if (not (r.version == version)) wrong_version
  refuse_if (not (valid_name r.tenant)) bad_tenant
  refuse_if (not (valid_workload_name r.account)) bad_account
  validate_op r
