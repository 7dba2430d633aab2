-- ===== src/LogStore/Tests.antt =====
-- Requests to the log store's writer.
use deevnet_provisioning_api.Prelude.{◌≡◌, ◌≢◌, refl, Text, codes, text_eq, ℤ, pos, negsuc, ok, err}
use deevnet_provisioning_api.Names.{valid_name, is_name_byte, is_lower, is_digit}
use deevnet_provisioning_api.LogStore.{
  Request, is_token_byte, valid_token, validate_tokens, validate_op, validate, bad_index,
  same_token, ingest_user, read_user,
}
use deevnet_provisioning_api.LogStore.Users.{IsUserPair, validate-IsUserPair, users_injective}

validation : Unit {0}
unfolding valid_name is_name_byte is_lower is_digit text_eq is_token_byte valid_token
    validate_tokens validate_op validate
validation = tt

abbrev put_request : ℤ → Text → Text → Request
put_request index ingest read = record {
  version = 1;
  op = codes "put";
  tenant = codes "eds";
  index = index;
  ingest_token = ingest;
  read_token = read;
}

abbrev token_a : Text
token_a = codes "0123456789abcdef0123456789abcdef"

abbrev token_b : Text
token_b = codes "fedcba9876543210fedcba9876543210"

verdicts :
    (validate (put_request (pos 7) token_a token_b) ≡ ok tt)
    × (validate (put_request (pos 0) token_a token_b) ≡ err bad_index)
    × (validate (put_request (negsuc 0) token_a token_b) ≡ err bad_index)
    × (validate (put_request (pos 7) token_a token_a) ≡ err same_token)
unfolding validation
verdicts = (refl, refl, refl, refl)

validate-IsUserPair_example : IsUserPair (put_request (pos 7) token_a token_b)
validate-IsUserPair_example =
    validate-IsUserPair (put_request (pos 7) token_a token_b) refl verdicts.0

abbrev eds_request : Request
eds_request = put_request (pos 7) token_a token_b

users_injective_example :
    (ingest_user eds_request ≡ ingest_user eds_request → codes "eds" ≡ codes "eds")
    × (read_user eds_request ≡ read_user eds_request → codes "eds" ≡ codes "eds")
    × (ingest_user eds_request ≢ read_user eds_request)
users_injective_example = users_injective eds_request eds_request
