-- ===== src/Lifecycle/Validate.antt =====
-- What a create is checked for: CreateRequest's methods and validateCreate of
-- internal/tenant/service.go.
use deevnet_provisioning_api.Prelude.{
  ℕ, Bool, true, not, ◌&&◌, ◌||◌, Option, none, some, length, is_empty, ltb, is_zero, within,
  Result, Done, refuse_if, ◌>>◌,
}
use deevnet_provisioning_api.Names.{valid_name, reserved}
use deevnet_provisioning_api.Site.{min_index, max_allocatable}
use deevnet_provisioning_api.Registry.{
  bad_name, reserved_name, bad_index, some_secrets, bad_tsig_secret, bad_state_secret, Error,
  invalid,
}
use deevnet_provisioning_api.Lifecycle.{CreateRequest}
use deevnet_provisioning_api.Lifecycle.Base64.{decoded_length}

unfoldable pub supplies_secrets : CreateRequest → Bool
supplies_secrets r =
    not (is_empty r.tsig_secret) || (not (is_empty r.state_secret) || not (is_empty r.api_token))

unfoldable pub supplies_all_secrets : CreateRequest → Bool
supplies_all_secrets r =
    not (is_empty r.tsig_secret) && (not (is_empty r.state_secret) && not (is_empty r.api_token))

-- `err != nil || len(raw) < 16`
abbrev pub too_few_bytes : Option ℕ → Bool
too_few_bytes none = true
too_few_bytes (some n) = ltb n 16

unfoldable pub validate_create : CreateRequest → Result Error Done
unfolding supplies_secrets supplies_all_secrets
validate_create r = do
  refuse_if (not (valid_name r.name)) (invalid bad_name)
  refuse_if (reserved r.name) (invalid reserved_name)
  refuse_if (not (is_zero r.index) && not (within min_index max_allocatable r.index))
      (invalid bad_index)
  refuse_if (supplies_secrets r && not (supplies_all_secrets r)) (invalid some_secrets)
  refuse_if (not (is_empty r.tsig_secret) && too_few_bytes (decoded_length r.tsig_secret))
      (invalid bad_tsig_secret)
  refuse_if
      (not (is_empty r.state_secret)
        && (ltb (length r.state_secret) 8 || ltb 40 (length r.state_secret)))
      (invalid bad_state_secret)
