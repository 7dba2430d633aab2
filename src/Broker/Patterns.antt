-- ===== src/Broker/Patterns.antt =====
-- Topic filters as the API prefixes them and as the writer checks them: validPatterns,
-- validWildcards, PrefixPattern, PrefixPatterns, CheckGrant, CheckLogGrants and touchesLog of
-- internal/brokeracct/contract.go. An error's text is its constructor.
use deevnet_provisioning_api.Prelude.{
  ℕ, suc, Bool, true, false, not, ◌&&◌, ◌||◌, List, [], ◌∷◌, ◌++◌, length, is_empty, ltb, Text,
  codes, text_eq, contains, has_prefix, split, Result, Done, ok, err, ◌>>=◌, ◌>>◌, refuse_if,
  if◌then◌else◌,
}

abbrev pub max_pattern : ℕ
max_pattern = 256

abbrev pub max_patterns : ℕ
max_patterns = 32

pub data Field : Type 0 where
  publish subscribe : Field

pub data PatternFault : Type 0 where
  empty too_long leading_slash leading_dollar percent outside_prefix : PatternFault
  plus_in_level hash_in_level hash_not_last : PatternFault

pub data Refusal : Type 0 where
  wrong_version bad_tenant bad_account delete_carries_more bad_op bad_hash no_grant : Refusal
  too_many : Field → Refusal
  pattern_fault : Field → ℕ → PatternFault → Refusal
  workload_publishes_log device_publishes_other_log device_subscribes_log : Refusal

abbrev pub plus_level : Text
plus_level = b'+' ∷ []

abbrev pub hash_level : Text
hash_level = b'#' ∷ []

abbrev pub log_level : Text
log_level = codes "log"

-- The loop of validWildcards. `i != len(levels)-1` is that levels are left.
unfoldable pub check_levels : List Text → Result PatternFault Done
check_levels [] = ok tt
check_levels (level ∷ levels) =
    let rest = check_levels levels in
    if contains b'+' level && not (text_eq level plus_level)
    then err plus_in_level
    else if contains b'#' level
    then (if not (text_eq level hash_level)
        then err hash_in_level
        else if not (is_empty levels)
        then err hash_not_last
        else rest)
    else rest

unfoldable pub valid_wildcards : Text → Result PatternFault Done
valid_wildcards pat = check_levels (split b'/' pat)

-- `fmt.Errorf("%s pattern %d: %w", field, i+1, err)`
abbrev pub located {ℓ} : {A : Type ℓ} → Field → ℕ → Result PatternFault A → Result Refusal A
located field i (ok a) = ok a
located field i (err fault) = err (pattern_fault field (suc i) fault)

-- The body of the loop of validPatterns.
unfoldable pub check_pattern : Text → Text → Result PatternFault Done
check_pattern prefix p = do
  refuse_if (is_empty p) empty
  refuse_if (ltb max_pattern (length p)) too_long
  refuse_if (not (has_prefix p prefix)) outside_prefix
  refuse_if (contains b'%' p) percent
  valid_wildcards p

unfoldable pub check_from : Field → ℕ → Text → List Text → Result Refusal Done
check_from field i prefix [] = ok tt
check_from field i prefix (p ∷ pats) = do
  located field i (check_pattern prefix p)
  check_from field (suc i) prefix pats

unfoldable pub valid_patterns : Field → List Text → Text → Result Refusal Done
valid_patterns field pats prefix = do
  refuse_if (ltb max_patterns (length pats)) (too_many field)
  check_from field 0 prefix pats

unfoldable pub check_grant : List Text → List Text → Result Refusal Done
check_grant pubs subs = refuse_if (is_empty pubs && is_empty subs) no_grant

unfoldable pub prefix_pattern : Text → Text → Result PatternFault Text
prefix_pattern tenant relative = do
  refuse_if (is_empty relative) empty
  refuse_if (ltb max_pattern (length relative)) too_long
  refuse_if (has_prefix relative (b'/' ∷ [])) leading_slash
  refuse_if (has_prefix relative (b'$' ∷ [])) leading_dollar
  refuse_if (contains b'%' relative) percent
  let absolute = tenant ++ b'/' ∷ relative
  valid_wildcards absolute
  ok absolute

unfoldable pub prefix_from : Text → Field → ℕ → List Text → Result Refusal (List Text)
prefix_from tenant field i [] = ok []
prefix_from tenant field i (relative ∷ relatives) = do
  absolute ← located field i (prefix_pattern tenant relative)
  rest ← prefix_from tenant field (suc i) relatives
  ok (absolute ∷ rest)

unfoldable pub prefix_patterns : Text → Field → List Text → Result Refusal (List Text)
prefix_patterns tenant field relatives = do
  refuse_if (ltb max_patterns (length relatives)) (too_many field)
  prefix_from tenant field 0 relatives

-- The loop of touchesLog over the levels that are wanted.
unfoldable pub touches_levels : List Text → List Text → Bool
touches_levels levels [] = true
touches_levels [] (want ∷ wants) = false
touches_levels (level ∷ levels) (want ∷ wants) =
    let rest = touches_levels levels wants in
    if text_eq level hash_level
    then true
    else if text_eq level plus_level || text_eq level want
    then rest
    else false

unfoldable pub touches_log : Text → Text → Bool
touches_log tenant filter = touches_levels (split b'/' filter) (tenant ∷ log_level ∷ [])

-- <tenant>/log/<device>
unfoldable pub own_log_topic : Text → Text → Text
own_log_topic tenant device = tenant ++ b'/' ∷ (log_level ++ b'/' ∷ device)

unfoldable pub check_log_publish : Text → Text → List Text → Result Refusal Done
check_log_publish tenant device [] = ok tt
check_log_publish tenant device (p ∷ pubs) =
    let rest = check_log_publish tenant device pubs in
    if not (touches_log tenant p)
    then rest
    else if is_empty device
    then err workload_publishes_log
    else if text_eq p (own_log_topic tenant device)
    then rest
    else err device_publishes_other_log

unfoldable pub check_log_subscribe : Text → Text → List Text → Result Refusal Done
check_log_subscribe tenant device [] = ok tt
check_log_subscribe tenant device (s ∷ subs) =
    let rest = check_log_subscribe tenant device subs in
    if not (touches_log tenant s)
    then rest
    else if not (is_empty device)
    then err device_subscribes_log
    else rest

unfoldable pub check_log_grants : Text → Text → List Text → List Text → Result Refusal Done
check_log_grants tenant device pubs subs = do
  check_log_publish tenant device pubs
  check_log_subscribe tenant device subs
