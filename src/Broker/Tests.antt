-- ===== src/Broker/Tests.antt =====
-- Requests and grants at concrete inputs.
use deevnet_provisioning_api.Prelude.{
  ◌≡◌, ◌↔◌, refl, inl, inr, List, [], ◌∷◌, true, Text, codes, text_eq, contains, has_prefix,
  ends_in, split, ok, err, All,
}
use mathlib.Core.List.{Memᴰ}
use deevnet_provisioning_api.Names.{
  valid_name, valid_workload_name, is_label, is_label_byte, is_name_byte, is_lower, is_digit,
}
use deevnet_provisioning_api.Broker.Patterns.{
  publish, subscribe, log_level, check_levels, valid_wildcards, check_pattern, check_from,
  valid_patterns, check_grant, prefix_pattern, prefix_from, prefix_patterns, touches_levels,
  touches_log, own_log_topic, check_log_publish, check_log_subscribe, check_log_grants,
  workload_publishes_log, device_publishes_other_log, device_subscribes_log, pattern_fault,
  hash_not_last,
}
use deevnet_provisioning_api.Broker.Request.{
  Request, prefix, valid_hash, validate_delete, validate_put, validate_op, validate,
}
use deevnet_provisioning_api.Broker.Topics.{Matches, hash, same, IsPlain}
use deevnet_provisioning_api.Broker.LogSpace.{
  IsLogConfined, touches_log_iff, check_log_grants-IsLogConfined,
}
use deevnet_provisioning_api.Broker.Confinement.{validate-confines, username_injective}
use deevnet_provisioning_api.Broker.Grants.{account_patterns, put_request, put_request_accepted}
use deevnet_provisioning_api.Broker.Agreement.{all_short}

names : Unit {0}
unfolding valid_name valid_workload_name is_label is_label_byte is_name_byte is_lower is_digit
    text_eq contains has_prefix ends_in split
names = tt

filters : Unit {0}
unfolding names check_levels valid_wildcards check_pattern check_from valid_patterns check_grant
    prefix_pattern prefix_from prefix_patterns touches_levels touches_log own_log_topic
    check_log_publish check_log_subscribe check_log_grants
filters = tt

requests : Unit {0}
unfolding filters prefix valid_hash validate_delete validate_put validate_op validate
requests = tt

abbrev scene : List Text
scene = codes "lightstand/+/scene" ∷ []

prefix_scene :
    prefix_patterns (codes "eds") publish scene ≡ ok (codes "eds/lightstand/+/scene" ∷ [])
unfolding filters
prefix_scene = refl

prefix_faults :
    prefix_patterns (codes "eds") subscribe (codes "a" ∷ codes "a/#/b" ∷ [])
    ≡ err (pattern_fault subscribe 2 hash_not_last)
unfolding filters
prefix_faults = refl

log_grants :
    (check_log_grants (codes "eds") (codes "cam1") (codes "eds/log/cam1" ∷ codes "eds/x" ∷ []) []
      ≡ ok tt)
    × (check_log_grants (codes "eds") (codes "cam1") (codes "eds/+/cam1" ∷ []) []
        ≡ err device_publishes_other_log)
    × (check_log_grants (codes "eds") (codes "cam1") [] (codes "eds/#" ∷ [])
        ≡ err device_subscribes_log)
    × (check_log_grants (codes "eds") [] (codes "eds/log/cam1" ∷ []) []
        ≡ err workload_publishes_log)
    × (check_log_grants (codes "eds") [] [] (codes "eds/log/+" ∷ []) ≡ ok tt)
unfolding filters
log_grants = (refl, refl, refl, refl, refl)

abbrev sensor_request : Text → List Text → Request
sensor_request account pats = record {
  version = 1;
  op = codes "put";
  tenant = codes "eds";
  account = account;
  password_hash = codes "$2a$12$abcdefghijklmnopqrstuvwxyzABCDEFGHIJKLMNOPQRSTUVWXYZ0";
  publish = pats;
  subscribe = [];
}

abbrev sensor : Request
sensor = sensor_request (codes "sensor") (codes "eds/t/#" ∷ [])

sensor_valid : validate sensor ≡ ok tt
unfolding requests
sensor_valid = refl

eds_named : valid_name (codes "eds") ≡ true
unfolding names
eds_named = refl

touches_log_iff_example : (touches_log (codes "eds") (codes "eds/+/cam1") ≡ true) ↔ (
    (rest : List Text) × All IsPlain rest
    × Matches (split b'/' (codes "eds/+/cam1")) (codes "eds" ∷ log_level ∷ rest))
unfolding filters
touches_log_iff_example = touches_log_iff (codes "eds") (codes "eds/+/cam1") eds_named refl

check_log_grants-IsLogConfined_example :
    IsLogConfined (codes "eds") (codes "cam1") (codes "eds/log/cam1" ∷ codes "eds/x" ∷ []) []
unfolding names
check_log_grants-IsLogConfined_example =
    check_log_grants-IsLogConfined (codes "eds") (codes "cam1")
      (codes "eds/log/cam1" ∷ codes "eds/x" ∷ []) [] eds_named (inr refl) log_grants.0

sensor_topic : Matches (split b'/' (codes "eds/t/#")) (codes "eds" ∷ codes "t" ∷ codes "a" ∷ [])
unfolding split
sensor_topic =
    same (codes "eds") (codes "eds") refl
      (same (codes "t") (codes "t") refl (hash (codes "#") (codes "a" ∷ []) refl))

validate-confines_example :
    (rest : List Text) × (codes "eds" ∷ codes "t" ∷ codes "a" ∷ [] ≡ codes "eds" ∷ rest)
validate-confines_example =
    validate-confines sensor (codes "eds/t/#") (codes "eds" ∷ codes "t" ∷ codes "a" ∷ []) refl
      sensor_valid (inl (Memᴰ.head refl)) sensor_topic

username_injective_example : (codes "eds" ≡ codes "eds") × (codes "sensor" ≡ codes "sensor")
username_injective_example = username_injective sensor sensor sensor_valid sensor_valid refl

abbrev camera_pubs : List Text
camera_pubs = codes "eds/log/cam1" ∷ codes "eds/seen/+" ∷ []

camera_granted :
    account_patterns
      (codes "eds")
      (codes "cam1")
      (codes "log/cam1" ∷ codes "seen/+" ∷ [])
      (codes "cmd/#" ∷ [])
    ≡ ok (camera_pubs, codes "eds/cmd/#" ∷ [])
unfolding filters account_patterns
camera_granted = refl

sensor_named : valid_workload_name (codes "sensor") ≡ true
unfolding names
sensor_named = refl

sensor_hashed : valid_hash sensor.password_hash ≡ ok tt
unfolding requests
sensor_hashed = refl

put_request_accepted_example :
    (validate (
        put_request
          (codes "eds")
          (codes "sensor")
          sensor.password_hash
          camera_pubs
          (codes "eds/cmd/#" ∷ []))
      ≡ ok tt)
    ↔ (all_short camera_pubs ≡ true) × (all_short (codes "eds/cmd/#" ∷ []) ≡ true)
put_request_accepted_example =
    put_request_accepted (codes "eds") (codes "cam1") (codes "sensor") sensor.password_hash
      (codes "log/cam1" ∷ codes "seen/+" ∷ []) (codes "cmd/#" ∷ []) camera_pubs
      (codes "eds/cmd/#" ∷ []) camera_granted eds_named sensor_named sensor_hashed
