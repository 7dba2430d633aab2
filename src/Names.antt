-- ===== src/Names.antt =====
-- The names that tenants, workloads, devices, keys and accounts may take: internal/tenant/site.go
-- (nameRE, workloadNameRE, ValidName, ValidWorkloadName, Reserved) and the same patterns in
-- internal/brokeracct/contract.go and internal/logauth/contract.go.
pub mod Laws
use deevnet_provisioning_api.Prelude.{
  ℕ, Bool, true, false, not, ◌&&◌, ◌||◌, List, [], ◌∷◌, length, all, any, leb, Text, codes, text_eq,
  ends_in, ◌==◌,
}

unfoldable pub is_lower : ℕ → Bool
is_lower c = leb b'a' c && leb c b'z'

unfoldable pub is_digit : ℕ → Bool
is_digit c = leb b'0' c && leb c b'9'

unfoldable pub is_name_byte : ℕ → Bool
is_name_byte c = is_lower c || is_digit c

unfoldable pub is_label_byte : ℕ → Bool
is_label_byte c = is_name_byte c || c == b'-'

-- ^[a-z][a-z0-9]{0,7}$
unfoldable pub valid_name : Text → Bool
valid_name [] = false
valid_name (c ∷ s) = is_lower c && (leb (length s) 7 && all is_name_byte s)

-- ^[a-z][a-z0-9-]{0,19}$
unfoldable pub is_label : Text → Bool
is_label [] = false
is_label (c ∷ s) = is_lower c && (leb (length s) 19 && all is_label_byte s)

unfoldable pub valid_workload_name : Text → Bool
valid_workload_name s = is_label s && not (ends_in b'-' s)

abbrev pub reserved_names : List Text
reserved_names =
    codes "home"
    ∷ codes "mobile"
    ∷ codes "mgmt"
    ∷ codes "dvnt"
    ∷ codes "dvntm"
    ∷ codes "device"
    ∷ codes "mqtt"
    ∷ codes "artifacts"
    ∷ []

unfoldable pub reserved : Text → Bool
reserved name = any (text_eq name) reserved_names
