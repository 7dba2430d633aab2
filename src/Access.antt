-- ===== src/Access.antt =====
-- Who a request speaks for and which routes it reaches: internal/auth/auth.go,
-- internal/server/principal.go, Authenticate of internal/tenant/service.go, and the routes, guards
-- and middleware of internal/server. The registry's answer to a lookup and the token's verification
-- are arguments; SHA-256 is the parameter `sha256`.
pub mod Routes
pub mod Isolation
pub mod Disclosure
mod Tests
use deevnet_provisioning_api.Prelude.{
  ℕ, zero, suc, Bool, true, false, not, ◌&&◌, ◌||◌, Option, none, some, List, [], ◌∷◌, ◌++◌,
  is_empty, Text, codes, text_eq, has_prefix, if◌then◌else◌,
}

abbrev drop : ℕ → Text → Text
drop zero s = s
drop (suc n) [] = []
drop (suc n) (c ∷ s) = drop n s

abbrev pub nonempty : Text → Option Text
nonempty [] = none
nonempty (c ∷ s) = some (c ∷ s)

-- auth.Token, of the Authorization header, which is empty where there is none
unfoldable pub bearer : Text → Option Text
bearer header = if has_prefix header (codes "Bearer ") then nonempty (drop 7 header) else none

-- auth.Equal
unfoldable pub equal : Text → Text → Bool
equal presented known = if is_empty known then false else text_eq presented known

-- What Store.Get answers, as Authenticate tells its answers apart: a row with its token's hash, no
-- row, a sealed or unreachable OpenBao, another error.
pub data Answer : Type 0 where
  row : Text → Answer
  missing sealed failed : Answer

pub record Caller : Type 0 where
  pub tenant : Text
  pub registered : Bool

pub data Authenticated : Type 0 where
  speaks : Caller → Authenticated
  refused unavailable : Authenticated

-- The service as the server sees it: its tokens, and its registry.
pub record Service : Type 0 where
  pub tokens : Option (Text → Option Text)
  pub registry : Text → Answer

pub record Principal : Type 0 where
  pub operator : Bool
  pub agent : Bool
  pub tenant : Text
  pub registered : Bool
  pub presented : Text

abbrev pub nobody : Principal
nobody = record { operator = false; agent = false; tenant = []; registered = false; presented = [] }

pub data Identified : Type 0 where
  is : Principal → Identified
  answer_unavailable : Identified

-- principal.actor
unfoldable pub actor : Principal → Text
actor p =
    if p.operator
    then codes "operator"
    else if p.agent
    then codes "egress-agent"
    else if not (is_empty p.tenant)
    then codes "tenant:" ++ p.tenant
    else codes "enrollment"

module _ (sha256 : Text → Text) where
  abbrev by_row : Text → Text → Answer → Authenticated
  by_row token name (row hash) =
      if text_eq hash (sha256 token)
      then speaks (record { tenant = name; registered = true })
      else refused
  by_row token name missing = speaks (record { tenant = name; registered = false })
  by_row token name sealed = unavailable
  by_row token name failed = refused

  abbrev by_name : Service → Text → Option Text → Authenticated
  by_name s token none = refused
  by_name s token (some name) = by_row token name (s.registry name)

  abbrev by_tokens : Service → Text → Option (Text → Option Text) → Authenticated
  by_tokens s token none = refused
  by_tokens s token (some verify) = by_name s token (verify token)

  -- Service.Authenticate
  unfoldable pub authenticate : Service → Text → Authenticated
  authenticate s token = by_tokens s token s.tokens

  abbrev as_caller : Text → Authenticated → Identified
  as_caller token (speaks c) = is (record nobody { tenant = c.tenant; registered = c.registered })
  as_caller token refused = is (record nobody { presented = token })
  as_caller token unavailable = answer_unavailable

  abbrev by_service : Text → Option Service → Identified
  by_service token none = is (record nobody { presented = token })
  by_service token (some s) = as_caller token (authenticate s token)

  -- identify
  unfoldable pub identify : Text → Text → Option Service → Text → Identified
  unfolding authenticate
  identify operator_token agent_token service token =
      if equal token operator_token
      then is (record nobody { operator = true })
      else if equal token agent_token
      then is (record nobody { agent = true })
      else by_service token service
