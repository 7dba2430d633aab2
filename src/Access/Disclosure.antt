-- ===== src/Access/Disclosure.antt =====
-- What a tenant's token tells its holder about other tenants.
use deevnet_provisioning_api.Prelude.{
  ◌≡◌, inl, inr, refl, ap, not, Option, some, Text, Option-cases, if◌then◌else◌,
}
use deevnet_provisioning_api.Access.{bearer, Answer, Service, Identified, authenticate, identify}
use deevnet_provisioning_api.Access.Routes.{Response, status, Server, Request, dispatch, serve}

module _ (sha256 : Text → Text) (verify : Text → Option Text) (before after : Text → Answer) where
  abbrev served_by : (Text → Answer) → Service
  served_by registry = record { tokens = some verify; registry = registry }

  authenticate-agree :
      (token : Text)
      → ((name : Text) → verify token ≡ some name → before name ≡ after name)
      → authenticate sha256 (served_by before) token ≡ authenticate sha256 (served_by after) token
  unfolding authenticate
  authenticate-agree token h = elim (Option-cases (verify token)) [
    | inl bad ↦ rw bad refl
    | inr (name, good) ↦ rw good (rw (h name good) refl)
  ]

  identify-agree :
      (operator_token agent_token token : Text)
      → ((name : Text) → verify token ≡ some name → before name ≡ after name)
      → identify sha256 operator_token agent_token (some (served_by before)) token
        ≡ identify sha256 operator_token agent_token (some (served_by after)) token
  unfolding identify
  identify-agree operator_token agent_token token h = rw (authenticate-agree token h) refl

  -- What a request is answered, up to its handler, depends on the registry only through the row of
  -- the tenant whose name its own token carries: with two registries that agree on that row, and
  -- for any path, the answer is the same. So a token finds out nothing of which other tenants
  -- exist.
  pub serve-agree :
      (srv : Server) (req : Request) (token : Text)
      → bearer req.authorization ≡ some token
      → ((name : Text) → verify token ≡ some name → before name ≡ after name)
      → serve sha256 (record srv { service = some (served_by before) }) req
        ≡ serve sha256 (record srv { service = some (served_by after) }) req
  unfolding serve
  serve-agree srv req token shown h = rw shown (
      ap (λ (i : Identified). gated srv req i)
        (identify-agree srv.operator_token srv.agent_token token h))
    where
      gated : Server → Request → Identified → Response
      gated srv req i =
          if not srv.migrated
          then status 503
          else if not srv.secrets_loaded
          then status 503
          else dispatch (record srv { service = some (served_by before) }) req i
