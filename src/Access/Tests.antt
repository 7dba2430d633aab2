-- ===== src/Access/Tests.antt =====
-- Requests to a small site: one registered tenant, one that is not registered.
use deevnet_provisioning_api.Prelude.{
  ◌≡◌, refl, subst, true, Option, none, some, [], ◌∷◌, ◌++◌, Text, codes, text_eq, has_prefix,
  if◌then◌else◌, ◌⊎◌,
}
use deevnet_provisioning_api.Access.{
  bearer, equal, Answer, row, missing, Service, Principal, nobody, authenticate, identify,
}
use deevnet_provisioning_api.Access.Routes.{
  reached, status, own_tenant, Route, get_tenant, delete_tenant, list_tenants, create, other,
  guard_of, pass, Server, Request, serve,
}
use deevnet_provisioning_api.Access.Isolation.{IsOperator, IsTenant, serve-own_tenant}
use deevnet_provisioning_api.Access.Disclosure.{serve-agree}

access : Unit {0}
unfolding bearer equal authenticate identify guard_of pass serve text_eq has_prefix
access = tt

toy : Text → Text
toy s = s

-- A token is the tenant's name behind a t.
verify_toy : Text → Option Text
verify_toy [] = none
verify_toy (c ∷ name) = some name

registry_toy : Text → Answer
registry_toy name = if text_eq name (codes "eds") then row (codes "teds") else missing

abbrev site_service : Service
site_service = record { tokens = some verify_toy; registry = registry_toy }

abbrev site : Server
site = record {
  operator_token = codes "op";
  agent_token = codes "ag";
  migrated = true;
  secrets_loaded = true;
  service = some site_service;
}

abbrev ask : Text → Route → Text → Request
ask token route name = record {
  authorization = codes "Bearer " ++ token;
  route = route;
  name = name;
}

abbrev eds : Principal
eds = record nobody { tenant = codes "eds"; registered = true }

answers :
    (serve toy site (ask (codes "teds") get_tenant (codes "eds")) ≡ reached eds)
    × (serve toy site (ask (codes "teds") get_tenant (codes "lab")) ≡ status 404)
    × (serve toy site (ask (codes "tlab") get_tenant (codes "lab")) ≡ status 404)
    × (serve toy site (ask (codes "teds") list_tenants []) ≡ status 403)
    × (serve toy site (ask (codes "ag") list_tenants []) ≡ status 401)
    × (serve toy site (ask (codes "op") other []) ≡ status 501)
    × (serve toy site (record { authorization = []; route = create; name = [] }) ≡ status 401)
unfolding access toy verify_toy registry_toy
answers = (refl, refl, refl, refl, refl, refl, refl)

get_tenant_guarded : guard_of get_tenant ≡ own_tenant
unfolding guard_of
get_tenant_guarded = refl

serve-own_tenant_example :
    (token : Text) × (bearer (codes "Bearer teds") ≡ some token)
    × (IsOperator site token ⊎ IsTenant toy site_service (codes "eds") token)
serve-own_tenant_example =
    serve-own_tenant toy site (ask (codes "teds") get_tenant (codes "eds")) site_service eds refl
      get_tenant_guarded answers.0

-- The registries differ in a tenant that the token does not name.
crowded : Text → Answer
crowded name = if text_eq name (codes "lab") then row (codes "x") else registry_toy name

bearer_teds : bearer (codes "Bearer teds") ≡ some (codes "teds")
unfolding access
bearer_teds = refl

agree_on_eds :
    (name : Text) → verify_toy (codes "teds") ≡ some name → registry_toy name ≡ crowded name
unfolding verify_toy registry_toy crowded text_eq
agree_on_eds name e =
    let same : codes "eds" ≡ name = cc in subst (λ (n : Text). registry_toy n ≡ crowded n) same refl

serve-agree_example :
    serve toy
      (record site {
        service = some (record { tokens = some verify_toy; registry = registry_toy });
      })
      (ask (codes "teds") delete_tenant (codes "lab"))
    ≡ serve toy
        (record site { service = some (record { tokens = some verify_toy; registry = crowded }) })
        (ask (codes "teds") delete_tenant (codes "lab"))
serve-agree_example =
    serve-agree toy verify_toy registry_toy crowded site
      (ask (codes "teds") delete_tenant (codes "lab")) (codes "teds") bearer_teds agree_on_eds
