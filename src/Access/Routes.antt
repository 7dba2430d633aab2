-- ===== src/Access/Routes.antt =====
-- The routes, the guard of each, and the way of a request from its token to a handler: New,
-- tenantRoutes and the other tables of routes, requireToken, requireMigrated, requireSecrets,
-- operatorOnly, egressReader, knownCaller, ownTenant, and the first half of create.
use deevnet_provisioning_api.Prelude.{
  ℕ, Bool, true, false, not, ◌&&◌, ◌||◌, Option, none, some, is_empty, Text, text_eq, if◌then◌else◌,
}
use deevnet_provisioning_api.Access.{
  bearer, Service, Principal, Identified, is, answer_unavailable, identify,
}

pub data Response : Type 0 where
  -- The handler runs, for this caller.
  reached : Principal → Response
  status : ℕ → Response

pub data Guard : Type 0 where
  operator_only egress_reader known_caller own_tenant unguarded : Guard

pub data Verb : Type 0 where
  create_one list_all get_one delete_one : Verb

pub data Route : Type 0 where
  admit revoke_admission create list_tenants get_tenant delete_tenant reconcile egress : Route
  workloads records wifi_keys devices addresses broker_accounts certificates : Verb → Route
  -- Any other path under /v1/.
  other : Route

-- The mux's table. A path or a method that has no route of its own falls to the one for /v1/.
unfoldable pub guard_of : Route → Guard
guard_of admit = operator_only
guard_of revoke_admission = operator_only
guard_of create = unguarded
guard_of list_tenants = operator_only
guard_of get_tenant = own_tenant
guard_of delete_tenant = own_tenant
guard_of reconcile = operator_only
guard_of egress = egress_reader
guard_of (workloads verb) = own_tenant
guard_of (records get_one) = known_caller
guard_of (records verb) = own_tenant
guard_of (wifi_keys verb) = own_tenant
guard_of (devices verb) = own_tenant
guard_of (addresses list_all) = known_caller
guard_of (addresses verb) = own_tenant
guard_of (broker_accounts verb) = own_tenant
guard_of (certificates verb) = own_tenant
guard_of other = known_caller

-- A guard's answer, for the name in the path.
unfoldable pub pass : Guard → Text → Principal → Response
pass operator_only name p =
    if p.operator then reached p else if not (is_empty p.tenant) then status 403 else status 401
pass egress_reader name p =
    if p.operator || p.agent
    then reached p
    else if not (is_empty p.tenant)
    then status 403
    else status 401
pass known_caller name p =
    if p.operator || not (is_empty p.tenant) && p.registered then reached p else status 401
pass own_tenant name p =
    if p.operator
    then reached p
    else if not (is_empty p.tenant)
    then (if not (text_eq p.tenant name) || not p.registered then status 404 else reached p)
    else status 401
pass unguarded name p = reached p

-- notImplemented, behind a guard
abbrev pub unimplemented : Response → Response
unimplemented (reached p) = status 501
unimplemented (status code) = status code

pub record Server : Type 0 where
  pub operator_token : Text
  pub agent_token : Text
  pub migrated : Bool
  pub secrets_loaded : Bool
  pub service : Option Service

pub record Request : Type 0 where
  pub authorization : Text
  pub route : Route
  pub name : Text

abbrev is_other : Route → Bool
is_other other = true
is_other (records get_one) = true
is_other (addresses list_all) = true
is_other _ = false

-- Without a service no route is mounted but the one for what is left.
abbrev pub route_guard : Option Service → Route → Guard
route_guard none route = known_caller
route_guard (some s) route = guard_of route

abbrev pub routed : Option Service → Route → Response → Response
routed none route answer = unimplemented answer
routed (some s) route answer = if is_other route then unimplemented answer else answer

abbrev pub dispatch : Server → Request → Identified → Response
dispatch srv req (is p) =
    routed srv.service req.route (pass (route_guard srv.service req.route) req.name p)
dispatch srv req answer_unavailable = status 503

module _ (sha256 : Text → Text) where
  abbrev pub with_token : Server → Request → Option Text → Response
  with_token srv req none = status 401
  with_token srv req (some token) =
      if not srv.migrated
      then status 503
      else if not srv.secrets_loaded
      then status 503
      else dispatch srv req (identify sha256 srv.operator_token srv.agent_token srv.service token)

  unfoldable pub serve : Server → Request → Response
  unfolding guard_of pass bearer identify
  serve srv req = with_token srv req (bearer req.authorization)

-- What redeeming an enrollment token came to: spent for this tenant, not redeemable or no
-- enrollment at this site, or the step failed, for a sealed OpenBao or for another reason.
pub data Redeemed : Type 0 where
  spent not_redeemable step_sealed step_failed : Redeemed

-- The switch in the handler of POST /v1/tenants: `none` is that the service's Create is called.
unfoldable pub create_gate : Principal → Text → Redeemed → Option ℕ
create_gate p name redeemed =
    if p.operator
    then none
    else if not (is_empty p.tenant)
    then (if not (text_eq p.tenant name) then some 403 else none)
    else elim redeemed [
      | spent ↦ none
      | not_redeemable ↦ some 401
      | step_sealed ↦ some 503
      | step_failed ↦ some 502
    ]
