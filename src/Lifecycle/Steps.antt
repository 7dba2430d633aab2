-- ===== src/Lifecycle/Steps.antt =====
-- The backend steps of a tenant and the run through them: ensure, reload, recordStep, audit and
-- what each step calls, of internal/tenant/service.go, logtokens.go, dashboards.go and
-- addresses.go.
use deevnet_provisioning_api.Prelude.{
  false, ◌||◌, Option, none, some, List, [], ◌∷◌, ◌++◌, is_empty, Text, codes, decimal, ◌==◌,
  Result, Done, ok, err, if◌then◌else◌,
}
use deevnet_provisioning_api.Alloc.Address.{DeviceAddress, provisioning, ready, addr_text}
use deevnet_provisioning_api.Site.{AddressRange, lookup, numbering, zone, network, state_prefix}
use deevnet_provisioning_api.Calls.{Call, give, fail_with, ◌>>=◌, ◌>>◌, for_each, logged, attempt}
use deevnet_provisioning_api.Registry.{Error, other, step, Secrets, Record, State, outside}
use deevnet_provisioning_api.Registry.Tenants.{
  get, set_status, set_secrets, set_dashboard_org, record_step, audit,
}
use deevnet_provisioning_api.Registry.Parts.{list_device_addresses}
use deevnet_provisioning_api.Lifecycle.{
  DnsTenant, Forward, StateTenant, Reservation, Service, Network, Reservations, LogWriter,
  Dashboards,
}
use deevnet_provisioning_api.Lifecycle.Requests.{log_tokens, random_hex}

module _ {W : Type 0} (sv : Service W) where
  abbrev pub zones : Record → List Text
  zones rec = zone sv.site rec.name ∷ (numbering sv.site rec.index).reverse_zone ∷ []

  unfoldable pub dns_tenant : Record → DnsTenant
  dns_tenant rec = record {
    key_name = rec.name;
    algorithm = codes "hmac-sha256";
    secret = rec.secrets.tsig;
    zones = zones rec;
    apex_ns = sv.site.dns_apex_ns;
    update_from = sv.site.dns_update_from;
  }

  unfoldable pub forwards : Record → List Forward
  forwards rec =
      record {
        domain = zone sv.site rec.name;
        server = sv.site.resolver_forward_to;
        description = codes "Deevnet API - tenant " ++ (rec.name ++ codes " (ADR-0015)");
      }
      ∷ record {
        domain = (numbering sv.site rec.index).reverse_zone;
        server = sv.site.resolver_forward_to;
        description = codes "Deevnet API - tenant " ++ (rec.name ++ codes " reverse (ADR-0015)");
      }
      ∷ []

  unfoldable pub state_tenant : Record → StateTenant
  state_tenant rec = record {
    user = rec.name;
    secret = rec.secrets.state;
    bucket = sv.site.state_bucket;
    prefix = state_prefix sv.site rec.name;
  }

  abbrev pub audited : Text → Text → Call Error (State W) Done
  audited action name =
      logged (audit sv.store (record { actor = sv.actor; action = action; tenant = name }))

  abbrev pub on_network : Option (Network W) → Record → Call Error (State W) Done
  on_network none rec = give tt
  on_network (some n) rec = outside (n.ensure_network (network sv.site rec.name rec.index))

  -- network, whose mutex holds one call at a time
  unfoldable pub build_network : Record → Call Error (State W) Done
  build_network = on_network sv.network

  abbrev pub reservation_description : Text → Text → Text
  reservation_description tenant device = codes "Deevnet API - " ++ (tenant ++ b'/' ∷ device)

  abbrev pub subnet_text : AddressRange → Text
  subnet_text r = addr_text r.subnet.addr ++ b'/' ∷ decimal r.subnet.bits

  unfoldable pub reservation : AddressRange → DeviceAddress → Reservation
  reservation r a = record {
    subnet = subnet_text r;
    address = a.address;
    mac = a.mac;
    hostname = a.tenant ++ b'-' ∷ a.device;
    description = reservation_description a.tenant a.device;
  }

  abbrev pub ensure_in_range :
      Reservations W → Record → DeviceAddress → Option AddressRange → Call Error (State W) Done
  ensure_in_range backend rec a none = give tt
  ensure_in_range backend rec a (some r) = do
    outside (backend.ensure_reservation (reservation r a))
    outside (
        sv.dns.ensure_records (zone sv.site rec.name) (numbering sv.site rec.index).reverse_zone
          (record { name = a.device; address = a.address; reverse = false } ∷ []))

  -- The body of the loop of ensureAddresses
  unfoldable pub ensure_address :
      Reservations W → Record → DeviceAddress → Call Error (State W) Done
  unfolding reservation
  ensure_address backend rec a =
      ensure_in_range backend rec a (lookup a.trust_class sv.site.address_ranges)

  unfoldable pub ensure_addresses : Reservations W → Record → Call Error (State W) Done
  ensure_addresses backend rec = do
    addresses ← list_device_addresses sv.store rec.name
    for_each addresses (ensure_address backend rec)

  abbrev pub put_tokens : LogWriter W → Record → Secrets → Call Error (State W) Done
  put_tokens writer rec secrets = outside (
      writer.put_users (record {
        name = rec.name;
        index = rec.index;
        ingest_token = secrets.log_ingest;
        read_token = secrets.log_read;
      }))

  abbrev pub minted_tokens : LogWriter W → Record → Call Error (State W) Done
  minted_tokens writer rec = do
    (ingest, read) ← log_tokens sv
    let secrets : Secrets = record rec.secrets { log_ingest = ingest; log_read = read }
    set_secrets sv.store rec.name secrets
    put_tokens writer rec secrets

  unfoldable pub ensure_log_tokens : LogWriter W → Record → Call Error (State W) Done
  ensure_log_tokens writer rec =
      if is_empty rec.secrets.log_ingest || is_empty rec.secrets.log_read
      then minted_tokens writer rec
      else put_tokens writer rec rec.secrets

  abbrev pub put_org : Dashboards W → Record → Secrets → Call Error (State W) Done
  put_org server rec secrets = do
    org ← outside (
        server.ensure_org (record {
          name = rec.name;
          index = rec.index;
          password = secrets.dashboard_password;
          read_token = secrets.log_read;
        }))
    if org == rec.dashboard_org then give tt else set_dashboard_org sv.store rec.name org

  abbrev pub minted_password : Dashboards W → Record → Call Error (State W) Done
  minted_password server rec = do
    password ← random_hex sv 24
    let secrets : Secrets = record rec.secrets { dashboard_password = password }
    set_secrets sv.store rec.name secrets
    put_org server rec secrets

  unfoldable pub ensure_dashboards : Dashboards W → Record → Call Error (State W) Done
  ensure_dashboards server rec =
      if is_empty rec.secrets.log_read
      then fail_with (other (codes "the tenant has no log read token for its data sources"))
      else if is_empty rec.secrets.dashboard_password
      then minted_password server rec
      else put_org server rec rec.secrets

  abbrev pub fresh_or : Record → Result Error Record → Record
  fresh_or rec (ok fresh) = fresh
  fresh_or rec (err e) = rec

  unfoldable pub reload : Record → Call Error (State W) Record
  reload rec = do answer ← attempt (get sv.store rec.name); give (fresh_or rec answer)

  abbrev pub Run : Type 0
  Run = Text × Call Error (State W) Done

  abbrev pub for_backend : {B : Type 0} → Option B → (B → Run) → List Run
  for_backend none run = []
  for_backend (some backend) run = run backend ∷ []

  unfoldable pub create_steps : Record → List Run
  create_steps rec =
      (codes "dns", outside (sv.dns.ensure_zones (dns_tenant rec)))
      ∷ (codes "resolver", outside (sv.resolver.ensure_forwards (forwards rec)))
      ∷ (codes "state", outside (sv.state_store.ensure_state (state_tenant rec)))
      ∷ (codes "network", build_network rec)
      ∷ (for_backend sv.reservations (λ b. (codes "device-address", ensure_addresses b rec))
          ++ (for_backend sv.log_writer (λ b. (codes "log-store", ensure_log_tokens b rec))
              ++ for_backend sv.dashboards
                  (λ b. (codes "dashboards", reload rec >>= ensure_dashboards b))))

  abbrev pub error_of : Result Error Done → Option Error
  error_of (ok done) = none
  error_of (err e) = some e

  abbrev pub after_step :
      Record
      → Text
      → Result Error Done
      → Call Error (State W) (Record × Option Error)
      → Call Error (State W) (Record × Option Error)
  after_step rec name (ok done) rest = rest
  after_step rec name (err e) rest = do
    logged (set_status sv.store rec.name provisioning)
    fresh ← reload rec
    give (fresh, some (step name e))

  abbrev pub after_status :
      Record → Result Error Done → Call Error (State W) (Record × Option Error)
  after_status rec (err e) = give (rec, some e)
  after_status rec (ok done) = do fresh ← reload rec; give (fresh, none)

  unfoldable pub run_steps : Record → List Run → Call Error (State W) (Record × Option Error)
  run_steps rec [] = do
    answer ← attempt (set_status sv.store rec.name ready)
    after_status rec answer
  run_steps rec ((name, run) ∷ steps) = do
    answer ← attempt run
    logged (record_step sv.store rec.name name (error_of answer))
    after_step rec name answer (run_steps rec steps)

  -- ensure: the tenant as it is left, and the error of the step that failed
  unfoldable pub ensure : Record → Call Error (State W) (Record × Option Error)
  ensure rec = run_steps rec (create_steps rec)
