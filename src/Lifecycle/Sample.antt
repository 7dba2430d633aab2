-- ===== src/Lifecycle/Sample.antt =====
-- A service whose backends accept everything, with a log store and a clock of calls as its world,
-- for the runs of the code.
use deevnet_provisioning_api.Prelude.{ℕ, suc, none, some, [], ◌∷◌, codes, pos, Done}
use deevnet_provisioning_api.Alloc.Address.{provisioning}
use deevnet_provisioning_api.Calls.{returns, raises, Call}
use deevnet_provisioning_api.Registry.{Error, other, no_secrets, Record, Registry, State}
use deevnet_provisioning_api.Lifecycle.{CreateRequest, Service}
use deevnet_provisioning_api.Site.Sample.{lab}

abbrev pub accepts : Call Error ℕ Done
accepts w = returns tt (suc w)

abbrev pub refuses : Call Error ℕ Done
refuses w = raises (other (codes "down")) (suc w)

-- The name server's answer is the argument.
abbrev pub service_with : Call Error ℕ Done → Service ℕ
service_with dns = record {
  site = lab;
  store = record { site = lab; query = accepts; sealer = none };
  dns = record {
    ensure_zones = λ t. dns;
    remove_zones = λ t. dns;
    ensure_records = λ zone reverse records. dns;
    remove_records = λ zone reverse records. dns;
  };
  resolver = record { ensure_forwards = λ fwds. accepts; remove_forwards = λ domains. accepts };
  state_store = record { ensure_state = λ t. accepts; remove_state = λ user. accepts };
  claims = λ w. returns [] (suc w);
  compute = none;
  network = none;
  wireless = none;
  broker_writer = none;
  enroller = none;
  enrollment_ttl = pos 0;
  random_int = λ n w. returns 0 (suc w);
  hash_password = λ password w. returns password (suc w);
  reservations = none;
  log_writer = some (record { put_users = λ t. accepts; remove_users = λ name index. accepts });
  dashboards = none;
  token_key = codes "key";
  hmac = λ key message. codes "sum";
  sha256 = λ text. text;
  random = λ w. returns (λ i. i) (suc w);
  actor = codes "operator";
}

abbrev pub service : Service ℕ
service = service_with accepts

abbrev pub request : CreateRequest
request = record {
  name = codes "eds";
  index = pos 0;
  tsig_secret = [];
  state_secret = [];
  api_token = [];
}

abbrev pub no_rows : Registry
no_rows = record {
  tenants = [];
  workloads = [];
  wifi_keys = [];
  admission_keys = [];
  broker_accounts = [];
  devices = [];
  device_addresses = [];
  records = [];
  certificates = [];
  audit_log = [];
}

abbrev pub empty : State ℕ
empty = record { registry = no_rows; world = 0 }

abbrev pub row : Record
row = record {
  name = codes "eds";
  index = 7;
  status = provisioning;
  secrets = no_secrets;
  dashboard_org = 0;
  steps = [];
}

abbrev pub one_row : State ℕ
one_row = record empty { registry = record no_rows { tenants = row ∷ [] } }
