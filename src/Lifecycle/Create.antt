-- ===== src/Lifecycle/Create.antt =====
-- Create, createNew, restoreExisting, Reconcile and Get of internal/tenant/service.go, and
-- adoptAdmissionKey of internal/tenant/admissionkeys.go.
use deevnet_provisioning_api.Prelude.{
  ℕ, Bool, true, false, not, ◌&&◌, Option, none, some, [], is_empty, Text, text_eq, codes, to_ℕ,
  is_zero, ◌==◌, Result, Done, ok, err, if◌then◌else◌,
}
use deevnet_provisioning_api.Names.{valid_name}
use deevnet_provisioning_api.Alloc.Address.{Status, provisioning, ready, deleting}
use deevnet_provisioning_api.Alloc.Index.{pick_index}
use deevnet_provisioning_api.Token.{verify}
use deevnet_provisioning_api.Calls.{
  Call, give, fail_with, refuse_when, checked, ◌>>=◌, ◌>>◌, logged, attempt,
}
use deevnet_provisioning_api.Registry.{
  Error, not_found, exists, invalid, foreign_token, unfinished, step, Secrets, no_secrets, Record,
  AdmissionKey, State, outside,
}
use deevnet_provisioning_api.Registry.Tenants.{get, create_tenant, set_secrets}
use deevnet_provisioning_api.Registry.Parts.{get_admission_key, put_wifi_key, delete_admission_key}
use deevnet_provisioning_api.Lifecycle.{
  CreateRequest, TenantOutcome, created, restored, reissued, resumed, reconciled, Issued,
  TenantResult, Service,
}
use deevnet_provisioning_api.Lifecycle.Validate.{supplies_all_secrets, validate_create}
use deevnet_provisioning_api.Lifecycle.Requests.{hash_token, issue_token, secrets_for}
use deevnet_provisioning_api.Lifecycle.Steps.{audited, ensure}

module _ {W : Type 0} (sv : Service W) where
  -- A result and an error: the code returns both where a backend step fails.
  abbrev pub Answer : Type 0
  Answer = TenantResult × Option Error

  abbrev pub step_error : {A : Type 0} → Text → Result Error A → Call Error (State W) A
  step_error name (ok a) = give a
  step_error name (err e) = fail_with (step name e)

  abbrev pub names_tenant : Text → Option Text → Bool
  names_tenant name none = false
  names_tenant name (some holder) = text_eq holder name

  unfoldable pub foreign : CreateRequest → Bool
  foreign r =
      not (is_empty r.api_token)
      && not (names_tenant r.name (verify sv.hmac sv.token_key r.api_token))

  abbrev pub adopted : Text → Result Error AdmissionKey → Call Error (State W) Done
  adopted name (err not_found) = give tt
  adopted name (err e) = fail_with e
  adopted name (ok k) = do
    put_wifi_key sv.store (record {
      tenant = name;
      name = codes "admission";
      trust_class = sv.site.admission_class;
      psk = k.psk;
      mac = k.mac;
      status = ready;
      unreadable = false;
    })
    delete_admission_key sv.store name

  unfoldable pub adopt_admission_key : Text → Call Error (State W) Done
  adopt_admission_key name = do
    answer ← attempt (get_admission_key sv.store name)
    adopted name answer

  abbrev pub outcome_for : CreateRequest → ℕ → TenantOutcome
  outcome_for r index =
      if is_zero r.index then created else if index == to_ℕ r.index then restored else reissued

  -- What ensure has left, with what the tenant is issued.
  abbrev pub answer_with : TenantOutcome → Issued → Record × Option Error → Answer
  answer_with outcome issued left = (
    record {
      tenant = left.0;
      outcome = outcome;
      issued = record issued { dashboard_password = left.0.secrets.dashboard_password };
    },
    left.1,
  )

  unfoldable pub create_new : CreateRequest → Call Error (State W) Answer
  create_new r = do
    read ← attempt (outside sv.claims)
    claims ← step_error (codes "fabric") read
    (issued, secrets) ← secrets_for sv r
    rec ←
        create_tenant sv.store r.name secrets (λ held. pick_index r.name held claims (to_ℕ r.index))
    audited sv (codes "create") rec.name
    left ← ensure sv rec
    give (answer_with (outcome_for r rec.index) issued left)

  abbrev pub issued_again : Text → Text → Text → Issued
  issued_again tsig state token = record {
    log_ingest_token = [];
    log_read_token = [];
    dashboard_password = [];
    tsig_secret = tsig;
    state_secret = state;
    api_token = token;
  }

  -- The secrets that a restore leaves: those supplied, or the stored ones with a new token.
  unfoldable pub restored_secrets : Record → CreateRequest → Call Error (State W) (Issued × Secrets)
  restored_secrets rec r =
      if supplies_all_secrets r
      then give (
        issued_again r.tsig_secret r.state_secret r.api_token,
        record no_secrets {
          tsig = r.tsig_secret;
          state = r.state_secret;
          api_token_hash = hash_token sv r.api_token;
        },
      )
      else do
        token ← issue_token sv rec.name
        give (
          issued_again rec.secrets.tsig rec.secrets.state token,
          record rec.secrets { api_token_hash = hash_token sv token },
        )

  abbrev pub action_of : TenantOutcome → Text
  action_of resumed = codes "resumed"
  action_of _ = codes "reconciled"

  unfoldable pub restore_existing :
      Record → CreateRequest → TenantOutcome → Call Error (State W) Answer
  restore_existing rec r outcome = do
    (issued, secrets) ← restored_secrets rec r
    set_secrets sv.store rec.name secrets
    audited sv (action_of outcome) rec.name
    left ← ensure sv (record rec { secrets = secrets })
    give (answer_with outcome issued left)

  abbrev pub adopt_if_finished : Text → Option Error → Call Error (State W) Done
  adopt_if_finished name none = logged (adopt_admission_key name)
  adopt_if_finished name (some e) = give tt

  abbrev pub create_and_adopt : CreateRequest → Call Error (State W) Answer
  create_and_adopt r = do answer ← create_new r; adopt_if_finished r.name answer.1; give answer

  -- The deferred call runs after an error too.
  abbrev pub resume_and_adopt : Record → CreateRequest → Call Error (State W) Answer
  resume_and_adopt rec r = do
    answer ← attempt (restore_existing rec r resumed)
    logged (adopt_admission_key r.name)
    checked answer

  -- The switch on the row's status
  abbrev pub by_status : CreateRequest → Record → Status → Call Error (State W) Answer
  by_status r rec ready =
      if supplies_all_secrets r then restore_existing rec r reconciled else fail_with exists
  by_status r rec provisioning = resume_and_adopt rec r
  by_status r rec deleting = fail_with (invalid (unfinished deleting))

  abbrev pub by_row : CreateRequest → Result Error Record → Call Error (State W) Answer
  by_row r (err not_found) = create_and_adopt r
  by_row r (err e) = fail_with e
  by_row r (ok rec) = by_status r rec rec.status

  unfoldable pub create : CreateRequest → Call Error (State W) Answer
  create r = do
    checked (validate_create r)
    refuse_when (foreign r) (invalid foreign_token)
    row ← attempt (get sv.store r.name)
    by_row r row

  abbrev pub reconcile_issued : Record → Issued
  reconcile_issued rec = record {
    log_ingest_token = rec.secrets.log_ingest;
    log_read_token = rec.secrets.log_read;
    dashboard_password = rec.secrets.dashboard_password;
    tsig_secret = rec.secrets.tsig;
    state_secret = rec.secrets.state;
    api_token = [];
  }

  abbrev pub is_deleting : Status → Bool
  is_deleting deleting = true
  is_deleting _ = false

  unfoldable pub reconcile : Text → Call Error (State W) Answer
  reconcile name = do
    rec ← get sv.store name
    refuse_when (is_deleting rec.status) (invalid (unfinished deleting))
    audited sv (codes "reconcile") name
    left ← ensure sv rec
    give
        (record { tenant = left.0; outcome = reconciled; issued = reconcile_issued left.0 }, left.1)

  -- Service.Get
  unfoldable pub get_tenant : Text → Call Error (State W) Record
  get_tenant name = if valid_name name then get sv.store name else fail_with not_found
