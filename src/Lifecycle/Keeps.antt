-- ===== src/Lifecycle/Keeps.antt =====
-- Which parts of the service leave every tenant its name and its index.
use deevnet_provisioning_api.Prelude.{
  ℕ, Option, none, some, List, [], ◌∷◌, Text, Result, ok, err, Done, All, All-append,
}
use deevnet_provisioning_api.Alloc.Address.{DeviceAddress}
use deevnet_provisioning_api.Site.{AddressRange}
use deevnet_provisioning_api.Calls.{Call}
use deevnet_provisioning_api.Calls.Laws.{
  bind-Leaves, for_each-Leaves, logged-Leaves, attempt-Leaves, if-Leaves, call_rules,
}
use deevnet_provisioning_api.Registry.{Error, Secrets, Record, State}
use deevnet_provisioning_api.Registry.Keeps.{
  Keeps, outside-Keeps, get-Keeps, set_status-Keeps, set_secrets-Keeps, set_dashboard_org-Keeps,
  record_step-Keeps, audit-Keeps, list_device_addresses-Keeps,
}
use deevnet_provisioning_api.Lifecycle.{
  CreateRequest, Service, Network, Reservations, LogWriter, Dashboards,
}
use deevnet_provisioning_api.Lifecycle.Requests.{
  random_hex, log_tokens, issue_token, minted, secrets_for,
}
use deevnet_provisioning_api.Lifecycle.Steps.{
  audited, on_network, build_network, ensure_in_range, ensure_address, ensure_addresses, put_tokens,
  minted_tokens, ensure_log_tokens, put_org, minted_password, ensure_dashboards, reload, Run,
  for_backend, create_steps, error_of, after_step, after_status, run_steps, ensure,
}

module _ {W : Type 0} (sv : Service W) where
  random_hex-Keeps : (n : ℕ) → Keeps (random_hex sv n)
  unfolding random_hex
  random_hex-Keeps n = search (call_rules, outside-Keeps)

  log_tokens-Keeps : Keeps (log_tokens sv)
  unfolding log_tokens
  log_tokens-Keeps = search (call_rules, random_hex-Keeps)

  pub issue_token-Keeps : (name : Text) → Keeps (issue_token sv name)
  unfolding issue_token
  issue_token-Keeps name = search (call_rules, outside-Keeps)

  minted-Keeps : (name ingest read : Text) → Keeps (minted sv name ingest read)
  unfolding minted
  minted-Keeps name ingest read =
      search (call_rules, outside-Keeps, random_hex-Keeps, issue_token-Keeps) depth 12

  pub secrets_for-Keeps : (r : CreateRequest) → Keeps (secrets_for sv r)
  unfolding secrets_for
  secrets_for-Keeps r = search (call_rules, log_tokens-Keeps, minted-Keeps) depth 12

  pub audited-Keeps : (action name : Text) → Keeps (audited sv action name)
  audited-Keeps action name = search (call_rules, audit-Keeps)

  on_network-Keeps : (n : Option (Network W)) (rec : Record) → Keeps (on_network sv n rec)
  on_network-Keeps none rec = search call_rules
  on_network-Keeps (some n) rec = search outside-Keeps

  build_network-Keeps : (rec : Record) → Keeps (build_network sv rec)
  unfolding build_network
  build_network-Keeps rec = on_network-Keeps sv.network rec

  ensure_in_range-Keeps :
      (b : Reservations W) (rec : Record) (a : DeviceAddress) (r : Option AddressRange)
      → Keeps (ensure_in_range sv b rec a r)
  ensure_in_range-Keeps b rec a none = search call_rules
  ensure_in_range-Keeps b rec a (some r) = search (call_rules, outside-Keeps)

  ensure_addresses-Keeps : (b : Reservations W) (rec : Record) → Keeps (ensure_addresses sv b rec)
  unfolding ensure_addresses ensure_address
  ensure_addresses-Keeps b rec =
      bind-Leaves _ _ (list_device_addresses-Keeps sv.store rec.name)
        (λ addresses. for_each-Leaves addresses _ (λ a. ensure_in_range-Keeps b rec a _))

  put_tokens-Keeps :
      (writer : LogWriter W) (rec : Record) (x : Secrets) → Keeps (put_tokens sv writer rec x)
  put_tokens-Keeps writer rec x = search outside-Keeps

  minted_tokens-Keeps : (writer : LogWriter W) (rec : Record) → Keeps (minted_tokens sv writer rec)
  minted_tokens-Keeps writer rec =
      search (call_rules, log_tokens-Keeps, set_secrets-Keeps, put_tokens-Keeps) depth 12

  ensure_log_tokens-Keeps :
      (writer : LogWriter W) (rec : Record) → Keeps (ensure_log_tokens sv writer rec)
  unfolding ensure_log_tokens
  ensure_log_tokens-Keeps writer rec =
      if-Leaves _ _ _ (minted_tokens-Keeps writer rec) (put_tokens-Keeps writer rec rec.secrets)

  put_org-Keeps :
      (server : Dashboards W) (rec : Record) (x : Secrets) → Keeps (put_org sv server rec x)
  put_org-Keeps server rec x = search (call_rules, outside-Keeps, set_dashboard_org-Keeps) depth 12

  minted_password-Keeps :
      (server : Dashboards W) (rec : Record) → Keeps (minted_password sv server rec)
  minted_password-Keeps server rec = bind-Leaves _ _ (random_hex-Keeps 24) (λ password.
      bind-Leaves _ _ (set_secrets-Keeps sv.store rec.name _)
        (λ d. put_org-Keeps server rec (record rec.secrets { dashboard_password = password })))

  ensure_dashboards-Keeps :
      (server : Dashboards W) (rec : Record) → Keeps (ensure_dashboards sv server rec)
  unfolding ensure_dashboards
  ensure_dashboards-Keeps server rec =
      search (call_rules, minted_password-Keeps, put_org-Keeps) depth 12

  pub reload-Keeps : (rec : Record) → Keeps (reload sv rec)
  unfolding reload
  reload-Keeps rec = search (call_rules, get-Keeps)

  after_status-Keeps :
      (rec : Record) (answer : Result Error Done) → Keeps (after_status sv rec answer)
  after_status-Keeps rec (err e) = search call_rules
  after_status-Keeps rec (ok done) = search (call_rules, reload-Keeps)

  after_step-Keeps :
      (rec : Record) (name : Text) (answer : Result Error Done)
      (rest : Call Error (State W) (Record × Option Error))
      → Keeps rest
      → Keeps (after_step sv rec name answer rest)
  after_step-Keeps rec name (ok done) rest h = h
  after_step-Keeps rec name (err e) rest h =
      search (call_rules, set_status-Keeps, reload-Keeps) depth 12

  pub for_backend-Keeps :
      {B : Type 0} (backend : Option B) (run : B → Run sv)
      → ((b : B) → Keeps (run b).1)
      → All (λ (step : Run sv). Keeps step.1) (for_backend sv backend run)
  for_backend-Keeps none run h = tt
  for_backend-Keeps (some b) run h = (h b, tt)

  create_steps-Keeps : (rec : Record) → All (λ (step : Run sv). Keeps step.1) (create_steps sv rec)
  unfolding create_steps
  create_steps-Keeps rec = (
    outside-Keeps _,
    (
      outside-Keeps _,
      (
        outside-Keeps _,
        (
          build_network-Keeps rec,
          All-append _ _ _ (for_backend-Keeps sv.reservations _ (λ b. ensure_addresses-Keeps b rec))
              (All-append _ _ _
                (for_backend-Keeps sv.log_writer _ (λ b. ensure_log_tokens-Keeps b rec))
                (for_backend-Keeps sv.dashboards _ (λ b.
                  bind-Leaves _ _ (reload-Keeps rec) (λ fresh. ensure_dashboards-Keeps b fresh)))),
        ),
      ),
    ),
  )

  run_steps-Keeps :
      (rec : Record) (steps : List (Run sv))
      → All (λ (step : Run sv). Keeps step.1) steps
      → Keeps (run_steps sv rec steps)
  unfolding run_steps
  run_steps-Keeps rec [] h = search (call_rules, set_status-Keeps, after_status-Keeps) depth 12
  run_steps-Keeps rec ((name, run) ∷ steps) h = bind-Leaves _ _ (attempt-Leaves _ h.0) (λ answer.
      bind-Leaves _ _
        (logged-Leaves _ (record_step-Keeps sv.store rec.name name (error_of sv answer)))
        (λ d. after_step-Keeps rec name answer _ (run_steps-Keeps rec steps h.1)))

  pub ensure-Keeps : (rec : Record) → Keeps (ensure sv rec)
  unfolding ensure
  ensure-Keeps rec = run_steps-Keeps rec (create_steps sv rec) (create_steps-Keeps rec)
