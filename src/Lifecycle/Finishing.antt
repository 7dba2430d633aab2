-- ===== src/Lifecycle/Finishing.antt =====
-- Reconcile and Create of internal/tenant/service.go where every backend accepts what it is asked:
-- the steps run to their end.
use deevnet_provisioning_api.Prelude.{
  ◌≡◌, refl, All, All-append, Option, none, some, List, [], ◌∷◌, Text, Result, ok, err, Done, ℕ,
}
use deevnet_provisioning_api.Alloc.Address.{DeviceAddress, ready}
use deevnet_provisioning_api.Site.{AddressRange, NetworkSpec}
use deevnet_provisioning_api.Calls.{Call}
use deevnet_provisioning_api.Calls.Outcomes.{Ensures, given-Ensures, give-Ensures, bind-Ensures}
use deevnet_provisioning_api.Calls.Certain.{
  Sure, IsOk, sure_rules, attempt-IsOk, attempt-Sure, logged-Sure, bind-Sure, give-Sure,
  for_each-Sure,
}
use deevnet_provisioning_api.Registry.{Error, Record, State, outside}
use deevnet_provisioning_api.Registry.Answering.{
  Answers, IsAnswering, HasRow, outside-Sure, set_status-Sure, record_step-Sure, set_secrets-Sure,
  list_device_addresses-Sure, get-Sure,
}
use deevnet_provisioning_api.Lifecycle.{
  DnsTenant, DnsRecord, Forward, StateTenant, Reservation, LogTenant, Service, Network,
  Reservations, LogWriter,
}
use deevnet_provisioning_api.Lifecycle.Requests.{random_hex, log_tokens}
use deevnet_provisioning_api.Lifecycle.Steps.{
  on_network, build_network, ensure_in_range, ensure_address, ensure_addresses, ensure_log_tokens,
  reload, Run, for_backend, create_steps, after_step, after_status, error_of, run_steps, ensure,
}

-- Every backend that a tenant's steps call accepts what it is asked.
pub record IsAccepting {W : Type 0} (sv : Service W) : Type 0 where
  pub store : IsAnswering sv.store
  pub random : Answers sv.random
  pub zones : (t : DnsTenant) → Answers (sv.dns.ensure_zones t)
  pub records :
      (zone reverse : Text) (l : List DnsRecord) → Answers (sv.dns.ensure_records zone reverse l)
  pub forwards : (l : List Forward) → Answers (sv.resolver.ensure_forwards l)
  pub state : (t : StateTenant) → Answers (sv.state_store.ensure_state t)
  pub network :
      (b : Network W) → sv.network ≡ some b → (n : NetworkSpec) → Answers (b.ensure_network n)
  pub reservations :
      (b : Reservations W)
      → sv.reservations ≡ some b
      → (r : Reservation) → Answers (b.ensure_reservation r)
  pub log_writer :
      (b : LogWriter W) → sv.log_writer ≡ some b → (t : LogTenant) → Answers (b.put_users t)

module _ {W : Type 0} (sv : Service W) (accepting : IsAccepting sv) (rec : Record) where
  abbrev Certain : {A : Type 0} → Call Error (State W) A → Type 0
  Certain call = Sure (HasRow rec.name) call

  out : {A : Type 0} (call : Call Error W A) → Answers call → Certain (outside call)
  out call h = outside-Sure rec.name call h

  on_network-Sure :
      (backend : Option (Network W))
      → ((b : Network W) → backend ≡ some b → (n : NetworkSpec) → Answers (b.ensure_network n))
      → Certain (on_network sv backend rec)
  on_network-Sure none h = give-Sure tt
  on_network-Sure (some b) h = out _ (h b refl _)

  module _ (b : Reservations W)
      (answers : (r : Reservation) → Answers (b.ensure_reservation r)) where
    ensure_in_range-Sure :
        (a : DeviceAddress) (range : Option AddressRange)
        → Certain (ensure_in_range sv b rec a range)
    ensure_in_range-Sure a none = give-Sure tt
    ensure_in_range-Sure a (some r) =
        bind-Sure _ _ (out _ (answers _)) (λ d. out _ (accepting.records _ _ _))

    ensure_addresses-Sure : Certain (ensure_addresses sv b rec)
    unfolding ensure_addresses ensure_address
    ensure_addresses-Sure =
        bind-Sure _ _ (list_device_addresses-Sure rec.name sv.store accepting.store)
          (λ addresses. for_each-Sure addresses _ (λ a. ensure_in_range-Sure a _))

  random_hex-Sure : (n : ℕ) → Certain (random_hex sv n)
  unfolding random_hex
  random_hex-Sure n = bind-Sure _ _ (out _ accepting.random) (λ bytes. give-Sure _)

  log_tokens-Sure : Certain (log_tokens sv)
  unfolding log_tokens
  log_tokens-Sure = search (sure_rules, random_hex-Sure)

  ensure_log_tokens-Sure :
      (b : LogWriter W)
      → ((t : LogTenant) → Answers (b.put_users t))
      → Certain (ensure_log_tokens sv b rec)
  unfolding ensure_log_tokens
  ensure_log_tokens-Sure b answers =
      search
        (
          sure_rules,
          log_tokens-Sure,
          set_secrets-Sure rec.name sv.store accepting.store,
          out,
          answers,
        )
        depth 12

  reload-Sure : Certain (reload sv rec)
  unfolding reload
  reload-Sure =
      bind-Sure _ _ (attempt-Sure _ (get-Sure rec.name sv.store accepting.store))
        (λ answer. give-Sure _)

  abbrev AllCertain : List (Run sv) → Type 0
  AllCertain steps = All (λ (x : Run sv). Certain x.1) steps

  for_backend-Sure :
      {B : Type 0} (backend : Option B) (run : B → Run sv)
      → ((b : B) → backend ≡ some b → Certain (run b).1)
      → AllCertain (for_backend sv backend run)
  for_backend-Sure none run h = tt
  for_backend-Sure (some b) run h = (h b refl, tt)

  create_steps-Sure : sv.dashboards ≡ none → AllCertain (create_steps sv rec)
  unfolding create_steps build_network
  create_steps-Sure no_dashboards = (
    out _ (accepting.zones _),
    (
      out _ (accepting.forwards _),
      (
        out _ (accepting.state _),
        (
          on_network-Sure sv.network accepting.network,
          All-append _ _ _
              (for_backend-Sure sv.reservations _
                (λ b there. ensure_addresses-Sure b (accepting.reservations b there)))
              (All-append _ _ _
                (for_backend-Sure sv.log_writer _
                  (λ b there. ensure_log_tokens-Sure b (accepting.log_writer b there)))
                (for_backend-Sure sv.dashboards _ (λ b there. absurd (cc)))),
        ),
      ),
    ),
  )

  -- The run through the steps ends without an error.
  abbrev pub Finishes : Call Error (State W) (Record × Option Error) → Type 0
  Finishes call =
      Ensures (HasRow rec.name) call (λ left s. HasRow rec.name s × (left.1 ≡ none)) (λ e s. ⊥)

  after_status-Finishes :
      (answer : Result Error Done) → IsOk answer → Finishes (after_status sv rec answer)
  after_status-Finishes (ok d) h =
      bind-Ensures reload-Sure.sure (λ fresh. give-Ensures _ (λ s has. (has, refl)))
  after_status-Finishes (err e) h = absurd h

  after_step-Finishes :
      (name : Text) (answer : Result Error Done)
      (rest : Call Error (State W) (Record × Option Error))
      → IsOk answer
      → Finishes rest
      → Finishes (after_step sv rec name answer rest)
  after_step-Finishes name (ok d) rest h k = k
  after_step-Finishes name (err e) rest h k = absurd h

  run_steps-Finishes :
      (steps : List (Run sv)) → AllCertain steps → Finishes (run_steps sv rec steps)
  unfolding run_steps
  run_steps-Finishes [] h =
      bind-Ensures (attempt-IsOk (set_status-Sure rec.name sv.store accepting.store ready))
        (λ answer. given-Ensures (after_status-Finishes answer))
  run_steps-Finishes ((name, run) ∷ steps) h = bind-Ensures (attempt-IsOk h.0) (λ answer.
      given-Ensures (λ is_ok.
        bind-Ensures
          (logged-Sure _
            (record_step-Sure rec.name sv.store accepting.store name (error_of sv answer))).sure
          (λ d. after_step-Finishes name answer _ is_ok (run_steps-Finishes steps h.1))))

  pub ensure-Finishes : sv.dashboards ≡ none → Finishes (ensure sv rec)
  unfolding ensure
  ensure-Finishes no_dashboards =
      run_steps-Finishes (create_steps sv rec) (create_steps-Sure no_dashboards)
