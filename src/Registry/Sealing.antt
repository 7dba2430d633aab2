-- ===== src/Registry/Sealing.antt =====
-- seal, open and openOne of internal/store/store.go.
use deevnet_provisioning_api.Prelude.{
  Bool, true, false, ◌||◌, Option, none, some, [], Text, Result, ok, err, if◌then◌else◌,
}
use deevnet_provisioning_api.Calls.{Call, give, fail_with, ◌>>=◌, attempt}
use deevnet_provisioning_api.Registry.{
  Error, secrets_unavailable, step, Secrets, State, Sealer, Store, outside,
}

-- errors.Is(err, ErrSecretsUnavailable)
unfoldable pub is_unavailable : Error → Bool
is_unavailable secrets_unavailable = true
is_unavailable (step name e) = is_unavailable e
is_unavailable _ = false

module _ {W : Type 0} where
  abbrev pub seal_with : Option (Sealer W) → Secrets → Call Error (State W) Secrets
  seal_with none s = give s
  seal_with (some sealer) s = do
    tsig ← outside (sealer.seal s.tsig)
    state ← outside (sealer.seal s.state)
    log_ingest ← outside (sealer.seal s.log_ingest)
    log_read ← outside (sealer.seal s.log_read)
    dashboard_password ← outside (sealer.seal s.dashboard_password)
    give (record s {
      tsig = tsig;
      state = state;
      log_ingest = log_ingest;
      log_read = log_read;
      dashboard_password = dashboard_password;
    })

  abbrev pub opened_one : Result Error Text → Call Error (State W) (Text × Bool)
  opened_one (ok plain) = give (plain, false)
  opened_one (err e) = if is_unavailable e then fail_with e else give ([], true)

  -- openOne: the text, and whether the stored one would not open
  unfoldable pub open_one : Sealer W → Text → Call Error (State W) (Text × Bool)
  unfolding is_unavailable
  open_one sealer stored = do
    answer ← attempt (outside (sealer.open_sealed stored))
    opened_one answer

  abbrev pub open_with : Option (Sealer W) → Secrets → Call Error (State W) Secrets
  open_with none s = give s
  open_with (some sealer) s = do
    (tsig, no_tsig) ← open_one sealer s.tsig
    (state, no_state) ← open_one sealer s.state
    (log_ingest, no_ingest) ← open_one sealer s.log_ingest
    (log_read, no_read) ← open_one sealer s.log_read
    (dashboard_password, no_password) ← open_one sealer s.dashboard_password
    give (record s {
      tsig = tsig;
      state = state;
      log_ingest = log_ingest;
      log_read = log_read;
      dashboard_password = dashboard_password;
      unreadable = no_tsig || no_state;
    })

  unfoldable pub seal_secrets : Store W → Secrets → Call Error (State W) Secrets
  seal_secrets p = seal_with p.sealer

  unfoldable pub open_secrets : Store W → Secrets → Call Error (State W) Secrets
  unfolding open_one
  open_secrets p = open_with p.sealer
