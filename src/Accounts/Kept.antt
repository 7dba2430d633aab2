-- ===== src/Accounts/Kept.antt =====
-- The hash of a broker account in the registry: which calls of internal/store/brokeraccounts.go
-- keep it, and what they read of it.
use deevnet_provisioning_api.Prelude.{
  ◌≡◌, ◌≢◌, refl, sym, ap, ◌∙◌, subst, Option, none, some, List, map, Text, Result, ok, err, Done,
}
use deevnet_provisioning_api.Alloc.Address.{Status}
use deevnet_provisioning_api.Calls.{Outcome, returns, raises, Call}
use deevnet_provisioning_api.Calls.Laws.{call_rules}
use deevnet_provisioning_api.Calls.Outcomes.{
  After, Ensures, give-Ensures, fail_with-Ensures, gets-Ensures, bind-Ensures, modify-Ensures,
  kept-Ensures,
}
use deevnet_provisioning_api.Registry.{
  Error, not_found, AuditEntry, BrokerAccount, Registry, State, Store, outside, keep,
}
use deevnet_provisioning_api.Registry.Tenants.{audit, write_audit}
use deevnet_provisioning_api.Registry.Reads.{same_registry, Reads, outside-Reads, found-Reads}
use deevnet_provisioning_api.Registry.Accounts.{
  on_account, find_account, upsert_account, change_accounts, found_account, get_account,
  put_account_row, set_account_status,
}
use deevnet_provisioning_api.Devices.{if_there}
use deevnet_provisioning_api.Devices.Held.{NeverMissing}
use deevnet_provisioning_api.Accounts.{hash_of}
use deevnet_provisioning_api.Accounts.Stored.{find_account-upsert_account, find_account-map}

-- The account has a row, with this hash.
abbrev pub HasHash : {W : Type 0} → Text → Text → Text → State W → Type 0
HasHash tenant name hash s =
    (a : BrokerAccount) × (find_account tenant name s.registry.broker_accounts ≡ some a)
    × (a.password_hash ≡ hash)

same_hash :
    {hash : Text} (b : BrokerAccount)
    → ((a : BrokerAccount) × (some b ≡ some a) × (a.password_hash ≡ hash))
    → b.password_hash ≡ hash
same_hash b (a, e, h) = let e' : b ≡ a = cc in ap (λ (x : BrokerAccount). x.password_hash) e' ∙ h

upserted :
    (tenant name : Text) (a : BrokerAccount) (accounts : List BrokerAccount)
    → a.tenant ≡ tenant
    → a.name ≡ name
    → find_account tenant name (upsert_account a accounts) ≡ some a
upserted tenant name a accounts t n = rw (← t, ← n) (find_account-upsert_account a accounts)

module _ {W : Type 0} (tenant name hash : Text) where
  abbrev pub Holds : State W → Type 0
  Holds s = HasHash tenant name hash s

  abbrev pub Keeps : {A : Type 0} → Call Error (State W) A → Type 0
  Keeps call = Ensures Holds call (λ a. Holds) (λ e. Holds)

  pub Reads-Keeps : {A : Type 0} (call : Call Error (State W) A) → Reads call → Keeps call
  Reads-Keeps call h =
      kept-Ensures same_registry _
        (λ s t e was.
          subst
            (λ (r : Registry).
              (a : BrokerAccount) × (find_account tenant name r.broker_accounts ≡ some a)
              × (a.password_hash ≡ hash))
            (sym e) was)
        h

  pub audit-Keeps : (p : Store W) (entry : AuditEntry) → Keeps (audit p entry)
  unfolding audit write_audit
  audit-Keeps p entry =
      bind-Ensures (Reads-Keeps _ (outside-Reads p.query)) (λ d. modify-Ensures _ (λ s h. h))

  -- The row as it is written, with the hash of the row that was there.
  found_account-Reads : (p : Store W) (a : Option BrokerAccount) → Reads (found_account p a)
  found_account-Reads p none = search call_rules
  found_account-Reads p (some a) = search call_rules

  pub put_account_row-Holds :
      (p : Store W) (a : BrokerAccount)
      → a.tenant ≡ tenant
      → a.name ≡ name
      → a.password_hash ≡ hash
      → Ensures Holds (put_account_row p a) (λ b s. Holds s × (b ≡ a)) (λ e. Holds)
  unfolding put_account_row change_accounts
  put_account_row-Holds p a t n h = bind-Ensures (Reads-Keeps _ (outside-Reads p.query)) (λ d.
      bind-Ensures (Reads-Keeps _ (search call_rules)) (λ row.
        bind-Ensures (Reads-Keeps _ (found-Reads p row)) (λ r.
          bind-Ensures {middle = λ d. Holds}
            (modify-Ensures _
              (λ s was. (a, upserted tenant name a s.registry.broker_accounts t n, h)))
            (λ d. give-Ensures a (λ s was. (was, refl))))))

  set_status_lem :
      (status : Status) (s : State W)
      → Holds s
      → (a : BrokerAccount) × (find_account tenant name (
            map
              (on_account tenant name (λ a. record a { status = status }))
              s.registry.broker_accounts)
          ≡ some a)
        × (a.password_hash ≡ hash)
  set_status_lem status s (a, there, h) = (
    record a { status = status },
    find_account-map tenant name (λ a. record a { status = status }) s.registry.broker_accounts a
        (λ b. refl) there,
    h,
  )

  pub set_account_status-Keeps :
      (p : Store W) (status : Status) → Keeps (set_account_status p tenant name status)
  unfolding set_account_status change_accounts
  set_account_status-Keeps p status = bind-Ensures (Reads-Keeps _ (outside-Reads p.query)) (λ d.
      bind-Ensures (Reads-Keeps _ (search call_rules)) (λ row.
        bind-Ensures (Reads-Keeps _ (found_account-Reads p row))
          (λ r. modify-Ensures _ (λ s was. set_status_lem status s was))))

  module _ (p : Store W) (never : NeverMissing p) where
    kept_query :
        (s : State W) (o : Outcome Error W Done)
        → Holds s
        → ((w : W) → o ≢ raises not_found w)
        → After (λ (d : Done). Holds) (λ e t. Holds t × (e ≢ not_found)) (keep s.registry o)
    kept_query s (returns d w) h k = h
    kept_query s (raises e w) h k = (h, λ same. k w (ap (λ (x : Error). raises x w) same))

    query-Ensures : Ensures Holds (outside p.query) (λ d. Holds) (λ e s. Holds s × (e ≢ not_found))
    unfolding outside
    query-Ensures = record { run = λ s h. kept_query s (p.query s.world) h (never s.world) }

    found_account-Ensures :
        (row : Option BrokerAccount)
        → Ensures
            (λ s. Holds s × ((a : BrokerAccount) × (row ≡ some a) × (a.password_hash ≡ hash)))
            (found_account p row)
            (λ a s. Holds s × (a.password_hash ≡ hash))
            (λ e s. Holds s × (e ≢ not_found))
    found_account-Ensures none = fail_with-Ensures not_found (λ s h. let e = h.1.1 in absurd (cc))
    found_account-Ensures (some a) = give-Ensures a (λ s h. (h.0, same_hash a h.1))

    pub get_account-Ensures :
        Ensures Holds
          (get_account p tenant name)
          (λ a s. Holds s × (a.password_hash ≡ hash))
          (λ e s. Holds s × (e ≢ not_found))
    unfolding get_account
    get_account-Ensures = bind-Ensures query-Ensures (λ d.
        bind-Ensures
          {middle = λ row s.
            Holds s × ((a : BrokerAccount) × (row ≡ some a) × (a.password_hash ≡ hash))}
          (gets-Ensures _ (λ s h. (h, h))) found_account-Ensures)

    abbrev pub Read : Result Error BrokerAccount → Type 0
    Read (ok a) = a.password_hash ≡ hash
    Read (err e) = e ≢ not_found

    pub if_there-Ensures :
        (read : Result Error BrokerAccount)
        → Ensures
            (λ (s : State W). Holds s × Read read)
            (if_there read)
            (λ existing s. Holds s × (hash_of existing ≡ hash))
            (λ e. Holds)
    if_there-Ensures (ok a) = give-Ensures (some a) (λ s h. h)
    if_there-Ensures (err not_found) = give-Ensures none (λ s h. absurd (h.1 refl))
    if_there-Ensures (err e) = fail_with-Ensures e (λ s h. h.0)
