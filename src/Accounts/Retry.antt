-- ===== src/Accounts/Retry.antt =====
-- CreateBrokerAccount of internal/tenant/brokeraccounts.go where the account is there already:
-- which hash it leaves and hands on.
use deevnet_provisioning_api.Prelude.{
  ◌≡◌, refl, false, Option, none, some, List, [], is_empty, Text, Result, ok, err, Done,
}
use deevnet_provisioning_api.Alloc.Address.{ready}
use deevnet_provisioning_api.Calls.Laws.{call_rules}
use deevnet_provisioning_api.Calls.Outcomes.{
  After, Ensures, given-Ensures, give-Ensures, bind-Ensures, attempt-Ensures, logged-Ensures,
}
use deevnet_provisioning_api.Registry.{Error, BrokerAccount, State}
use deevnet_provisioning_api.Registry.Reads.{Reads, outside-Reads}
use deevnet_provisioning_api.Registry.Accounts.{set_account_status, find_account}
use deevnet_provisioning_api.Lifecycle.{Service, BrokerWriter}
use deevnet_provisioning_api.Devices.Held.{NeverMissing}
use deevnet_provisioning_api.Accounts.{
  AccountRequest, IssuedAccount, hash_of, choose_secret, put_with, write_account, create_account,
  Answer, marked, after_put,
}
use deevnet_provisioning_api.Accounts.Stored.{check_account_request-Reads}
use deevnet_provisioning_api.Accounts.Kept.{
  Keeps, HasHash, Holds, Reads-Keeps, audit-Keeps, put_account_row-Holds, set_account_status-Keeps,
  get_account-Ensures, Read, if_there-Ensures,
}

-- The account that is handed back has the hash of its row, and no password with it.
abbrev pub Unchanged : {W : Type 0} → Text → Text → Text → IssuedAccount → State W → Type 0
Unchanged tenant name hash issued s =
    HasHash tenant name hash s × (issued.account.password_hash ≡ hash) × (issued.password ≡ [])

module _ {W : Type 0} (sv : Service W) (tenant : Text) (r : AccountRequest) (hash : Text) where
  abbrev Before : State W → Type 0
  Before = Holds tenant r.name hash

  put_with-Reads :
      (writer : Option (BrokerWriter W)) (a : BrokerAccount) → Reads (put_with sv writer a)
  put_with-Reads none a = search call_rules
  put_with-Reads (some w) a = search (call_rules, outside-Reads)

  choose_secret-Ensures :
      (supplied stored : Text)
      → supplied ≡ []
      → stored ≡ hash
      → is_empty hash ≡ false
      → Ensures Before
          (choose_secret sv supplied stored)
          (λ secret s. Before s × (secret ≡ (hash, [])))
          (λ e. Before)
  unfolding choose_secret
  choose_secret-Ensures supplied stored none_brought same full =
      rw (none_brought, same, full) (give-Ensures _ (λ s h. (h, refl)))

  abbrev Handed : Answer sv → State W → Type 0
  Handed answer s = Unchanged tenant r.name hash answer.0 s

  marked-Handed :
      (issued : IssuedAccount) (answer : Result Error Done) (s : State W)
      → Unchanged tenant r.name hash issued s
      → Handed (marked sv issued answer) s
  marked-Handed issued (ok d) s h = h
  marked-Handed issued (err e) s h = h

  status_kept :
      (name : Text)
      → name ≡ r.name
      → Keeps tenant r.name hash (set_account_status sv.store tenant name ready)
  status_kept name named = rw named (set_account_status-Keeps tenant r.name hash sv.store ready)

  after_put-Ensures :
      (issued : IssuedAccount) (sent : Result Error Done)
      → issued.account.name ≡ r.name
      → issued.account.password_hash ≡ hash
      → issued.password ≡ []
      → Ensures Before (after_put sv tenant issued sent) Handed (λ e. Before)
  after_put-Ensures issued (err e) named same none_given =
      give-Ensures _ (λ s h. (h, same, none_given))
  after_put-Ensures issued (ok d) named same none_given =
      bind-Ensures
        (attempt-Ensures {good = λ answer. Before} (status_kept issued.account.name named))
        (λ answer. give-Ensures _ (λ s h. marked-Handed issued answer s (h, same, none_given)))

  write_account-Ensures :
      (pubs subs : List Text)
      → Ensures Before (write_account sv tenant r (pubs, subs) (hash, [])) Handed (λ e. Before)
  unfolding write_account
  write_account-Ensures pubs subs =
      bind-Ensures (put_account_row-Holds tenant r.name hash sv.store _ refl refl refl) (λ a.
        given-Ensures (λ written. rw written (
          bind-Ensures (logged-Ensures (audit-Keeps tenant r.name hash sv.store _)) (λ d.
            bind-Ensures (Reads-Keeps tenant r.name hash _ (search (call_rules, put_with-Reads)))
              (λ sent. after_put-Ensures _ sent refl refl refl)))))

  create_account-Ensures :
      NeverMissing sv.store
      → r.password ≡ []
      → is_empty hash ≡ false
      → Ensures Before (create_account sv tenant r) Handed (λ e. Before)
  unfolding create_account
  create_account-Ensures never none_brought full =
      bind-Ensures (Reads-Keeps tenant r.name hash _ (check_account_request-Reads sv tenant r))
        (λ patterns.
          bind-Ensures
            (attempt-Ensures
              {good = λ read s. Before s × Read tenant r.name hash sv.store never read}
              (get_account-Ensures tenant r.name hash sv.store never))
            (λ read.
              bind-Ensures (if_there-Ensures tenant r.name hash sv.store never read) (λ existing.
                given-Ensures (λ same.
                  bind-Ensures
                    (choose_secret-Ensures r.password (hash_of existing) none_brought same full)
                    (λ secret.
                      given-Ensures
                        (λ chosen. rw chosen (write_account-Ensures patterns.0 patterns.1)))))))

-- Provided that the database never answers a failure of its own with the error for a missing row: a
-- create of an account that is there already, whose row holds a hash that is not empty, with no
-- password in the request, leaves the row with that hash, whether it succeeds or fails and at
-- whichever step; where an account is handed back, with the error of a step or without one, it has
-- that hash too, and no password with it.
pub create_account-Unchanged :
    {W : Type 0} (sv : Service W) (tenant : Text) (r : AccountRequest) (old : BrokerAccount)
    (s : State W)
    → NeverMissing sv.store
    → r.password ≡ []
    → is_empty old.password_hash ≡ false
    → find_account tenant r.name s.registry.broker_accounts ≡ some old
    → After
        (λ answer t. Unchanged tenant r.name old.password_hash answer.0 t)
        (λ e t. HasHash tenant r.name old.password_hash t)
        (create_account sv tenant r s)
create_account-Unchanged sv tenant r old s never none_brought full there =
    (create_account-Ensures sv tenant r old.password_hash never none_brought full).run s
      (old, there, refl)
