-- ===== src/Accounts.antt =====
-- Broker accounts: CreateBrokerAccount, DeleteBrokerAccount and what they call, of
-- internal/tenant/brokeraccounts.go.
pub mod Stored
pub mod Settled
pub mod Kept
pub mod Retry
mod Tests
use deevnet_provisioning_api.Prelude.{
  ℕ, Bool, true, false, not, Option, none, some, List, [], ◌∷◌, ◌++◌, is_empty, map, Text, text_eq,
  codes, Result, Done, ok, err, if◌then◌else◌,
}
use deevnet_provisioning_api.Names.{valid_workload_name}
use deevnet_provisioning_api.Alloc.Address.{provisioning, ready}
use deevnet_provisioning_api.Calls.{
  Call, give, fail_with, refuse_when, checked, ◌>>=◌, ◌>>◌, attempt,
}
use deevnet_provisioning_api.Broker.Patterns.{Refusal}
use deevnet_provisioning_api.Broker.Grants.{account_patterns}
use deevnet_provisioning_api.Registry.{
  Error, step, invalid, not_ready, no_accounts, bad_account_name, foreign_device, no_broker_path,
  account_refused, Device, BrokerAccount, State, outside,
}
use deevnet_provisioning_api.Registry.Tenants.{get}
use deevnet_provisioning_api.Registry.Addresses.{get_device}
use deevnet_provisioning_api.Registry.Parts.{list_broker_accounts}
use deevnet_provisioning_api.Registry.Accounts.{
  get_account, put_account_row, set_account_status, delete_account_row,
}
use deevnet_provisioning_api.Lifecycle.{Service, BrokerWriter}
use deevnet_provisioning_api.Lifecycle.Steps.{audited}
use deevnet_provisioning_api.Lifecycle.Delete.{is_none, remove_account_with}
use deevnet_provisioning_api.Lifecycle.Create.{step_error}
use deevnet_provisioning_api.Devices.{is_ready, if_there}
use deevnet_provisioning_api.Wireless.{random_psk}

pub record AccountRequest : Type 0 where
  pub name : Text
  pub device : Text
  pub publish : List Text
  pub subscribe : List Text
  pub password : Text

pub record IssuedAccount : Type 0 where
  pub account : BrokerAccount
  pub password : Text
  pub username : Text

-- `invalid("%s", err)`
abbrev pub as_invalid {ℓ} : {A : Type ℓ} → Result Refusal A → Result Error A
as_invalid (ok a) = ok a
as_invalid (err refusal) = err (invalid (account_refused refusal))

abbrev pub hash_of : Option BrokerAccount → Text
hash_of none = []
hash_of (some old) = old.password_hash

module _ {W : Type 0} (sv : Service W) where
  abbrev pub on_iot : Option Device → Call Error (State W) Done
  on_iot none = fail_with (invalid foreign_device)
  on_iot (some d) = refuse_when (not (text_eq d.trust_class (codes "iot"))) (invalid no_broker_path)

  abbrev pub look_up_device : Text → Text → Call Error (State W) Done
  look_up_device tenant device = do
    read ← attempt (get_device sv.store tenant device)
    d ← if_there read
    on_iot d

  -- checkBrokerDevice
  unfoldable pub check_broker_device : Text → Text → Call Error (State W) Done
  check_broker_device tenant device =
      if is_empty device then give tt else look_up_device tenant device

  abbrev pub hashed : Text → Call Error (State W) (Text × Text)
  hashed password = do hash ← outside (sv.hash_password password); give (hash, password)

  abbrev pub new_password : Call Error (State W) (Text × Text)
  new_password = do password ← random_psk sv; hashed password

  -- chooseBrokerSecret: the hash and the plaintext
  unfoldable pub choose_secret : Text → Text → Call Error (State W) (Text × Text)
  choose_secret supplied stored =
      if not (is_empty supplied)
      then hashed supplied
      else if not (is_empty stored)
      then give (stored, [])
      else new_password

  -- The checks of a request, and the patterns.
  unfoldable pub check_account_request :
      Text → AccountRequest → Call Error (State W) (List Text × List Text)
  check_account_request tenant r = do
    refuse_when (is_none sv.broker_writer) (invalid no_accounts)
    rec ← get sv.store tenant
    refuse_when (not (is_ready rec.status)) (invalid (not_ready rec.status))
    refuse_when (not (valid_workload_name r.name)) (invalid bad_account_name)
    check_broker_device tenant r.device
    checked (as_invalid (account_patterns tenant r.device r.publish r.subscribe))

  abbrev pub put_with : Option (BrokerWriter W) → BrokerAccount → Call Error (State W) Done
  put_with none a = give tt
  put_with (some writer) a = outside (writer.put_account a)

  -- The account as it is handed back, with the error of a step after the row was written: the code
  -- returns both.
  abbrev pub Answer : Type 0
  Answer = IssuedAccount × Option Error

  abbrev pub marked : IssuedAccount → Result Error Done → Answer
  marked issued (ok d) =
      (record issued { account = record issued.account { status = ready } }, none)
  marked issued (err e) = (issued, some e)

  abbrev pub after_put : Text → IssuedAccount → Result Error Done → Call Error (State W) Answer
  after_put tenant issued (err e) = give (issued, some (step (codes "broker-account") e))
  after_put tenant issued (ok d) = do
    answer ← attempt (set_account_status sv.store tenant issued.account.name ready)
    give (marked issued answer)

  -- The row first, then the writer.
  unfoldable pub write_account :
      Text → AccountRequest → List Text × List Text → Text × Text → Call Error (State W) Answer
  write_account tenant r (pubs, subs) (hash, plaintext) = do
    a ← put_account_row sv.store (record {
      tenant = tenant;
      name = r.name;
      device = r.device;
      publish = pubs;
      subscribe = subs;
      password_hash = hash;
      status = provisioning;
    })
    audited sv (codes "broker-account-create") tenant
    sent ← attempt (put_with sv.broker_writer a)
    after_put tenant
        (record { account = a; password = plaintext; username = tenant ++ b'-' ∷ a.name }) sent

  -- CreateBrokerAccount
  unfoldable pub create_account : Text → AccountRequest → Call Error (State W) Answer
  create_account tenant r = do
    patterns ← check_account_request tenant r
    read ← attempt (get_account sv.store tenant r.name)
    existing ← if_there read
    secret ← choose_secret r.password (hash_of existing)
    write_account tenant r patterns secret

  unfoldable pub delete_account : Text → Text → Call Error (State W) Done
  delete_account tenant name = do
    a ← get_account sv.store tenant name
    gone ← attempt (remove_account_with sv sv.broker_writer tenant name)
    step_error sv (codes "broker-account") gone
    audited sv (codes "broker-account-delete") tenant
    delete_account_row sv.store tenant name

  abbrev pub issued_of : Text → BrokerAccount → IssuedAccount
  issued_of tenant a = record { account = a; password = []; username = tenant ++ b'-' ∷ a.name }

  unfoldable pub view_account : Text → Text → Call Error (State W) IssuedAccount
  view_account tenant name = do
    a ← get_account sv.store tenant name
    give (record { account = a; password = []; username = tenant ++ b'-' ∷ name })

  unfoldable pub list_accounts : Text → Call Error (State W) (List IssuedAccount)
  list_accounts tenant = do
    accounts ← list_broker_accounts sv.store tenant
    give (map (issued_of tenant) accounts)
