-- ===== src/Registry/Accounts.antt =====
-- The table of broker accounts: internal/store/brokeraccounts.go.
use deevnet_provisioning_api.Prelude.{
  Bool, ◌&&◌, Option, none, some, List, [], ◌∷◌, map, drop_where, Text, text_eq, Done,
  if◌then◌else◌,
}
use deevnet_provisioning_api.Alloc.Address.{Status}
use deevnet_provisioning_api.Calls.{Call, give, fail_with, gets, modify, ◌>>=◌, ◌>>◌}
use deevnet_provisioning_api.Registry.{Error, not_found, BrokerAccount, State, Store, outside}
use deevnet_provisioning_api.Registry.Tenants.{find_row, found}

abbrev pub is_account : Text → Text → BrokerAccount → Bool
is_account tenant name a = text_eq a.tenant tenant && text_eq a.name name

unfoldable pub find_account : Text → Text → List BrokerAccount → Option BrokerAccount
find_account tenant name [] = none
find_account tenant name (a ∷ accounts) =
    if is_account tenant name a then some a else find_account tenant name accounts

unfoldable pub upsert_account : BrokerAccount → List BrokerAccount → List BrokerAccount
upsert_account a [] = a ∷ []
upsert_account a (old ∷ accounts) =
    if is_account a.tenant a.name old then a ∷ accounts else old ∷ upsert_account a accounts

abbrev pub on_account :
    Text → Text → (BrokerAccount → BrokerAccount) → BrokerAccount → BrokerAccount
on_account tenant name f a = if is_account tenant name a then f a else a

module _ {W : Type 0} (p : Store W) where
  unfoldable pub change_accounts :
      (List BrokerAccount → List BrokerAccount) → Call Error (State W) Done
  change_accounts f = modify (λ s. record s {
    registry = record s.registry { broker_accounts = f s.registry.broker_accounts };
  })

  abbrev pub found_account : Option BrokerAccount → Call Error (State W) BrokerAccount
  found_account none = fail_with not_found
  found_account (some a) = give a

  unfoldable pub get_account : Text → Text → Call Error (State W) BrokerAccount
  get_account tenant name = do
    outside p.query
    row ← gets (λ s. find_account tenant name s.registry.broker_accounts)
    found_account row

  -- PutBrokerAccount, whose row is the account as it was given
  unfoldable pub put_account_row : BrokerAccount → Call Error (State W) BrokerAccount
  put_account_row a = do
    outside p.query
    row ← gets (λ s. find_row a.tenant s.registry.tenants)
    r ← found p row
    change_accounts (upsert_account a)
    give a

  unfoldable pub set_account_status : Text → Text → Status → Call Error (State W) Done
  set_account_status tenant name status = do
    outside p.query
    row ← gets (λ s. find_account tenant name s.registry.broker_accounts)
    a ← found_account row
    change_accounts (map (on_account tenant name (λ a. record a { status = status })))

  unfoldable pub delete_account_row : Text → Text → Call Error (State W) Done
  delete_account_row tenant name = do
    outside p.query
    change_accounts (drop_where (is_account tenant name))
