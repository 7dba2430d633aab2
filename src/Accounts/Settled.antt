-- ===== src/Accounts/Settled.antt =====
-- The operations on broker accounts leave the tenants' numbers and the workloads as they are.
use deevnet_provisioning_api.Prelude.{refl, Option, none, some, List, Text, Result, Done, ok, err}
use deevnet_provisioning_api.Alloc.Address.{Status}
use deevnet_provisioning_api.Calls.{Call, modify}
use deevnet_provisioning_api.Calls.Laws.{bind-Leaves, call_rules}
use deevnet_provisioning_api.Registry.{Error, Record, BrokerAccount, State}
use deevnet_provisioning_api.Registry.Tenants.{found}
use deevnet_provisioning_api.Registry.Reads.{Reads, found-Reads}
use deevnet_provisioning_api.Registry.Placing.{Reads-Places}
use deevnet_provisioning_api.Registry.Accounts.{
  change_accounts, found_account, get_account, put_account_row, set_account_status,
  delete_account_row,
}
use deevnet_provisioning_api.Lifecycle.{Service, BrokerWriter}
use deevnet_provisioning_api.Lifecycle.Delete.{remove_account_with}
use deevnet_provisioning_api.Workloads.Placement.{
  Settles, outside-Settles, audited-Settles, step_error-Settles, if_there-Settles,
}
use deevnet_provisioning_api.Accounts.{
  AccountRequest, IssuedAccount, put_with, after_put, write_account, create_account, delete_account,
}
use deevnet_provisioning_api.Accounts.Stored.{
  found_account-Reads, get_account-Reads, check_account_request-Reads, choose_secret-Reads,
}

module _ {W : Type 0} (sv : Service W) where
  change_accounts-Settles :
      (f : List BrokerAccount → List BrokerAccount) → Settles sv (change_accounts sv.store f)
  unfolding change_accounts modify
  change_accounts-Settles f = record { after = λ s. (refl, λ h. h) }

  Reads-Settles : {A : Type 0} (call : Call Error (State W) A) → Reads call → Settles sv call
  Reads-Settles call h = Reads-Places sv.store call h

  found-Settles : (row : Option Record) → Settles sv (found sv.store row)
  found-Settles row = Reads-Settles _ (found-Reads sv.store row)

  found_account-Settles : (a : Option BrokerAccount) → Settles sv (found_account sv.store a)
  found_account-Settles a = Reads-Settles _ (found_account-Reads sv a)

  get_account-Settles : (tenant name : Text) → Settles sv (get_account sv.store tenant name)
  get_account-Settles tenant name = Reads-Settles _ (get_account-Reads sv tenant name)

  ruleset account_rules = (
    call_rules, outside-Settles, audited-Settles, step_error-Settles, if_there-Settles,
    change_accounts-Settles, found-Settles, found_account-Settles, get_account-Settles,
  )

  put_account_row-Settles : (a : BrokerAccount) → Settles sv (put_account_row sv.store a)
  unfolding put_account_row
  put_account_row-Settles a = search account_rules depth 12

  set_account_status-Settles :
      (tenant name : Text) (status : Status)
      → Settles sv (set_account_status sv.store tenant name status)
  unfolding set_account_status
  set_account_status-Settles tenant name status = search account_rules depth 12

  put_with-Settles :
      (writer : Option (BrokerWriter W)) (a : BrokerAccount) → Settles sv (put_with sv writer a)
  put_with-Settles none a = search call_rules
  put_with-Settles (some writer) a = search account_rules

  after_put-Settles :
      (tenant : Text) (issued : IssuedAccount) (sent : Result Error Done)
      → Settles sv (after_put sv tenant issued sent)
  after_put-Settles tenant issued (ok d) = search (account_rules, set_account_status-Settles)
  after_put-Settles tenant issued (err e) = search account_rules

  write_account-Settles :
      (tenant : Text) (r : AccountRequest) (patterns : List Text × List Text) (secret : Text × Text)
      → Settles sv (write_account sv tenant r patterns secret)
  unfolding write_account
  write_account-Settles tenant r patterns secret =
      search (account_rules, put_account_row-Settles, put_with-Settles, after_put-Settles) depth 16

  pub create_account-Settles :
      (tenant : Text) (r : AccountRequest) → Settles sv (create_account sv tenant r)
  unfolding create_account
  create_account-Settles tenant r =
      bind-Leaves _ _ (Reads-Settles _ (check_account_request-Reads sv tenant r)) (λ patterns.
        bind-Leaves _ _ (search account_rules) (λ read.
          bind-Leaves _ _ (if_there-Settles sv read) (λ existing.
            bind-Leaves _ _ (Reads-Settles _ (choose_secret-Reads sv _ _))
              (λ secret. write_account-Settles tenant r patterns secret))))

  remove_account_with-Settles :
      (writer : Option (BrokerWriter W)) (tenant name : Text)
      → Settles sv (remove_account_with sv writer tenant name)
  remove_account_with-Settles none tenant name = search call_rules
  remove_account_with-Settles (some writer) tenant name = search account_rules

  pub delete_account-Settles : (tenant name : Text) → Settles sv (delete_account sv tenant name)
  unfolding delete_account delete_account_row
  delete_account-Settles tenant name = search (account_rules, remove_account_with-Settles) depth 16
