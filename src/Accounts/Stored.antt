-- ===== src/Accounts/Stored.antt =====
-- The table of broker accounts under what CreateBrokerAccount of internal/tenant/brokeraccounts.go
-- writes to it, and which of its calls only read.
use deevnet_provisioning_api.Prelude.{
  ◌≡◌, refl, ap, Bool-cases, inl, inr, true, Bool, ◌&&◌, zero, suc, ℕ, Option, none, some, List, [],
  ◌∷◌, map, Text, text_eq, text_eq_refl, if◌then◌else◌,
}
use deevnet_provisioning_api.Calls.Laws.{bind-Leaves, give-Leaves, call_rules}
use deevnet_provisioning_api.Registry.{Device, BrokerAccount}
use deevnet_provisioning_api.Registry.Reads.{Reads, outside-Reads, get-Reads}
use deevnet_provisioning_api.Registry.Accounts.{
  is_account, find_account, upsert_account, on_account, found_account, get_account,
}
use deevnet_provisioning_api.Lifecycle.{Service}
use deevnet_provisioning_api.Devices.Stored.{if_there-Reads, get_device-Reads}
use deevnet_provisioning_api.Wireless.{random_symbols, random_psk}
use deevnet_provisioning_api.Accounts.{
  AccountRequest, on_iot, check_broker_device, choose_secret, check_account_request,
}

is_account_refl : (a : BrokerAccount) → (text_eq a.tenant a.tenant && text_eq a.name a.name) ≡ true
is_account_refl a = rw (text_eq_refl a.tenant, text_eq_refl a.name) refl

pub find_account-upsert_account :
    (a : BrokerAccount) (accounts : List BrokerAccount)
    → find_account a.tenant a.name (upsert_account a accounts) ≡ some a
unfolding find_account upsert_account
find_account-upsert_account a [] = rw (is_account_refl a) refl
find_account-upsert_account a (old ∷ accounts) =
    elim (Bool-cases (is_account a.tenant a.name old)) [
      | inl same ↦ rw (same, is_account_refl a) refl
      | inr differs ↦ rw (differs, differs) (find_account-upsert_account a accounts)
    ]

first_is :
    (b a : BrokerAccount) {test : Bool} (others : Option BrokerAccount)
    → test ≡ true
    → (if test then some b else others) ≡ some a
    → b ≡ a
first_is b a others h e = let e' : some b ≡ some a = rw h at e in cc

-- An update of one account that leaves its name.
pub find_account-map :
    (tenant name : Text) (f : BrokerAccount → BrokerAccount) (accounts : List BrokerAccount)
    (a : BrokerAccount)
    → ((b : BrokerAccount) → is_account tenant name (f b) ≡ is_account tenant name b)
    → find_account tenant name accounts ≡ some a
    → find_account tenant name (map (on_account tenant name f) accounts) ≡ some (f a)
unfolding find_account
find_account-map tenant name f [] a stays h = absurd (cc)
find_account-map tenant name f (b ∷ accounts) a stays h =
    elim (Bool-cases (is_account tenant name b)) [
      | inl same ↦
          rw (same, stays b, same) (ap (λ (x : BrokerAccount). some (f x)) (first_is b a _ same h))
      | inr differs ↦
          rw (differs, differs) (find_account-map tenant name f accounts a stays (rw differs at h))
    ]

module _ {W : Type 0} where
  pub found_account-Reads :
      (sv : Service W) (a : Option BrokerAccount) → Reads (found_account sv.store a)
  found_account-Reads sv none = search call_rules
  found_account-Reads sv (some a) = search call_rules

  pub get_account-Reads :
      (sv : Service W) (tenant name : Text) → Reads (get_account sv.store tenant name)
  unfolding get_account
  get_account-Reads sv tenant name = search (call_rules, outside-Reads, found_account-Reads)

  random_symbols-Reads : (sv : Service W) (n : ℕ) → Reads (random_symbols sv n)
  unfolding random_symbols
  random_symbols-Reads sv zero = search call_rules
  random_symbols-Reads sv (suc n) =
      bind-Leaves _ _ (outside-Reads _)
        (λ v. bind-Leaves _ _ (random_symbols-Reads sv n) (λ rest. give-Leaves _))

  pub random_psk-Reads : (sv : Service W) → Reads (random_psk sv)
  unfolding random_psk
  random_psk-Reads sv = random_symbols-Reads sv _

  on_iot-Reads : (sv : Service W) (d : Option Device) → Reads (on_iot sv d)
  on_iot-Reads sv none = search call_rules
  on_iot-Reads sv (some d) = search call_rules

  check_broker_device-Reads :
      (sv : Service W) (tenant device : Text) → Reads (check_broker_device sv tenant device)
  unfolding check_broker_device
  check_broker_device-Reads sv tenant device =
      search (call_rules, get_device-Reads, if_there-Reads, on_iot-Reads) depth 12

  pub check_account_request-Reads :
      (sv : Service W) (tenant : Text) (r : AccountRequest)
      → Reads (check_account_request sv tenant r)
  unfolding check_account_request
  check_account_request-Reads sv tenant r =
      search (call_rules, get-Reads, check_broker_device-Reads) depth 12

  pub choose_secret-Reads :
      (sv : Service W) (supplied stored : Text) → Reads (choose_secret sv supplied stored)
  unfolding choose_secret
  choose_secret-Reads sv supplied stored =
      search (call_rules, outside-Reads, random_psk-Reads) depth 12
