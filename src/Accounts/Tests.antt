-- ===== src/Accounts/Tests.antt =====
-- Broker accounts at a concrete registry: one account, whose writer accepts or refuses.
use deevnet_provisioning_api.Prelude.{
  ◌≡◌, refl, some, [], ◌∷◌, codes, text_eq, contains, has_prefix, ends_in, split, ℕ, Done,
}
use deevnet_provisioning_api.Alloc.Address.{ready, provisioning}
use deevnet_provisioning_api.Calls.{
  Call, state_of, give, fail_with, gets, modify, refuse_when, checked, ◌>>=◌, logged, attempt,
}
use deevnet_provisioning_api.Calls.Outcomes.{After}
use deevnet_provisioning_api.Names.{
  valid_name, valid_workload_name, is_label, is_label_byte, is_name_byte, is_lower, is_digit,
}
use deevnet_provisioning_api.Broker.Patterns.{
  check_levels, valid_wildcards, check_grant, prefix_pattern, prefix_from, prefix_patterns,
  touches_levels, touches_log, own_log_topic, check_log_publish, check_log_subscribe,
  check_log_grants,
}
use deevnet_provisioning_api.Broker.Grants.{account_patterns}
use deevnet_provisioning_api.Registry.{Error, State, BrokerAccount, outside}
use deevnet_provisioning_api.Registry.Sealing.{open_secrets}
use deevnet_provisioning_api.Registry.Tenants.{find_row, get, audit, write_audit}
use deevnet_provisioning_api.Registry.Accounts.{
  find_account, upsert_account, change_accounts, get_account, put_account_row, set_account_status,
}
use deevnet_provisioning_api.Lifecycle.{Service}
use deevnet_provisioning_api.Lifecycle.Sample.{accepts, refuses, service, row, no_rows}
use deevnet_provisioning_api.Accounts.{
  AccountRequest, check_broker_device, choose_secret, check_account_request, write_account,
  create_account,
}
use deevnet_provisioning_api.Accounts.Kept.{HasHash}
use deevnet_provisioning_api.Accounts.Retry.{Unchanged, create_account-Unchanged}

running : Unit {0}
unfolding give fail_with gets modify refuse_when checked ◌>>=◌ logged attempt outside valid_name
    valid_workload_name is_label is_label_byte is_name_byte is_lower is_digit text_eq contains
    has_prefix ends_in split check_levels valid_wildcards check_grant prefix_pattern prefix_from
    prefix_patterns touches_levels touches_log own_log_topic check_log_publish check_log_subscribe
    check_log_grants account_patterns open_secrets find_row get audit write_audit find_account
    upsert_account change_accounts get_account put_account_row set_account_status
    check_broker_device choose_secret check_account_request write_account create_account
running = tt

abbrev with_writer : Call Error ℕ Done → Service ℕ
with_writer answer = record service {
  broker_writer =
      some (record { put_account = λ a. answer; remove_account = λ tenant name. answer });
}

abbrev request : AccountRequest
request = record {
  name = codes "sensor";
  device = [];
  publish = codes "t/+" ∷ [];
  subscribe = [];
  password = [];
}

abbrev old : BrokerAccount
old = record {
  tenant = codes "eds";
  name = codes "sensor";
  device = [];
  publish = codes "eds/t" ∷ [];
  subscribe = [];
  password_hash = codes "hash";
  status = ready;
}

abbrev begin : State ℕ
begin = record {
  registry = record no_rows {
    tenants = record row { status = ready } ∷ [];
    broker_accounts = old ∷ [];
  };
  world = 0;
}

-- The writer refuses: the row is there with its hash, not ready.
refused_row :
    (state_of
      (create_account (with_writer refuses) (codes "eds") request begin)).registry.broker_accounts
    ≡ record old { publish = codes "eds/t/+" ∷ []; status = provisioning } ∷ []
unfolding running
refused_row = refl

-- The first create of an account hands back what it hashed.
first_password :
    (state_of (
      create_account
        (with_writer accepts)
        (codes "eds")
        (record request { password = codes "secret" })
        (record begin {
          registry = record begin.registry { broker_accounts = [] };
        }))).registry.broker_accounts
    ≡ record old { publish = codes "eds/t/+" ∷ []; password_hash = codes "secret" } ∷ []
unfolding running
first_password = refl

found_old : find_account (codes "eds") (codes "sensor") (old ∷ []) ≡ some old
unfolding find_account text_eq
found_old = refl

create_account-Unchanged_example :
    After
      (λ answer t. Unchanged (codes "eds") (codes "sensor") (codes "hash") answer.0 t)
      (λ e t. HasHash (codes "eds") (codes "sensor") (codes "hash") t)
      (create_account (with_writer refuses) (codes "eds") request begin)
create_account-Unchanged_example =
    create_account-Unchanged (with_writer refuses) (codes "eds") request old begin
      (λ w u h. absurd (cc)) refl refl found_old
