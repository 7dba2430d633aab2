-- ===== src/Lifecycle/Tests.antt =====
-- The life of a tenant at a concrete service.
use deevnet_provisioning_api.Prelude.{
  ℕ, ◌≡◌, ◌↔◌, refl, Option, not, ◌&&◌, is_empty, true, false, none, some, ◌∷◌, [], Text, codes,
  text_eq, contains, pos, ok, hex_byte,
}
use deevnet_provisioning_api.Names.{is_lower, is_name_byte, valid_name, reserved}
use deevnet_provisioning_api.Alloc.Address.{provisioning, ready}
use deevnet_provisioning_api.Calls.{
  Call, Outcome, returns, raises, state_of, give, fail_with, gets, modify, refuse_when, checked,
  for_each, logged, attempt, ◌>>=◌,
}
use deevnet_provisioning_api.Registry.{
  Error, other, step, secrets_unavailable, Secrets, Record, State, outside,
}
use deevnet_provisioning_api.Registry.Sealing.{seal_secrets, open_secrets}
use deevnet_provisioning_api.Registry.Tenants.{
  find_row, update_rows, held_indexes, holds_name, put_step, get, write_row, exec_one, set_status,
  set_secrets, record_step,
}
use deevnet_provisioning_api.Registry.Keeps.{numbers}
use deevnet_provisioning_api.Lifecycle.Answers.{
  status_of, is_step, error_status, create_status, reconcile_status, status_of_unavailable_iff,
}
use deevnet_provisioning_api.Registry.Sealing.{is_unavailable}
use deevnet_provisioning_api.Lifecycle.{Issued}
use deevnet_provisioning_api.Lifecycle.Base64.{encode_url}
use deevnet_provisioning_api.Lifecycle.Validate.{validate_create}
use deevnet_provisioning_api.Lifecycle.Requests.{
  hex_text, random_hex, log_tokens, issue_token, minted,
}
use deevnet_provisioning_api.Lifecycle.Steps.{
  build_network, ensure_log_tokens, reload, create_steps, run_steps, ensure,
}
use deevnet_provisioning_api.Lifecycle.Create.{foreign, create, reconcile}
use deevnet_provisioning_api.Lifecycle.Delete.{delete}
use deevnet_provisioning_api.Lifecycle.Invariant.{IsNumbered}
use deevnet_provisioning_api.Lifecycle.Removal.{Removed, delete-Removed}
use deevnet_provisioning_api.Alloc.Index.{
  pick_index, zones_at, is_held, own_indexes, insert_int, sort_ints, first_of_list, first_from,
  free, usable, or_lowest,
}
use deevnet_provisioning_api.Registry.Tenants.{create_tenant, insert_row, write_audit, audit}
use deevnet_provisioning_api.Registry.Parts.{get_admission_key, find_admission_key}
use deevnet_provisioning_api.Lifecycle.{TenantResult}
use deevnet_provisioning_api.Lifecycle.Base64.{encode, digit_of}
use deevnet_provisioning_api.Lifecycle.Validate.{supplies_secrets, supplies_all_secrets}
use deevnet_provisioning_api.Lifecycle.Requests.{secrets_for, hash_token}
use deevnet_provisioning_api.Lifecycle.Create.{create_new, adopt_admission_key}
use deevnet_provisioning_api.Lifecycle.Ready.{create-HasStatus, reconcile-HasStatus}
use deevnet_provisioning_api.Lifecycle.Readiness.{HasStatus}
use deevnet_provisioning_api.Lifecycle.Restore.{restore_of, validate_create-minted}
use deevnet_provisioning_api.Lifecycle.Leases.{LeaseRun, book_of}
use deevnet_provisioning_api.Lifecycle.Reach.{
  here, does, creates, deletes, Reaches-IsNumbered, Reaches-LeaseRun,
}
use deevnet_provisioning_api.Lifecycle.Sample.{
  refuses, service_with, service, request, empty, row, one_row,
}

running : Unit {0}
unfolding give fail_with gets modify refuse_when checked for_each logged attempt ◌>>=◌ outside
    seal_secrets open_secrets find_row update_rows held_indexes holds_name put_step get write_row
    exec_one set_status set_secrets record_step text_eq hex_byte hex_text random_hex log_tokens
    build_network ensure_log_tokens reload create_steps run_steps ensure
running = tt

creating : Unit {0}
unfolding running validate_create valid_name reserved is_lower is_name_byte supplies_secrets
    supplies_all_secrets foreign create create_new create_tenant insert_row secrets_for minted
    issue_token hash_token encode encode_url digit_of pick_index zones_at is_held own_indexes
    insert_int sort_ints first_of_list first_from free usable or_lowest write_audit audit
    get_admission_key find_admission_key adopt_admission_key reconcile
creating = tt

-- The steps end in a ready tenant.
ready_run : (x : Record) × (t : State ℕ) × (ensure service row one_row ≡ returns (x, none) t)
unfolding running
ready_run = (_, _, refl)

-- With the name server down, the steps stop at the first and leave the tenant provisioning.
failed_run :
    (x : Record) × (t : State ℕ) × (ensure (service_with refuses) row one_row
      ≡ returns (x, some (step (codes "dns") (other (codes "down")))) t)
    × (x.status ≡ provisioning)
unfolding running
failed_run = (_, _, refl, refl)

request_passes : validate_create request ≡ ok tt
unfolding running validate_create valid_name reserved is_lower is_name_byte
request_passes = refl

delete-Removed_example : Removed (codes "eds") one_row (delete service (codes "eds") one_row)
delete-Removed_example = delete-Removed service (codes "eds") one_row

abbrev created : State ℕ
created = state_of (create service request empty)

abbrev deleted : State ℕ
deleted = state_of (delete service (codes "eds") created)

Reaches-IsNumbered_example : IsNumbered (numbers deleted)
Reaches-IsNumbered_example =
    Reaches-IsNumbered service empty deleted (unfold held_indexes in tt)
      (does (deletes (codes "eds")) (does (creates request) here))

minted_run :
    (issued : Issued) × (x : Secrets) × (t : State ℕ) × (minted service (codes "eds") [] [] empty
      ≡ returns (issued, x) t)
unfolding running minted issue_token encode_url
minted_run = (_, _, _, refl)

eds_named : (valid_name (codes "eds") ≡ true) × (reserved (codes "eds") ≡ false)
unfolding running valid_name reserved is_lower is_name_byte
eds_named = (refl, refl)

sum_free : (k m : Text) → contains b'.' (service.hmac k m) ≡ false
unfolding contains
sum_free k m = refl

validate_create-minted_example :
    (validate_create (restore_of (codes "eds") (pos 0) minted_run.0) ≡ ok tt)
    × (foreign service (restore_of (codes "eds") (pos 0) minted_run.0) ≡ false)
validate_create-minted_example =
    validate_create-minted service (codes "eds") [] [] (pos 0) empty minted_run.2 minted_run.0
      minted_run.1 sum_free eds_named.0 eds_named.1 refl minted_run.3

-- The first create gives the tenant index 1.
create_run :
    (result : TenantResult) × (t : State ℕ) × (create service request empty
      ≡ returns (result, none) t)
    × (numbers t ≡ (1, codes "eds") ∷ [])
unfolding creating
create_run = (_, _, refl, refl)

create-HasStatus_example : HasStatus (codes "eds") ready create_run.1
create-HasStatus_example =
    create-HasStatus service request empty create_run.1 create_run.0 create_run.2

reconcile_run :
    (result : TenantResult) × (t : State ℕ) × (reconcile service (codes "eds") one_row
      ≡ returns (result, none) t)
unfolding creating
reconcile_run = (_, _, refl)

abbrev seals : {A : Type 0} → Call Error ℕ A
seals w = raises secrets_unavailable w

abbrev sealed_step : Error
sealed_step = step (codes "dns") secrets_unavailable

-- The name server's secret cannot be read: the step fails, and the tenant is answered with 502.
sealed_run :
    (result : TenantResult) × (t : State ℕ) × (reconcile (service_with seals) (codes "eds") one_row
      ≡ returns (result, some (step (codes "dns") secrets_unavailable)) t)
    × (result.tenant.name ≡ codes "eds")
    × (reconcile_status (reconcile (service_with seals) (codes "eds") one_row) ≡ 502)
unfolding creating reconcile_status error_status
sealed_run = (_, _, refl, refl, refl)

abbrev sealed_outcome : Outcome Error (State ℕ) (TenantResult × Option Error)
sealed_outcome = returns (sealed_run.0, some sealed_step) sealed_run.1

status_of_unavailable_example :
    ((status_of sealed_step ≡ 503) ↔ (is_unavailable sealed_step ≡ true))
    × ((create_status sealed_outcome ≡ 503) ↔ (
        (is_unavailable sealed_step ≡ true)
        × ((is_step sealed_step && not (is_empty (codes "eds"))) ≡ false)))
    × ((reconcile_status sealed_outcome ≡ 503) ↔ (
        (is_unavailable sealed_step ≡ true)
        × ((is_step sealed_step && not (is_empty (codes "eds"))) ≡ false)))
status_of_unavailable_example =
    status_of_unavailable_iff sealed_step (codes "eds") sealed_outcome (refl, sealed_run.3)

reconcile-HasStatus_example : HasStatus (codes "eds") ready reconcile_run.1
reconcile-HasStatus_example =
    reconcile-HasStatus service (codes "eds") one_row reconcile_run.1 reconcile_run.0
      reconcile_run.2

Reaches-LeaseRun_example : LeaseRun (book_of (numbers empty)) (book_of (numbers deleted))
Reaches-LeaseRun_example =
    Reaches-LeaseRun service empty deleted
      (does (deletes (codes "eds")) (does (creates request) here))
