-- ===== src/Workloads/Placement.antt =====
-- What the operations on workloads and records leave of the workloads' numbers.
use deevnet_provisioning_api.Prelude.{
  refl, Bool, true, false, Option, none, some, List, [], ◌∷◌, Text, text_eq, Result, Done, ok, err,
}
use deevnet_provisioning_api.Alloc.Address.{Status}
use deevnet_provisioning_api.Calls.{Call, modify}
use deevnet_provisioning_api.Calls.Laws.{if-Leaves, call_rules}
use deevnet_provisioning_api.Registry.{Error, Record, Workload, ExtraRecord, State, outside}
use deevnet_provisioning_api.Registry.Tenants.{get}
use deevnet_provisioning_api.Registry.Parts.{get_workload, list_records, list_device_addresses}
use deevnet_provisioning_api.Registry.Addresses.{get_device_address}
use deevnet_provisioning_api.Registry.Reads.{outside-Reads}
use deevnet_provisioning_api.Registry.Keeps.{get-Keeps, list_device_addresses-Keeps}
use deevnet_provisioning_api.Registry.Workloads.{
  create_workload_row, set_workload_status, delete_workload_row, change_records, put_record_row,
  found_record, delete_record_row,
}
use deevnet_provisioning_api.Registry.Placing.{
  Places, Keeps-Places, Reads-Places, create_workload_row-Places, set_workload_status-Places,
  delete_workload_row-Places,
}
use deevnet_provisioning_api.Lifecycle.{Service, Compute, WorkloadSpec}
use deevnet_provisioning_api.Lifecycle.Steps.{audited}
use deevnet_provisioning_api.Lifecycle.Keeps.{audited-Keeps}
use deevnet_provisioning_api.Lifecycle.Growth.{step_error-Keeps}
use deevnet_provisioning_api.Lifecycle.Create.{step_error}
use deevnet_provisioning_api.Devices.{if_there}
use deevnet_provisioning_api.Devices.Stored.{
  if_there-Reads, get_workload-Reads, list_records-Reads, get_device_address-Reads,
}
use deevnet_provisioning_api.Workloads.{
  WorkloadRequest, device_holds_name, apply_workload, build_with, after_names, after_build,
  build_workload, create_workload, remove_with, delete_workload, address_allowed, put_record,
  remove_record, delete_found, delete_record,
}

module _ {W : Type 0} (sv : Service W) where
  abbrev pub Settles : {A : Type 0} → Call Error (State W) A → Type 0
  Settles call = Places sv.store call

  pub outside-Settles : {A : Type 0} (call : Call Error W A) → Settles (outside call)
  outside-Settles call = Reads-Places sv.store _ (outside-Reads call)

  pub get-Settles : (name : Text) → Settles (get sv.store name)
  get-Settles name = Keeps-Places sv.store _ (get-Keeps sv.store name)

  pub audited-Settles : (action name : Text) → Settles (audited sv action name)
  audited-Settles action name = Keeps-Places sv.store _ (audited-Keeps sv action name)

  pub step_error-Settles :
      {A : Type 0} (name : Text) (r : Result Error A) → Settles (step_error sv name r)
  step_error-Settles name r = Keeps-Places sv.store _ (step_error-Keeps sv name r)

  pub if_there-Settles : {A : Type 0} (r : Result Error A) → Settles (if_there {W = W} r)
  if_there-Settles r = Reads-Places sv.store _ (if_there-Reads r)

  get_workload-Settles : (tenant name : Text) → Settles (get_workload sv.store tenant name)
  get_workload-Settles tenant name =
      Reads-Places sv.store _ (get_workload-Reads sv.store tenant name)

  list_records-Settles : (tenant : Text) → Settles (list_records sv.store tenant)
  list_records-Settles tenant = Reads-Places sv.store _ (list_records-Reads sv.store tenant)

  list_device_addresses-Settles : (tenant : Text) → Settles (list_device_addresses sv.store tenant)
  list_device_addresses-Settles tenant =
      Keeps-Places sv.store _ (list_device_addresses-Keeps sv.store tenant)

  get_device_address-Settles :
      (tenant name : Text) → Settles (get_device_address sv.store tenant name)
  get_device_address-Settles tenant name =
      Reads-Places sv.store _ (get_device_address-Reads sv.store tenant name)

  create_workload_row-Settles : (w : Workload) → Settles (create_workload_row sv.store w)
  create_workload_row-Settles w = create_workload_row-Places sv.store w

  set_workload_status-Settles :
      (tenant name : Text) (status : Status)
      → Settles (set_workload_status sv.store tenant name status)
  set_workload_status-Settles tenant name status =
      set_workload_status-Places sv.store tenant name status

  delete_workload_row-Settles :
      (tenant name : Text) → Settles (delete_workload_row sv.store tenant name)
  delete_workload_row-Settles tenant name = delete_workload_row-Places sv.store tenant name

  ruleset settle_rules = (
    call_rules, outside-Settles, get-Settles, audited-Settles, step_error-Settles, if_there-Settles,
    get_workload-Settles, list_records-Settles, list_device_addresses-Settles,
    get_device_address-Settles, create_workload_row-Settles, set_workload_status-Settles,
    delete_workload_row-Settles,
  )

  device_holds_name-Settles : (tenant name : Text) → Settles (device_holds_name sv tenant name)
  unfolding device_holds_name
  device_holds_name-Settles tenant name = search settle_rules depth 12

  apply_workload-Settles :
      (tenant : Text) (r : WorkloadRequest) (old : Option Workload)
      → Settles (apply_workload sv tenant r old)
  unfolding apply_workload
  apply_workload-Settles tenant r none = search (settle_rules, device_holds_name-Settles) depth 16
  apply_workload-Settles tenant r (some old) = search settle_rules depth 12

  build_with-Settles :
      (compute : Option (Compute W)) (spec : WorkloadSpec) → Settles (build_with sv compute spec)
  build_with-Settles none spec = search settle_rules
  build_with-Settles (some compute) spec = search settle_rules

  after_names-Settles :
      (tenant : Text) (w : Workload) (named : Result Error Done)
      → Settles (after_names sv tenant w named)
  after_names-Settles tenant w (ok d) = search settle_rules depth 12
  after_names-Settles tenant w (err e) = search settle_rules

  after_build-Settles :
      (tenant : Text) (rec : Record) (w : Workload) (built : Result Error Done)
      → Settles (after_build sv tenant rec w built)
  after_build-Settles tenant rec w (ok d) = search (settle_rules, after_names-Settles) depth 12
  after_build-Settles tenant rec w (err e) = search settle_rules

  build_workload-Settles :
      (tenant : Text) (rec : Record) (w : Workload) → Settles (build_workload sv tenant rec w)
  unfolding build_workload
  build_workload-Settles tenant rec w =
      search (settle_rules, build_with-Settles, after_build-Settles) depth 16

  pub create_workload-Settles :
      (tenant : Text) (r : WorkloadRequest) → Settles (create_workload sv tenant r)
  unfolding create_workload
  create_workload-Settles tenant r =
      search (settle_rules, apply_workload-Settles, build_workload-Settles) depth 24

  remove_with-Settles :
      (compute : Option (Compute W)) (w : Workload) → Settles (remove_with sv compute w)
  remove_with-Settles none w = search settle_rules
  remove_with-Settles (some compute) w = search settle_rules

  pub delete_workload-Settles : (tenant name : Text) → Settles (delete_workload sv tenant name)
  unfolding delete_workload
  delete_workload-Settles tenant name = search (settle_rules, remove_with-Settles) depth 24

  change_records-Settles :
      (f : List ExtraRecord → List ExtraRecord) → Settles (change_records sv.store f)
  unfolding change_records modify
  change_records-Settles f = record { after = λ s. (refl, λ h. h) }

  put_record_row-Settles : (r : ExtraRecord) → Settles (put_record_row sv.store r)
  unfolding put_record_row
  put_record_row-Settles r = search (settle_rules, change_records-Settles) depth 12

  found_record-Settles : (r : Option ExtraRecord) → Settles (found_record sv.store r)
  found_record-Settles none = search settle_rules
  found_record-Settles (some r) = search settle_rules

  delete_record_row-Settles :
      (tenant name : Text) → Settles (delete_record_row sv.store tenant name)
  unfolding delete_record_row
  delete_record_row-Settles tenant name =
      search (settle_rules, found_record-Settles, change_records-Settles) depth 12

  address_allowed-Settles :
      (tenant address : Text) (own : Bool) → Settles (address_allowed sv tenant address own)
  address_allowed-Settles tenant address true = search settle_rules
  address_allowed-Settles tenant address false = search settle_rules depth 12

  pub put_record-Settles :
      (tenant name address : Text) → Settles (put_record sv tenant name address)
  unfolding put_record
  put_record-Settles tenant name address =
      search
        (settle_rules, device_holds_name-Settles, address_allowed-Settles, put_record_row-Settles)
        depth 24

  remove_record-Settles :
      (tenant : Text) (rec : Record) (name : Text) (r : ExtraRecord)
      → Settles (remove_record sv tenant rec name r)
  unfolding remove_record
  remove_record-Settles tenant rec name r =
      search (settle_rules, delete_record_row-Settles) depth 16

  delete_found-Settles :
      (tenant : Text) (rec : Record) (name : Text) (records : List ExtraRecord)
      → Settles (delete_found sv tenant rec name records)
  unfolding delete_found
  delete_found-Settles tenant rec name [] = search settle_rules
  delete_found-Settles tenant rec name (r ∷ records) =
      if-Leaves (text_eq r.name name) (remove_record sv tenant rec name r)
        (delete_found sv tenant rec name records) (remove_record-Settles tenant rec name r)
        (delete_found-Settles tenant rec name records)

  pub delete_record-Settles : (tenant name : Text) → Settles (delete_record sv tenant name)
  unfolding delete_record
  delete_record-Settles tenant name = search (settle_rules, delete_found-Settles) depth 12
