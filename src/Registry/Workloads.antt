-- ===== src/Registry/Workloads.antt =====
-- The tables of workloads and of extra records: internal/store/workloads.go. A workload's identity
-- derives from its tenant's index and its ordinal.
use deevnet_provisioning_api.Prelude.{
  ℕ, zero, suc, ◌+◌, Bool, true, false, codes, ◌&&◌, Option, none, some, List, [], ◌∷◌, ◌++◌, map,
  contains, drop_where, Text, text_eq, Done, if◌then◌else◌,
}
use deevnet_provisioning_api.Alloc.Address.{Status}
use deevnet_provisioning_api.Site.{max_workloads, workload_vmid, workload_address, mac}
use deevnet_provisioning_api.Calls.{Call, give, fail_with, refuse_when, gets, modify, ◌>>=◌, ◌>>◌}
use deevnet_provisioning_api.Registry.{
  Error, other, not_found, workloads_exhausted, Record, Workload, ExtraRecord, State, Store,
  outside,
}
use deevnet_provisioning_api.Registry.Tenants.{find_row, found}
use deevnet_provisioning_api.Registry.Parts.{find_workload, found_workload, of_tenant}

abbrev pub is_workload : Text → Text → Workload → Bool
is_workload tenant name w = text_eq w.tenant tenant && text_eq w.name name

abbrev pub ordinals : Text → List Workload → List ℕ
ordinals tenant workloads =
    map (λ (w : Workload). w.ordinal) (of_tenant (λ (w : Workload). w.tenant) tenant workloads)

-- The loop over the ordinals, on the rounds that are left.
unfoldable pub first_ordinal : List ℕ → ℕ → ℕ → Option ℕ
first_ordinal taken n zero = none
first_ordinal taken n (suc rounds) =
    let rest = first_ordinal taken (n + 1) rounds in if contains n taken then rest else some n

unfoldable pub lowest_ordinal : List ℕ → Option ℕ
lowest_ordinal taken = first_ordinal taken 0 max_workloads

abbrev pub sized : Workload → Workload → Workload
sized w old = record old {
  cores = w.cores;
  memory_mb = w.memory_mb;
  disk_gb = w.disk_gb;
  ssh_keys = w.ssh_keys;
}

abbrev pub on_workload : Text → Text → (Workload → Workload) → Workload → Workload
on_workload tenant name f w = if is_workload tenant name w then f w else w

abbrev pub is_record : Text → Text → ExtraRecord → Bool
is_record tenant name r = text_eq r.tenant tenant && text_eq r.name name

unfoldable pub upsert_record : ExtraRecord → List ExtraRecord → List ExtraRecord
upsert_record r [] = r ∷ []
upsert_record r (old ∷ records) =
    if is_record r.tenant r.name old then r ∷ records else old ∷ upsert_record r records

unfoldable pub find_record : Text → Text → List ExtraRecord → Option ExtraRecord
find_record tenant name [] = none
find_record tenant name (r ∷ records) =
    if is_record tenant name r then some r else find_record tenant name records

abbrev pub no_tenant : Option Record → Bool
no_tenant none = true
no_tenant (some r) = false

module _ {W : Type 0} (p : Store W) where
  unfoldable pub change_workloads : (List Workload → List Workload) → Call Error (State W) Done
  change_workloads f =
      modify (λ s. record s { registry = record s.registry { workloads = f s.registry.workloads } })

  -- The row to insert, for a tenant's index and the ordinal.
  abbrev pub placed : Workload → ℕ → ℕ → Workload
  placed w index ordinal = record w {
    ordinal = ordinal;
    vmid = workload_vmid p.site index ordinal;
    mac = mac p.site (workload_vmid p.site index ordinal);
    address = workload_address p.site index ordinal;
  }

  abbrev pub insert_at : Workload → Record → Option ℕ → Call Error (State W) Workload
  insert_at w r none = fail_with workloads_exhausted
  insert_at w r (some ordinal) = do
    change_workloads (λ rows. rows ++ placed w r.index ordinal ∷ [])
    give (placed w r.index ordinal)

  -- What the transaction does with the row that is there, or without one.
  abbrev pub place_workload : Workload → Option Workload → Call Error (State W) Workload
  place_workload w (some old) = do
    change_workloads (map (on_workload w.tenant w.name (sized w)))
    give (sized w old)
  place_workload w none = do
    row ← gets (λ s. find_row w.tenant s.registry.tenants)
    r ← found p row
    ordinal ← gets (λ s. lowest_ordinal (ordinals w.tenant s.registry.workloads))
    insert_at w r ordinal

  -- CreateWorkload, in one transaction under the allocation lock
  unfoldable pub create_workload_row : Workload → Call Error (State W) Workload
  create_workload_row w = do
    outside p.query
    row ← gets (λ s. find_workload w.tenant w.name s.registry.workloads)
    place_workload w row

  -- execOne on the row of a workload
  unfoldable pub exec_workload :
      Text → Text → (List Workload → List Workload) → Call Error (State W) Done
  exec_workload tenant name f = do
    outside p.query
    row ← gets (λ s. find_workload tenant name s.registry.workloads)
    w ← found_workload p row
    change_workloads f

  unfoldable pub set_workload_status : Text → Text → Status → Call Error (State W) Done
  set_workload_status tenant name status =
      exec_workload tenant name (map (on_workload tenant name (λ w. record w { status = status })))

  unfoldable pub delete_workload_row : Text → Text → Call Error (State W) Done
  delete_workload_row tenant name = exec_workload tenant name (drop_where (is_workload tenant name))

  unfoldable pub change_records : (List ExtraRecord → List ExtraRecord) → Call Error (State W) Done
  change_records f =
      modify (λ s. record s { registry = record s.registry { records = f s.registry.records } })

  -- PutRecord of the store; a record of no tenant's violates the foreign key.
  unfoldable pub put_record_row : ExtraRecord → Call Error (State W) Done
  put_record_row r = do
    outside p.query
    row ← gets (λ s. find_row r.tenant s.registry.tenants)
    refuse_when (no_tenant row) (other (codes "foreign key"))
    change_records (upsert_record r)

  abbrev pub found_record : Option ExtraRecord → Call Error (State W) ExtraRecord
  found_record none = fail_with not_found
  found_record (some r) = give r

  unfoldable pub delete_record_row : Text → Text → Call Error (State W) Done
  delete_record_row tenant name = do
    outside p.query
    row ← gets (λ s. find_record tenant name s.registry.records)
    r ← found_record row
    change_records (drop_where (is_record tenant name))
