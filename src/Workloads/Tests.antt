-- ===== src/Workloads/Tests.antt =====
-- Workloads at a concrete registry: two of them are made, and names are published.
use deevnet_provisioning_api.Prelude.{
  ℕ, ◌≡◌, ◌^◌, ◌<◌, ◌+◌, refl, sym, subst, arith, none, some, [], ◌∷◌, codes, pos, text_eq,
  contains, decimal, drop_where, has_prefix, ends_in,
}
use mathlib.Core.List.{Memᴰ}
use deevnet_provisioning_api.Names.{
  is_lower, is_digit, is_label_byte, is_label, is_name_byte, valid_workload_name,
}
use deevnet_provisioning_api.Alloc.Address.{ready}
use deevnet_provisioning_api.Site.{workload_vmid}
use deevnet_provisioning_api.Calls.{
  returns, raises, state_of, give, fail_with, gets, modify, refuse_when, ◌>>=◌, logged, attempt,
}
use deevnet_provisioning_api.Registry.{Workload, State, outside, invalid, foreign_address}
use deevnet_provisioning_api.Registry.Sealing.{open_secrets}
use deevnet_provisioning_api.Registry.Tenants.{find_row, held_indexes, get, audit, write_audit}
use deevnet_provisioning_api.Registry.Parts.{
  find_workload, get_workload, of_tenant, list_device_addresses,
}
use deevnet_provisioning_api.Registry.Addresses.{find_address, get_device_address}
use deevnet_provisioning_api.Registry.Workloads.{
  first_ordinal, lowest_ordinal, change_workloads, create_workload_row, exec_workload,
  set_workload_status, delete_workload_row, change_records, put_record_row,
}
use deevnet_provisioning_api.Lifecycle.{Service}
use deevnet_provisioning_api.Lifecycle.Sample.{accepts, service, row, one_row}
use deevnet_provisioning_api.Lifecycle.Reach.{here, does, creates_workload}
use deevnet_provisioning_api.Lifecycle.Distinct.{workloads_distinct}
use deevnet_provisioning_api.Devices.{parse_addr, read_fields, read_byte, add_digit}
use deevnet_provisioning_api.Workloads.{
  WorkloadRequest, or_default, requested, resized, workload_spec, device_holds_name, apply_workload,
  build_workload, create_workload, delete_workload, in_tenant_subnet, holds_address, put_record,
}

abbrev building : Service ℕ
building = record service {
  compute =
      some (record { ensure_workload = λ spec. accepts; remove_workload = λ node vmid. accepts });
}

abbrev ready_row : State ℕ
ready_row = record one_row {
  registry = record one_row.registry { tenants = record row { status = ready } ∷ [] };
}

abbrev web : WorkloadRequest
web = record {
  name = codes "web";
  cores = pos 0;
  memory_mb = pos 4096;
  disk_gb = pos 0;
  ssh_keys = [];
}

abbrev db : WorkloadRequest
db = record web { name = codes "db" }

abbrev with_web : State ℕ
with_web = state_of (create_workload building (codes "eds") web ready_row)

abbrev with_both : State ℕ
with_both = state_of (create_workload building (codes "eds") db with_web)

running : Unit {0}
unfolding give fail_with gets modify refuse_when ◌>>=◌ logged attempt outside open_secrets find_row
    get audit write_audit find_workload get_workload of_tenant find_address get_device_address
    text_eq contains first_ordinal lowest_ordinal change_workloads create_workload_row exec_workload
    set_workload_status delete_workload_row valid_workload_name is_label is_label_byte is_lower
    is_digit or_default requested resized workload_spec device_holds_name apply_workload
    build_workload create_workload delete_workload workload_vmid drop_where is_name_byte ends_in
running = tt

made :
    (w : Workload) × (t : State ℕ) × (create_workload building (codes "eds") web ready_row
      ≡ returns (w, none) t)
    × (w.vmid ≡ building.site.tenant_vmid_base + 280)
unfolding running
made = (_, _, refl, refl)

-- The second takes the next ordinal.
ordinals_used :
    (first second : Workload) × (with_both.registry.workloads ≡ first ∷ second ∷ [])
    × (first.ordinal ≡ 0)
    × (second.ordinal ≡ 1)
unfolding running
ordinals_used = (_, _, refl, refl, refl)

workloads_distinct_example :
    (ordinals_used.0.vmid ≡ ordinals_used.1.vmid → ordinals_used.0 ≡ ordinals_used.1)
    × (ordinals_used.0.address ≡ ordinals_used.1.address → ordinals_used.0 ≡ ordinals_used.1)
    × (ordinals_used.0.vmid < 2 ^ 24
        → ordinals_used.1.vmid < 2 ^ 24
        → ordinals_used.0.mac ≡ ordinals_used.1.mac
        → ordinals_used.0 ≡ ordinals_used.1)
workloads_distinct_example =
    workloads_distinct building ready_row with_both ordinals_used.0 ordinals_used.1
      (unfold held_indexes in
        (omega arith, omega arith, (λ holder m. elim m [ ]), (λ n m. elim m [ ]), tt))
      (record { each = tt; own_ordinals = tt })
      (does (creates_workload (codes "eds") db) (does (creates_workload (codes "eds") web) here))
      (subst (λ l. Memᴰ ordinals_used.0 l) (sym ordinals_used.2) (Memᴰ.head refl))
      (subst (λ l. Memᴰ ordinals_used.1 l) (sym ordinals_used.2) (Memᴰ.tail (Memᴰ.head refl)))

-- A name may point into the tenant's own subnet, and not at another's.
foreign_refused :
    (t : State ℕ) × (put_record building
        (codes "eds")
        (codes "www")
        (codes "10.20.136.10")
        ready_row
      ≡ raises (invalid foreign_address) t)
unfolding running put_record in_tenant_subnet holds_address has_prefix decimal parse_addr
    read_fields read_byte add_digit list_device_addresses
foreign_refused = (_, refl)

own_accepted :
    (t : State ℕ) × (put_record building
        (codes "eds")
        (codes "www")
        (codes "10.20.135.10")
        ready_row
      ≡ returns tt t)
unfolding running put_record in_tenant_subnet holds_address has_prefix decimal parse_addr
    read_fields read_byte add_digit list_device_addresses put_record_row change_records
own_accepted = (_, refl)
