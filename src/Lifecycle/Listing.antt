-- ===== src/Lifecycle/Listing.antt =====
-- The lists of internal/tenant/service.go: List, ListWorkloads and Egress. The sort of the code keeps no
-- order among equal keys; the keys here are the columns of a unique constraint each.
use deevnet_provisioning_api.Prelude.{ℕ, leb, List, [], ◌∷◌, ◌++◌, Text, codes, if◌then◌else◌}
use deevnet_provisioning_api.Calls.{Call, give, ◌>>=◌}
use deevnet_provisioning_api.Registry.{Error, Record, Workload, State}
use deevnet_provisioning_api.Registry.Tenants.{list_tenants}
use deevnet_provisioning_api.Registry.Parts.{list_workloads}
use deevnet_provisioning_api.Lifecycle.{Service}
use deevnet_provisioning_api.Devices.{is_ready}

pub record EgressVrf : Type 0 where
  pub tenant : Text
  pub vrf : Text

module _ {A : Type 0} (key : A → ℕ) where
  unfoldable pub insert_by : A → List A → List A
  insert_by a [] = a ∷ []
  insert_by a (b ∷ rows) = if leb (key a) (key b) then a ∷ b ∷ rows else b ∷ insert_by a rows

  unfoldable pub sort_by : List A → List A
  sort_by [] = []
  sort_by (a ∷ rows) = insert_by a (sort_by rows)

-- The loop of Egress
unfoldable pub ready_vrfs : List Record → List EgressVrf
ready_vrfs [] = []
ready_vrfs (r ∷ rows) =
    let rest = ready_vrfs rows in
    if is_ready r.status
    then record { tenant = r.name; vrf = codes "vrf_" ++ r.name } ∷ rest
    else rest

module _ {W : Type 0} (sv : Service W) where
  unfoldable pub list_by_index : Call Error (State W) (List Record)
  list_by_index = do rows ← list_tenants sv.store; give (sort_by (λ (r : Record). r.index) rows)

  unfoldable pub list_by_ordinal : Text → Call Error (State W) (List Workload)
  list_by_ordinal tenant = do
    rows ← list_workloads sv.store tenant
    give (sort_by (λ (w : Workload). w.ordinal) rows)

  unfoldable pub egress : Call Error (State W) (List EgressVrf)
  egress = do rows ← list_by_index; give (ready_vrfs rows)
