-- ===== src/Registry/Placing.antt =====
-- The calls on the table of workloads keep each workload placed.
use deevnet_provisioning_api.Prelude.{
  ℕ, ◌≡◌, refl, sym, ap, subst, Option, none, some, List, map, Text, ◌∙◌,
}
use mathlib.Core.List.{Memᴰ}
use deevnet_provisioning_api.Alloc.Address.{Status}
use deevnet_provisioning_api.Calls.{Call, state_of, gets, modify, give, fail_with, ◌>>=◌}
use deevnet_provisioning_api.Calls.Laws.{Change, Leaves, bind-Leaves, call_rules}
use deevnet_provisioning_api.Registry.{Error, Record, Workload, Registry, State, Store, outside}
use deevnet_provisioning_api.Registry.Tenants.{find_row, found}
use deevnet_provisioning_api.Registry.Parts.{found_workload}
use deevnet_provisioning_api.Registry.Reads.{Reads, outside-Reads, found-Reads}
use deevnet_provisioning_api.Registry.Keeps.{numbers, Keeps}
use deevnet_provisioning_api.Registry.Workloads.{
  ordinals, lowest_ordinal, is_workload, on_workload, sized, change_workloads, placed, insert_at,
  place_workload, create_workload_row, exec_workload, set_workload_status, delete_workload_row,
}
use deevnet_provisioning_api.Registry.Placed.{
  ArePlaced, Alike, on_workload-Alike, map-ArePlaced, append-ArePlaced, drop_where-ArePlaced,
  first_ordinal-free, ordinals-mem, contains-mem, find_row-mem,
}

module _ {W : Type 0} (p : Store W) where
  abbrev pub Placed : State W → Type 0
  Placed s = ArePlaced p.site (numbers s) s.registry.workloads

  -- The tenants keep their numbers and the workloads stay placed.
  abbrev pub stays_placed : Change (State W)
  stays_placed = record {
    relates = λ s t. (numbers t ≡ numbers s) × (Placed s → Placed t);
    reflexive = λ s. (refl, λ h. h);
    transitive = λ s t u e f. (f.0 ∙ e.0, λ h. f.1 (e.1 h));
  }

  abbrev pub Places : {A : Type 0} → Call Error (State W) A → Type 0
  Places call = Leaves stays_placed call

  pub Keeps-Places : {A : Type 0} (call : Call Error (State W) A) → Keeps call → Places call
  Keeps-Places call k = record {
    after = λ s. (
      (k.after s).0,
      λ h.
          subst (λ n. ArePlaced p.site n (state_of (call s)).registry.workloads) (sym (k.after s).0)
            (subst (λ w. ArePlaced p.site (numbers s) w) (sym (k.after s).1) h),
    );
  }

  pub Reads-Places : {A : Type 0} (call : Call Error (State W) A) → Reads call → Places call
  Reads-Places call r = record {
    after = λ s. (
      ap (λ (g : Registry). numbers {W = W} (record { registry = g; world = s.world })) (r.after s),
      λ h.
          subst (λ (g : Registry). Placed (record { registry = g; world = s.world }))
            (sym (r.after s)) h,
    );
  }

  outside-Places : {A : Type 0} (call : Call Error W A) → Places (outside call)
  outside-Places call = Reads-Places _ (outside-Reads call)

  found-Places : (row : Option Record) → Places (found p row)
  found-Places row = Reads-Places _ (found-Reads p row)

  found_workload-Places : (row : Option Workload) → Places (found_workload p row)
  found_workload-Places none = search call_rules
  found_workload-Places (some w) = search call_rules

  change_workloads-Places :
      (f : List Workload → List Workload)
      → ((held : List (ℕ × Text)) (rows : List Workload)
          → ArePlaced p.site held rows
          → ArePlaced p.site held (f rows))
      → Places (change_workloads p f)
  unfolding change_workloads modify
  change_workloads-Places f h = record { after = λ s. (refl, h (numbers s) s.registry.workloads) }

  change_row-Places :
      (tenant name : Text) (f : Workload → Workload)
      → ((w : Workload) → Alike w (f w))
      → Places (change_workloads p (map (on_workload tenant name f)))
  change_row-Places tenant name f h =
      change_workloads-Places _ (λ held rows.
        map-ArePlaced p.site held _ rows (λ w. on_workload-Alike tenant name f w (h w)))

  -- The row that goes in, at an ordinal that its tenant does not use.
  inserted_at :
      (s : State W) (w : Workload) (r : Record) (answer : Option ℕ)
      → Memᴰ (r.index, w.tenant) (numbers s)
      → answer ≡ lowest_ordinal (ordinals w.tenant s.registry.workloads)
      → stays_placed.relates s (state_of (insert_at p w r answer s))
  unfolding fail_with give change_workloads modify ◌>>=◌ lowest_ordinal
  inserted_at s w r none m e = (refl, λ h. h)
  inserted_at s w r (some k) m e =
      let (below, free) =
        first_ordinal-free (ordinals w.tenant s.registry.workloads) 0 40 k (sym e) in
      (
        refl,
        λ h.
            append-ArePlaced p.site (numbers s) s.registry.workloads (placed p w r.index k)
              (record {
                index = r.index;
                holds = m;
                ordinal_bound = below;
                vmid_derives = refl;
                mac_derives = refl;
                address_derives = refl;
              })
              (λ n. contains-mem k _ free (ordinals-mem w.tenant k s.registry.workloads n)) h,
      )

  inserted_under :
      (s : State W) (w : Workload) (row : Option Record)
      → row ≡ find_row w.tenant s.registry.tenants
      → stays_placed.relates s (
          state_of (
            (do
              r ← found p row
              ordinal ← gets (λ s. lowest_ordinal (ordinals w.tenant s.registry.workloads))
              insert_at p w r ordinal)
              s))
  unfolding fail_with give gets ◌>>=◌
  inserted_under s w none e = (refl, λ h. h)
  inserted_under s w (some r) e =
      inserted_at s w r _ (find_row-mem w.tenant s.registry.tenants r (sym e)) refl

  place_workload-Places : (w : Workload) (row : Option Workload) → Places (place_workload p w row)
  unfolding gets ◌>>=◌
  place_workload-Places w (some old) =
      bind-Leaves _ _
        (change_row-Places w.tenant w.name (sized w)
          (λ x. record { tenant = refl; ordinal = refl; vmid = refl; mac = refl; address = refl }))
        (λ d. search call_rules)
  place_workload-Places w none = record {
    after = λ s. inserted_under s w (find_row w.tenant s.registry.tenants) refl;
  }

  pub create_workload_row-Places : (w : Workload) → Places (create_workload_row p w)
  unfolding create_workload_row
  create_workload_row-Places w =
      bind-Leaves _ _ (outside-Places p.query)
        (λ d. bind-Leaves _ _ (search call_rules) (λ row. place_workload-Places w row))

  exec_workload-Places :
      (tenant name : Text) (f : List Workload → List Workload)
      → Places (change_workloads p f)
      → Places (exec_workload p tenant name f)
  unfolding exec_workload
  exec_workload-Places tenant name f h = bind-Leaves _ _ (outside-Places p.query) (λ d.
      bind-Leaves _ _ (search call_rules)
        (λ row. bind-Leaves _ _ (found_workload-Places row) (λ w. h)))

  pub set_workload_status-Places :
      (tenant name : Text) (status : Status) → Places (set_workload_status p tenant name status)
  unfolding set_workload_status
  set_workload_status-Places tenant name status = exec_workload-Places tenant name _ (
      change_row-Places tenant name _
        (λ x. record { tenant = refl; ordinal = refl; vmid = refl; mac = refl; address = refl }))

  pub delete_workload_row-Places : (tenant name : Text) → Places (delete_workload_row p tenant name)
  unfolding delete_workload_row
  delete_workload_row-Places tenant name = exec_workload-Places tenant name _ (
      change_workloads-Places _ (λ held rows.
        drop_where-ArePlaced p.site held held (is_workload tenant name) rows (λ n w e m. m)))
