-- ===== src/Lifecycle/Tenancy.antt =====
-- The workloads under Create, Reconcile and Delete: each stays placed.
use deevnet_provisioning_api.Prelude.{
  ℕ, ◌≡◌, refl, sym, ap, subst, inl, inr, List, [], ◌∷◌, drop_where, mem_left, Text, text_eq,
  Bool-cases, ◌∙◌, Done,
}
use mathlib.Core.List.{Memᴰ}
use deevnet_provisioning_api.Calls.{Outcome, returns, raises, state_of}
use deevnet_provisioning_api.Registry.{Error, Workload, State}
use deevnet_provisioning_api.Registry.Tenants.{without}
use deevnet_provisioning_api.Registry.Keeps.{numbers}
use deevnet_provisioning_api.Registry.Placed.{ArePlaced, drop_where-ArePlaced, mono-ArePlaced}
use deevnet_provisioning_api.Registry.Placing.{Placed, Keeps-Places}
use deevnet_provisioning_api.Lifecycle.{CreateRequest, Service}
use deevnet_provisioning_api.Lifecycle.Create.{create, reconcile}
use deevnet_provisioning_api.Lifecycle.Delete.{delete}
use deevnet_provisioning_api.Lifecycle.Growth.{create-grows, reconcile-Keeps}
use deevnet_provisioning_api.Lifecycle.Removal.{Removed, others, delete-Removed}

without-eq-drop_where :
    {A : Type 0} (tenant_of : A → Text) (name : Text) (rows : List A)
    → without tenant_of name rows ≡ drop_where (λ a. text_eq (tenant_of a) name) rows
unfolding without drop_where
without-eq-drop_where tenant_of name [] = refl
without-eq-drop_where tenant_of name (a ∷ rows) = elim (Bool-cases (text_eq (tenant_of a) name)) [
  | inl e ↦ rw e (without-eq-drop_where tenant_of name rows)
  | inr e ↦ rw e (ap (λ l. a ∷ l) (without-eq-drop_where tenant_of name rows))
]

module _ {W : Type 0} (sv : Service W) where
  -- A tenant goes with its workloads.
  Removed-Placed :
      (name : Text) (s : State W) (o : Outcome Error (State W) Done)
      → Removed name s o
      → Placed sv.store s
      → Placed sv.store (state_of o)
  Removed-Placed name s (raises e t) (same, rows) h =
      subst (λ n. ArePlaced sv.store.site n t.registry.workloads) (sym same)
        (subst (λ w. ArePlaced sv.store.site (numbers s) w) (sym rows) h)
  Removed-Placed name s (returns d t) (left, rows) h =
      subst (λ n. ArePlaced sv.store.site n t.registry.workloads) (sym left)
        (subst (λ w. ArePlaced sv.store.site (others name (numbers s)) w)
          (sym
            (rows ∙ without-eq-drop_where (λ (w : Workload). w.tenant) name s.registry.workloads))
          (drop_where-ArePlaced sv.store.site (numbers s) (others name (numbers s))
            (λ (w : Workload). text_eq w.tenant name) s.registry.workloads
            (λ n w e m.
              subst (λ l. Memᴰ (n, w.tenant) l)
                (sym (without-eq-drop_where (λ (p : ℕ × Text). p.1) name (numbers s)))
                (mem_left (λ (p : ℕ × Text). text_eq p.1 name) (numbers s) (n, w.tenant) m e))
            h))

  pub delete-Placed :
      (name : Text) (s : State W)
      → Placed sv.store s
      → Placed sv.store (state_of (delete sv name s))
  delete-Placed name s h = Removed-Placed name s (delete sv name s) (delete-Removed sv name s) h

  pub reconcile-Placed :
      (name : Text) (s : State W)
      → Placed sv.store s
      → Placed sv.store (state_of (reconcile sv name s))
  reconcile-Placed name s h = ((Keeps-Places sv.store _ (reconcile-Keeps sv name)).after s).1 h

  pub create-Placed :
      (r : CreateRequest) (s : State W)
      → Placed sv.store s
      → Placed sv.store (state_of (create sv r s))
  create-Placed r s h =
      let (numbered, more, same, run) = (create-grows sv r).after s in
      subst (λ w. ArePlaced sv.store.site (numbers (state_of (create sv r s))) w) (sym same)
        (mono-ArePlaced sv.store.site (numbers s) _ s.registry.workloads more h)
