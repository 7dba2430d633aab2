-- ===== src/Lifecycle/Distinct.antt =====
-- No two workloads share a number, over the whole life of the service.
use deevnet_provisioning_api.Prelude.{
  ℕ, ◌^◌, ◌<◌, ◌≡◌, sym, ap, ap₂, subst, ◌∙◌, unique_row, IsUnique, map, All-mem, List, [], ◌∷◌,
  Text,
}
use mathlib.Core.List.{Memᴰ}
use deevnet_provisioning_api.Site.Identity.{workload_address_injective, mac_injective}
use deevnet_provisioning_api.Site.Numbering.{workload_vmid_injective}
use deevnet_provisioning_api.Registry.{Workload, State}
use deevnet_provisioning_api.Registry.Keeps.{numbers}
use deevnet_provisioning_api.Registry.Placed.{IsPlaced, place}
use deevnet_provisioning_api.Registry.Placing.{Placed}
use deevnet_provisioning_api.Lifecycle.{Service}
use deevnet_provisioning_api.Lifecycle.Invariant.{IsNumbered}
use deevnet_provisioning_api.Lifecycle.Reach.{Reaches, Reaches-IsNumbered, Reaches-Placed}

one_holder :
    (held : List (ℕ × Text)) (n : ℕ) (a b : Text)
    → IsNumbered held
    → Memᴰ (n, a) held
    → Memᴰ (n, b) held
    → a ≡ b
one_holder [] n a b i m k = elim m [ ]
one_holder ((m, name) ∷ held) n a b i (Memᴰ.head e) (Memᴰ.head f) =
    ap (λ (x : ℕ × Text). x.1) (e ∙ sym f)
one_holder ((m, name) ∷ held) n a b i (Memᴰ.head e) (Memᴰ.tail k) =
    absurd (i.2 b (subst (λ x. Memᴰ (x, b) held) (ap (λ (x : ℕ × Text). x.0) e) k))
one_holder ((m, name) ∷ held) n a b i (Memᴰ.tail k) (Memᴰ.head f) =
    absurd (i.2 a (subst (λ x. Memᴰ (x, a) held) (ap (λ (x : ℕ × Text). x.0) f) k))
one_holder ((m, name) ∷ held) n a b i (Memᴰ.tail k) (Memᴰ.tail l) = one_holder held n a b i.4 k l

-- An index and an ordinal name one workload.
one_place :
    (held : List (ℕ × Text)) (rows : List Workload) (a b : Workload) (i j : ℕ)
    → IsNumbered held
    → Memᴰ (i, a.tenant) held
    → Memᴰ (j, b.tenant) held
    → IsUnique (map place rows)
    → Memᴰ a rows
    → Memᴰ b rows
    → i ≡ j
    → a.ordinal ≡ b.ordinal
    → a ≡ b
one_place held rows a b i j numbered ma mb unique ina inb same ordinal =
    let tenant : a.tenant ≡ b.tenant =
      one_holder held i a.tenant b.tenant numbered ma
        (subst (λ n. Memᴰ (n, b.tenant) held) (sym same) mb) in
    unique_row place rows a b unique ina inb (ap₂ (λ (t : Text) (n : ℕ). (t, n)) tenant ordinal)

module _ {W : Type 0} (sv : Service W) where
  -- Whatever operations on tenants, workloads, records, devices, addresses, accounts and keys run
  -- from a registry in order, and whatever fails, two rows of the table of workloads with one VMID
  -- are one row, and so are two with one address, and two with one MAC if their VMIDs are below
  -- 2^24, whichever tenants they belong to.
  pub workloads_distinct :
      (start s : State W) (a b : Workload)
      → IsNumbered (numbers start)
      → Placed sv.store start
      → Reaches sv start s
      → Memᴰ a s.registry.workloads
      → Memᴰ b s.registry.workloads
      → (a.vmid ≡ b.vmid → a ≡ b)
        × (a.address ≡ b.address → a ≡ b)
        × (a.vmid < 2 ^ 24 → b.vmid < 2 ^ 24 → a.mac ≡ b.mac → a ≡ b)
  workloads_distinct start s a b numbered placed path ina inb =
      let site = sv.store.site in
      let held = Reaches-IsNumbered sv start s numbered path in
      let all = Reaches-Placed sv start s placed path in
      let at_a = All-mem (IsPlaced site (numbers s)) s.registry.workloads a all.each ina in
      let at_b = All-mem (IsPlaced site (numbers s)) s.registry.workloads b all.each inb in
      let one : at_a.index ≡ at_b.index → a.ordinal ≡ b.ordinal → a ≡ b =
        one_place (numbers s) s.registry.workloads a b at_a.index at_b.index held at_a.holds
          at_b.holds all.own_ordinals ina inb in
      let by_vmid : a.vmid ≡ b.vmid → a ≡ b = λ e.
        let (i, n) =
          workload_vmid_injective site at_a.index at_b.index a.ordinal b.ordinal at_a.ordinal_bound
            at_b.ordinal_bound (sym at_a.vmid_derives ∙ e ∙ at_b.vmid_derives) in
        one i n in
      (
        by_vmid,
        (λ e.
            let (i, n) =
              (workload_address_injective site at_a.index at_b.index a.ordinal b.ordinal).0
                (sym at_a.address_derives ∙ e ∙ at_b.address_derives) in
            one i n),
        (λ lo hi e.
            by_vmid (
              mac_injective site a.vmid b.vmid lo hi
                (sym at_a.mac_derives ∙ e ∙ at_b.mac_derives))),
      )
