-- ===== src/Registry/Placed.antt =====
-- Where the workloads stand: each with the numbers that derive from its tenant's index and an
-- ordinal of its own. What the calls on the table of workloads leave of it.
use deevnet_provisioning_api.Prelude.{
  ℕ, zero, suc, ◌+◌, ◌<◌, ◌≡◌, refl, sym, ap, ap₂, subst, inl, inr, true, false, Option, some, List,
  [], ◌∷◌, ◌++◌, map, contains, All, All-append, All-map, All-drop_where, All-mono, drop_where,
  Bool, IsUnique, snoc-IsUnique, drop_where-IsUnique, Text, text_eq, text_eq_iff, Bool-cases, arith,
  if◌then◌else◌,
}
use mathlib.Core.List.{Memᴰ, map-append}
use deevnet_provisioning_api.Site.{Site, workload_vmid, workload_address, mac}
use deevnet_provisioning_api.Registry.{Record, Workload}
use deevnet_provisioning_api.Registry.Tenants.{find_row, held_indexes}
use deevnet_provisioning_api.Registry.Parts.{of_tenant}
use deevnet_provisioning_api.Registry.Workloads.{
  ordinals, first_ordinal, is_workload, on_workload, placed,
}

pub record IsPlaced (site : Site) (held : List (ℕ × Text)) (w : Workload) : Type 0 where
  pub index : ℕ
  pub holds : Memᴰ (index, w.tenant) held
  pub ordinal_bound : w.ordinal < 40
  pub vmid_derives : w.vmid ≡ workload_vmid site index w.ordinal
  pub mac_derives : w.mac ≡ mac site w.vmid
  pub address_derives : w.address ≡ workload_address site index w.ordinal

abbrev pub place : Workload → Text × ℕ
place w = (w.tenant, w.ordinal)

pub record ArePlaced (site : Site) (held : List (ℕ × Text)) (workloads : List Workload)
    : Type 0 where
  pub each : All (IsPlaced site held) workloads
  pub own_ordinals : IsUnique (map place workloads)

pub first_ordinal-free :
    (taken : List ℕ) (n rounds k : ℕ)
    → first_ordinal taken n rounds ≡ some k
    → (k < n + rounds) × (contains k taken ≡ false)
unfolding first_ordinal
first_ordinal-free taken n zero k h = absurd (cc)
first_ordinal-free taken n (suc rounds) k h = elim (Bool-cases (contains n taken)) [
  | inl e ↦
      let (below, free) = first_ordinal-free taken (n + 1) rounds k (rw e at h) in
      (omega arith, free)
  | inr e ↦
      let found : ◌≡◌ {A = Option ℕ} (some n) (some k) = rw e at h in
      let same : n ≡ k = cc in (omega arith, subst (λ x. contains x taken ≡ false) same e)
]

pub ordinals-mem :
    (tenant : Text) (k : ℕ) (workloads : List Workload)
    → Memᴰ (tenant, k) (map place workloads)
    → Memᴰ k (ordinals tenant workloads)
unfolding of_tenant
ordinals-mem tenant k [] m = elim m [ ]
ordinals-mem tenant k (w ∷ workloads) (Memᴰ.head e) =
    let same : tenant ≡ w.tenant = ap (λ (x : Text × ℕ). x.0) e in
    let tested : text_eq w.tenant tenant ≡ true = (text_eq_iff w.tenant tenant).1 (sym same) in
    rw tested (Memᴰ.head (ap (λ (x : Text × ℕ). x.1) e))
ordinals-mem tenant k (w ∷ workloads) (Memᴰ.tail m) = elim (Bool-cases (text_eq w.tenant tenant)) [
  | inl e ↦ rw e (Memᴰ.tail (ordinals-mem tenant k workloads m))
  | inr e ↦ rw e (ordinals-mem tenant k workloads m)
]

pub contains-mem : (k : ℕ) (taken : List ℕ) → contains k taken ≡ false → ¬ (Memᴰ k taken)
unfolding contains
contains-mem k [] h m = elim m [ ]
contains-mem k (n ∷ taken) h (Memᴰ.head e) = ground (arith, e)
contains-mem k (n ∷ taken) h (Memᴰ.tail m) = contains-mem k taken (ground arith) m

pub find_row-mem :
    (name : Text) (rows : List Record) (r : Record)
    → find_row name rows ≡ some r
    → Memᴰ (r.index, name) (held_indexes rows)
unfolding find_row held_indexes
find_row-mem name [] r h = absurd (cc)
find_row-mem name (row ∷ rows) r h = elim (Bool-cases (text_eq row.name name)) [
  | inl e ↦
      let found : ◌≡◌ {A = Option Record} (some row) (some r) = rw e at h in
      let same : row ≡ r = cc in
      let named : row.name ≡ name = (text_eq_iff row.name name).0 e in Memᴰ.head (cc)
  | inr e ↦ Memᴰ.tail (find_row-mem name rows r (rw e at h))
]

-- A change of a row that leaves its identity alone.
pub record Alike (a b : Workload) : Type 0 where
  pub tenant : b.tenant ≡ a.tenant
  pub ordinal : b.ordinal ≡ a.ordinal
  pub vmid : b.vmid ≡ a.vmid
  pub mac : b.mac ≡ a.mac
  pub address : b.address ≡ a.address

pub on_workload-Alike :
    (tenant name : Text) (f : Workload → Workload) (w : Workload)
    → Alike w (f w)
    → Alike w (on_workload tenant name f w)
on_workload-Alike tenant name f w h =
    elim (is_workload tenant name w) as (λ b. Alike w (if b then f w else w)) [
      | true ↦ h
      | false ↦ record { tenant = refl; ordinal = refl; vmid = refl; mac = refl; address = refl }
    ]

Alike-IsPlaced :
    (site : Site) (held : List (ℕ × Text)) (a b : Workload)
    → Alike a b
    → IsPlaced site held a
    → IsPlaced site held b
Alike-IsPlaced site held a b same h = record {
  index = h.index;
  holds = rw same.tenant h.holds;
  ordinal_bound = rw same.ordinal h.ordinal_bound;
  vmid_derives = cc (same.vmid, same.ordinal, h.vmid_derives);
  mac_derives = cc (same.mac, same.vmid, h.mac_derives);
  address_derives = cc (same.address, same.ordinal, h.address_derives);
}

place-map :
    (g : Workload → Workload) (rows : List Workload)
    → ((w : Workload) → Alike w (g w))
    → map place (map g rows) ≡ map place rows
place-map g [] h = refl
place-map g (w ∷ rows) h =
    ap₂ (λ (k : Text × ℕ) (ks : List (Text × ℕ)). k ∷ ks)
      (ap₂ (λ (t : Text) (n : ℕ). (t, n)) (h w).tenant (h w).ordinal) (place-map g rows h)

pub map-ArePlaced :
    (site : Site) (held : List (ℕ × Text)) (g : Workload → Workload) (rows : List Workload)
    → ((w : Workload) → Alike w (g w))
    → ArePlaced site held rows
    → ArePlaced site held (map g rows)
map-ArePlaced site held g rows h placed = record {
  each = All-map _ _ g rows (λ w. Alike-IsPlaced site held w (g w) (h w)) placed.each;
  own_ordinals = subst IsUnique (sym (place-map g rows h)) placed.own_ordinals;
}

pub append-ArePlaced :
    (site : Site) (held : List (ℕ × Text)) (rows : List Workload) (w : Workload)
    → IsPlaced site held w
    → ¬ (Memᴰ (place w) (map place rows))
    → ArePlaced site held rows
    → ArePlaced site held (rows ++ w ∷ [])
append-ArePlaced site held rows w new fresh placed = record {
  each = All-append _ rows (w ∷ []) placed.each (new, tt);
  own_ordinals =
      subst IsUnique (sym (map-append place rows (w ∷ [])))
        (snoc-IsUnique (map place rows) (place w) placed.own_ordinals fresh);
}

-- Rows go, and the tenants that the others stand with are still there.
pub drop_where-ArePlaced :
    (site : Site) (held left : List (ℕ × Text)) (test : Workload → Bool) (rows : List Workload)
    → ((n : ℕ) (w : Workload) → test w ≡ false → Memᴰ (n, w.tenant) held → Memᴰ (n, w.tenant) left)
    → ArePlaced site held rows
    → ArePlaced site left (drop_where test rows)
drop_where-ArePlaced site held left test rows h placed = record {
  each =
      All-drop_where _ _ test rows
        (λ w e at. record {
          index = at.index;
          holds = h at.index w e at.holds;
          ordinal_bound = at.ordinal_bound;
          vmid_derives = at.vmid_derives;
          mac_derives = at.mac_derives;
          address_derives = at.address_derives;
        })
        placed.each;
  own_ordinals = drop_where-IsUnique place test rows placed.own_ordinals;
}

pub mono-ArePlaced :
    (site : Site) (held more : List (ℕ × Text)) (rows : List Workload)
    → ((p : ℕ × Text) → Memᴰ p held → Memᴰ p more)
    → ArePlaced site held rows
    → ArePlaced site more rows
mono-ArePlaced site held more rows h placed = record {
  each =
      All-mono _ _ rows
        (λ w at. record {
          index = at.index;
          holds = h (at.index, w.tenant) at.holds;
          ordinal_bound = at.ordinal_bound;
          vmid_derives = at.vmid_derives;
          mac_derives = at.mac_derives;
          address_derives = at.address_derives;
        })
        placed.each;
  own_ordinals = placed.own_ordinals;
}
