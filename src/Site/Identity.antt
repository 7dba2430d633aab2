-- ===== src/Site/Identity.antt =====
-- The texts that derive from an index, an ordinal or a VMID: addresses, MACs and VNet ids.
use deevnet_provisioning_api.Prelude.{
  ℕ, ◌+◌, ◌*◌, ◌/◌, ◌%◌, ◌^◌, ◌≤◌, ◌<◌, ◌≡◌, ◌≢◌, refl, sym, ◌∙◌, [], ◌∷◌, ◌++◌, arith, Text, codes,
  ap, zero, suc, List, ◌↔◌, length-append, contains, decimal, decimal_injective, decimal-free,
  hex_byte, hex_byte_injective, take, map, length,
}
use deevnet_provisioning_api.Names.Laws.{append_injective_free}
use deevnet_provisioning_api.Site.Numbering.{workload_vmid_injective}
use deevnet_provisioning_api.Site.{
  Site, VnetSpec, tenant_address, numbering, network, workload_vmid, workload_address, mac,
}

tail_eq : {c : ℕ} {s t : Text} → ◌≡◌ {A = Text} (c ∷ s) (c ∷ t) → s ≡ t
tail_eq e = cc

append_injective_length :
    (s t u v : Text) → length s ≡ length t → (s ++ u) ≡ (t ++ v) → (s ≡ t) × (u ≡ v)
append_injective_length [] [] u v h e = (refl, e)
append_injective_length [] (d ∷ t) u v h e = absurd (omega arith)
append_injective_length (c ∷ s) [] u v h e = absurd (omega arith)
append_injective_length (c ∷ s) (d ∷ t) u v h e =
    let (same, rest) = append_injective_length s t u v (omega arith) (cc) in (cc, rest)

tenant_address_injective :
    (octet i j : ℕ) (u v : Text)
    → tenant_address octet i u ≡ tenant_address octet j v
    → (i ≡ j) × (u ≡ v)
tenant_address_injective octet i j u v e =
    let (ten, after_ten) =
      append_injective_free b'.' (codes "10") (codes "10") _ _ (unfold contains in refl)
        (unfold contains in refl) e in
    let (same_octet, after_octet) =
      append_injective_free b'.' (decimal octet) (decimal octet) _ _ (decimal-free octet)
        (decimal-free octet) after_ten in
    let (third, host) =
      append_injective_free b'.' (decimal (128 + i)) (decimal (128 + j)) u v
        (decimal-free (128 + i)) (decimal-free (128 + j)) after_octet in
    let eq : 128 + i ≡ 128 + j = decimal_injective (128 + i) (128 + j) third in (omega arith, host)

-- A workload's address determines its tenant's index and its ordinal, and is never the gateway of a
-- tenant.
pub workload_address_injective :
    (s : Site) (i j n m : ℕ)
    → (workload_address s i n ≡ workload_address s j m → (i ≡ j) × (n ≡ m))
      × (workload_address s i n ≢ (numbering s j).gateway)
unfolding workload_address numbering
workload_address_injective s i j n m = (
  λ e.
      let (same, host) =
        tenant_address_injective s.octet i j (decimal (10 + n)) (decimal (10 + m)) e in
      let eq : 10 + n ≡ 10 + m = decimal_injective (10 + n) (10 + m) host in (same, omega arith),
  λ e.
      let (same, host) = tenant_address_injective s.octet i j (decimal (10 + n)) (codes "1") e in
      let eq : 10 + n ≡ 1 = decimal_injective (10 + n) 1 (unfold decimal in host) in omega arith,
)

length-hex_byte : (b : ℕ) → length (hex_byte b) ≡ 2
unfolding hex_byte
length-hex_byte b = refl

-- A VMID below 2^24 determines the MAC that is derived from it.
pub mac_injective : (s : Site) (v w : ℕ) → v < 2 ^ 24 → w < 2 ^ 24 → mac s v ≡ mac s w → v ≡ w
unfolding mac
mac_injective s v w hv hw e =
    let (ns, tail) = append_injective_length s.mac_namespace s.mac_namespace _ _ refl e in
    let (a, tail_a) =
      append_injective_length (hex_byte (v / 2 ^ 16 % 256)) (hex_byte (w / 2 ^ 16 % 256)) _ _
        (length-hex_byte _ ∙ sym (length-hex_byte _)) (tail_eq tail) in
    let (b, tail_b) =
      append_injective_length (hex_byte (v / 2 ^ 8 % 256)) (hex_byte (w / 2 ^ 8 % 256)) _ _
        (length-hex_byte _ ∙ sym (length-hex_byte _)) (tail_eq tail_a) in
    let high : v / 2 ^ 16 % 256 ≡ w / 2 ^ 16 % 256 =
      hex_byte_injective _ _ (omega arith) (omega arith) a in
    let middle : v / 2 ^ 8 % 256 ≡ w / 2 ^ 8 % 256 =
      hex_byte_injective _ _ (omega arith) (omega arith) b in
    let low : v % 256 ≡ w % 256 =
      hex_byte_injective _ _ (omega arith) (omega arith) (tail_eq tail_b) in
    omega arith

-- Two workloads of a site whose VMIDs stay below 2^24 share no MAC, whichever tenants they belong
-- to.
pub workload_mac_injective :
    (s : Site) (i j n m : ℕ)
    → n < 40
    → m < 40
    → s.tenant_vmid_base + i * 40 + 40 ≤ 2 ^ 24
    → s.tenant_vmid_base + j * 40 + 40 ≤ 2 ^ 24
    → mac s (workload_vmid s i n) ≡ mac s (workload_vmid s j m)
    → (i ≡ j) × (n ≡ m)
workload_mac_injective s i j n m hn hm hi hj e = workload_vmid_injective s i j n m hn hm (
    mac_injective s (workload_vmid s i n) (workload_vmid s j m)
      (unfold workload_vmid in omega arith) (unfold workload_vmid in omega arith) e)

length-take : (n : ℕ) (s : Text) → length (take n s) ≤ n
length-take zero s = omega arith
length-take (suc n) [] = omega arith
length-take (suc n) (c ∷ s) = omega (arith, length-take n s)

append_cancel_right : (s t u : Text) → (s ++ u) ≡ (t ++ u) → s ≡ t
append_cancel_right s t u e =
    let same : length (s ++ u) ≡ length (t ++ u) = ap (λ (x : Text). length x) e in
    (append_injective_length s t u u (omega (arith, length-append s u, length-append t u)) e).0

-- What a tenant's VNets are called, and what they carry.
abbrev pub vnet_ids : Site → Text → ℕ → List Text
vnet_ids s name index = map (λ (v : VnetSpec). v.id) (network s name index).vnets

abbrev pub vnet_tags : Site → Text → ℕ → List ℕ
vnet_tags s name index = map (λ (v : VnetSpec). v.tag) (network s name index).vnets

-- The VNet ids of two tenants are equal exactly when their names agree in their first six bytes,
-- whatever their indexes, and the VNet tags exactly when their indexes are equal.
pub vnet_ids_iff :
    (s : Site) (name other : Text) (i j : ℕ)
    → ((vnet_ids s name i ≡ vnet_ids s other j) ↔ (take 6 name ≡ take 6 other))
      × ((vnet_tags s name i ≡ vnet_tags s other j) ↔ (i ≡ j))
unfolding network numbering
vnet_ids_iff s name other i j = (
  (λ same. append_cancel_right (take 6 name) (take 6 other) (decimal 0) (cc), λ e. rw e refl),
  (
    λ same. let eq : s.vnet_vni_base + i * 10 ≡ s.vnet_vni_base + j * 10 = cc in omega arith,
    λ e. rw e refl,
  ),
)
