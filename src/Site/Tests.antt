-- ===== src/Site/Tests.antt =====
-- Runs of the site's checks and the theorems on a site with one trust class, which 16 addresses
-- serve.
use deevnet_provisioning_api.Prelude.{
  ℕ, ◌+◌, ◌≤◌, ◌<◌, ◌≡◌, ◌↔◌, ◌≢◌, refl, some, [], ◌∷◌, true, false, take, codes, pos, negsuc, ok,
  err, text_eq, hex_byte, decimal, arith,
}
use mathlib.Core.List.{Memᴰ}
use deevnet_provisioning_api.Names.{valid_name, is_name_byte, is_lower, is_digit}
use deevnet_provisioning_api.Site.{
  lookup, trust_class, prefix_contains, numbering, network, index_for_vrf_vni, index_for_vnet_tag,
  workload_vmid, workload_address, mac, address_quota,
}
use deevnet_provisioning_api.Site.Sample.{iot_class, iot_range, quota_site, lab}
use deevnet_provisioning_api.Site.Validate.{
  IsUsable, negative_quota, validate_site, validate_constants, validate_classes, validate_ranges,
  validate_class, validate_range, served, is_none, validate_site-IsUsable, validate_site-vlan,
}
use deevnet_provisioning_api.Site.Numbering.{index_for_vrf_vni_iff, index_for_vnet_tag_iff}
use deevnet_provisioning_api.Site.Identity.{
  workload_address_injective, workload_mac_injective, vnet_ids, vnet_tags, vnet_ids_iff,
}

lab_passes : validate_site lab ≡ ok tt
unfolding validate_site validate_constants validate_classes validate_ranges validate_class
    validate_range served is_none lookup prefix_contains text_eq
lab_passes = refl

negative_refused : validate_site (quota_site (negsuc 0)) ≡ err negative_quota
unfolding validate_site validate_constants validate_classes validate_ranges validate_class
    validate_range served is_none lookup prefix_contains text_eq
negative_refused = refl

lab_quota : (address_quota lab ≡ 16) × (address_quota (quota_site (pos 3)) ≡ 3)
unfolding address_quota
lab_quota = (refl, refl)

lab_class : trust_class lab (codes "iot") ≡ some iot_class
unfolding trust_class lookup text_eq
lab_class = refl

lab_mac : mac lab (workload_vmid lab 3 2) ≡ codes "02:20:00:00:4e:9a"
unfolding mac workload_vmid hex_byte
lab_mac = refl

lab_address : workload_address lab 3 2 ≡ codes "10.20.131.12"
unfolding workload_address decimal
lab_address = refl

validate_site-IsUsable_example : IsUsable lab.trust_classes (codes "iot") iot_range
validate_site-IsUsable_example =
    validate_site-IsUsable lab (codes "iot") iot_range lab_passes (Memᴰ.head refl)

validate_site-vlan_example : (1 ≤ 40) × (40 ≤ 4094)
validate_site-vlan_example = validate_site-vlan lab (codes "iot") iot_class lab_passes lab_class

index_for_vrf_vni_example :
    (index_for_vrf_vni lab 5003 ≡ 3) ↔ ((3 ≤ 63) × (5003 ≡ (numbering lab 3).vrf_vni))
index_for_vrf_vni_example = index_for_vrf_vni_iff lab 5003 3 (omega arith)

index_for_vnet_tag_example : (index_for_vnet_tag lab 10034 ≡ 3) ↔ (
    (3 ≤ 63)
    × ((numbering lab 3).vnet_vni_base ≤ 10034)
    × (10034 < (numbering lab 3).vnet_vni_base + 10))
index_for_vnet_tag_example = index_for_vnet_tag_iff lab 10034 3 (omega arith)

workload_address_injective_example :
    (workload_address lab 3 2 ≡ workload_address lab 3 2 → (◌≡◌ {A = ℕ} 3 3) × (◌≡◌ {A = ℕ} 2 2))
    × (workload_address lab 3 2 ≢ (numbering lab 3).gateway)
workload_address_injective_example = workload_address_injective lab 3 3 2 2

workload_mac_injective_example : (◌≡◌ {A = ℕ} 3 3) × (◌≡◌ {A = ℕ} 2 2)
workload_mac_injective_example =
    workload_mac_injective lab 3 3 2 2 (omega arith) (omega arith) (omega arith) (omega arith) refl

vnet_ids_iff_example :
    ((vnet_ids lab (codes "sensors") 3 ≡ vnet_ids lab (codes "sensorhu") 4)
      ↔ (take 6 (codes "sensors") ≡ take 6 (codes "sensorhu")))
    × ((vnet_tags lab (codes "sensors") 3 ≡ vnet_tags lab (codes "sensorhu") 4) ↔ (◌≡◌ {A = ℕ} 3 4))
vnet_ids_iff_example = vnet_ids_iff lab (codes "sensors") (codes "sensorhu") 3 4

-- Two names that are both admitted, and differ, are given one id.
sensors_collide :
    (valid_name (codes "sensors") ≡ true)
    × (valid_name (codes "sensorhu") ≡ true)
    × (text_eq (codes "sensors") (codes "sensorhu") ≡ false)
    × (vnet_ids lab (codes "sensors") 3 ≡ vnet_ids lab (codes "sensorhu") 4)
unfolding valid_name is_name_byte is_lower is_digit text_eq
sensors_collide = (refl, refl, refl, vnet_ids_iff_example.0.1 refl)

ids_apart :
    (vnet_ids lab (codes "eds") 3 ≡ codes "eds0" ∷ [])
    × (vnet_tags lab (codes "eds") 3 ≡ 10030 ∷ [])
unfolding network numbering decimal
ids_apart = (refl, refl)
