-- ===== src/Site/Numbering.antt =====
-- The numbers that derive from an index: each one determines it.
use deevnet_provisioning_api.Prelude.{ℕ, ◌+◌, ◌≤◌, ◌<◌, ◌≡◌, ◌↔◌, arith}
use deevnet_provisioning_api.Site.{
  Site, numbering, index_for_vrf_vni, index_for_vnet_tag, workload_vmid,
}

-- A VRF VNI seen on the fabric reads back as an index exactly when it is the one derived from that
-- index, the drills' index 63 included.
pub index_for_vrf_vni_iff :
    (s : Site) (vni index : ℕ)
    → 1 ≤ index
    → (index_for_vrf_vni s vni ≡ index) ↔ ((index ≤ 63) × (vni ≡ (numbering s index).vrf_vni))
unfolding index_for_vrf_vni numbering
index_for_vrf_vni_iff s vni index h = ground arith

-- A VNet tag reads back as an index exactly when it is one of the ten tags that start at the base
-- derived from that index.
pub index_for_vnet_tag_iff :
    (s : Site) (tag index : ℕ)
    → 1 ≤ index
    → (index_for_vnet_tag s tag ≡ index) ↔ (
        (index ≤ 63)
        × ((numbering s index).vnet_vni_base ≤ tag)
        × (tag < (numbering s index).vnet_vni_base + 10))
unfolding index_for_vnet_tag numbering
index_for_vnet_tag_iff s tag index h = ground arith

-- A VMID determines the tenant's index and the workload's ordinal, for ordinals below the forty
-- that a tenant may hold.
pub workload_vmid_injective :
    (s : Site) (i j n m : ℕ)
    → n < 40
    → m < 40
    → workload_vmid s i n ≡ workload_vmid s j m
    → (i ≡ j) × (n ≡ m)
unfolding workload_vmid
workload_vmid_injective s i j n m hn hm e = (omega arith, omega arith)
