-- ===== src/Site.antt =====
-- A site's constants and what derives from a tenant's name and index: Site and its methods in
-- internal/tenant/site.go. A configured number is a natural number, except where the code tells a
-- negative one from zero; an address is the number of an IPv4 address; a map is the list of its
-- entries.
pub mod Validate
pub mod Numbering
pub mod Identity
pub mod Sample
mod Tests
use deevnet_provisioning_api.Prelude.{
  ℕ, suc, ◌+◌, ◌-◌, ◌*◌, ◌/◌, ◌%◌, ◌^◌, Bool, true, false, ◌&&◌, ◌||◌, Option, none, some, List, [],
  ◌∷◌, ◌++◌, length, take, ltb, leb, Text, codes, text_eq, ℤ, pos, negsuc, decimal, hex_byte,
  if◌then◌else◌, ◌==◌,
}

abbrev pub min_index : ℕ
min_index = 1

abbrev pub max_allocatable : ℕ
max_allocatable = 62

abbrev pub reserved_index : ℕ
reserved_index = 63

abbrev pub vnets_per_tenant : ℕ
vnets_per_tenant = 10

abbrev pub max_workloads : ℕ
max_workloads = 40

abbrev pub default_addresses_per_tenant : ℕ
default_addresses_per_tenant = 16

pub record TrustClass : Type 0 where
  pub name : Text
  pub ssid : Text
  pub vlan : ℕ

-- netip.Prefix, of an IPv4 address
pub record Prefix : Type 0 where
  pub addr : ℕ
  pub bits : ℕ

pub record AddressRange : Type 0 where
  pub subnet : Prefix
  pub first : ℕ
  pub last : ℕ

-- AddressRange.Contains
unfoldable pub range_contains : AddressRange → ℕ → Bool
range_contains r addr = leb r.first addr && leb addr r.last

-- Prefix.Contains: the first bits are the prefix's.
unfoldable pub prefix_contains : Prefix → ℕ → Bool
prefix_contains p addr = addr / 2 ^ (32 - p.bits) == p.addr / 2 ^ (32 - p.bits)

-- A map with text keys.
unfoldable pub lookup {ℓ} : {V : Type ℓ} → Text → List (Text × V) → Option V
lookup key [] = none
lookup key ((k, v) ∷ entries) = if text_eq k key then some v else lookup key entries

pub record Site : Type 0 where
  pub name : Text
  pub octet : ℕ
  pub root_domain : Text
  pub certificate_sites : List Text
  pub vrf_vni_base : ℕ
  pub vnet_vni_base : ℕ
  pub controller_id : Text
  pub node : Text
  pub dns_update_server : Text
  pub dns_apex_ns : Text
  pub dns_update_from : List Text
  pub state_endpoint : Text
  pub state_bucket : Text
  pub log_endpoint : Text
  pub dashboard_url : Text
  pub trust_classes : List (Text × TrustClass)
  pub address_ranges : List (Text × AddressRange)
  pub addresses_per_tenant : ℤ
  pub admission_class : Text
  pub resolver_forward_to : Text
  pub workload_resolver : Text
  pub tenant_vmid_base : ℕ
  pub mac_namespace : Text
  pub template_prefix : Text
  pub storage : Text
  pub disk : Text
  pub ci_user : Text

-- `if s.AddressesPerTenant > 0`
abbrev quota_of : ℤ → ℕ
quota_of (pos n) = if ltb 0 n then n else default_addresses_per_tenant
quota_of (negsuc n) = default_addresses_per_tenant

pub record Numbered : Type 0 where
  pub index : ℕ
  pub vrf_vni : ℕ
  pub vnet_vni_base : ℕ
  pub subnet : Text
  pub gateway : Text
  pub reverse_zone : Text

pub record VnetSpec : Type 0 where
  pub id : Text
  pub tag : ℕ

pub record NetworkSpec : Type 0 where
  pub zone : Text
  pub controller : Text
  pub node : Text
  pub vrf_vni : ℕ
  pub vnets : List VnetSpec
  pub subnet : Text
  pub gateway : Text

-- Texts joined by dots.
abbrev dotted : List Text → Text
dotted [] = []
dotted (part ∷ []) = part
dotted (part ∷ next ∷ parts) = part ++ b'.' ∷ dotted (next ∷ parts)

-- `10.<octet>.<128+index>.`, and what follows it
abbrev pub tenant_address : ℕ → ℕ → Text → Text
tenant_address octet index host =
    codes "10" ++ b'.' ∷ (decimal octet ++ b'.' ∷ (decimal (128 + index) ++ b'.' ∷ host))

module _ (s : Site) where
  unfoldable pub address_quota : ℕ
  address_quota = quota_of s.addresses_per_tenant

  unfoldable pub trust_class : Text → Option TrustClass
  unfolding lookup
  trust_class name = lookup name s.trust_classes

  unfoldable pub numbering : ℕ → Numbered
  numbering index = record {
    index = index;
    vrf_vni = s.vrf_vni_base + index;
    vnet_vni_base = s.vnet_vni_base + index * vnets_per_tenant;
    subnet = tenant_address s.octet index (codes "0/24");
    gateway = tenant_address s.octet index (codes "1");
    reverse_zone = dotted (
        decimal (128 + index) ∷ decimal s.octet ∷ codes "10" ∷ codes "in-addr" ∷ codes "arpa" ∷ []);
  }

  unfoldable pub service_zone : Text → Text
  service_zone name = name ++ b'.' ∷ s.root_domain

  unfoldable pub site_zone : Text → Text → Text
  site_zone name site = dotted (name ∷ site ∷ s.root_domain ∷ [])

  unfoldable pub certificate_site_list : List Text
  certificate_site_list = elim s.certificate_sites [
    | [] ↦ s.name ∷ []
    | site ∷ sites ↦ site ∷ sites
  ]

  unfoldable pub zone : Text → Text
  zone name = dotted (name ∷ s.name ∷ s.root_domain ∷ [])

  -- The subtraction of the code goes below zero where it stops here, and both are below 1.
  unfoldable pub index_for_vrf_vni : ℕ → ℕ
  index_for_vrf_vni vni =
      let n = vni - s.vrf_vni_base in if ltb n min_index || ltb reserved_index n then 0 else n

  unfoldable pub index_for_vnet_tag : ℕ → ℕ
  index_for_vnet_tag tag =
      let n = (tag - s.vnet_vni_base) / vnets_per_tenant in
      if ltb tag s.vnet_vni_base
      then 0
      else if ltb n min_index || ltb reserved_index n
      then 0
      else n

  unfoldable pub state_prefix : Text → Text
  state_prefix name = codes "tenants/" ++ (name ++ b'/' ∷ [])

  unfoldable pub network : Text → ℕ → NetworkSpec
  unfolding numbering
  network name index = record {
    zone = name;
    controller = s.controller_id;
    node = s.node;
    vrf_vni = (numbering index).vrf_vni;
    vnets = record { id = take 6 name ++ decimal 0; tag = (numbering index).vnet_vni_base } ∷ [];
    subnet = (numbering index).subnet;
    gateway = (numbering index).gateway;
  }

  unfoldable pub workload_vmid : ℕ → ℕ → ℕ
  workload_vmid index ordinal = s.tenant_vmid_base + index * max_workloads + ordinal

  unfoldable pub workload_address : ℕ → ℕ → Text
  workload_address index ordinal = tenant_address s.octet index (decimal (10 + ordinal))

  unfoldable pub mac : ℕ → Text
  mac vmid =
      s.mac_namespace
      ++ b':'
        ∷ (hex_byte (vmid / 2 ^ 16 % 256)
            ++ b':' ∷ (hex_byte (vmid / 2 ^ 8 % 256) ++ b':' ∷ hex_byte (vmid % 256)))
