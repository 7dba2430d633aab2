-- ===== src/Site/Validate.antt =====
-- Site.Validate of internal/tenant/site.go. An error's text is its constructor, and the two loops
-- over maps take the entries in the order of the list. That an address is one of IPv4 holds here by
-- its type.
use deevnet_provisioning_api.Prelude.{
  ℕ, zero, suc, ◌-◌, ◌/◌, ◌^◌, ◌≤◌, ◌≡◌, sym, subst, Bool, true, false, not, ◌&&◌, ◌||◌, Option,
  none, some, List, [], ◌∷◌, is_empty, ltb, Text, is_negative, Result, Done, ok, ◌>>◌, refuse_if,
  ◌==◌, ==_iff, arith,
}
use mathlib.Core.List.{Memᴰ}
use native.Mathlib.Nat.{le_trans, div-zero, div-mul-le_self, le-div_iff_mul-le}
use deevnet_provisioning_api.Site.{
  Site, TrustClass, Prefix, AddressRange, range_contains, prefix_contains, lookup, trust_class,
}

pub data SiteFault : Type 0 where
  no_name bad_octet no_root_domain bad_vni_base no_fabric no_dns no_update_from no_state : SiteFault
  no_forward_target no_workload_resolver bad_vmid_base no_mac_namespace no_template no_disk :
      SiteFault
  class_without_ssid class_bad_vlan range_not_served range_outside_subnet range_reversed :
      Text → SiteFault
  negative_quota admission_not_served : SiteFault

unfoldable pub validate_class : Text → TrustClass → Result SiteFault Done
validate_class name tc = do
  refuse_if (is_empty tc.ssid) (class_without_ssid name)
  refuse_if (ltb tc.vlan 1 || ltb 4094 tc.vlan) (class_bad_vlan name)

unfoldable pub validate_classes : List (Text × TrustClass) → Result SiteFault Done
validate_classes [] = ok tt
validate_classes ((name, tc) ∷ classes) = do validate_class name tc; validate_classes classes

-- `s.TrustClasses[name].Name == ""`: a missing class is one with no name.
unfoldable pub served : Option TrustClass → Bool
served none = false
served (some tc) = not (is_empty tc.name)

unfoldable pub validate_range :
    List (Text × TrustClass) → Text → AddressRange → Result SiteFault Done
validate_range classes name r = do
  refuse_if (not (served (lookup name classes))) (range_not_served name)
  refuse_if (not (prefix_contains r.subnet r.first) || not (prefix_contains r.subnet r.last))
      (range_outside_subnet name)
  refuse_if (ltb r.last r.first) (range_reversed name)

unfoldable pub validate_ranges :
    List (Text × TrustClass) → List (Text × AddressRange) → Result SiteFault Done
validate_ranges classes [] = ok tt
validate_ranges classes ((name, r) ∷ ranges) = do
  validate_range classes name r
  validate_ranges classes ranges

unfoldable pub is_none {ℓ} : {A : Type ℓ} → Option A → Bool
is_none none = true
is_none (some a) = false

-- The switch at the head.
unfoldable pub validate_constants : Site → Result SiteFault Done
validate_constants s = do
  refuse_if (is_empty s.name) no_name
  refuse_if (ltb s.octet 1 || ltb 254 s.octet) bad_octet
  refuse_if (is_empty s.root_domain) no_root_domain
  refuse_if (s.vrf_vni_base == 0 || s.vnet_vni_base == 0) bad_vni_base
  refuse_if (is_empty s.controller_id || is_empty s.node) no_fabric
  refuse_if (is_empty s.dns_update_server || is_empty s.dns_apex_ns) no_dns
  refuse_if (is_empty s.dns_update_from) no_update_from
  refuse_if (is_empty s.state_endpoint || is_empty s.state_bucket) no_state
  refuse_if (is_empty s.resolver_forward_to) no_forward_target
  refuse_if (is_empty s.workload_resolver) no_workload_resolver
  refuse_if (s.tenant_vmid_base == 0) bad_vmid_base
  refuse_if (is_empty s.mac_namespace) no_mac_namespace
  refuse_if (is_empty s.template_prefix) no_template
  refuse_if (is_empty s.disk) no_disk

unfoldable pub validate_site : Site → Result SiteFault Done
validate_site s = do
  validate_constants s
  validate_classes s.trust_classes
  validate_ranges s.trust_classes s.address_ranges
  refuse_if (is_negative s.addresses_per_tenant) negative_quota
  refuse_if (not (is_empty s.admission_class) && is_none (lookup s.admission_class s.trust_classes))
      admission_not_served

div_mono : (k a b : ℕ) → a ≤ b → a / k ≤ b / k
div_mono zero a b h = rw (div-zero a) (omega arith)
div_mono (suc k) a b h =
    (le-div_iff_mul-le (omega arith)).1 (le_trans (div-mul-le_self a (suc k)) h)

prefix_contains-between :
    (p : Prefix) (a b c : ℕ)
    → prefix_contains p a ≡ true
    → prefix_contains p c ≡ true
    → a ≤ b
    → b ≤ c
    → prefix_contains p b ≡ true
unfolding prefix_contains
prefix_contains-between p a b c ha hc hab hbc =
    let k = 2 ^ (32 - p.bits) in
    let low : a / k ≤ b / k = div_mono k a b hab in
    let high : b / k ≤ c / k = div_mono k b c hbc in
    (==_iff _ _).1 (
      ground
        (arith, low, high, (==_iff (a / k) (p.addr / k)).0 ha, (==_iff (c / k) (p.addr / k)).0 hc))

-- What is checked of each range.
pub record IsUsable (classes : List (Text × TrustClass)) (name : Text) (r : AddressRange)
    : Type 0 where
  pub class_served : served (lookup name classes) ≡ true
  pub ordered : r.first ≤ r.last
  pub inside : (addr : ℕ) → range_contains r addr ≡ true → prefix_contains r.subnet addr ≡ true

validate_range-IsUsable :
    (classes : List (Text × TrustClass)) (name : Text) (r : AddressRange)
    → validate_range classes name r ≡ ok tt
    → IsUsable classes name r
unfolding validate_range range_contains
validate_range-IsUsable classes name r h = record {
  class_served = ground arith;
  ordered = ground arith;
  inside = λ addr k.
      prefix_contains-between r.subnet r.first addr r.last (ground arith) (ground arith)
        (ground arith) (ground arith);
}

validate_ranges-IsUsable :
    (classes : List (Text × TrustClass)) (ranges : List (Text × AddressRange)) (name : Text)
    (r : AddressRange)
    → validate_ranges classes ranges ≡ ok tt
    → Memᴰ (name, r) ranges
    → IsUsable classes name r
unfolding validate_ranges
validate_ranges-IsUsable classes [] name r h m = elim m [ ]
validate_ranges-IsUsable classes ((n, q) ∷ ranges) name r h (Memᴰ.head e) =
    let first : IsUsable classes n q = validate_range-IsUsable classes n q (ground arith) in
    subst (λ (x : Text × AddressRange). IsUsable classes x.0 x.1) (sym e) first
validate_ranges-IsUsable classes ((n, q) ∷ ranges) name r h (Memᴰ.tail m) =
    validate_ranges-IsUsable classes ranges name r (ground arith) m

validate_class-vlan :
    (name : Text) (tc : TrustClass)
    → validate_class name tc ≡ ok tt
    → (1 ≤ tc.vlan) × (tc.vlan ≤ 4094)
unfolding validate_class
validate_class-vlan name tc h = ground arith

validate_classes-vlan :
    (classes : List (Text × TrustClass)) (name : Text) (tc : TrustClass)
    → validate_classes classes ≡ ok tt
    → lookup name classes ≡ some tc
    → (1 ≤ tc.vlan) × (tc.vlan ≤ 4094)
unfolding validate_classes lookup
validate_classes-vlan [] name tc h e = cc
validate_classes-vlan ((n, t) ∷ classes) name tc h e =
    ground (arith, validate_class-vlan n t, validate_classes-vlan classes name tc)

validate_site-parts :
    (s : Site)
    → validate_site s ≡ ok tt
    → (validate_classes s.trust_classes ≡ ok tt)
      × (validate_ranges s.trust_classes s.address_ranges ≡ ok tt)
unfolding validate_site
validate_site-parts s h = ground arith

-- In a site that passes, each address range belongs to a trust class that the site serves, does not
-- end before it starts, and lies inside its subnet from its first address to its last.
pub validate_site-IsUsable :
    (s : Site) (name : Text) (r : AddressRange)
    → validate_site s ≡ ok tt
    → Memᴰ (name, r) s.address_ranges
    → IsUsable s.trust_classes name r
validate_site-IsUsable s name r h m =
    validate_ranges-IsUsable s.trust_classes s.address_ranges name r (validate_site-parts s h).1 m

-- In a site that passes, every trust class that a key can name is bound to a VLAN from 1 to 4094.
pub validate_site-vlan :
    (s : Site) (name : Text) (tc : TrustClass)
    → validate_site s ≡ ok tt
    → trust_class s name ≡ some tc
    → (1 ≤ tc.vlan) × (tc.vlan ≤ 4094)
unfolding trust_class
validate_site-vlan s name tc h e =
    validate_classes-vlan s.trust_classes name tc (validate_site-parts s h).0 e
