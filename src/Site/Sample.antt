-- ===== src/Site/Sample.antt =====
-- A site with one trust class, which a hundred addresses serve, for the runs of the code.
use deevnet_provisioning_api.Prelude.{[], ◌∷◌, codes, ℤ, pos}
use deevnet_provisioning_api.Site.{Site, TrustClass, AddressRange}

abbrev pub iot_class : TrustClass
iot_class = record { name = codes "iot"; ssid = codes "deevnet-iot"; vlan = 40 }

-- 10.20.40.100 to 10.20.40.199
abbrev pub iot_range : AddressRange
iot_range = record {
  subnet = record { addr = 169093120; bits = 24 };
  first = 169093220;
  last = 169093319;
}

abbrev pub quota_site : ℤ → Site
quota_site quota = record {
  name = codes "lab";
  octet = 20;
  root_domain = codes "dvnt.net";
  certificate_sites = [];
  vrf_vni_base = 5000;
  vnet_vni_base = 10000;
  controller_id = codes "evpn";
  node = codes "pve";
  dns_update_server = codes "10.20.1.1";
  dns_apex_ns = codes "ns";
  dns_update_from = codes "10.20.0.0/16" ∷ [];
  state_endpoint = codes "https://s3";
  state_bucket = codes "state";
  log_endpoint = codes "https://logs";
  dashboard_url = [];
  trust_classes = (codes "iot", iot_class) ∷ [];
  address_ranges = (codes "iot", iot_range) ∷ [];
  addresses_per_tenant = quota;
  admission_class = codes "iot";
  resolver_forward_to = codes "10.20.1.1";
  workload_resolver = codes "10.20.1.2";
  tenant_vmid_base = 20000;
  mac_namespace = codes "02:20:00";
  template_prefix = codes "tmpl";
  storage = codes "local";
  disk = codes "scsi0";
  ci_user = codes "deev";
}

abbrev pub lab : Site
lab = quota_site (pos 0)
