-- ===== src/Registry/Sample.antt =====
-- A registry with two tenants' devices, one of which holds an address.
use deevnet_provisioning_api.Prelude.{[], ◌∷◌, codes}
use deevnet_provisioning_api.Alloc.Address.{ready}
use deevnet_provisioning_api.Registry.{Device, AddressRow, Registry}

abbrev pub lamp : Device
lamp = record {
  tenant = codes "eds";
  name = codes "lamp";
  trust_class = codes "iot";
  mac = codes "aa:bb:cc:dd:ee:ff";
  status = ready;
}

abbrev pub fan : Device
fan = record {
  tenant = codes "web";
  name = codes "fan";
  trust_class = codes "iot";
  mac = codes "aa:bb:cc:dd:ee:00";
  status = ready;
}

abbrev pub fan_address : AddressRow
fan_address = record {
  tenant = codes "web";
  device = codes "fan";
  trust_class = codes "iot";
  address = codes "10.20.40.100";
  status = ready;
}

abbrev pub registry : Registry
registry = record {
  tenants = [];
  workloads = [];
  wifi_keys = [];
  admission_keys = [];
  broker_accounts = [];
  devices = lamp ∷ fan ∷ [];
  device_addresses = fan_address ∷ [];
  records = [];
  certificates = [];
  audit_log = [];
}
