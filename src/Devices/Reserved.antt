-- ===== src/Devices/Reserved.antt =====
-- What the operations on devices leave of the addresses given out.
use deevnet_provisioning_api.Prelude.{IsUnique, Text}
use deevnet_provisioning_api.Site.{address_quota}
use deevnet_provisioning_api.Calls.{state_of}
use deevnet_provisioning_api.Registry.{State}
use deevnet_provisioning_api.Registry.Keys.{keys}
use deevnet_provisioning_api.Registry.Unique.{
  unique_addresses, create_picked_unique, set_address_status_unique, delete_address_unique,
}
use deevnet_provisioning_api.Lifecycle.{Service}
use deevnet_provisioning_api.Devices.Addresses.{create_device_address, delete_device_address}
use deevnet_provisioning_api.Devices.Registration.{DeviceRequest, create_device, delete_device}
use deevnet_provisioning_api.Devices.Stored.{
  Reads-Unique, audit-Unique, put_device-Unique, delete_device_row-Unique,
}
use deevnet_provisioning_api.Devices.Changes.{
  DeviceChange, create_device_address-Leaves, delete_device_address-Leaves,
}
use deevnet_provisioning_api.Devices.Changes.Registration.{
  create_device-Leaves, delete_device-Leaves,
}

module _ {W : Type 0} (sv : Service W) where
  unique_change : DeviceChange sv unique_addresses
  unique_change = record {
    reads = λ A call. Reads-Unique call;
    audits = audit-Unique sv.store;
    puts = put_device-Unique sv.store;
    drops = delete_device_row-Unique sv.store;
    sets = set_address_status_unique sv.store;
    deletes = delete_address_unique sv.store;
    creates = λ tenant device class mac requested r.
        create_picked_unique sv.store _ r (address_quota sv.site) mac requested;
  }

  -- However the database and the backends answer, and whether the operation succeeds or fails on
  -- the way, registering or removing a device and reserving or giving back its address keep each
  -- address given out once in its trust class.
  pub devices-IsUnique :
      (tenant device wanted : Text) (r : DeviceRequest) (s : State W)
      → IsUnique (keys s.registry.device_addresses)
      → IsUnique (keys (state_of (create_device sv tenant r s)).registry.device_addresses)
        × IsUnique (keys (state_of (delete_device sv tenant device s)).registry.device_addresses)
        × IsUnique (
            keys
              (state_of
                (create_device_address sv tenant device wanted s)).registry.device_addresses)
        × IsUnique
            (keys (state_of (delete_device_address sv tenant device s)).registry.device_addresses)
  devices-IsUnique tenant device wanted r s u = (
    (create_device-Leaves sv unique_addresses unique_change tenant r).after s u,
    (delete_device-Leaves sv unique_addresses unique_change tenant device).after s u,
    (create_device_address-Leaves sv unique_addresses unique_change tenant device wanted).after s u,
    (delete_device_address-Leaves sv unique_addresses unique_change tenant device).after s u,
  )
