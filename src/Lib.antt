-- ===== src/Lib.antt =====
-- The Deevnet API: the provisioning service of a site, which gives each tenant an index and, from
-- it, networks, names, addresses, keys and accounts on the site's shared backends.
--
-- The parts, the files that model them, and the code they model:
--   Names       the names that are accepted and the reserved ones: ValidName, ValidWorkloadName and
--               Reserved of internal/tenant/site.go
--   Mac         NormalizeMAC and ControllerMAC of internal/tenant/tenant.go
--   Site        Site of internal/tenant/site.go: what derives from a name and an index, such as
--               numbers, addresses and MACs; Site.Validate is its Validate
--   Alloc       the two choices made under the registry's lock: Alloc.Index is pickIndex of
--               internal/tenant/service.go, Alloc.Address is pickAddress of
--               internal/tenant/addresses.go
--   Token       tenant API tokens: internal/tenant/token.go
--   Access      the way of a request to its handler: internal/auth/auth.go,
--               internal/server/principal.go, Authenticate of internal/tenant/service.go, and in
--               Access.Routes the table of routes and the guards of internal/server
--   Calls       calls that change a state and may fail; Calls.Laws has the rules for what they leave
--               of it, Calls.Outcomes those for what holds after them, Calls.Certain those for calls
--               that raise no error
--   Registry    the registry: the types of internal/tenant/tenant.go that it keeps, and the store of
--               internal/store
--   Lifecycle   Create, Reconcile, Delete, the lists and the backend steps of
--               internal/tenant/service.go, logtokens.go, dashboards.go and admissionkeys.go;
--               Lifecycle.Reach runs the service's operations one after the other,
--               Lifecycle.Leases is the book of indexes that they implement, and Lifecycle.Answers
--               has the statuses that internal/server/tenants.go answers with
--   Devices     CreateDevice and DeleteDevice of internal/tenant/devices.go, CreateDeviceAddress and
--               DeleteDeviceAddress of internal/tenant/addresses.go
--   Workloads   CreateWorkload, DeleteWorkload, PutRecord and DeleteRecord of
--               internal/tenant/service.go
--   Wireless    tenant Wi-Fi keys, and Admit and Redeem with the key of a tenant that has no row yet:
--               internal/tenant/wifikeys.go, admissionkeys.go and service.go
--   Accounts    broker accounts: internal/tenant/brokeraccounts.go; what it asks of the writer is
--               Broker.Grants
--   Certificates  server certificates of tenants: internal/tenant/certificates.go
--   Broker      the contract between the API and the account writer of the MQTT broker:
--               internal/brokeracct/contract.go
--   LogStore    the contract between the API and the writer of the log store's users:
--               internal/logauth/contract.go
--   Prelude     numbers, lists, texts and results, for all of these
--
-- A request carries a token, which Access checks with Token; the names in it are tested by Names;
-- the index that Alloc chooses feeds the numbering of Site; and what a tenant asks of the broker is
-- prefixed and checked on both ends by Broker.
--
-- The operations of Lifecycle, Devices, Workloads, Wireless, Accounts and Certificates run on one
-- state, of the registry and a world. The world is all that is outside: the
-- backends, the secrets store, the database's readiness to answer and the source of random bytes.
-- Every call of the outside is a parameter that may change the world and may fail, so what is
-- proved holds however they behave. Locks are not modelled: an operation runs by itself, and the
-- world may change in between.
--
-- A text is the list of its bytes. A number that the code cannot make negative, or compares with a
-- positive bound before it is used, is a natural number; the others are integers. An error's text
-- is a constructor that carries what the text is made from. Maps are lists of their entries. Loops
-- are structural on their lists; the loop over a range of addresses counts down the addresses that
-- are left, and the searches for an index and for a workload's ordinal go over 62 and 40 of them,
-- all that there are, so none runs out early. The loop over the blocks of a chain takes the length
-- of its text for fuel, which is enough where each block takes a byte.
--
-- Parameters, since their code is not in the repository: SHA-256, bcrypt, PEM and X.509,
-- HMAC-SHA256 with its base64 spelling, random bytes, and the answers of PostgreSQL, of OpenBao and
-- of the backends.
--
-- Not modelled: the backends' HTTP clients, the process and its configuration, JSON, the starter
-- kit, and logging.
pub mod Prelude
pub mod Calls
pub mod Names
pub mod Mac
pub mod Site
pub mod Alloc
pub mod Token
pub mod Access
pub mod Registry
pub mod Lifecycle
pub mod Devices
pub mod Workloads
pub mod Wireless
pub mod Accounts
pub mod Certificates
pub mod Broker
pub mod LogStore
