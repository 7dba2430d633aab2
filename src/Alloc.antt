-- ===== src/Alloc.antt =====
-- What the API allocates: a tenant's index (pickIndex of internal/tenant/service.go) and a device's
-- address (pickAddress of internal/tenant/addresses.go).
pub mod Index
pub mod Address
