-- ===== src/Broker.antt =====
-- The wire contract of broker accounts: internal/brokeracct/contract.go.
pub mod Patterns
pub mod Request
pub mod Topics
pub mod Confinement
pub mod Agreement
pub mod Grants
pub mod LogSpace
mod Tests
