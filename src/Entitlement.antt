-- ===== src/Entitlement.antt =====
-- Entitlements: internal/service/entitlement.go.
pub mod World
pub mod Laws
pub mod Grants
pub mod Registrations
pub mod Snapshot
