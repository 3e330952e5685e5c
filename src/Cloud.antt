-- ===== src/Cloud.antt =====
-- Cloud storage: internal/service/cloud_storage.go.
pub mod Paths
pub mod QuotaPolicy
pub mod Errors
pub mod Resources
pub mod World
pub mod Laws
pub mod Entry
pub mod Authorize
pub mod Commit
pub mod Manifest
pub mod Summaries
pub mod Reads
pub mod Requests
pub mod Used
pub mod Once
