-- ===== src/Credit.antt =====
-- The credit wallet: internal/service/credit.go and internal/service/credit_bucket.go.
pub mod Allocation
pub mod Ledger
pub mod Bucket
pub mod Holding
pub mod Usage
pub mod Service
pub mod Grant
pub mod Reserve
pub mod Finalize
pub mod Queries
pub mod Requests
pub mod Reads
pub mod Once
pub mod Settlement
pub mod Settles
pub mod Replay
pub mod Atomic
pub mod Books
