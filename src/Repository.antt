-- ===== src/Repository.antt =====
-- What the services store: the tables, and the values that a run draws from outside.
pub mod Error
pub mod Table
pub mod World
pub mod Monad
pub mod Transaction
pub mod Flow
pub mod Ensures
pub mod Keeps
pub mod Outcome
pub mod Succeeds
pub mod Reliable
pub mod Atomic
pub mod Credit
