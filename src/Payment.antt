-- ===== src/Payment.antt =====
-- Payments: orders, the events that payment providers send, and the policies on them.
pub mod Order
pub mod EventType
pub mod Action
pub mod AdjustmentPolicy
pub mod RenewalPolicy
pub mod OrderEvents
pub mod Clawback
