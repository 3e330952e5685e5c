-- ===== src/Tests.antt =====
-- Tests of the models on an engine in memory, and the theorems at concrete inputs.
mod Engine
mod World
mod Open
mod Runs
mod Witnesses
mod Payments
mod Settles
mod Clawback
mod Allocation
mod Login
mod Cloud
mod Entitlement
mod Subscription
