-- ===== src/Tests/Cloud.antt =====
-- Cloud storage: an environment, runs, and the theorems at them.
mod Policy
mod World
mod Runs
