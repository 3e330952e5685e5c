-- ===== src/Tests/Login.antt =====
-- Login challenges on a table in memory, and the theorems on them at concrete requests.
mod World
mod Witnesses
