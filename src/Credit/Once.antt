-- ===== src/Credit/Once.antt =====
-- The idempotency keys of the requests of internal/service/credit.go.
pub mod Marked
pub mod Replayed
pub mod Twice
pub mod Settled
pub mod Finalized
use walnut_billing.Prelude.{String, ◌≡◌, true}
use walnut_billing.Repository.Table.Key.{has_key}
use walnut_billing.Repository.World.{Store}

-- A row of the ledger has the key.
abbrev pub InLedger : String → Store → Type 0
InLedger k s = has_key (λ t. t.idempotency_key) k s.transactions ≡ true

-- A reservation has the key.
abbrev pub IsReserved : String → Store → Type 0
IsReserved k s = has_key (λ r. r.idempotency_key) k s.reservations ≡ true
