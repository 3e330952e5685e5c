-- ===== src/Credit/Books.antt =====
-- The books of the wallet: what the ledger and the pending reservations say an account holds.
pub mod Steps
pub mod Rows
pub mod Amounts
pub mod Booked
pub mod Expiry
pub mod Start
pub mod Granting
pub mod Sweep
pub mod Reserving
pub mod Finalizing
pub mod Kept
pub mod Reached
use walnut_billing.Prelude.{
  String, ◌≡◌, Bool, Option, none, some, List, [], ◌∷◌, ◌&&◌, if◌then◌else◌,
}
use walnut_billing.Prelude.Int.{ℤ, pos, ◌+ℤ◌}
use walnut_billing.Prelude.Word.{wrap64}
use walnut_billing.Prelude.Text.{◌==◌}
use walnut_billing.Domain.Credit.{CreditAccount, CreditReservation, CreditTransaction, is_pending}
use walnut_billing.Repository.Table.{lookup}
use walnut_billing.Repository.World.{Store}

abbrev pub field_or_zero : (CreditAccount → ℤ) → Option CreditAccount → ℤ
field_or_zero field none = pos 0
field_or_zero field (some a) = field a

-- The balance of the account with an id, and zero for no account.
abbrev pub balance_of : String → List CreditAccount → ℤ
balance_of k rows = field_or_zero (λ a. a.balance) (lookup (λ a. a.id) k rows)

abbrev pub reserved_of : String → List CreditAccount → ℤ
reserved_of k rows = field_or_zero (λ a. a.reserved) (lookup (λ a. a.id) k rows)

-- The sum of the ledger's amounts for an account, over the integers.
unfoldable pub ledger_sum : String → List CreditTransaction → ℤ
ledger_sum k [] = pos 0
ledger_sum k (t ∷ ts) = (if t.account_id == k then t.amount else pos 0) +ℤ ledger_sum k ts

-- What one reservation holds of an account.
unfoldable pub held_by : String → CreditReservation → ℤ
held_by k r = if (r.account_id == k) && is_pending r.status then r.amount else pos 0

-- The sum of what the pending reservations hold of an account.
unfoldable pub held_sum : String → List CreditReservation → ℤ
held_sum k [] = pos 0
held_sum k (r ∷ rs) = held_by k r +ℤ held_sum k rs

-- Every account's balance is the sum of its ledger rows, and its reserved amount is the sum of its
-- pending reservations, each as 64 bits hold it.
pub record IsConsistent (s : Store) : Type 0 where
  pub balanced : (k : String) → balance_of k s.accounts ≡ wrap64 (ledger_sum k s.transactions)
  pub held : (k : String) → reserved_of k s.accounts ≡ wrap64 (held_sum k s.reservations)
