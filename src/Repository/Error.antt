-- ===== src/Repository/Error.antt =====
-- Errors as values: the sentinels of internal/service/credit.go, internal/service/payment_adjustment.go and
-- internal/repository, and what
-- GORM and `crypto/rand` report.
use walnut_billing.Prelude.{ℕ, Bool, true, false}

-- An error of the database layer, by a code of its own; `record_not_found` is GORM's sentinel.
pub data GormError : Type 0 where
  record_not_found : GormError
  failed : ℕ → GormError

pub data Error : Type 0 where
  not_found : Error
  database : GormError → Error
  entropy : Error
  user_not_found credit_account_not_found invalid_credit_amount insufficient_credits : Error
  reservation_not_found reservation_not_pending reservation_expired idempotency_required : Error
  invalid_payment_adjustment : Error

-- `errors.Is(err, repository.ErrNotFound)`
abbrev pub is_not_found : Error → Bool
is_not_found not_found = true
is_not_found _ = false

-- A returned value, or an error.
pub data Result (E : Type 0) (A : Type 0) : Type 0 where
  ok : A → Result E A
  err : E → Result E A

-- `mapGormNotFound` of internal/repository/gorm_repo/entitlement.go
unfoldable pub map_gorm_not_found : GormError → Error
map_gorm_not_found record_not_found = not_found
map_gorm_not_found (failed n) = database (failed n)
