-- ===== src/Repository/World.antt =====
-- The state of a run: the rows of the tables, and how often the clock and the random source have
-- been read. The environment is what the code does not implement.
use walnut_billing.Prelude.{ℕ, String, Option, List}
use walnut_billing.Prelude.Int.{ℤ}
use walnut_billing.Domain.{Time, User}
use walnut_billing.Domain.Credit.{CreditAccount, CreditBucket, CreditReservation, CreditTransaction}
use walnut_billing.Repository.Error.{GormError, Result}
use walnut_billing.Repository.Table.{Table}

pub record Store : Type 0 where
  pub users : List User
  pub accounts : List CreditAccount
  pub reservations : List CreditReservation
  pub transactions : List CreditTransaction
  pub buckets : List CreditBucket

pub record World : Type 0 where
  pub store : Store
  pub ticks : ℕ
  pub draws : ℕ

-- GORM with its database: the tables, and a transaction's begin, commit and rollback. `rollback`
-- takes the rows at the begin and the rows now.
pub record Gorm : Type 0 where
  pub users : Table User
  pub accounts : Table CreditAccount
  pub reservations : Table CreditReservation
  pub transactions : Table CreditTransaction
  pub buckets : Table CreditBucket
  pub begin : Store → Result GormError (Unit {0})
  pub commit : Store → Result GormError (Unit {0})
  pub rollback : Store → Store → Store

-- One share of a reservation: `CreditBucketAllocation` of internal/service/credit.go.
pub record CreditBucketAllocation : Type 0 where
  pub bucket_id : String
  pub amount : ℤ

-- What a run reads from outside: the database, the clock and the random source (by how often each
-- has been read), and the texts of `encoding/json` and of `time.Format`.
pub record Env : Type 0 where
  pub gorm : Gorm
  pub clock : ℕ → Time
  pub random : ℕ → Option String
  pub marshal_allocations : List CreditBucketAllocation → Option String
  pub unmarshal_allocations : String → Option (List CreditBucketAllocation)
  pub marshal_metadata : List (String × String) → Option String
  pub unmarshal_metadata : String → Option (List (String × String))
  pub format_stamp : Time → String
