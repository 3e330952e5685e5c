-- ===== src/Access/Login/Laws.antt =====
-- What the theorems on login challenges ask of the database: GORM's documented behaviour on the
-- table of the challenges.
use walnut_billing.Prelude.{String, ◌≡◌, some, Option, List}
use walnut_billing.Prelude.Text.{◌==◌}
use walnut_billing.Domain.Access.{AccessLoginChallenge}
use walnut_billing.Repository.Error.{ok}
use walnut_billing.Repository.Table.{IsTable, lookup}
use walnut_billing.Repository.Table.Bulk.{IsBulk}
use walnut_billing.Access.Login.Challenges.{LoginEnv}

abbrev pub challenge_id : AccessLoginChallenge → String
challenge_id c = c.id

abbrev pub row_of : String → List AccessLoginChallenge → Option AccessLoginChallenge
row_of k rows = lookup challenge_id k rows

pub record IsLawful {X R : Type 0} (env : LoginEnv X R) : Type 0 where
  pub table : IsTable challenge_id env.table
  pub bulk : IsBulk env.bulk

-- A database that is up: a challenge is found by its key, and is saved.
pub record IsUp {X R : Type 0} (env : LoginEnv X R) : Type 0 where
  pub finds :
      (k : String) (c : AccessLoginChallenge) (rows : List AccessLoginChallenge)
      → row_of k rows ≡ some c
      → env.table.first (λ x. x.id == k) rows ≡ ok c
  pub saves :
      (c : AccessLoginChallenge) (rows : List AccessLoginChallenge)
      → (rows' : List AccessLoginChallenge) × (env.table.save c rows ≡ ok rows')
