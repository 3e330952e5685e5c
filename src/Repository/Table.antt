-- ===== src/Repository/Table.antt =====
-- The interface of GORM on one table, and what its documentation promises. GORM and the database
-- are outside the repository: the models take a `Table`, and the theorems name these laws.
pub mod Lookup
pub mod Key
pub mod Bulk
pub mod Rows
use walnut_billing.Prelude.{
  ℕ, String, ◌≡◌, Bool, true, false, Option, none, some, List, [], ◌∷◌, ◌++◌, All, if◌then◌else◌,
}
use walnut_billing.Prelude.Text.{◌==◌}
use walnut_billing.Repository.Error.{GormError, record_not_found, Result, ok, err}

-- The calls `Create`, `Save`, `Where(…).First` and `Where(…).Order(…).Limit(…).Offset(…).Find`,
-- on the rows of a table.
pub record Table (Row : Type 0) : Type 0 where
  pub create : Row → List Row → Result GormError (List Row)
  pub save : Row → List Row → Result GormError (List Row)
  pub first : (Row → Bool) → List Row → Result GormError Row
  pub find :
      (Row → Bool)
      → (Row → Row → Bool)
      → Option ℕ
      → Option ℕ
      → List Row
      → Result GormError (List Row)

-- The rows with one more at the end.
abbrev pub with_row : {Row : Type 0} → List Row → Row → List Row
with_row rows r = rows ++ r ∷ []

module _ {Row : Type 0} (id : Row → String) where
  -- The row with a primary key.
  unfoldable pub lookup : String → List Row → Option Row
  lookup k [] = none
  lookup k (r ∷ rows) = if id r == k then some r else lookup k rows

  -- The rows after a `Save`: the row with that primary key is replaced, or the row is added.
  unfoldable pub upsert : Row → List Row → List Row
  upsert r [] = r ∷ []
  upsert r (s ∷ rows) = if id s == id r then r ∷ rows else s ∷ upsert r rows

  -- What a call that returns no error has done, and what "record not found" means.
  pub record IsTable (t : Table Row) : Type 0 where
    pub create_ok :
        (r : Row) (rows rows' : List Row)
        → t.create r rows ≡ ok rows'
        → (lookup (id r) rows ≡ none) × (rows' ≡ rows ++ r ∷ [])
    pub save_ok :
        (r : Row) (rows rows' : List Row) → t.save r rows ≡ ok rows' → rows' ≡ upsert r rows
    pub first_ok :
        (p : Row → Bool) (rows : List Row) (r : Row)
        → t.first p rows ≡ ok r
        → (p r ≡ true) × (lookup (id r) rows ≡ some r)
    pub first_not_found :
        (p : Row → Bool) (rows : List Row)
        → t.first p rows ≡ err record_not_found
        → All (λ r. p r ≡ false) rows
    pub find_ok :
        (p : Row → Bool) (before : Row → Row → Bool) (limit offset : Option ℕ)
        (rows found : List Row)
        → t.find p before limit offset rows ≡ ok found
        → All (λ r. (p r ≡ true) × (lookup (id r) rows ≡ some r)) found
