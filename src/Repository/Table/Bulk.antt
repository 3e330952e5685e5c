-- ===== src/Repository/Table/Bulk.antt =====
-- GORM's `Count`, and `Updates` under a `Where`, which tell how many rows they have met.
use walnut_billing.Prelude.{
  ℕ, String, ◌≡◌, Bool, some, List, [], ◌∷◌, length, keep, arith, if◌then◌else◌,
}
use walnut_billing.Prelude.Text.{eq_iff}
use walnut_billing.Repository.Error.{GormError, Result, ok}
use walnut_billing.Repository.Table.{lookup}

pub record Bulk (Row : Type 0) : Type 0 where
  pub count : (Row → Bool) → List Row → Result GormError ℕ
  pub updates : (Row → Bool) → (Row → Row) → List Row → Result GormError (ℕ × List Row)

-- The rows after a change of those that meet a condition.
unfoldable pub change_where : {Row : Type 0} → (Row → Bool) → (Row → Row) → List Row → List Row
change_where p f [] = []
change_where p f (r ∷ rows) = (if p r then f r else r) ∷ change_where p f rows

-- What a call that returns no error has counted and changed.
pub record IsBulk {Row : Type 0} (b : Bulk Row) : Type 0 where
  pub count_ok :
      (p : Row → Bool) (rows : List Row) (n : ℕ) → b.count p rows ≡ ok n → n ≡ length (keep p rows)
  pub updates_ok :
      (p : Row → Bool) (f : Row → Row) (rows rows' : List Row) (n : ℕ)
      → b.updates p f rows ≡ ok (n, rows')
      → (n ≡ length (keep p rows)) × (rows' ≡ change_where p f rows)

module _ {Row : Type 0} (id : Row → String) where
  abbrev pub changed : (Row → Bool) → (Row → Row) → Row → Row
  changed p f r = if p r then f r else r

  -- A change that leaves the keys changes the row of a key in its place.
  pub lookup-change_where :
      (p : Row → Bool) (f : Row → Row) (k : String) (rows : List Row) (r : Row)
      → ((s : Row) → id (f s) ≡ id s)
      → lookup id k rows ≡ some r
      → lookup id k (change_where p f rows) ≡ some (changed p f r)
  unfolding lookup change_where
  lookup-change_where p f k [] r same h = cc
  lookup-change_where p f k (s ∷ rows) r same h =
      ground
        (arith, eq_iff (id s) k, eq_iff (id (f s)) k, same s, lookup-change_where p f k rows r same)
