-- ===== src/Repository/Table/Key.antt =====
-- Idempotency keys of the rows of a table.
use walnut_billing.Prelude.{
  String, ◌≡◌, Bool, true, false, ◌||◌, some, List, [], ◌∷◌, ◌++◌, All, arith,
}
use walnut_billing.Prelude.Text.{◌==◌, eq_iff}
use walnut_billing.Repository.Table.{lookup}

module _ {Row : Type 0} (key_of : Row → String) where
  -- Whether a row of a table has an idempotency key.
  unfoldable pub has_key : String → List Row → Bool
  has_key k [] = false
  has_key k (r ∷ rows) = (key_of r == k) || has_key k rows

  pub has_key-append : (r : Row) (rows : List Row) → has_key (key_of r) (rows ++ r ∷ []) ≡ true
  unfolding has_key
  has_key-append r [] = ground (arith, eq_iff (key_of r) (key_of r))
  has_key-append r (s ∷ rows) = ground (arith, has_key-append r rows)

  pub has_key-lookup :
      (id : Row → String) (i k : String) (r : Row) (rows : List Row)
      → lookup id i rows ≡ some r
      → (key_of r == k) ≡ true
      → has_key k rows ≡ true
  unfolding has_key lookup
  has_key-lookup id i k r [] h e = cc
  has_key-lookup id i k r (s ∷ rows) h e = ground (arith, has_key-lookup id i k r rows)

  -- A key that is there is not reported as missing.
  pub has_key-All :
      (k : String) (rows : List Row)
      → has_key k rows ≡ true
      → ¬ All (λ r. (key_of r == k) ≡ false) rows
  unfolding has_key
  has_key-All k [] h a = cc
  has_key-All k (s ∷ rows) h (a, as_) = ground (arith, has_key-All k rows)
