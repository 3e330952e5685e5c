-- ===== src/Repository/Table/Lookup.antt =====
-- Laws of `lookup` after a row is saved or added.
use walnut_billing.Prelude.{
  All, Bool-cases, inl, inr, true, false, String, ◌≡◌, refl, none, some, List, [], ◌∷◌, ◌++◌, arith,
  if◌then◌else◌,
}
use mathlib.Core.Path.{subst}
use walnut_billing.Prelude.Text.{◌==◌, eq_iff}
use walnut_billing.Repository.Table.{lookup, upsert}

module _ {Row : Type 0} (id : Row → String) where
  pub lookup-upsert :
      (k : String) (r : Row) (rows : List Row)
      → lookup id k (upsert id r rows) ≡ (if id r == k then some r else lookup id k rows)
  unfolding lookup upsert
  lookup-upsert k r [] = refl
  lookup-upsert k r (s ∷ rows) =
      ground (arith, eq_iff (id s) (id r), eq_iff (id s) k, eq_iff (id r) k, lookup-upsert k r rows)

  -- A row with a new key, added at the end.
  pub lookup-append_new :
      (k : String) (r : Row) (rows : List Row)
      → lookup id (id r) rows ≡ none
      → lookup id k (rows ++ r ∷ []) ≡ (if id r == k then some r else lookup id k rows)
  unfolding lookup
  lookup-append_new k r [] h = refl
  lookup-append_new k r (s ∷ rows) h =
      ground
        (arith, eq_iff (id s) (id r), eq_iff (id s) k, eq_iff (id r) k, lookup-append_new k r rows)

  -- What holds of every row holds of a row that is looked up.
  pub All-lookup :
      (P : Row → Type 0) (k : String) (r : Row) (rows : List Row)
      → All P rows
      → lookup id k rows ≡ some r
      → P r
  unfolding lookup
  All-lookup P k r [] all h = cc
  All-lookup P k r (s ∷ rows) (holds, all) h = elim (Bool-cases (id s == k)) [
    | inl here ↦ by_first here h
    | inr there ↦ by_rest there (All-lookup P k r rows all) h
  ]
    where
      by_first :
          (id s == k) ≡ true → (if id s == k then some s else lookup id k rows) ≡ some r → P r
      by_first e = rw e λ same. subst P (head same) holds
        where
          head : some s ≡ some r → s ≡ r
          head same = cc

      by_rest :
          (id s == k) ≡ false
          → (lookup id k rows ≡ some r → P r)
          → (if id s == k then some s else lookup id k rows) ≡ some r
          → P r
      by_rest e = rw e λ rest. rest

  -- A row that is looked up has the key.
  pub lookup-id : (k : String) (rows : List Row) (r : Row) → lookup id k rows ≡ some r → id r ≡ k
  unfolding lookup
  lookup-id k [] r h = cc
  lookup-id k (s ∷ rows) r h = ground (arith, eq_iff (id s) k, lookup-id k rows r)
