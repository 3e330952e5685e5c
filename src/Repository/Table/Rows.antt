-- ===== src/Repository/Table/Rows.antt =====
-- What holds of every row, and how many rows meet a condition, after rows are saved, added or changed.
use walnut_billing.Prelude.{
  String, ◌≡◌, Bool, true, inl, inr, some, List, [], ◌∷◌, ◌++◌, ◌+◌, All, length, keep, Bool-cases,
  arith, if◌then◌else◌,
}
use walnut_billing.Prelude.Text.{◌==◌}
use walnut_billing.Repository.Table.{lookup, upsert}
use walnut_billing.Repository.Table.Bulk.{change_where}

module _ {Row : Type 0} (P : Row → Type 0) where
  pub All-append : (r : Row) (rows : List Row) → All P rows → P r → All P (rows ++ r ∷ [])
  All-append r [] h p = (p, tt)
  All-append r (s ∷ rows) (q, h) p = (q, All-append r rows h p)

  pub All-upsert :
      (id : Row → String) (r : Row) (rows : List Row) → All P rows → P r → All P (upsert id r rows)
  unfolding upsert
  All-upsert id r [] h p = (p, tt)
  All-upsert id r (s ∷ rows) (q, h) p = elim (Bool-cases (id s == id r)) [
    | inl same ↦ rw same (p, h)
    | inr other ↦ rw other (q, All-upsert id r rows h p)
  ]

  pub All-change_where :
      (p : Row → Bool) (f : Row → Row) (rows : List Row)
      → ((r : Row) → P r → p r ≡ true → P (f r))
      → All P rows
      → All P (change_where p f rows)
  unfolding change_where
  All-change_where p f [] keeps h = tt
  All-change_where p f (r ∷ rows) keeps (q, h) = elim (Bool-cases (p r)) [
    | inl met ↦ rw met (keeps r q met, All-change_where p f rows keeps h)
    | inr unmet ↦ rw unmet (q, All-change_where p f rows keeps h)
  ]

module _ {Row : Type 0} (p : Row → Bool) where
  pub length-keep-append :
      (r : Row) (rows : List Row)
      → length (keep p (rows ++ r ∷ [])) ≡ length (keep p rows) + (if p r then 1 else 0)
  length-keep-append r [] = ground arith
  length-keep-append r (s ∷ rows) = ground (arith, length-keep-append r rows)

  -- A row that is replaced by one that meets the condition alike.
  pub length-keep-upsert :
      (id : Row → String) (r c : Row) (rows : List Row)
      → lookup id (id r) rows ≡ some c
      → p r ≡ p c
      → length (keep p (upsert id r rows)) ≡ length (keep p rows)
  unfolding lookup upsert
  length-keep-upsert id r c [] h e = cc
  length-keep-upsert id r c (s ∷ rows) h e = ground (arith, length-keep-upsert id r c rows)
