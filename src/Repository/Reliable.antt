-- ===== src/Repository/Reliable.antt =====
-- A database that is up: what its calls do when nothing outside the tables goes wrong.
use walnut_billing.Prelude.{String, ◌≡◌, Bool, false, ◌⊎◌, inl, inr, none, some, List, All}
use mathlib.Core.Path.{subst}
use walnut_billing.Prelude.Text.{◌==◌, eq_iff}
use walnut_billing.Domain.Credit.{CreditTransaction}
use walnut_billing.Repository.Error.{record_not_found, ok, err}
use walnut_billing.Repository.Table.{Table, IsTable, lookup}
use walnut_billing.Repository.Table.Lookup.{All-lookup, lookup-id}
use walnut_billing.Repository.Table.Key.{has_key, has_key-lookup}
use walnut_billing.Repository.World.{Store, Gorm}

-- Every row is the row of its key: no key is repeated.
abbrev pub IsKeyed : {Row : Type 0} → (Row → String) → List Row → Type 0
IsKeyed id rows = All (λ r. lookup id (id r) rows ≡ some r) rows

-- A read of rows without a repeated key fails only when there is no such row.
abbrev pub Finds : {Row : Type 0} → (Row → String) → Table Row → Type 0
Finds {Row = Row} id t =
    (p : Row → Bool) (rows : List Row)
    → IsKeyed id rows
    → ((r : Row) × (t.first p rows ≡ ok r)) ⊎ (t.first p rows ≡ err record_not_found)

abbrev pub Saves : {Row : Type 0} → Table Row → Type 0
Saves {Row = Row} t = (r : Row) (rows : List Row) → (rows' : List Row) × (t.save r rows ≡ ok rows')

-- Transactions begin and commit, rows are found and saved, and a ledger row with a new id is created.
pub record IsReliable (g : Gorm) : Type 0 where
  pub begins : (s : Store) → g.begin s ≡ ok tt
  pub commits : (s : Store) → g.commit s ≡ ok tt
  pub finds_accounts : Finds (λ x. x.id) g.accounts
  pub finds_reservations : Finds (λ x. x.id) g.reservations
  pub finds_transactions : Finds (λ x. x.id) g.transactions
  pub saves_accounts : Saves g.accounts
  pub saves_reservations : Saves g.reservations
  pub creates_transactions :
      (t : CreditTransaction) (rows : List CreditTransaction)
      → lookup (λ x. x.id) t.id rows ≡ none
      → (rows' : List CreditTransaction) × (g.transactions.create t rows ≡ ok rows')

module _ {Row : Type 0} (id : Row → String) (t : Table Row) (laws : IsTable id t)
    (finds : Finds id t) where
  -- The row with a primary key is found.
  pub first-lookup :
      (k : String) (r : Row) (rows : List Row)
      → IsKeyed id rows
      → lookup id k rows ≡ some r
      → t.first (λ x. id x == k) rows ≡ ok r
  first-lookup k r rows keyed there = by_outcome (finds (λ x. id x == k) rows keyed)
    where
      same : (r' : Row) → lookup id k rows ≡ some r' → r' ≡ r
      same r' there' = cc

      refuse : (id r == k) ≡ false → ⊥
      refuse other = let is = (eq_iff (id r) k).1 (lookup-id id k rows r there) in cc

      by_outcome :
          ((r' : Row) × (t.first (λ x. id x == k) rows ≡ ok r'))
            ⊎ (t.first (λ x. id x == k) rows ≡ err record_not_found)
          → t.first (λ x. id x == k) rows ≡ ok r
      by_outcome (inl (r', e)) =
          let (named, there') = laws.first_ok (λ x. id x == k) rows r' e in
          subst (λ x. t.first (λ x. id x == k) rows ≡ ok x)
            (same r' (subst (λ i. lookup id i rows ≡ some r') ((eq_iff (id r') k).0 named) there'))
            e
      by_outcome (inr e) =
          elim (refuse (
            All-lookup id (λ x. (id x == k) ≡ false) k r rows (laws.first_not_found _ rows e)
              there)) [ ]

  -- A key that is not there is reported as missing.
  pub first-has_key :
      (key_of : Row → String) (k : String) (rows : List Row)
      → IsKeyed id rows
      → has_key key_of k rows ≡ false
      → t.first (λ x. key_of x == k) rows ≡ err record_not_found
  first-has_key key_of k rows keyed fresh = by_outcome (finds (λ x. key_of x == k) rows keyed)
    where
      used : (r : Row) → t.first (λ x. key_of x == k) rows ≡ ok r → ⊥
      used r e =
          let (named, there) = laws.first_ok (λ x. key_of x == k) rows r e in
          let here = has_key-lookup key_of id (id r) k r rows there named in cc

      by_outcome :
          ((r' : Row) × (t.first (λ x. key_of x == k) rows ≡ ok r'))
            ⊎ (t.first (λ x. key_of x == k) rows ≡ err record_not_found)
          → t.first (λ x. key_of x == k) rows ≡ err record_not_found
      by_outcome (inl (r', e)) = elim (used r' e) [ ]
      by_outcome (inr e) = e
