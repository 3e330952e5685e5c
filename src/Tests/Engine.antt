-- ===== src/Tests/Engine.antt =====
-- An engine in memory, for the interface of GORM.
use walnut_billing.Prelude.{
  ℕ, String, ◌≡◌, refl, Bool, true, Bool-cases, ◌⊎◌, inl, inr, false, Option, none, some, List, [],
  ◌∷◌, ◌++◌, All, arith, if◌then◌else◌,
}
use mathlib.Core.Path.{subst}
use walnut_billing.Repository.Error.{GormError, record_not_found, failed, Result, ok, err}
use walnut_billing.Repository.Reliable.{Finds}
use walnut_billing.Repository.Table.Lookup.{lookup-id}
use walnut_billing.Repository.Table.{Table, IsTable, lookup, upsert}

module _ {Row : Type 0} (id : Row → String) where
  unfoldable pub memory_create : Row → List Row → Result GormError (List Row)
  unfolding lookup
  memory_create r rows = elim (lookup id (id r) rows) [
    | none ↦ ok (rows ++ r ∷ [])
    | some _ ↦ err (failed 0)
  ]

  unfoldable pub memory_save : Row → List Row → Result GormError (List Row)
  unfolding upsert
  memory_save r rows = ok (upsert id r rows)

  abbrev pub checked : (Row → Bool) → Option Row → Result GormError Row
  checked p none = err (failed 1)
  checked p (some r) = if p r then ok r else err (failed 2)

  -- The first row that meets the condition.
  unfoldable pub first_from : (Row → Bool) → List Row → List Row → Result GormError Row
  unfolding lookup
  first_from p all [] = err record_not_found
  first_from p all (r ∷ rows) =
      if p r then checked p (lookup id (id r) all) else first_from p all rows

  unfoldable pub memory_first : (Row → Bool) → List Row → Result GormError Row
  unfolding first_from
  memory_first p rows = first_from p rows rows

  abbrev pub add_checked : (Row → Bool) → Option Row → List Row → List Row
  add_checked p none found = found
  add_checked p (some r) found = if p r then r ∷ found else found

  unfoldable pub found_from : (Row → Bool) → List Row → List Row → List Row
  unfolding lookup
  found_from p all [] = []
  found_from p all (r ∷ rows) = add_checked p (lookup id (id r) all) (found_from p all rows)

  -- All the rows that meet the condition, in their own order.
  unfoldable pub memory_find :
      (Row → Bool)
      → (Row → Row → Bool)
      → Option ℕ
      → Option ℕ
      → List Row
      → Result GormError (List Row)
  unfolding found_from
  memory_find p before limit offset rows = ok (found_from p rows rows)

  abbrev pub memory_table : Table Row
  memory_table = record {
    create = memory_create;
    save = memory_save;
    first = memory_first;
    find = memory_find;
  }

  lookup-own_id :
      (k : String) (rows : List Row) (r : Row)
      → lookup id k rows ≡ some r
      → lookup id (id r) rows ≡ some r
  lookup-own_id k rows r h = rw (lookup-id id k rows r h) h

  created :
      (r : Row) (rows rows' : List Row)
      → memory_create r rows ≡ ok rows'
      → (lookup id (id r) rows ≡ none) × (rows' ≡ rows ++ r ∷ [])
  unfolding memory_create
  created r rows rows' h = ground arith

  checked_ok :
      (p : Row → Bool) (k : String) (all : List Row) (o : Option Row) (r : Row)
      → lookup id k all ≡ o
      → checked p o ≡ ok r
      → (p r ≡ true) × (lookup id (id r) all ≡ some r)
  checked_ok p k all none r e h = cc
  checked_ok p k all (some s) r e h = ground (arith, lookup-own_id k all s e)

  first_from_ok :
      (p : Row → Bool) (all rows : List Row) (r : Row)
      → first_from p all rows ≡ ok r
      → (p r ≡ true) × (lookup id (id r) all ≡ some r)
  unfolding first_from
  first_from_ok p all [] r h = cc
  first_from_ok p all (s ∷ rows) r h =
      ground
        (arith, checked_ok p (id s) all (lookup id (id s) all) r refl, first_from_ok p all rows r)

  checked_found : (p : Row → Bool) (o : Option Row) → ¬ (checked p o ≡ err record_not_found)
  checked_found p none h = cc
  checked_found p (some r) h = ground arith

  first_from_none :
      (p : Row → Bool) (all rows : List Row)
      → first_from p all rows ≡ err record_not_found
      → All (λ r. p r ≡ false) rows
  unfolding first_from
  first_from_none p all [] h = tt
  first_from_none p all (s ∷ rows) h =
      ground (arith, checked_found p (lookup id (id s) all), first_from_none p all rows)

  added :
      (p : Row → Bool) (k : String) (all : List Row) (o : Option Row) (found : List Row)
      → lookup id k all ≡ o
      → All (λ r. (p r ≡ true) × (lookup id (id r) all ≡ some r)) found
      → All (λ r. (p r ≡ true) × (lookup id (id r) all ≡ some r)) (add_checked p o found)
  added p k all none found e h = h
  added p k all (some s) found e h = elim (Bool-cases (p s)) [
    | inl holds ↦ rw holds ((holds, lookup-own_id k all s e), h)
    | inr fails ↦ rw fails h
  ]

  found_from-All :
      (p : Row → Bool) (all rows : List Row)
      → All (λ r. (p r ≡ true) × (lookup id (id r) all ≡ some r)) (found_from p all rows)
  unfolding found_from
  found_from-All p all [] = tt
  found_from-All p all (s ∷ rows) =
      added p (id s) all (lookup id (id s) all) _ refl (found_from-All p all rows)

  pub memory_table-IsTable : IsTable id memory_table
  unfolding memory_create memory_save memory_first memory_find
  memory_table-IsTable = record {
    create_ok = created;
    save_ok = λ r rows rows' h. cc;
    first_ok = λ p rows r h. first_from_ok p rows rows r h;
    first_not_found = λ p rows h. first_from_none p rows rows h;
    find_ok = λ p before limit offset rows found h. subst (All _) (cc) (found_from-All p rows rows);
  }

  found_or_missing :
      (p : Row → Bool) (all rows : List Row)
      → All (λ r. lookup id (id r) all ≡ some r) rows
      → ((r : Row) × (first_from p all rows ≡ ok r))
        ⊎ (first_from p all rows ≡ err record_not_found)
  unfolding first_from
  found_or_missing p all [] keyed = inr refl
  found_or_missing p all (s ∷ rows) (own, keyed) = elim (Bool-cases (p s)) [
    | inl holds ↦ inl (s, rw holds (rw own (rw holds refl)))
    | inr fails ↦ rw fails (found_or_missing p all rows keyed)
  ]

  pub memory_table-Finds : Finds id memory_table
  unfolding memory_first
  memory_table-Finds p rows keyed = found_or_missing p rows rows keyed

  pub memory_create-fresh :
      (r : Row) (rows : List Row)
      → lookup id (id r) rows ≡ none
      → (rows' : List Row) × (memory_create r rows ≡ ok rows')
  unfolding memory_create
  memory_create-fresh r rows fresh = (rows ++ r ∷ [], ground arith)
