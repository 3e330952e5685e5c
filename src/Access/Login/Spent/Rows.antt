-- ===== src/Access/Login/Spent/Rows.antt =====
-- Rows of challenges that do not wait any more, after rows are added, saved and consumed.
use walnut_billing.Prelude.{
  String, Bool, is_some, ◌≡◌, refl, sym, ap, ◌∙◌, true, false, inl, inr, some, none, List, [], ◌∷◌,
  ◌++◌, Bool-cases, arith, if◌then◌else◌,
}
use walnut_billing.Prelude.Text.{◌==◌, eq_iff}
use walnut_billing.Domain.{Time}
use walnut_billing.Domain.Access.{AccessLoginChallenge, is_pending_challenge}
use walnut_billing.Repository.Error.{Result, ok, err}
use walnut_billing.Repository.Table.{upsert}
use walnut_billing.Repository.Table.Lookup.{lookup-upsert, lookup-append_new}
use walnut_billing.Repository.Table.Bulk.{change_where, lookup-change_where}
use walnut_billing.Access.Login.Challenges.{LoginError, is_consumable, consumed_row}
use walnut_billing.Access.Login.Verify.{failed_attempt}
use walnut_billing.Access.Login.Laws.{challenge_id, row_of}

-- The challenge of an id is there and does not wait for an answer.
pub record IsSpent (k : String) (rows : List AccessLoginChallenge) : Type 0 where
  pub row : AccessLoginChallenge
  pub there : row_of k rows ≡ some row
  pub shut : is_pending_challenge row.status ≡ false

abbrev pub IsOk : {R : Type 0} → Result LoginError R → Type 0
IsOk (ok _) = Unit
IsOk (err _) = ⊥

pub IsSpent-append :
    (k : String) (c : AccessLoginChallenge) (rows : List AccessLoginChallenge)
    → row_of c.id rows ≡ none
    → IsSpent k rows
    → IsSpent k (rows ++ c ∷ [])
IsSpent-append k c rows fresh spent = record {
  row = spent.row;
  there = lookup-append_new challenge_id k c rows fresh ∙ other;
  shut = spent.shut;
}
  where
    other : (if c.id == k then some c else row_of k rows) ≡ some spent.row
    other = ground (arith, eq_iff c.id k, spent.there, fresh)

-- A row that does not wait is saved.
pub IsSpent-save_shut :
    (k : String) (c : AccessLoginChallenge) (rows : List AccessLoginChallenge)
    → is_pending_challenge c.status ≡ false
    → IsSpent k rows
    → IsSpent k (upsert challenge_id c rows)
IsSpent-save_shut k c rows shut spent = elim (Bool-cases (c.id == k)) [
  | inl same ↦ record {
    row = c;
    there = lookup-upsert challenge_id k c rows ∙ rw same refl;
    shut = shut;
  }
  | inr other ↦ record {
    row = spent.row;
    there = lookup-upsert challenge_id k c rows ∙ rw other spent.there;
    shut = spent.shut;
  }
]

pub failed_attempt-id :
    (c : AccessLoginChallenge) (now : Time) (reason : String)
    → (failed_attempt c now reason).id ≡ c.id
unfolding failed_attempt
failed_attempt-id c now reason = ground arith

-- A row is saved whose challenge waits.
pub IsSpent-save_waiting :
    (k : String) (c c' : AccessLoginChallenge) (rows : List AccessLoginChallenge)
    → row_of c.id rows ≡ some c
    → is_pending_challenge c.status ≡ true
    → c'.id ≡ c.id
    → IsSpent k rows
    → IsSpent k (upsert challenge_id c' rows)
IsSpent-save_waiting k c c' rows there waits same spent = record {
  row = spent.row;
  there = lookup-upsert challenge_id k c' rows ∙ other;
  shut = spent.shut;
}
  where
    clash : c.id ≡ k → ⊥
    clash e = differ (sym there ∙ ap (λ x. row_of x rows) e ∙ spent.there)
      where
        differ : some c ≡ some spent.row → ⊥
        differ e = let shut = spent.shut in cc

    other : (if c'.id == k then some c' else row_of k rows) ≡ some spent.row
    other = elim (Bool-cases (c'.id == k)) [
      | inl hit ↦ absurd (clash (sym same ∙ (eq_iff c'.id k).0 hit))
      | inr miss ↦ rw miss spent.there
    ]

pub IsSpent-change :
    (k id : String) (t : Time) (rows : List AccessLoginChallenge)
    → IsSpent k rows
    → IsSpent k (change_where (is_consumable id) (consumed_row t) rows)
IsSpent-change k id t rows spent = record {
  row = if is_consumable id spent.row then consumed_row t spent.row else spent.row;
  there =
      lookup-change_where challenge_id (is_consumable id) (consumed_row t) k rows spent.row
        (λ x. refl) spent.there;
  shut = still (is_consumable id spent.row);
}
  where
    still :
        (b : Bool)
        → is_pending_challenge (if b then consumed_row t spent.row else spent.row).status ≡ false
    still true = refl
    still false = spent.shut

-- A challenge that waits is consumed.
pub lookup-consumed :
    (c : AccessLoginChallenge) (t : Time) (rows : List AccessLoginChallenge)
    → row_of c.id rows ≡ some c
    → is_pending_challenge c.status ≡ true
    → is_some c.consumed_at ≡ false
    → row_of c.id (change_where (is_consumable c.id) (consumed_row t) rows)
      ≡ some (consumed_row t c)
unfolding is_consumable
lookup-consumed c t rows there waits unused =
    lookup-change_where challenge_id (is_consumable c.id) (consumed_row t) c.id rows c (λ x. refl)
      there
    ∙ ap some met
  where
    met : (if is_consumable c.id c then consumed_row t c else c) ≡ consumed_row t c
    met = ground (arith, eq_iff c.id c.id, waits, unused)
