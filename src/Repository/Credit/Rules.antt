-- ===== src/Repository/Credit/Rules.antt =====
-- Rules for the calls of the wallet's repositories, from the laws of GORM's tables.
use walnut_billing.Prelude.{String, ◌≡◌, sym, true, none, some, List, [], ◌∷◌, ◌++◌, All}
use walnut_billing.Prelude.Text.{◌==◌, eq_iff}
use mathlib.Core.Path.{subst}
use walnut_billing.Domain.Credit.{CreditAccount, CreditBucket, CreditReservation, CreditTransaction}
use walnut_billing.Repository.Error.{GormError, Result, ok, err}
use walnut_billing.Repository.Table.{IsTable, lookup, upsert}
use walnut_billing.Repository.World.{Store, World, Gorm}
use walnut_billing.Repository.Monad.{write}
use walnut_billing.Repository.Ensures.{Ensures, Ensures-read, Ensures-read_all, Ensures-write}
use walnut_billing.Repository.Credit.{
  on_ok, CreditBucketQuery, bucket_matches, account_by_id, account_by_user_id, update_account,
  create_account, bucket_by_id, list_buckets, create_bucket, update_bucket, reservation_by_id,
  create_reservation, update_reservation, create_transaction,
}

-- GORM keeps its promises on each table, and a rollback restores the rows at the begin.
pub record IsGorm (g : Gorm) : Type 0 where
  pub accounts : IsTable (λ a. a.id) g.accounts
  pub buckets : IsTable (λ b. b.id) g.buckets
  pub reservations : IsTable (λ r. r.id) g.reservations
  pub transactions : IsTable (λ t. t.id) g.transactions
  pub restores : (before now : Store) → g.rollback before now ≡ before

-- Inversion of a change of one table.
on_ok-eq_ok :
    {A B : Type 0} (f : A → B) (r : Result GormError A) (b : B)
    → on_ok f r ≡ ok b
    → (a : A) × (r ≡ ok a) × (f a ≡ b)
on_ok-eq_ok f (ok a) b h = (a, cc, cc)
on_ok-eq_ok f (err e) b h = cc

-- A change of one table of the store.
Ensures-write_rows :
    {Row : Type 0} (Q : Unit {0} → World → Type 0) (f : Store → List Row → Store)
    (q : Store → Result GormError (List Row)) (w : World)
    → ((rows : List Row) → q w.store ≡ ok rows → Q tt (record w { store = f w.store rows }))
    → Ensures Q (write (λ s. on_ok (f s) (q s)) w)
Ensures-write_rows Q f q w h = Ensures-write Q _ w λ s e.
    let (rows, saved, made) = on_ok-eq_ok _ (q w.store) s e in
    subst (λ t. Q tt (record w { store = t })) made (h rows saved)

module _ (g : Gorm) (laws : IsGorm g) where
  pub Ensures-update_account :
      (Q : Unit {0} → World → Type 0) (r : CreditAccount) (w : World)
      → Q tt (record w {
        store = record (w.store) { accounts = upsert (λ x. x.id) r w.store.accounts };
      })
      → Ensures Q (update_account g r w)
  unfolding update_account
  Ensures-update_account Q r w h =
      Ensures-write_rows Q (λ s rows. record s { accounts = rows })
        (λ s. g.accounts.save r s.accounts) w
        λ rows e.
          subst (λ t. Q tt (record w { store = record (w.store) { accounts = t } }))
            (sym (laws.accounts.save_ok r w.store.accounts rows e)) h

  pub Ensures-create_account :
      (Q : Unit {0} → World → Type 0) (r : CreditAccount) (w : World)
      → (lookup (λ x. x.id) r.id w.store.accounts ≡ none
          → Q tt (record w { store = record (w.store) { accounts = w.store.accounts ++ r ∷ [] } }))
      → Ensures Q (create_account g r w)
  unfolding create_account
  Ensures-create_account Q r w h =
      Ensures-write_rows Q (λ s rows. record s { accounts = rows })
        (λ s. g.accounts.create r s.accounts) w
        λ rows e.
          let (fresh, added) = laws.accounts.create_ok r w.store.accounts rows e in
          subst (λ t. Q tt (record w { store = record (w.store) { accounts = t } })) (sym added)
            (h fresh)

  -- The row that is found has the id, and is the row of its id.
  pub Ensures-account_by_id :
      (Q : CreditAccount → World → Type 0) (k : String) (w : World)
      → ((r : CreditAccount) → r.id ≡ k → lookup (λ x. x.id) r.id w.store.accounts ≡ some r → Q r w)
      → Ensures Q (account_by_id g k w)
  unfolding account_by_id
  Ensures-account_by_id Q k w h = Ensures-read Q _ w λ r e.
      let (same, there) = laws.accounts.first_ok (λ x. x.id == k) w.store.accounts r e in
      h r ((eq_iff r.id k).0 same) there

  pub Ensures-update_bucket :
      (Q : Unit {0} → World → Type 0) (r : CreditBucket) (w : World)
      → Q tt
          (record w { store = record (w.store) { buckets = upsert (λ x. x.id) r w.store.buckets } })
      → Ensures Q (update_bucket g r w)
  unfolding update_bucket
  Ensures-update_bucket Q r w h =
      Ensures-write_rows Q (λ s rows. record s { buckets = rows }) (λ s. g.buckets.save r s.buckets)
        w
        λ rows e.
          subst (λ t. Q tt (record w { store = record (w.store) { buckets = t } }))
            (sym (laws.buckets.save_ok r w.store.buckets rows e)) h

  pub Ensures-create_bucket :
      (Q : Unit {0} → World → Type 0) (r : CreditBucket) (w : World)
      → (lookup (λ x. x.id) r.id w.store.buckets ≡ none
          → Q tt (record w { store = record (w.store) { buckets = w.store.buckets ++ r ∷ [] } }))
      → Ensures Q (create_bucket g r w)
  unfolding create_bucket
  Ensures-create_bucket Q r w h =
      Ensures-write_rows Q (λ s rows. record s { buckets = rows })
        (λ s. g.buckets.create r s.buckets) w
        λ rows e.
          let (fresh, added) = laws.buckets.create_ok r w.store.buckets rows e in
          subst (λ t. Q tt (record w { store = record (w.store) { buckets = t } })) (sym added)
            (h fresh)

  -- The row that is found has the id, and is the row of its id.
  pub Ensures-bucket_by_id :
      (Q : CreditBucket → World → Type 0) (k : String) (w : World)
      → ((r : CreditBucket) → r.id ≡ k → lookup (λ x. x.id) r.id w.store.buckets ≡ some r → Q r w)
      → Ensures Q (bucket_by_id g k w)
  unfolding bucket_by_id
  Ensures-bucket_by_id Q k w h = Ensures-read Q _ w λ r e.
      let (same, there) = laws.buckets.first_ok (λ x. x.id == k) w.store.buckets r e in
      h r ((eq_iff r.id k).0 same) there

  pub Ensures-update_reservation :
      (Q : Unit {0} → World → Type 0) (r : CreditReservation) (w : World)
      → Q tt (record w {
        store = record (w.store) { reservations = upsert (λ x. x.id) r w.store.reservations };
      })
      → Ensures Q (update_reservation g r w)
  unfolding update_reservation
  Ensures-update_reservation Q r w h =
      Ensures-write_rows Q (λ s rows. record s { reservations = rows })
        (λ s. g.reservations.save r s.reservations) w
        λ rows e.
          subst (λ t. Q tt (record w { store = record (w.store) { reservations = t } }))
            (sym (laws.reservations.save_ok r w.store.reservations rows e)) h

  pub Ensures-create_reservation :
      (Q : Unit {0} → World → Type 0) (r : CreditReservation) (w : World)
      → (lookup (λ x. x.id) r.id w.store.reservations ≡ none
          → Q tt (record w {
            store = record (w.store) { reservations = w.store.reservations ++ r ∷ [] };
          }))
      → Ensures Q (create_reservation g r w)
  unfolding create_reservation
  Ensures-create_reservation Q r w h =
      Ensures-write_rows Q (λ s rows. record s { reservations = rows })
        (λ s. g.reservations.create r s.reservations) w
        λ rows e.
          let (fresh, added) = laws.reservations.create_ok r w.store.reservations rows e in
          subst (λ t. Q tt (record w { store = record (w.store) { reservations = t } })) (sym added)
            (h fresh)

  -- The row that is found has the id, and is the row of its id.
  pub Ensures-reservation_by_id :
      (Q : CreditReservation → World → Type 0) (k : String) (w : World)
      → ((r : CreditReservation)
          → r.id ≡ k
          → lookup (λ x. x.id) r.id w.store.reservations ≡ some r
          → Q r w)
      → Ensures Q (reservation_by_id g k w)
  unfolding reservation_by_id
  Ensures-reservation_by_id Q k w h = Ensures-read Q _ w λ r e.
      let (same, there) = laws.reservations.first_ok (λ x. x.id == k) w.store.reservations r e in
      h r ((eq_iff r.id k).0 same) there

  pub Ensures-create_transaction :
      (Q : Unit {0} → World → Type 0) (r : CreditTransaction) (w : World)
      → (lookup (λ x. x.id) r.id w.store.transactions ≡ none
          → Q tt (record w {
            store = record (w.store) { transactions = w.store.transactions ++ r ∷ [] };
          }))
      → Ensures Q (create_transaction g r w)
  unfolding create_transaction
  Ensures-create_transaction Q r w h =
      Ensures-write_rows Q (λ s rows. record s { transactions = rows })
        (λ s. g.transactions.create r s.transactions) w
        λ rows e.
          let (fresh, added) = laws.transactions.create_ok r w.store.transactions rows e in
          subst (λ t. Q tt (record w { store = record (w.store) { transactions = t } })) (sym added)
            (h fresh)

  pub Ensures-account_by_user_id :
      (Q : CreditAccount → World → Type 0) (u : String) (w : World)
      → ((r : CreditAccount)
          → r.user_id ≡ u
          → lookup (λ x. x.id) r.id w.store.accounts ≡ some r
          → Q r w)
      → Ensures Q (account_by_user_id g u w)
  unfolding account_by_user_id
  Ensures-account_by_user_id Q u w h = Ensures-read Q _ w λ r e.
      let (same, there) = laws.accounts.first_ok (λ x. x.user_id == u) w.store.accounts r e in
      h r ((eq_iff r.user_id u).0 same) there

  -- The buckets that are listed meet the query, and are the rows of their ids.
  pub Ensures-list_buckets :
      (Q : List CreditBucket → World → Type 0) (q : CreditBucketQuery) (w : World)
      → ((rows : List CreditBucket)
          → All
              (λ b.
                (bucket_matches q b ≡ true) × (lookup (λ x. x.id) b.id w.store.buckets ≡ some b))
              rows
          → Q rows w)
      → Ensures Q (list_buckets g q w)
  unfolding list_buckets
  Ensures-list_buckets Q q w h =
      Ensures-read_all Q _ w λ rows e. h rows (laws.buckets.find_ok _ _ _ _ w.store.buckets rows e)
