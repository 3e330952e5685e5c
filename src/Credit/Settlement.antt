-- ===== src/Credit/Settlement.antt =====
-- What a commit or a release of internal/service/credit.go needs and leaves, and the rows that it writes.
use Prim.Native.String.{◌++◌}
use walnut_billing.Prelude.{
  String, ◌≡◌, refl, ap, ◌∙◌, true, false, ◌&&◌, none, some, List, [], if◌then◌else◌,
}
use walnut_billing.Prelude.Int.{ℤ, pos, ltb_ℤ}
use walnut_billing.Prelude.Word.{add64, sub64}
use walnut_billing.Prelude.Text.{trim, is_empty}
use walnut_billing.Domain.{Time}
use walnut_billing.Domain.Credit.{
  CreditAccount, CreditTransaction, CreditReservation, ReservationStatus, TransactionType,
  is_pending, is_committed, is_released,
}
use walnut_billing.Repository.Table.{lookup, upsert, with_row}
use walnut_billing.Repository.World.{World, Env, CreditBucketAllocation}
use walnut_billing.Repository.Succeeds.{
  Succeeds, Succeeds-pure, Succeeds-bind, Succeeds-write, Succeeds-generate_entity_id,
}
use walnut_billing.Repository.Reliable.{IsKeyed, IsReliable}
use walnut_billing.Repository.Credit.{update_account, update_reservation, create_transaction}
use walnut_billing.Repository.Credit.Rules.{IsGorm}
use walnut_billing.Credit.Allocation.{decode_allocations}
use walnut_billing.Credit.Ledger.{
  CreditMutationResult, CreditTransactionInput, transaction_of, with_balances,
  new_credit_transaction,
}
use walnut_billing.Credit.Finalize.{
  balance_after, finalized, is_past, is_release, settle_buckets, write_finalized,
}

-- What a finalization of the reservation `r` of the account `a` needs of the world: the reservation is
-- pending, in time, covered by what is reserved and held in no bucket (it stores no bucket allocations),
-- the next id is new, and no table repeats a key.
pub record IsReady (env : Env) (final : ReservationStatus) (k : String) (r : CreditReservation)
    (a : CreditAccount) (w : World) : Type 0 where
  pub keyed_accounts : IsKeyed (λ x. x.id) w.store.accounts
  pub keyed_reservations : IsKeyed (λ x. x.id) w.store.reservations
  pub keyed_transactions : IsKeyed (λ x. x.id) w.store.transactions
  pub there : lookup (λ x. x.id) k w.store.reservations ≡ some r
  pub pending : is_pending r.status ≡ true
  pub in_time : (is_committed final && is_past r.expires_at (env.clock w.ticks)) ≡ false
  pub owner : lookup (λ x. x.id) r.account_id w.store.accounts ≡ some a
  pub covered : ltb_ℤ a.reserved r.amount ≡ false
  pub bucketless : is_empty (trim r.bucket_allocations) ≡ true
  pub digits : String
  pub drawn : env.random w.draws ≡ some digits
  pub fresh : lookup (λ x. x.id) ("ctx_" ++ digits) w.store.transactions ≡ none

-- What a finalization of all of `r` returns and leaves in the tables: the account and the reservation
-- that it returns are saved, its row is added to the ledger, and the buckets are as they were.
pub record IsSettlement (env : Env) (final : ReservationStatus) (type : TransactionType)
    (key : String) (r : CreditReservation) (a : CreditAccount) (w : World)
    (res : CreditMutationResult) (w' : World) : Type 0 where
  pub account_id : res.account.id ≡ a.id
  pub balance :
      res.account.balance ≡ (if is_released final then add64 a.balance r.amount else a.balance)
  pub reserved : res.account.reserved ≡ sub64 a.reserved r.amount
  pub row : CreditReservation
  pub reservation : res.reservation ≡ some row
  pub reservation_id : row.id ≡ r.id
  pub status : row.status ≡ final
  pub amount : row.amount ≡ r.amount
  pub account : row.account_id ≡ r.account_id
  pub updated : row.updated_at ≡ env.clock w.ticks
  pub committed :
      row.committed_at ≡ (if is_committed final then some (env.clock w.ticks) else r.committed_at)
  pub released :
      row.released_at ≡ (if is_committed final then r.released_at else some (env.clock w.ticks))
  pub entry : CreditTransaction
  pub transaction : res.transaction ≡ some entry
  pub entry_type : entry.type ≡ type
  pub entry_amount : entry.amount ≡ (if is_released final then r.amount else pos 0)
  pub entry_key : entry.idempotency_key ≡ key
  pub entry_reservation : entry.reservation_id ≡ r.id
  pub accounts_after : w'.store.accounts ≡ upsert (λ x. x.id) res.account w.store.accounts
  pub reservations_after : w'.store.reservations ≡ upsert (λ x. x.id) row w.store.reservations
  pub transactions_after : w'.store.transactions ≡ with_row w.store.transactions entry
  pub buckets_after : w'.store.buckets ≡ w.store.buckets

with_row-same :
    (rows rows' : List CreditTransaction) (t : CreditTransaction)
    → rows ≡ rows'
    → with_row rows t ≡ with_row rows' t
with_row-same rows rows' t e = rw e refl

module _ (env : Env) (laws : IsGorm env.gorm) (up : IsReliable env.gorm) where
  Succeeds-new_credit_transaction :
      (Q : _ → World → Type 0) (input : CreditTransactionInput) (digits : String) (w : World)
      → env.random w.draws ≡ some digits
      → lookup (λ x. x.id) ("ctx_" ++ digits) w.store.transactions ≡ none
      → ((w' : World)
          → w'.store ≡ record (w.store) {
            transactions = with_row w.store.transactions (transaction_of ("ctx_" ++ digits) input);
          }
          → Q (transaction_of ("ctx_" ++ digits) input) w')
      → Succeeds Q (new_credit_transaction env input w)
  unfolding new_credit_transaction create_transaction transaction_of
  Succeeds-new_credit_transaction Q input digits w drawn fresh k =
      let t = transaction_of ("ctx_" ++ digits) input in
      let (rows, made) = up.creates_transactions t w.store.transactions fresh in
      let added = (laws.transactions.create_ok t w.store.transactions rows made).1 in
      Succeeds-bind Q _ _ w (
        Succeeds-generate_entity_id env _ _ digits w drawn (
          Succeeds-bind Q _ _ _ (
            Succeeds-write _ _ _ (record (w.store) { transactions = rows }) (rw made refl)
              (Succeeds-pure Q _ _
                (k _ (ap (λ ts. record (w.store) { transactions = ts }) added))))))

  pub settle_none :
      (Q : ℤ → World → Type 0) (final : ReservationStatus) (amount : ℤ)
      (shares : List CreditBucketAllocation) (now : Time) (w : World)
      → shares ≡ []
      → Q amount w
      → Succeeds Q (settle_buckets env true final amount shares now w)
  unfolding settle_buckets
  settle_none Q final amount shares now w none_ h = rw none_ (Succeeds-pure Q amount w h)

  pub decode_none : (raw : String) → is_empty (trim raw) ≡ true → decode_allocations env raw ≡ []
  unfolding decode_allocations
  decode_none raw e = rw e refl

  pub write_finalized-Succeeds :
      (final : ReservationStatus) (type : TransactionType) (key : String) (r : CreditReservation)
      (a : CreditAccount) (shares : List CreditBucketAllocation) (w v : World) (digits : String)
      → v.store ≡ w.store
      → is_release type ≡ is_released final
      → env.random v.draws ≡ some digits
      → lookup (λ x. x.id) ("ctx_" ++ digits) v.store.transactions ≡ none
      → Succeeds
          (λ res w'. IsSettlement env final type key r a w res w')
          (write_finalized env final type key r a shares r.amount (env.clock w.ticks) v)
  unfolding write_finalized update_account update_reservation balance_after finalized transaction_of
  write_finalized-Succeeds final type key r a shares w v digits same kind drawn fresh =
      let b =
        with_balances a (balance_after final a r.amount) (sub64 a.reserved r.amount)
          (env.clock w.ticks) in
      let (accounts, saved) = up.saves_accounts b v.store.accounts in
      let row = finalized final (env.clock w.ticks) r in
      let (reservations, kept) = up.saves_reservations row v.store.reservations in
      Succeeds-bind _ _ _ v (
        Succeeds-write _ _ v (record (v.store) { accounts = accounts }) (rw saved refl)
          (Succeeds-bind _ _ _ _ (
            Succeeds-write _ _ _
              (record (v.store) { accounts = accounts; reservations = reservations }) (rw kept refl)
              (Succeeds-bind _ _ _ _ (
                Succeeds-new_credit_transaction _ _ digits _ drawn fresh λ w' stored.
                  Succeeds-pure _ _ w' (record {
                    account_id = refl;
                    balance = refl;
                    reserved = refl;
                    row = row;
                    reservation = refl;
                    reservation_id = refl;
                    status = refl;
                    amount = refl;
                    account = refl;
                    updated = refl;
                    committed = refl;
                    released = refl;
                    entry = _;
                    transaction = refl;
                    entry_type = refl;
                    entry_amount = ap (λ c. if c then r.amount else pos 0) kind;
                    entry_key = refl;
                    entry_reservation = refl;
                    accounts_after =
                        ap (λ x. x.accounts) stored
                        ∙ laws.accounts.save_ok b v.store.accounts accounts saved
                        ∙ ap (λ x. upsert (λ y. y.id) b x.accounts) same;
                    reservations_after =
                        ap (λ x. x.reservations) stored
                        ∙ laws.reservations.save_ok _ v.store.reservations reservations kept
                        ∙ ap (λ x. upsert (λ y. y.id) row x.reservations) same;
                    transactions_after =
                        ap (λ x. x.transactions) stored
                        ∙ with_row-same _ _ _ (ap (λ x. x.transactions) same);
                    buckets_after = ap (λ x. x.buckets) stored ∙ ap (λ x. x.buckets) same;
                  }))))))
