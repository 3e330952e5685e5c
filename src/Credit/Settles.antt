-- ===== src/Credit/Settles.antt =====
-- When a commit and a release of internal/service/credit.go succeed, and what they return.
use walnut_billing.Prelude.{String, ◌≡◌, refl, true, false}
use walnut_billing.Prelude.Text.{trim, is_empty}
use walnut_billing.Domain.Credit.{
  CreditAccount, CreditReservation, ReservationStatus, TransactionType, is_released,
}
use walnut_billing.Repository.Table.Key.{has_key}
use walnut_billing.Repository.World.{World, Env}
use walnut_billing.Repository.Succeeds.{
  Succeeds, Succeeds-bind, Succeeds-not_found_as, Succeeds-read, Succeeds-missing,
  Succeeds-in_transaction, Succeeds-raise_if, Succeeds-time_now,
}
use walnut_billing.Repository.Reliable.{IsReliable, first-lookup, first-has_key}
use walnut_billing.Repository.Credit.{
  account_by_id, reservation_by_id, transaction_by_idempotency_key,
}
use walnut_billing.Repository.Credit.Rules.{IsGorm}
use walnut_billing.Credit.Ledger.{CreditFinalizationInput}
use walnut_billing.Credit.Service.{CreditService, with_credit_transaction}
use walnut_billing.Credit.Finalize.{
  is_release, apply_finalize, finalize_reservation, commit, release,
}
use walnut_billing.Credit.Settlement.{
  IsReady, IsSettlement, settle_none, decode_none, write_finalized-Succeeds,
}

module _ (env : Env) (laws : IsGorm env.gorm) (up : IsReliable env.gorm) where
  apply_finalize-Succeeds :
      (final : ReservationStatus) (type : TransactionType) (k key : String) (r : CreditReservation)
      (a : CreditAccount) (w : World)
      → is_release type ≡ is_released final
      → IsReady env final k r a w
      → Succeeds
          (λ res w'. IsSettlement env final type key r a w res w')
          (apply_finalize env true final type k key w)
  unfolding apply_finalize account_by_id reservation_by_id
  apply_finalize-Succeeds final type k key r a w kind ready = Succeeds-bind _ _ _ w (
      Succeeds-not_found_as _ _ _ w (
        Succeeds-read _ _ w r
          (first-lookup (λ x. x.id) env.gorm.reservations laws.reservations up.finds_reservations k
            r w.store.reservations ready.keyed_reservations ready.there)
          (Succeeds-bind _ _ _ w (
            Succeeds-raise_if _ _ _ w (rw ready.pending refl) (
              Succeeds-bind _ _ _ w (
                Succeeds-time_now env _ w (
                  Succeeds-bind _ _ _ _ (
                    Succeeds-raise_if _ _ _ _ ready.in_time (
                      Succeeds-bind _ _ _ _ (
                        Succeeds-read _ _ _ a
                          (first-lookup (λ x. x.id) env.gorm.accounts laws.accounts
                            up.finds_accounts r.account_id a w.store.accounts ready.keyed_accounts
                            ready.owner)
                          (Succeeds-bind _ _ _ _ (
                            Succeeds-raise_if _ _ _ _ ready.covered (
                              Succeeds-bind _ _ _ _ (
                                settle_none env laws up _ final r.amount _ _ _
                                  (decode_none env laws up r.bucket_allocations ready.bucketless)
                                  (write_finalized-Succeeds env laws up final type key r a _ w _
                                    ready.digits refl kind ready.drawn ready.fresh)))))))))))))))

  module _ (svc : CreditService) (uow : svc.has_uow ≡ true) where
    finalize-Succeeds :
        (final : ReservationStatus) (type : TransactionType) (input : CreditFinalizationInput)
        (r : CreditReservation) (a : CreditAccount) (w : World)
        → is_empty (trim input.reservation_id) ≡ false
        → is_empty (trim input.idempotency_key) ≡ false
        → has_key (λ t. t.idempotency_key) (trim input.idempotency_key) w.store.transactions ≡ false
        → is_release type ≡ is_released final
        → IsReady env final (trim input.reservation_id) r a w
        → Succeeds
            (λ res w'. IsSettlement env final type (trim input.idempotency_key) r a w res w')
            (finalize_reservation env svc input final type w)
    unfolding finalize_reservation with_credit_transaction transaction_by_idempotency_key
    finalize-Succeeds final type input r a w named keyed fresh kind ready = Succeeds-bind _ _ _ w (
        Succeeds-raise_if _ _ _ w named (
          Succeeds-bind _ _ _ w (
            Succeeds-raise_if _ _ _ w keyed (
              rw uow (
                Succeeds-in_transaction _ env.gorm _ w up.begins up.commits (
                  Succeeds-missing _ _ _ _ w
                    (first-has_key (λ x. x.id) env.gorm.transactions laws.transactions
                      up.finds_transactions (λ t. t.idempotency_key) (trim input.idempotency_key)
                      w.store.transactions ready.keyed_transactions fresh)
                    (apply_finalize-Succeeds final type (trim input.reservation_id) _ r a w kind
                      ready)))))))

    -- If GORM keeps its promises and is up, the service has a unit of work, the input names a reservation
    -- and a key that the ledger does not have, and the reservation is pending, not past its expiry, covered
    -- by what its account has reserved, held in no bucket, the next id is new, and no table repeats a key:
    -- a commit succeeds.
    -- It returns the account with the same balance and with the amount taken off what is reserved, and the
    -- reservation as committed, it saves both, adds a row of no amount with the key to the ledger, and
    -- changes no other account, reservation or ledger row, and no bucket.
    pub commit-Succeeds :
        (input : CreditFinalizationInput) (r : CreditReservation) (a : CreditAccount) (w : World)
        → is_empty (trim input.reservation_id) ≡ false
        → is_empty (trim input.idempotency_key) ≡ false
        → has_key (λ t. t.idempotency_key) (trim input.idempotency_key) w.store.transactions ≡ false
        → IsReady env ReservationStatus.committed (trim input.reservation_id) r a w
        → Succeeds
            (λ res w'.
              IsSettlement env ReservationStatus.committed TransactionType.commit
                (trim input.idempotency_key)
                r
                a
                w
                res
                w')
            (commit env svc input w)
    unfolding commit
    commit-Succeeds input r a w named keyed fresh ready =
        finalize-Succeeds ReservationStatus.committed TransactionType.commit input r a w named keyed
          fresh refl ready

    -- If GORM keeps its promises and is up, the service has a unit of work, the input names a reservation
    -- and a key that the ledger does not have, and the reservation is pending, covered by what its account
    -- has reserved, held in no bucket, the next id is new, and no table repeats a key: a release succeeds,
    -- also after the reservation's expiry.
    -- It returns the account with the amount added to the balance and taken off what is reserved, and the
    -- reservation as released, it saves both, adds a row of that amount with the key to the ledger, and
    -- changes no other account, reservation or ledger row, and no bucket.
    pub release-Succeeds :
        (input : CreditFinalizationInput) (r : CreditReservation) (a : CreditAccount) (w : World)
        → is_empty (trim input.reservation_id) ≡ false
        → is_empty (trim input.idempotency_key) ≡ false
        → has_key (λ t. t.idempotency_key) (trim input.idempotency_key) w.store.transactions ≡ false
        → IsReady env ReservationStatus.released (trim input.reservation_id) r a w
        → Succeeds
            (λ res w'.
              IsSettlement env ReservationStatus.released TransactionType.release
                (trim input.idempotency_key)
                r
                a
                w
                res
                w')
            (release env svc input w)
    unfolding release
    release-Succeeds input r a w named keyed fresh ready =
        finalize-Succeeds ReservationStatus.released TransactionType.release input r a w named keyed
          fresh refl ready
