-- ===== src/Credit/Once/Marked.antt =====
-- The idempotency keys that the requests of internal/service/credit.go leave in the tables.
use walnut_billing.Prelude.{String, ◌≡◌, Bool, true, Option, none, some}
use walnut_billing.Prelude.Text.{trim}
use walnut_billing.Domain.Credit.{CreditBucket, ReservationStatus, TransactionType}
use walnut_billing.Repository.Table.Key.{has_key-append, has_key-lookup}
use walnut_billing.Repository.World.{World, Env}
use walnut_billing.Repository.Monad.{Action}
use walnut_billing.Repository.Ensures.{
  Ensures, Ensures-mono, Ensures-bind, Ensures-pure, Ensures-if_found, Ensures-generate_entity_id,
}
use walnut_billing.Repository.Keeps.{Ensures-Keeps}
use walnut_billing.Repository.Outcome.{Ensures-in_transaction, Ensures-last}
use walnut_billing.Repository.Credit.{
  reservation_by_idempotency_key, transaction_by_idempotency_key,
}
use walnut_billing.Repository.Credit.Rules.{
  IsGorm, Ensures-create_bucket, Ensures-create_reservation, Ensures-create_transaction,
}
use walnut_billing.Credit.Ledger.{
  CreditGrantInput, CreditReservationInput, CreditFinalizationInput, CreditTransactionInput,
  transaction_of, new_credit_transaction,
}
use walnut_billing.Credit.Service.{CreditService, with_credit_transaction}
use walnut_billing.Credit.Grant.{grant, grant_credits_with_repos, apply_grant, store_bucket}
use walnut_billing.Credit.Reserve.{reserve, apply_reserve, reservation_of}
use walnut_billing.Credit.Finalize.{finalize_reservation, apply_finalize, write_finalized}
use walnut_billing.Credit.Replay.{replay_grant-Keeps, replay_reserve-Keeps, replay_finalize-Keeps}
use walnut_billing.Credit.Once.{InLedger, IsReserved}

module _ (env : Env) (laws : IsGorm env.gorm) where
  recorded :
      (input : CreditTransactionInput) (w : World)
      → Ensures
          (λ t w'. InLedger input.idempotency_key w'.store)
          (new_credit_transaction env input w)
  unfolding new_credit_transaction transaction_of
  recorded input w = Ensures-bind _ _ _ w (
      Ensures-generate_entity_id env _ _ w λ id. Ensures-bind _ _ _ _ (
        Ensures-create_transaction env.gorm laws _ _ _
          λ fresh. Ensures-pure _ _ _ (has_key-append (λ t. t.idempotency_key) _ _)))

  -- The key of a reservation stays while a ledger row is added.
  recorded_later :
      (k : String) (input : CreditTransactionInput) (w : World)
      → IsReserved k w.store
      → Ensures (λ t w'. IsReserved k w'.store) (new_credit_transaction env input w)
  unfolding new_credit_transaction
  recorded_later k input w h = Ensures-bind _ _ _ w (
      Ensures-generate_entity_id env _ _ w λ id.
        Ensures-bind _ _ _ _
          (Ensures-create_transaction env.gorm laws _ _ _ λ fresh. Ensures-pure _ _ _ h))

  stored :
      (k : String) (b : Option CreditBucket) (id : String) (w : World)
      → InLedger k w.store
      → Ensures (λ c w'. InLedger k w'.store) (store_bucket env b id w)
  unfolding store_bucket
  stored k none id w h = Ensures-pure _ _ _ h
  stored k (some b) id w h =
      Ensures-bind _ _ _ w (Ensures-create_bucket env.gorm laws _ _ _ λ fresh. Ensures-pure _ _ _ h)

  apply_grant-InLedger :
      (has_buckets : Bool) (input : CreditGrantInput) (key : String) (w : World)
      → Ensures (λ r w'. InLedger key w'.store) (apply_grant env has_buckets input key w)
  unfolding apply_grant
  apply_grant-InLedger has_buckets input key w = Ensures-last _ _ _ w λ account w1.
      Ensures-last _ _ _ w1 λ now w2. Ensures-last _ _ _ w2 λ u w3.
        Ensures-last _ _ _ w3 λ bucket w4. Ensures-bind _ _ _ w4 (
          Ensures-mono _ _ _
            (λ t w5 h.
              Ensures-bind _ _ _ w5 (
                Ensures-mono _ _ _ (λ c w6 h'. Ensures-pure _ _ _ h')
                  (stored key bucket t.id w5 h)))
            (recorded _ w4))

  apply_reserve-IsReserved :
      (has_buckets : Bool) (input : CreditReservationInput) (key : String) (w : World)
      → Ensures (λ r w'. IsReserved key w'.store) (apply_reserve env has_buckets input key w)
  unfolding apply_reserve reservation_of
  apply_reserve-IsReserved has_buckets input key w = Ensures-last _ _ _ w λ account w1.
      Ensures-last _ _ _ w1 λ now w2. Ensures-last _ _ _ w2 λ held w3. Ensures-last _ _ _ w3 λ u w4.
        Ensures-last _ _ _ w4 λ v w5. Ensures-last _ _ _ w5 λ id w6. Ensures-bind _ _ _ w6 (
          Ensures-create_reservation env.gorm laws _ _ _ λ fresh. Ensures-bind _ _ _ _ (
            Ensures-mono _ _ _ (λ t w7 h. Ensures-pure _ _ _ h)
              (recorded_later key _ _ (has_key-append (λ r. r.idempotency_key) _ _))))

  apply_finalize-InLedger :
      (has_buckets : Bool) (final : ReservationStatus) (type : TransactionType)
      (reservation_id key : String) (w : World)
      → Ensures
          (λ r w'. InLedger key w'.store)
          (apply_finalize env has_buckets final type reservation_id key w)
  unfolding apply_finalize write_finalized
  apply_finalize-InLedger has_buckets final type reservation_id key w =
      Ensures-last _ _ _ w λ reservation w1. Ensures-last _ _ _ w1 λ u w2.
        Ensures-last _ _ _ w2 λ now w3. Ensures-last _ _ _ w3 λ v w4.
          Ensures-last _ _ _ w4 λ account w5. Ensures-last _ _ _ w5 λ x w6.
            Ensures-last _ _ _ w6 λ restored w7. Ensures-last _ _ _ w7 λ y w8.
              Ensures-last _ _ _ w8 λ z w9.
                Ensures-bind _ _ _ w9
                  (Ensures-mono _ _ _ (λ t w10 h. Ensures-pure _ _ _ h) (recorded _ w9))

  module _ (svc : CreditService) (uow : svc.has_uow ≡ true) where
    in_unit_of_work :
        {A : Type 0} (Q : A → World → Type 0) (fn : Bool → Action A) (w : World)
        → Ensures Q (fn true w)
        → Ensures Q (with_credit_transaction env svc fn w)
    unfolding with_credit_transaction
    in_unit_of_work Q fn w h = rw uow (Ensures-in_transaction Q env.gorm (fn true) w h)

    pub grant-InLedger :
        (input : CreditGrantInput) (w : World)
        → Ensures (λ r w'. InLedger (trim input.idempotency_key) w'.store) (grant env svc input w)
    unfolding grant grant_credits_with_repos transaction_by_idempotency_key
    grant-InLedger input w = Ensures-last _ _ _ w λ _ w1. Ensures-last _ _ _ w1 λ _ w2.
        Ensures-last _ _ _ w2 λ _ w3. Ensures-last _ _ _ w3 λ _ w4. in_unit_of_work _ _ w4 (
          Ensures-if_found _ _ _ _ w4
            (λ t e.
              let (same, there) = laws.transactions.first_ok _ w4.store.transactions t e in
              Ensures-Keeps (InLedger (trim input.idempotency_key)) _ w4
                (replay_grant-Keeps _ env true t)
                (has_key-lookup _ (λ r. r.id) _ _ t w4.store.transactions there same))
            (λ missing. apply_grant-InLedger true input _ w4))

    pub reserve-IsReserved :
        (input : CreditReservationInput) (w : World)
        → Ensures
            (λ r w'. IsReserved (trim input.idempotency_key) w'.store)
            (reserve env svc input w)
    unfolding reserve reservation_by_idempotency_key
    reserve-IsReserved input w = Ensures-last _ _ _ w λ _ w1. Ensures-last _ _ _ w1 λ _ w2.
        Ensures-last _ _ _ w2 λ _ w3. Ensures-last _ _ _ w3 λ _ w4. Ensures-last _ _ _ w4 λ _ w5.
          in_unit_of_work _ _ w5 (
            Ensures-if_found _ _ _ _ w5
              (λ r e.
                let (same, there) = laws.reservations.first_ok _ w5.store.reservations r e in
                Ensures-Keeps (IsReserved (trim input.idempotency_key)) _ w5
                  (replay_reserve-Keeps _ env r)
                  (has_key-lookup _ (λ x. x.id) _ _ r w5.store.reservations there same))
              (λ missing. apply_reserve-IsReserved true input _ w5))

    pub finalize-InLedger :
        (input : CreditFinalizationInput) (final : ReservationStatus) (type : TransactionType)
        (w : World)
        → Ensures
            (λ r w'. InLedger (trim input.idempotency_key) w'.store)
            (finalize_reservation env svc input final type w)
    unfolding finalize_reservation transaction_by_idempotency_key
    finalize-InLedger input final type w = Ensures-last _ _ _ w λ _ w1.
        Ensures-last _ _ _ w1 λ _ w2. in_unit_of_work _ _ w2 (
          Ensures-if_found _ _ _ _ w2
            (λ t e.
              let (same, there) = laws.transactions.first_ok _ w2.store.transactions t e in
              Ensures-Keeps (InLedger (trim input.idempotency_key)) _ w2
                (replay_finalize-Keeps _ env t)
                (has_key-lookup _ (λ r. r.id) _ _ t w2.store.transactions there same))
            (λ missing. apply_finalize-InLedger true final type _ _ w2))
