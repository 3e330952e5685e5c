-- ===== src/Credit/Once/Replayed.antt =====
-- Requests of internal/service/credit.go with a key that is in the tables.
use walnut_billing.Prelude.{String, ◌≡◌, refl, sym, Bool, true}
use walnut_billing.Prelude.Text.{◌==◌, trim}
use mathlib.Core.Path.{subst}
use walnut_billing.Domain.Credit.{ReservationStatus, TransactionType}
use walnut_billing.Repository.Error.{record_not_found, err}
use walnut_billing.Repository.Table.Key.{has_key-All}
use walnut_billing.Repository.World.{Store, World, Env}
use walnut_billing.Repository.Monad.{Action}
use walnut_billing.Repository.Ensures.{Ensures, Ensures-if_found}
use walnut_billing.Repository.Keeps.{
  Keeps, Keeps-bind, Keeps-raise_if, Keeps-in_transaction, Ensures-Keeps,
}
use walnut_billing.Repository.Credit.{
  reservation_by_idempotency_key, transaction_by_idempotency_key,
}
use walnut_billing.Repository.Credit.Rules.{IsGorm}
use walnut_billing.Credit.Ledger.{CreditGrantInput, CreditReservationInput, CreditFinalizationInput}
use walnut_billing.Credit.Service.{CreditService, with_credit_transaction}
use walnut_billing.Credit.Grant.{grant, grant_credits_with_repos}
use walnut_billing.Credit.Reserve.{reserve}
use walnut_billing.Credit.Finalize.{finalize_reservation}
use walnut_billing.Credit.Replay.{replay_grant-Keeps, replay_reserve-Keeps, replay_finalize-Keeps}
use walnut_billing.Credit.Books.Kept.{ensure_user-Keeps, check_expiry-Keeps}
use walnut_billing.Credit.Once.{InLedger, IsReserved}

module _ (env : Env) (laws : IsGorm env.gorm) where
  ledger_missing :
      (k : String) (s t : Store)
      → InLedger k s
      → t ≡ s
      → ¬ (
          env.gorm.transactions.first (λ r. r.idempotency_key == k) t.transactions
          ≡ err record_not_found)
  ledger_missing k s t used same missing =
      has_key-All (λ r. r.idempotency_key) k t.transactions (subst (InLedger k) (sym same) used)
        (laws.transactions.first_not_found _ t.transactions missing)

  reserved_missing :
      (k : String) (s t : Store)
      → IsReserved k s
      → t ≡ s
      → ¬ (
          env.gorm.reservations.first (λ r. r.idempotency_key == k) t.reservations
          ≡ err record_not_found)
  reserved_missing k s t used same missing =
      has_key-All (λ r. r.idempotency_key) k t.reservations (subst (IsReserved k) (sym same) used)
        (laws.reservations.first_not_found _ t.reservations missing)

  module _ (svc : CreditService) (uow : svc.has_uow ≡ true) where
    in_unit_of_work :
        {A : Type 0} (P : Store → Type 0) (fn : Bool → Action A)
        → ((w : World) → P w.store → Ensures (λ a w'. P w'.store) (fn true w))
        → Keeps P (with_credit_transaction env svc fn)
    unfolding with_credit_transaction
    in_unit_of_work P fn h = rw uow (Keeps-in_transaction P env.gorm laws.restores (fn true) h)

    pub grant_replayed :
        (input : CreditGrantInput) (w : World)
        → InLedger (trim input.idempotency_key) w.store
        → (grant env svc input w).1.store ≡ w.store
    unfolding grant grant_credits_with_repos transaction_by_idempotency_key
    grant_replayed input w used =
        (Keeps-bind P _ _ (Keeps-raise_if P _ _) λ _. Keeps-bind P _ _ (Keeps-raise_if P _ _) λ _.
            Keeps-bind P _ _ (Keeps-raise_if P _ _) λ _.
              Keeps-bind P _ _ (ensure_user-Keeps P env _ _) λ _. in_unit_of_work P _ λ v same.
                Ensures-if_found _ _ _ _ v
                  (λ t e. Ensures-Keeps P _ v (replay_grant-Keeps P env true t) same)
                  (λ missing. elim (ledger_missing _ w.store v.store used same missing) [ ])).keeps
          w refl
      where
        P : Store → Type 0
        P s = s ≡ w.store

    pub reserve_replayed :
        (input : CreditReservationInput) (w : World)
        → IsReserved (trim input.idempotency_key) w.store
        → (reserve env svc input w).1.store ≡ w.store
    unfolding reserve reservation_by_idempotency_key
    reserve_replayed input w used =
        (Keeps-bind P _ _ (Keeps-raise_if P _ _) λ _. Keeps-bind P _ _ (Keeps-raise_if P _ _) λ _.
            Keeps-bind P _ _ (Keeps-raise_if P _ _) λ _.
              Keeps-bind P _ _ (check_expiry-Keeps P env _) λ _.
                Keeps-bind P _ _ (ensure_user-Keeps P env _ _) λ _. in_unit_of_work P _ λ v same.
                  Ensures-if_found _ _ _ _ v
                    (λ r e. Ensures-Keeps P _ v (replay_reserve-Keeps P env r) same)
                    (λ missing.
                      elim (reserved_missing _ w.store v.store used same missing) [ ])).keeps
          w refl
      where
        P : Store → Type 0
        P s = s ≡ w.store

    pub finalize_replayed :
        (input : CreditFinalizationInput) (final : ReservationStatus) (type : TransactionType)
        (w : World)
        → InLedger (trim input.idempotency_key) w.store
        → (finalize_reservation env svc input final type w).1.store ≡ w.store
    unfolding finalize_reservation transaction_by_idempotency_key
    finalize_replayed input final type w used =
        (Keeps-bind P _ _ (Keeps-raise_if P _ _) λ _. Keeps-bind P _ _ (Keeps-raise_if P _ _) λ _.
            in_unit_of_work P _ λ v same.
              Ensures-if_found _ _ _ _ v
                (λ t e. Ensures-Keeps P _ v (replay_finalize-Keeps P env t) same)
                (λ missing. elim (ledger_missing _ w.store v.store used same missing) [ ])).keeps
          w refl
      where
        P : Store → Type 0
        P s = s ≡ w.store
