-- ===== src/Credit/Once/Finalized.antt =====
-- What follows a commit or a release of internal/service/credit.go for its reservation.
use walnut_billing.Prelude.{◌≡◌, refl, sym, Bool, true, false, some}
use mathlib.Core.Path.{subst}
use walnut_billing.Prelude.Text.{◌==◌, trim}
use walnut_billing.Domain.Credit.{CreditTransaction, ReservationStatus, TransactionType, is_pending}
use walnut_billing.Repository.Error.{ok}
use walnut_billing.Repository.Table.{lookup}
use walnut_billing.Repository.Table.Key.{has_key, has_key-lookup}
use walnut_billing.Repository.World.{Store, World, Env}
use walnut_billing.Repository.Monad.{Action}
use walnut_billing.Repository.Ensures.{Ensures, Ensures-bind, Ensures-if_found, Ensures-raise_if}
use walnut_billing.Repository.Keeps.{
  Keeps, Keeps-bind, Keeps-raise_if, Keeps-in_transaction, Ensures-Keeps,
}
use walnut_billing.Repository.Outcome.{Ensures-in_transaction, after}
use walnut_billing.Repository.Credit.{transaction_by_idempotency_key}
use walnut_billing.Repository.Credit.Rules.{IsGorm}
use walnut_billing.Credit.Ledger.{CreditFinalizationInput, CreditMutationResult}
use walnut_billing.Credit.Service.{CreditService, with_credit_transaction}
use walnut_billing.Credit.Finalize.{finalize_reservation, commit, release}
use walnut_billing.Credit.Once.Settled.{IsSettled, apply_finalize-IsSettled, apply_finalize-refused}
use walnut_billing.Credit.Replay.{replay_finalize-Keeps}

module _ (env : Env) (laws : IsGorm env.gorm) (final : ReservationStatus) (type : TransactionType)
    (done : is_pending final ≡ false) (svc : CreditService) (uow : svc.has_uow ≡ true) where
  kept_in_unit_of_work :
      {A : Type 0} (P : Store → Type 0) (fn : Bool → Action A)
      → ((w : World) → P w.store → Ensures (λ a w'. P w'.store) (fn true w))
      → Keeps P (with_credit_transaction env svc fn)
  unfolding with_credit_transaction
  kept_in_unit_of_work P fn h = rw uow (Keeps-in_transaction P env.gorm laws.restores (fn true) h)

  in_unit_of_work :
      {A : Type 0} (Q : A → World → Type 0) (fn : Bool → Action A) (w : World)
      → Ensures Q (fn true w)
      → Ensures Q (with_credit_transaction env svc fn w)
  unfolding with_credit_transaction
  in_unit_of_work Q fn w h = rw uow (Ensures-in_transaction Q env.gorm (fn true) w h)

  pub finalize-refused :
      (input : CreditFinalizationInput) (w : World)
      → IsSettled (trim input.reservation_id) w.store
      → (finalize_reservation env svc input final type w).1.store ≡ w.store
  unfolding finalize_reservation transaction_by_idempotency_key
  finalize-refused input w settled =
      (Keeps-bind P _ _ (Keeps-raise_if P _ _) λ _. Keeps-bind P _ _ (Keeps-raise_if P _ _) λ _.
          kept_in_unit_of_work P _ λ v same.
            Ensures-if_found _ _ _ _ v
              (λ t e. Ensures-Keeps P _ v (replay_finalize-Keeps P env t) same)
              (λ missing.
                apply_finalize-refused env laws final type done true _ _ v _
                  (subst (IsSettled (trim input.reservation_id)) (sym same) settled))).keeps
        w refl
    where
      P : Store → Type 0
      P s = s ≡ w.store

  pub finalize-IsSettled :
      (input : CreditFinalizationInput) (w : World)
      → has_key (λ t. t.idempotency_key) (trim input.idempotency_key) w.store.transactions ≡ false
      → Ensures
          (λ r w'. IsSettled (trim input.reservation_id) w'.store)
          (finalize_reservation env svc input final type w)
  unfolding finalize_reservation transaction_by_idempotency_key
  finalize-IsSettled input w fresh = Ensures-bind _ _ _ w (
      Ensures-raise_if _ _ _ w λ _. Ensures-bind _ _ _ w (
        Ensures-raise_if _ _ _ w λ _. in_unit_of_work _ _ w (
          Ensures-if_found _ _ _ _ w
            (λ t e. elim (used t (laws.transactions.first_ok _ w.store.transactions t e)) [ ])
            (λ missing. apply_finalize-IsSettled env laws final type done true _ _ w))))
    where
      used :
          (t : CreditTransaction)
          → ((t.idempotency_key == trim input.idempotency_key) ≡ true)
            × (lookup (λ x. x.id) t.id w.store.transactions ≡ some t)
          → ⊥
      used t (same, there) =
          let here =
            has_key-lookup (λ x. x.idempotency_key) (λ x. x.id) t.id _ t w.store.transactions there
              same in
          cc

module _ (env : Env) (laws : IsGorm env.gorm) (svc : CreditService) (uow : svc.has_uow ≡ true) where
  -- If GORM keeps its promises and the service has a unit of work: after a commit with a key that the
  -- ledger did not have, which returned no error, the reservation is settled for good: a commit and a
  -- release of it leave every table as it is, whatever their keys are.
  pub commit_once :
      (input again : CreditFinalizationInput) (r : CreditMutationResult) (w w' : World)
      → has_key (λ t. t.idempotency_key) (trim input.idempotency_key) w.store.transactions ≡ false
      → commit env svc input w ≡ (ok r, w')
      → trim again.reservation_id ≡ trim input.reservation_id
      → ((commit env svc again w').1.store ≡ w'.store)
        × ((release env svc again w').1.store ≡ w'.store)
  unfolding commit release
  commit_once input again r w w' fresh ran same = (
    finalize-refused env laws ReservationStatus.committed TransactionType.commit refl svc uow again
        w' settled,
    finalize-refused env laws ReservationStatus.released TransactionType.release refl svc uow again
        w' settled,
  )
    where
      settled : IsSettled (trim again.reservation_id) w'.store
      settled = rw same (
          after _ _ r w'
            (finalize-IsSettled env laws ReservationStatus.committed TransactionType.commit refl svc
              uow input w fresh)
            ran)

  -- If GORM keeps its promises and the service has a unit of work: after a release with a key that the
  -- ledger did not have, which returned no error, the credits are not given back again: a commit and a
  -- release of the reservation leave every table as it is, whatever their keys are.
  pub release_once :
      (input again : CreditFinalizationInput) (r : CreditMutationResult) (w w' : World)
      → has_key (λ t. t.idempotency_key) (trim input.idempotency_key) w.store.transactions ≡ false
      → release env svc input w ≡ (ok r, w')
      → trim again.reservation_id ≡ trim input.reservation_id
      → ((commit env svc again w').1.store ≡ w'.store)
        × ((release env svc again w').1.store ≡ w'.store)
  unfolding commit release
  release_once input again r w w' fresh ran same = (
    finalize-refused env laws ReservationStatus.committed TransactionType.commit refl svc uow again
        w' settled,
    finalize-refused env laws ReservationStatus.released TransactionType.release refl svc uow again
        w' settled,
  )
    where
      settled : IsSettled (trim again.reservation_id) w'.store
      settled = rw same (
          after _ _ r w'
            (finalize-IsSettled env laws ReservationStatus.released TransactionType.release refl svc
              uow input w fresh)
            ran)
