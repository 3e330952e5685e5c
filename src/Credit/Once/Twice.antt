-- ===== src/Credit/Once/Twice.antt =====
-- Requests of internal/service/credit.go that are sent again with their idempotency key.
use walnut_billing.Prelude.{◌≡◌, true}
use walnut_billing.Prelude.Text.{trim}
use walnut_billing.Repository.Error.{ok}
use walnut_billing.Repository.World.{World, Env}
use walnut_billing.Repository.Outcome.{after}
use walnut_billing.Repository.Credit.Rules.{IsGorm}
use walnut_billing.Credit.Ledger.{
  CreditGrantInput, CreditReservationInput, CreditFinalizationInput, CreditMutationResult,
}
use walnut_billing.Credit.Service.{CreditService}
use walnut_billing.Credit.Grant.{grant}
use walnut_billing.Credit.Reserve.{reserve}
use walnut_billing.Credit.Finalize.{commit, release}
use walnut_billing.Credit.Once.{InLedger}
use walnut_billing.Credit.Once.Marked.{grant-InLedger, reserve-IsReserved, finalize-InLedger}
use walnut_billing.Credit.Once.Replayed.{grant_replayed, reserve_replayed, finalize_replayed}

module _ (env : Env) (laws : IsGorm env.gorm) (svc : CreditService) (uow : svc.has_uow ≡ true) where
  -- If GORM keeps its promises and the service has a unit of work: after a grant that succeeded, a grant
  -- with the same key, up to white space, leaves every table as it is, whatever else it asks for.
  pub grant_twice :
      (input again : CreditGrantInput) (r : CreditMutationResult) (w w' : World)
      → grant env svc input w ≡ (ok r, w')
      → trim again.idempotency_key ≡ trim input.idempotency_key
      → (grant env svc again w').1.store ≡ w'.store
  grant_twice input again r w w' done same =
      grant_replayed env laws svc uow again w'
        (rw same (after _ _ r w' (grant-InLedger env laws svc uow input w) done))

  -- If GORM keeps its promises and the service has a unit of work: after a reservation that succeeded, a
  -- reservation with the same key, up to white space, leaves every table as it is.
  pub reserve_twice :
      (input again : CreditReservationInput) (r : CreditMutationResult) (w w' : World)
      → reserve env svc input w ≡ (ok r, w')
      → trim again.idempotency_key ≡ trim input.idempotency_key
      → (reserve env svc again w').1.store ≡ w'.store
  reserve_twice input again r w w' done same =
      reserve_replayed env laws svc uow again w'
        (rw same (after _ _ r w' (reserve-IsReserved env laws svc uow input w) done))

  -- If GORM keeps its promises and the service has a unit of work: after a commit that succeeded, a commit
  -- and a release with the same key, up to white space, leave every table as it is, for any reservation.
  pub commit_twice :
      (input again : CreditFinalizationInput) (r : CreditMutationResult) (w w' : World)
      → commit env svc input w ≡ (ok r, w')
      → trim again.idempotency_key ≡ trim input.idempotency_key
      → ((commit env svc again w').1.store ≡ w'.store)
        × ((release env svc again w').1.store ≡ w'.store)
  unfolding commit release
  commit_twice input again r w w' done same = (
    finalize_replayed env laws svc uow again _ _ w' used,
    finalize_replayed env laws svc uow again _ _ w' used,
  )
    where
      used : InLedger (trim again.idempotency_key) w'.store
      used = rw same (after _ _ r w' (finalize-InLedger env laws svc uow input _ _ w) done)
