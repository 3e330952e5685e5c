-- ===== src/Repository/Transaction.antt =====
-- A unit of work around an operation: `GormUnitOfWork` of
-- internal/repository/gorm_repo/transaction.go, as `withCreditTransaction` of
-- internal/service/credit.go uses it. A deferred rollback runs after every error.
use walnut_billing.Repository.Error.{Error, database, Result, ok, err}
use walnut_billing.Repository.World.{Store, World, Gorm}
use walnut_billing.Repository.Monad.{Action}

module _ (g : Gorm) where
  -- `Begin` in a new unit of work.
  unfoldable pub begin_uow : Action (Unit {0})
  begin_uow w = elim (g.begin w.store) [ ok u ↦ (ok u, w) | err e ↦ (err (database e), w) ]

  -- `Rollback`, to the rows at the begin.
  abbrev pub rolled_back : Store → World → World
  rolled_back before w = record w { store = g.rollback before w.store }

  -- `Commit`, and the rollback after an operation or a commit that failed.
  unfoldable pub finish_uow : {A : Type 0} → Store → Result Error A × World → Result Error A × World
  finish_uow before (ok a, w) = elim (g.commit w.store) [
    | ok _ ↦ (ok a, w)
    | err e ↦ (err (database e), rolled_back before w)
  ]
  finish_uow before (err e, w) = (err e, rolled_back before w)

  unfoldable pub begun :
      {A : Type 0} → Action A → Store → Result Error (Unit {0}) × World → Result Error A × World
  begun m before (ok _, w) = finish_uow before (m w)
  begun m before (err e, w) = (err e, w)

  unfoldable pub in_transaction : {A : Type 0} → Action A → Action A
  unfolding begin_uow finish_uow begun
  in_transaction m w = begun m w.store (begin_uow w)
