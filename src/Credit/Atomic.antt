-- ===== src/Credit/Atomic.antt =====
-- The requests of internal/service/credit.go that end in an error.
use walnut_billing.Prelude.{◌≡◌, Bool, true}
use walnut_billing.Domain.Credit.{ReservationStatus, TransactionType}
use walnut_billing.Repository.Error.{Error, err}
use walnut_billing.Repository.World.{Store, World, Env}
use walnut_billing.Repository.Monad.{Action, raise_if, ◌>>◌}
use walnut_billing.Repository.Keeps.{Keeps-raise_if, Keeps-time_now, Keeps-if, Keeps-pure}
use walnut_billing.Repository.Atomic.{
  IsAtomic, IsAtomic-bind, IsAtomic-map, IsAtomic-Keeps, IsAtomic-in_transaction,
}
use walnut_billing.Credit.Ledger.{
  CreditGrantInput, CreditReservationInput, CreditFinalizationInput, CreditBucketExpiryInput,
}
use walnut_billing.Credit.Service.{CreditService, with_credit_transaction}
use walnut_billing.Credit.Grant.{grant}
use walnut_billing.Credit.Reserve.{reserve}
use walnut_billing.Credit.Finalize.{finalize_reservation, commit, release}
use walnut_billing.Credit.Queries.{expiry_time, expire_buckets}
use walnut_billing.Credit.Requests.{Request}
use walnut_billing.Credit.Requests.Handle.{handle}
use walnut_billing.Credit.Reads.{
  account_for_user-Keeps, list_transactions-Keeps, list_usage_records-Keeps,
}
use walnut_billing.Credit.Books.Kept.{ensure_user-Keeps, check_expiry-Keeps}

module _ (env : Env) (restores : (before now : Store) → env.gorm.rollback before now ≡ before)
    (svc : CreditService) (uow : svc.has_uow ≡ true) where
  in_unit_of_work :
      {A : Type 0} (fn : Bool → Action A) → IsAtomic (with_credit_transaction env svc fn)
  unfolding with_credit_transaction
  in_unit_of_work fn = rw uow (IsAtomic-in_transaction env.gorm restores (fn true))

  guarded :
      {A : Type 0} (c : Bool) (e : Error) (m : Action A) → IsAtomic m → IsAtomic (raise_if c e >> m)
  guarded c e m h = IsAtomic-bind _ _ (λ s. Keeps-raise_if (λ t. t ≡ s) c e) λ u. h

  grant-IsAtomic : (input : CreditGrantInput) → IsAtomic (grant env svc input)
  unfolding grant
  grant-IsAtomic input = guarded _ _ _ (
      guarded _ _ _ (
        guarded _ _ _
          (IsAtomic-bind _ _ (λ s. ensure_user-Keeps (λ t. t ≡ s) env _ _) λ u. in_unit_of_work _)))

  reserve-IsAtomic : (input : CreditReservationInput) → IsAtomic (reserve env svc input)
  unfolding reserve
  reserve-IsAtomic input = guarded _ _ _ (
      guarded _ _ _ (
        guarded _ _ _ (
          IsAtomic-bind _ _ (λ s. check_expiry-Keeps (λ t. t ≡ s) env _)
            λ u.
              IsAtomic-bind _ _ (λ s. ensure_user-Keeps (λ t. t ≡ s) env _ _)
                λ v. in_unit_of_work _)))

  finalize-IsAtomic :
      (input : CreditFinalizationInput) (final : ReservationStatus) (type : TransactionType)
      → IsAtomic (finalize_reservation env svc input final type)
  unfolding finalize_reservation
  finalize-IsAtomic input final type = guarded _ _ _ (guarded _ _ _ (in_unit_of_work _))

  expire_buckets-IsAtomic :
      (input : CreditBucketExpiryInput) → IsAtomic (expire_buckets env svc input)
  unfolding expire_buckets expiry_time
  expire_buckets-IsAtomic input =
      IsAtomic-bind _ _ (λ s. Keeps-if (λ t. t ≡ s) _ _ _ (Keeps-time_now _ env) (Keeps-pure _ _))
        λ now. in_unit_of_work _

  handle-IsAtomic : (request : Request) → IsAtomic (handle env svc request)
  unfolding handle commit release
  handle-IsAtomic (Request.account_for_user user_id) =
      IsAtomic-map _ _ (IsAtomic-Keeps _ λ s. account_for_user-Keeps (λ t. t ≡ s) env user_id)
  handle-IsAtomic (Request.grant input) = IsAtomic-map _ _ (grant-IsAtomic input)
  handle-IsAtomic (Request.reserve input) = IsAtomic-map _ _ (reserve-IsAtomic input)
  handle-IsAtomic (Request.commit input) = IsAtomic-map _ _ (finalize-IsAtomic input _ _)
  handle-IsAtomic (Request.release input) = IsAtomic-map _ _ (finalize-IsAtomic input _ _)
  handle-IsAtomic (Request.expire_buckets input) = IsAtomic-map _ _ (expire_buckets-IsAtomic input)
  handle-IsAtomic (Request.list_transactions user_id limit offset) =
      IsAtomic-map _ _
        (IsAtomic-Keeps _ λ s. list_transactions-Keeps (λ t. t ≡ s) env user_id limit offset)
  handle-IsAtomic (Request.list_usage_records q) =
      IsAtomic-map _ _ (IsAtomic-Keeps _ λ s. list_usage_records-Keeps (λ t. t ≡ s) env q)

  -- If a rollback restores the rows at the begin and the service has a unit of work, then a request that
  -- ends in an error has left every table as it was, whichever of its steps failed.
  pub handle_atomic :
      (request : Request) (w : World) (e : Error)
      → (handle env svc request w).0 ≡ err e
      → (handle env svc request w).1.store ≡ w.store
  handle_atomic request w e = (handle-IsAtomic request).undone w e
