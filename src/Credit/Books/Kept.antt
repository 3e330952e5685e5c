-- ===== src/Credit/Books/Kept.antt =====
-- The books over the mutations of the wallet (internal/service/credit.go), in a unit of work.
use walnut_billing.Prelude.{◌≡◌, refl, Bool, true, Option, none, some}
use walnut_billing.Domain.{Time}
use walnut_billing.Domain.Credit.{ReservationStatus, TransactionType, is_pending, is_released}
use walnut_billing.Repository.World.{Store, World, Env}
use walnut_billing.Repository.Monad.{Action}
use walnut_billing.Repository.Ensures.{Ensures, Ensures-if_found}
use walnut_billing.Repository.Keeps.{
  Keeps, Keeps-pure, Keeps-bind, Keeps-read, Keeps-not_found_as, Keeps-raise_if, Keeps-time_now,
  Keeps-if, Keeps-in_transaction, Ensures-Keeps,
}
use walnut_billing.Repository.Credit.{
  user_by_id, reservation_by_idempotency_key, transaction_by_idempotency_key,
}
use walnut_billing.Repository.Credit.Rules.{IsGorm}
use walnut_billing.Credit.Ledger.{
  CreditGrantInput, CreditReservationInput, CreditFinalizationInput, CreditBucketExpiryInput,
}
use walnut_billing.Credit.Service.{CreditService, with_credit_transaction, ensure_user}
use walnut_billing.Credit.Grant.{grant}
use walnut_billing.Credit.Reserve.{check_expiry, reserve}
use walnut_billing.Credit.Finalize.{is_release, finalize_reservation, commit, release}
use walnut_billing.Credit.Queries.{expiry_time, expire_buckets}
use walnut_billing.Credit.Replay.{replay_reserve-Keeps, replay_finalize-Keeps}
use walnut_billing.Credit.Books.{IsConsistent}
use walnut_billing.Credit.Books.Granting.{grant_credits-Kept}
use walnut_billing.Credit.Books.Reserving.{apply_reserve-Kept}
use walnut_billing.Credit.Books.Finalizing.{apply_finalize-Kept}
use walnut_billing.Credit.Books.Sweep.{expire_credit_buckets-Kept}

-- What comes before the unit of work reads the tables at most.
module _ (P : Store → Type 0) (env : Env) where
  pub ensure_user-Keeps : (b : Bool) (user_id : _) → Keeps P (ensure_user env b user_id)
  unfolding ensure_user user_by_id
  ensure_user-Keeps Bool.false user_id = Keeps-pure P _
  ensure_user-Keeps Bool.true user_id =
      Keeps-bind P _ _ (Keeps-not_found_as P _ _ (Keeps-read P _)) λ u. Keeps-pure P _

  pub check_expiry-Keeps : (t : Option Time) → Keeps P (check_expiry env t)
  unfolding check_expiry
  check_expiry-Keeps none = Keeps-pure P _
  check_expiry-Keeps (some t) = Keeps-bind P _ _ (Keeps-time_now P env) λ now. Keeps-raise_if P _ _

module _ (env : Env) (laws : IsGorm env.gorm) (svc : CreditService) (uow : svc.has_uow ≡ true) where
  in_unit_of_work :
      {A : Type 0} (fn : Bool → Action A)
      → ((w : World) → IsConsistent w.store → Ensures (λ a w'. IsConsistent w'.store) (fn true w))
      → Keeps IsConsistent (with_credit_transaction env svc fn)
  unfolding with_credit_transaction
  in_unit_of_work fn h =
      rw uow (Keeps-in_transaction IsConsistent env.gorm laws.restores (fn true) h)

  -- If GORM keeps its promises and the service has a unit of work, a grant on consistent books leaves
  -- consistent books, for any input and whatever it returns: each balance is the sum of the account's
  -- ledger rows and each reserved amount the sum of its pending reservations, modulo 2^64.
  pub grant-IsConsistent :
      (input : CreditGrantInput) (w : World)
      → IsConsistent w.store
      → IsConsistent (grant env svc input w).1.store
  unfolding grant
  grant-IsConsistent input w c =
      (Keeps-bind IsConsistent _ _ (Keeps-raise_if IsConsistent _ _) λ _.
          Keeps-bind IsConsistent _ _ (Keeps-raise_if IsConsistent _ _) λ _.
            Keeps-bind IsConsistent _ _ (Keeps-raise_if IsConsistent _ _) λ _.
              Keeps-bind IsConsistent _ _ (ensure_user-Keeps IsConsistent env _ _)
                λ _. in_unit_of_work _ (grant_credits-Kept env laws true input)).keeps
        w c

  -- If GORM keeps its promises and the service has a unit of work, a reservation on consistent books
  -- leaves consistent books, for any input and whatever it returns.
  pub reserve-IsConsistent :
      (input : CreditReservationInput) (w : World)
      → IsConsistent w.store
      → IsConsistent (reserve env svc input w).1.store
  unfolding reserve reservation_by_idempotency_key
  reserve-IsConsistent input w c =
      (Keeps-bind IsConsistent _ _ (Keeps-raise_if IsConsistent _ _) λ _.
          Keeps-bind IsConsistent _ _ (Keeps-raise_if IsConsistent _ _) λ _.
            Keeps-bind IsConsistent _ _ (Keeps-raise_if IsConsistent _ _) λ _.
              Keeps-bind IsConsistent _ _ (check_expiry-Keeps IsConsistent env _) λ _.
                Keeps-bind IsConsistent _ _ (ensure_user-Keeps IsConsistent env _ _) λ _.
                  in_unit_of_work _ λ v h.
                    Ensures-if_found _ _ _ _ v
                      (λ r e.
                        Ensures-Keeps IsConsistent _ v (replay_reserve-Keeps IsConsistent env r) h)
                      (λ missing. apply_reserve-Kept env laws true input _ v h)).keeps
        w c

  finalize_with-IsConsistent :
      (input : CreditFinalizationInput) (final : ReservationStatus) (type : TransactionType)
      (w : World)
      → is_pending final ≡ Bool.false
      → is_release type ≡ is_released final
      → IsConsistent w.store
      → IsConsistent (finalize_reservation env svc input final type w).1.store
  unfolding finalize_reservation transaction_by_idempotency_key
  finalize_with-IsConsistent input final type w done agree c =
      (Keeps-bind IsConsistent _ _ (Keeps-raise_if IsConsistent _ _) λ _.
          Keeps-bind IsConsistent _ _ (Keeps-raise_if IsConsistent _ _) λ _.
            in_unit_of_work _ λ v h.
              Ensures-if_found _ _ _ _ v
                (λ t e. Ensures-Keeps IsConsistent _ v (replay_finalize-Keeps IsConsistent env t) h)
                (λ missing. apply_finalize-Kept env laws final type done agree true _ _ v h)).keeps
        w c

  -- If GORM keeps its promises and the service has a unit of work, a commit and a release on consistent
  -- books leave consistent books, for any input and whatever they return.
  pub finalize-IsConsistent :
      (input : CreditFinalizationInput) (w : World)
      → IsConsistent w.store
      → IsConsistent (commit env svc input w).1.store
        × IsConsistent (release env svc input w).1.store
  unfolding commit release
  finalize-IsConsistent input w c = (
    finalize_with-IsConsistent input ReservationStatus.committed TransactionType.commit w refl refl
        c,
    finalize_with-IsConsistent input ReservationStatus.released TransactionType.release w refl refl
        c,
  )

  -- If GORM keeps its promises and the service has a unit of work, the sweep over expired buckets on
  -- consistent books leaves consistent books, for any input and whatever it returns.
  pub expire_buckets-IsConsistent :
      (input : CreditBucketExpiryInput) (w : World)
      → IsConsistent w.store
      → IsConsistent (expire_buckets env svc input w).1.store
  unfolding expire_buckets expiry_time
  expire_buckets-IsConsistent input w c =
      (Keeps-bind IsConsistent _ _
          (Keeps-if IsConsistent _ _ _ (Keeps-time_now IsConsistent env)
            (Keeps-pure IsConsistent _))
          λ now.
            in_unit_of_work _ (expire_credit_buckets-Kept env laws true now input.limit "")).keeps
        w c
