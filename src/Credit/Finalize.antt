-- ===== src/Credit/Finalize.antt =====
-- `Commit` and `Release`, by `finalizeReservation` of internal/service/credit.go.
use walnut_billing.Prelude.{
  String, Bool, true, false, not, ◌&&◌, Option, none, some, List, [], ◌∷◌, ltb, if◌then◌else◌,
}
use walnut_billing.Prelude.Int.{ℤ, pos, ltb_ℤ}
use walnut_billing.Prelude.Word.{add64, sub64}
use walnut_billing.Prelude.Text.{trim, is_empty}
use walnut_billing.Domain.{Time}
use walnut_billing.Domain.Credit.{
  CreditAccount, CreditTransaction, CreditReservation, TransactionType, ReservationStatus,
  is_pending, is_committed, is_released,
}
use walnut_billing.Repository.Error.{
  reservation_not_found, reservation_not_pending, reservation_expired, idempotency_required,
}
use walnut_billing.Repository.World.{Env, CreditBucketAllocation}
use walnut_billing.Repository.Monad.{
  Action, pure, raise_if, ◌>>=◌, ◌>>◌, if_found, not_found_as, time_now,
}
use walnut_billing.Repository.Credit.{
  account_by_id, update_account, reservation_by_id, update_reservation,
  transaction_by_idempotency_key,
}
use walnut_billing.Credit.Allocation.{
  decode_allocations, single_allocation_bucket_id, total_allocation_amount,
}
use walnut_billing.Credit.Ledger.{
  CreditFinalizationInput, CreditMutationResult, default_string, new_credit_transaction,
  with_balances,
}
use walnut_billing.Credit.Holding.{finalize_bucket_allocations}
use walnut_billing.Credit.Service.{CreditService, with_credit_transaction}

-- What a release gives back: the amount, less the shares whose buckets have expired.
unfoldable pub restored_amount : ReservationStatus → ℤ → List CreditBucketAllocation → ℤ → ℤ
unfolding total_allocation_amount
restored_amount final amount allocations bucket_restored =
    if is_released final
    then (let restored =
          add64 (sub64 amount (total_allocation_amount allocations)) bucket_restored in
        if ltb_ℤ restored (pos 0) then pos 0 else restored)
    else amount

-- A reservation with its final status.
unfoldable pub finalized : ReservationStatus → Time → CreditReservation → CreditReservation
finalized final now r = record r {
  status = final;
  updated_at = now;
  committed_at = if is_committed final then some now else r.committed_at;
  released_at = if is_committed final then r.released_at else some now;
}

-- The balance after a finalization: a release gives credits back.
unfoldable pub balance_after : ReservationStatus → CreditAccount → ℤ → ℤ
balance_after final account restored =
    if is_released final then add64 account.balance restored else account.balance

abbrev pub is_release : TransactionType → Bool
is_release TransactionType.release = true
is_release _ = false

-- `reservation.ExpiresAt != nil && !reservation.ExpiresAt.After(now)`
abbrev pub is_past : Option Time → Time → Bool
is_past none now = false
is_past (some t) now = not (ltb now t)

abbrev pub is_nonempty : List CreditBucketAllocation → Bool
is_nonempty [] = false
is_nonempty (_ ∷ _) = true

module _ (env : Env) where
  -- A finalization whose idempotency key has been used: the earlier transaction, with its own
  -- reservation and account.
  unfoldable pub replay_finalize : CreditTransaction → Action CreditMutationResult
  replay_finalize existing = do
    reservation ← reservation_by_id env.gorm existing.reservation_id
    account ← account_by_id env.gorm existing.account_id
    pure (record {
      account = account;
      reservation = some reservation;
      transaction = some existing;
      bucket = none;
    })

  -- The settlement of the buckets, with the amount that goes back to the balance.
  unfoldable pub settle_buckets :
      Bool → ReservationStatus → ℤ → List CreditBucketAllocation → Time → Action ℤ
  unfolding restored_amount
  settle_buckets has_buckets final amount allocations now =
      if has_buckets && is_nonempty allocations
      then (do
        bucket_restored ← finalize_bucket_allocations env allocations final now
        pure (restored_amount final amount allocations bucket_restored))
      else pure amount

  -- The rows that a finalization writes.
  unfoldable pub write_finalized :
      ReservationStatus
      → TransactionType
      → String
      → CreditReservation
      → CreditAccount
      → List CreditBucketAllocation
      → ℤ
      → Time
      → Action CreditMutationResult
  unfolding finalized balance_after
  write_finalized final type key reservation account allocations restored now = do
    let account' =
        with_balances account (balance_after final account restored)
          (sub64 account.reserved reservation.amount) now
    update_account env.gorm account'
    update_reservation env.gorm (finalized final now reservation)
    t ← new_credit_transaction env (record {
      account = account';
      reservation_id = reservation.id;
      bucket_id = single_allocation_bucket_id allocations;
      transaction_type = type;
      amount = if is_release type then restored else pos 0;
      idempotency_key = key;
      source = default_string (trim reservation.operation) "usage";
      description =
          if is_release type then "release reserved credits" else "commit reserved credits";
      created_at = now;
    })
    pure (record {
      account = account';
      reservation = some (finalized final now reservation);
      transaction = some t;
      bucket = none;
    })

  -- A finalization with a new idempotency key.
  unfoldable pub apply_finalize :
      Bool → ReservationStatus → TransactionType → String → String → Action CreditMutationResult
  unfolding settle_buckets write_finalized
  apply_finalize has_buckets final type reservation_id key = do
    reservation ← not_found_as reservation_not_found (reservation_by_id env.gorm reservation_id)
    raise_if (not (is_pending reservation.status)) reservation_not_pending
    now ← time_now env
    raise_if (is_committed final && is_past reservation.expires_at now) reservation_expired
    account ← account_by_id env.gorm reservation.account_id
    raise_if (ltb_ℤ account.reserved reservation.amount) reservation_not_pending
    let allocations = decode_allocations env reservation.bucket_allocations
    restored ← settle_buckets has_buckets final reservation.amount allocations now
    write_finalized final type key reservation account allocations restored now

  -- `finalizeReservation`
  unfoldable pub finalize_reservation :
      CreditService
      → CreditFinalizationInput
      → ReservationStatus
      → TransactionType
      → Action CreditMutationResult
  unfolding trim is_empty replay_finalize apply_finalize
  finalize_reservation svc input final type = do
    raise_if (is_empty (trim input.reservation_id)) reservation_not_found
    raise_if (is_empty (trim input.idempotency_key)) idempotency_required
    with_credit_transaction env svc λ has_buckets.
        if_found (transaction_by_idempotency_key env.gorm (trim input.idempotency_key))
          replay_finalize
          (apply_finalize has_buckets final type (trim input.reservation_id)
            (trim input.idempotency_key))

  -- `Commit`
  unfoldable pub commit : CreditService → CreditFinalizationInput → Action CreditMutationResult
  unfolding finalize_reservation
  commit svc input =
      finalize_reservation svc input ReservationStatus.committed TransactionType.commit

  -- `Release`
  unfoldable pub release : CreditService → CreditFinalizationInput → Action CreditMutationResult
  unfolding finalize_reservation
  release svc input =
      finalize_reservation svc input ReservationStatus.released TransactionType.release
