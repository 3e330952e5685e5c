-- ===== src/Credit/Reserve.antt =====
-- `Reserve` of internal/service/credit.go.
use Prim.Native.String.{◌++◌}
use walnut_billing.Prelude.{String, Bool, not, Option, none, some, List, ltb}
use walnut_billing.Prelude.Int.{pos, ltb_ℤ, leb_ℤ}
use walnut_billing.Prelude.Word.{add64, sub64, neg64}
use walnut_billing.Prelude.Text.{trim, is_empty}
use walnut_billing.Domain.{Time}
use walnut_billing.Domain.Credit.{CreditReservation, TransactionType, ReservationStatus}
use walnut_billing.Repository.Error.{
  user_not_found, invalid_credit_amount, insufficient_credits, reservation_expired,
  idempotency_required,
}
use walnut_billing.Repository.World.{Env, CreditBucketAllocation}
use walnut_billing.Repository.Monad.{
  Action, pure, raise_if, ◌>>=◌, ◌>>◌, if_found, time_now, generate_entity_id,
}
use walnut_billing.Repository.Credit.{
  account_by_id, update_account, create_reservation, reservation_by_idempotency_key,
}
use walnut_billing.Credit.Allocation.{encode_allocations, single_allocation_bucket_id}
use walnut_billing.Credit.Ledger.{
  CreditReservationInput, CreditMutationResult, default_string, new_credit_transaction,
  ensure_credit_account, with_balances,
}
use walnut_billing.Credit.Holding.{reserve_bucket_credits}
use walnut_billing.Credit.Usage.{encode_usage_metadata, sanitized_usage_metadata}
use walnut_billing.Credit.Service.{CreditService, with_credit_transaction, ensure_user}

module _ (env : Env) where
  -- The clock is read only for a reservation that expires.
  unfoldable pub check_expiry : Option Time → Action (Unit {0})
  check_expiry none = pure tt
  check_expiry (some t) = do now ← time_now env; raise_if (not (ltb now t)) reservation_expired

  -- A reservation whose idempotency key has been used: the earlier reservation.
  unfoldable pub replay_reserve : CreditReservation → Action CreditMutationResult
  replay_reserve existing = do
    account ← account_by_id env.gorm existing.account_id
    pure (record {
      account = account;
      reservation = some existing;
      transaction = none;
      bucket = none;
    })

  -- The row of a new reservation.
  unfoldable pub reservation_of :
      String
      → String
      → CreditReservationInput
      → String
      → List CreditBucketAllocation
      → Time
      → CreditReservation
  unfolding trim encode_allocations encode_usage_metadata sanitized_usage_metadata
  reservation_of id account_id input key allocations now = record {
    id = id;
    account_id = account_id;
    user_id = trim input.user_id;
    operation = trim input.operation;
    amount = input.amount;
    status = ReservationStatus.pending;
    idempotency_key = key;
    feature_id = trim input.feature_id;
    execution_id = trim input.execution_id;
    metadata = encode_usage_metadata env (sanitized_usage_metadata input.metadata);
    bucket_allocations = encode_allocations env allocations;
    expires_at = input.expires_at;
    committed_at = none;
    released_at = none;
    created_at = now;
    updated_at = now;
  }

  -- A reservation with a new idempotency key.
  unfoldable pub apply_reserve :
      Bool → CreditReservationInput → String → Action CreditMutationResult
  apply_reserve has_buckets input key = do
    found ← ensure_credit_account env (trim input.user_id)
    now ← time_now env
    (account, allocations) ← reserve_bucket_credits env has_buckets found input.amount now
    raise_if (ltb_ℤ account.balance input.amount) insufficient_credits
    let account' =
        with_balances account (sub64 account.balance input.amount)
          (add64 account.reserved input.amount) now
    update_account env.gorm account'
    id ← generate_entity_id env "crr_"
    create_reservation env.gorm (reservation_of id account'.id input key allocations now)
    t ← new_credit_transaction env (record {
      account = account';
      reservation_id = id;
      bucket_id = single_allocation_bucket_id allocations;
      transaction_type = TransactionType.reserve;
      amount = neg64 input.amount;
      idempotency_key = "reserve:" ++ key;
      source = default_string (trim input.operation) "usage";
      description = "reserve credits";
      created_at = now;
    })
    pure (record {
      account = account';
      reservation = some (reservation_of id account'.id input key allocations now);
      transaction = some t;
      bucket = none;
    })

  -- `Reserve`
  unfoldable pub reserve : CreditService → CreditReservationInput → Action CreditMutationResult
  unfolding trim is_empty check_expiry replay_reserve apply_reserve
  reserve svc input = do
    raise_if (is_empty (trim input.user_id)) user_not_found
    raise_if (leb_ℤ input.amount (pos 0)) invalid_credit_amount
    raise_if (is_empty (trim input.idempotency_key)) idempotency_required
    check_expiry input.expires_at
    ensure_user env svc.has_users (trim input.user_id)
    with_credit_transaction env svc λ has_buckets.
        if_found (reservation_by_idempotency_key env.gorm (trim input.idempotency_key))
          replay_reserve (apply_reserve has_buckets input (trim input.idempotency_key))
