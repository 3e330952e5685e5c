-- ===== src/Credit/Queries.antt =====
-- `ExpireBuckets`, `ListTransactions` and `ListUsageRecords` of internal/service/credit.go.
use walnut_billing.Prelude.{String, List, map, keep, nat_eq, if◌then◌else◌}
use walnut_billing.Prelude.Int.{ℤ}
use walnut_billing.Prelude.Text.{◌==◌, trim, is_empty}
use walnut_billing.Domain.{Time}
use walnut_billing.Domain.Credit.{CreditTransaction, CreditReservation}
use walnut_billing.Repository.Error.{user_not_found}
use walnut_billing.Repository.World.{Env}
use walnut_billing.Repository.Monad.{Action, pure, raise_if, ◌>>=◌, ◌>>◌, time_now}
use walnut_billing.Repository.Credit.{
  CreditReservationQuery, list_transactions_by_user, list_reservations,
  list_transactions_by_reservation_ids,
}
use walnut_billing.Credit.Ledger.{CreditBucketExpiryInput, CreditBucketExpiryResult}
use walnut_billing.Credit.Holding.{expire_credit_buckets_with_repos}
use walnut_billing.Credit.Usage.{UsageRecord, usage_record_from_reservation}
use walnut_billing.Credit.Service.{CreditService, with_credit_transaction}

-- `UsageRecordQuery`
pub record UsageRecordQuery : Type 0 where
  pub user_id : String
  pub feature_id : String
  pub operation : String
  pub execution_id : String
  pub status : String
  pub limit : ℤ
  pub offset : ℤ

-- The query of `ListUsageRecords`, its texts trimmed.
unfoldable pub reservation_query : UsageRecordQuery → CreditReservationQuery
unfolding trim
reservation_query q = record {
  user_id = trim q.user_id;
  feature_id = trim q.feature_id;
  operation = trim q.operation;
  execution_id = trim q.execution_id;
  status = trim q.status;
  limit = q.limit;
  offset = q.offset;
}

module _ (env : Env) where
  -- The zero time stands for now.
  unfoldable pub expiry_time : Time → Action Time
  expiry_time now = if nat_eq now 0 then time_now env else pure now

  -- `ExpireBuckets`
  unfoldable pub expire_buckets :
      CreditService → CreditBucketExpiryInput → Action CreditBucketExpiryResult
  unfolding expiry_time
  expire_buckets svc input = do
    now ← expiry_time input.now
    with_credit_transaction env svc
        λ has_buckets. expire_credit_buckets_with_repos env has_buckets now input.limit ""

  -- `ListTransactions`
  unfoldable pub list_transactions : String → ℤ → ℤ → Action (List CreditTransaction)
  unfolding trim is_empty
  list_transactions user_id limit offset = do
    raise_if (is_empty (trim user_id)) user_not_found
    list_transactions_by_user env.gorm (trim user_id) limit offset

  -- The records of reservations, each with its own transactions.
  unfoldable pub usage_records : List CreditTransaction → List CreditReservation → List UsageRecord
  usage_records transactions =
      map
        λ r. usage_record_from_reservation env r (keep (λ t. t.reservation_id == r.id) transactions)

  -- `ListUsageRecords`
  unfoldable pub list_usage_records : UsageRecordQuery → Action (List UsageRecord)
  unfolding trim is_empty reservation_query usage_records
  list_usage_records q = do
    raise_if (is_empty (trim q.user_id)) user_not_found
    reservations ← list_reservations env.gorm (reservation_query q)
    transactions ← list_transactions_by_reservation_ids env.gorm (map (λ r. r.id) reservations)
    pure (usage_records transactions reservations)
