-- ===== src/Credit/Requests.antt =====
-- The interface `CreditService` of internal/service/credit.go: one request for each of its methods.
pub mod Handle
use walnut_billing.Prelude.{String, List}
use walnut_billing.Prelude.Int.{ℤ}
use walnut_billing.Domain.Credit.{CreditAccount, CreditTransaction}
use walnut_billing.Credit.Ledger.{
  CreditGrantInput, CreditReservationInput, CreditFinalizationInput, CreditBucketExpiryInput,
  CreditMutationResult, CreditBucketExpiryResult,
}
use walnut_billing.Credit.Usage.{UsageRecord}
use walnut_billing.Credit.Queries.{UsageRecordQuery}

pub data Request : Type 0 where
  account_for_user : String → Request
  grant : CreditGrantInput → Request
  reserve : CreditReservationInput → Request
  commit : CreditFinalizationInput → Request
  release : CreditFinalizationInput → Request
  expire_buckets : CreditBucketExpiryInput → Request
  list_transactions : String → ℤ → ℤ → Request
  list_usage_records : UsageRecordQuery → Request

pub data Response : Type 0 where
  account : CreditAccount → Response
  mutation : CreditMutationResult → Response
  expiry : CreditBucketExpiryResult → Response
  transactions : List CreditTransaction → Response
  usage : List UsageRecord → Response
