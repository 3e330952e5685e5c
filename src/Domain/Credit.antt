-- ===== src/Domain/Credit.antt =====
-- The four tables of the credit wallet: internal/domain/models.go.
-- `int64` fields are integers; times are nanoseconds after Go's zero time, `*time.Time` is an
-- option. `json` strings keep their text.
use walnut_billing.Prelude.{ℕ, String, Bool, true, false, Option}
use walnut_billing.Prelude.Int.{ℤ}

pub data ReservationStatus : Type 0 where
  pending committed released : ReservationStatus

pub data TransactionType : Type 0 where
  grant reserve commit release clawback expire : TransactionType

pub data BucketStatus : Type 0 where
  active expired depleted : BucketStatus

pub data BucketType : Type 0 where
  admin legacy topup subscription_period : BucketType

abbrev pub is_pending : ReservationStatus → Bool
is_pending ReservationStatus.pending = true
is_pending _ = false

abbrev pub is_committed : ReservationStatus → Bool
is_committed ReservationStatus.committed = true
is_committed _ = false

abbrev pub is_released : ReservationStatus → Bool
is_released ReservationStatus.released = true
is_released _ = false

abbrev pub is_active : BucketStatus → Bool
is_active BucketStatus.active = true
is_active _ = false

abbrev pub is_topup : BucketType → Bool
is_topup BucketType.topup = true
is_topup _ = false

abbrev pub is_subscription_period : BucketType → Bool
is_subscription_period BucketType.subscription_period = true
is_subscription_period _ = false

-- The user's available and reserved credits.
pub record CreditAccount : Type 0 where
  pub id : String
  pub user_id : String
  pub balance : ℤ
  pub reserved : ℤ
  pub created_at : ℕ
  pub updated_at : ℕ

-- One source of credits, which may expire.
pub record CreditBucket : Type 0 where
  pub id : String
  pub account_id : String
  pub user_id : String
  pub type : BucketType
  pub source : String
  pub source_order_no : String
  pub source_transaction_id : String
  pub period_start_at : Option ℕ
  pub period_end_at : Option ℕ
  pub expires_at : Option ℕ
  pub granted : ℤ
  pub remaining : ℤ
  pub reserved : ℤ
  pub status : BucketStatus
  pub idempotency_key : String
  pub created_at : ℕ
  pub updated_at : ℕ

-- A pre-deduction for one operation.
pub record CreditReservation : Type 0 where
  pub id : String
  pub account_id : String
  pub user_id : String
  pub operation : String
  pub amount : ℤ
  pub status : ReservationStatus
  pub idempotency_key : String
  pub feature_id : String
  pub execution_id : String
  pub metadata : String
  pub bucket_allocations : String
  pub expires_at : Option ℕ
  pub committed_at : Option ℕ
  pub released_at : Option ℕ
  pub created_at : ℕ
  pub updated_at : ℕ

-- A row of the ledger.
pub record CreditTransaction : Type 0 where
  pub id : String
  pub account_id : String
  pub user_id : String
  pub reservation_id : String
  pub bucket_id : String
  pub type : TransactionType
  pub amount : ℤ
  pub balance_after : ℤ
  pub reserved_after : ℤ
  pub idempotency_key : String
  pub source : String
  pub description : String
  pub created_at : ℕ

-- The texts of the constants, which queries compare.
unfoldable pub reservation_status_text : ReservationStatus → String
reservation_status_text ReservationStatus.pending = "pending"
reservation_status_text ReservationStatus.committed = "committed"
reservation_status_text ReservationStatus.released = "released"

unfoldable pub bucket_status_text : BucketStatus → String
bucket_status_text BucketStatus.active = "active"
bucket_status_text BucketStatus.expired = "expired"
bucket_status_text BucketStatus.depleted = "depleted"

unfoldable pub bucket_type_text : BucketType → String
bucket_type_text BucketType.admin = "admin"
bucket_type_text BucketType.legacy = "legacy"
bucket_type_text BucketType.topup = "topup"
bucket_type_text BucketType.subscription_period = "subscription_period"
