-- ===== src/Payment/Order.antt =====
-- Orders and payment events: `Order` and `PaymentEventInbox` of internal/domain/models.go.
use walnut_billing.Prelude.{ℕ, String, Bool, true, false, Option}
use walnut_billing.Prelude.Int.{ℤ}
use walnut_billing.Domain.{Time}

pub data OrderStatus : Type 0 where
  pending checkout_created paid fulfilled cancelled refunded failed : OrderStatus

pub record Order : Type 0 where
  pub id : ℕ
  pub out_trade_no : String
  pub license_key : String
  pub user_id : String
  pub sku_code : String
  pub amount : ℤ
  pub currency : String
  pub status : OrderStatus
  pub provider : String
  pub trade_no : String
  pub provider_checkout_id : String
  pub provider_customer_id : String
  pub checkout_url : String
  pub idempotency_key : Option String
  pub paid_at : Option Time
  pub fulfilled_at : Option Time
  pub metadata : String
  pub order_type : String

-- An event of a provider, as the inbox stores it; the type is the text that the provider sent.
pub record PaymentEventInbox : Type 0 where
  pub id : String
  pub provider : String
  pub provider_event_id : String
  pub event_type : String
  pub out_trade_no : String
  pub provider_trade_no : String
  pub amount : ℤ
  pub currency : String
  pub period_start_at : Option Time
  pub period_end_at : Option Time
  pub signature_verified : Bool
  pub payload_hash : String
  pub raw_payload : String
  pub status : String
  pub attempts : ℤ
  pub last_error : String
  pub received_at : Time
  pub processed_at : Option Time
  pub created_at : Time
  pub updated_at : Time

-- `status == OrderStatusPaid || status == OrderStatusFulfilled`
abbrev pub is_settled : OrderStatus → Bool
is_settled OrderStatus.paid = true
is_settled OrderStatus.fulfilled = true
is_settled _ = false

-- `status == OrderStatusPending || status == OrderStatusCheckoutCreated`
abbrev pub is_open : OrderStatus → Bool
is_open OrderStatus.pending = true
is_open OrderStatus.checkout_created = true
is_open _ = false
