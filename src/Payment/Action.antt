-- ===== src/Payment/Action.antt =====
-- `PaymentAdjustmentAction…` of internal/service/payment_adjustment_policy.go.
use walnut_billing.Prelude.{String}

abbrev pub auto_refund : String
auto_refund = "auto_refund"

abbrev pub manual_review : String
manual_review = "manual_review"

abbrev pub reject : String
reject = "reject"

abbrev pub keep_current_period : String
keep_current_period = "keep_current_period"
