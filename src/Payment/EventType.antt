-- ===== src/Payment/EventType.antt =====
-- `PaymentEventType…` of internal/domain/models.go.
use walnut_billing.Prelude.{String}

abbrev pub paid : String
paid = "payment.paid"

abbrev pub cancelled : String
cancelled = "payment.cancelled"

abbrev pub refunded : String
refunded = "payment.refunded"

abbrev pub disputed : String
disputed = "payment.disputed"

abbrev pub renewal_paid : String
renewal_paid = "payment.renewal_paid"

abbrev pub renewal_failed : String
renewal_failed = "payment.renewal_failed"

abbrev pub subscription_expired : String
subscription_expired = "payment.subscription_expired"
