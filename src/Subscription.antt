-- ===== src/Subscription.antt =====
-- Software subscriptions: internal/service/software_subscription_projection.go, and the checkout policy on
-- it of internal/service/checkout_policy.go.
pub mod Projection
pub mod CheckoutPlan
