-- ===== src/Payment/RenewalPolicy.antt =====
-- The decision on renewals: internal/service/subscription_renewal_policy.go.
pub mod Decisions
use walnut_billing.Prelude.{String, ◌||◌, Option, none, some, if◌then◌else◌}
use walnut_billing.Prelude.Int.{ℤ, pos, leb_ℤ}
use walnut_billing.Prelude.Text.{◌==◌, trim}
use walnut_billing.Payment.Order.{PaymentEventInbox}
use walnut_billing.Payment.EventType

pub record SubscriptionRenewalPolicyDecision : Type 0 where
  pub action : String
  pub reason : String
  pub grace_period_days : ℤ

pub record SubscriptionRenewalPolicyConfig : Type 0 where
  pub grace_period_days : ℤ
  pub expired_action : String

-- `DefaultSubscriptionRenewalPolicyConfig`
abbrev pub default_renewal_config : SubscriptionRenewalPolicyConfig
default_renewal_config = record { grace_period_days = pos 3; expired_action = "expire_grace" }

-- `normalizeSubscriptionRenewalPolicyConfig`
unfoldable pub normalize_renewal_config :
    SubscriptionRenewalPolicyConfig → SubscriptionRenewalPolicyConfig
normalize_renewal_config c = record {
  grace_period_days =
      if leb_ℤ c.grace_period_days (pos 0)
      then default_renewal_config.grace_period_days
      else c.grace_period_days;
  expired_action =
      if (trim c.expired_action == "expire_grace") || (trim c.expired_action == "natural_expiry")
      then trim c.expired_action
      else default_renewal_config.expired_action;
}

abbrev pub unsupported : SubscriptionRenewalPolicyDecision
unsupported = record {
  action = "ignore";
  reason = "unsupported_subscription_event";
  grace_period_days = pos 0;
}

-- The decision on the type of an event.
unfoldable pub decide_renewal_type :
    SubscriptionRenewalPolicyConfig → String → SubscriptionRenewalPolicyDecision
decide_renewal_type c type =
    if type == EventType.renewal_paid
    then record { action = "fulfill_renewal"; reason = "renewal_paid"; grace_period_days = pos 0 }
    else if type == EventType.renewal_failed
    then record {
      action = "grant_grace";
      reason = "renewal_payment_failed";
      grace_period_days = c.grace_period_days;
    }
    else if type == EventType.subscription_expired
    then record {
      action = c.expired_action;
      reason = "subscription_expired";
      grace_period_days = c.grace_period_days;
    }
    else unsupported

-- `NewConfigurableSubscriptionRenewalPolicy` and `Decide`; the order plays no part.
unfoldable pub decide_renewal :
    SubscriptionRenewalPolicyConfig → Option PaymentEventInbox → SubscriptionRenewalPolicyDecision
unfolding decide_renewal_type
decide_renewal config none = unsupported
decide_renewal config (some event) =
    decide_renewal_type (normalize_renewal_config config) (trim event.event_type)
