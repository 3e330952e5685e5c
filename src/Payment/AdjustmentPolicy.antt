-- ===== src/Payment/AdjustmentPolicy.antt =====
-- The decision on refunds, disputes and cancellations:
-- internal/service/payment_adjustment_policy.go.
pub mod Actions
pub mod Refunds
use walnut_billing.Prelude.{
  ℕ, zero, suc, ◌+◌, ◌*◌, String, Bool, true, false, not, ◌&&◌, Option, none, some, ltb,
  if◌then◌else◌,
}
use walnut_billing.Prelude.Int.{ℤ, pos, negsuc, leb_ℤ, eqb_ℤ}
use walnut_billing.Prelude.Text.{◌==◌, trim}
use walnut_billing.Domain.{Time}
use walnut_billing.Payment.Order.{Order, PaymentEventInbox}
use walnut_billing.Payment.EventType
use walnut_billing.Payment.Action

pub record PaymentAdjustmentUsageSnapshot : Type 0 where
  pub known : Bool
  pub credits_granted : ℤ
  pub credits_available_for_clawback : ℤ
  pub credits_used : ℤ

pub record PaymentAdjustmentPolicyInput : Type 0 where
  pub event : Option PaymentEventInbox
  pub order : Option Order
  pub usage : PaymentAdjustmentUsageSnapshot

pub record PaymentAdjustmentPolicyDecision : Type 0 where
  pub action : String
  pub reason : String
  pub apply_compensation : Bool
  pub revoke_entitlements : Bool
  pub clawback_credits : Bool
  pub create_risk_flag : Bool
  pub refund_window_ends_at : Option Time
  pub manual_review : Bool
  pub rejected : Bool
  pub note : String

-- The configuration, without its clock, which the decision takes as a time.
pub record PaymentAdjustmentPolicyConfig : Type 0 where
  pub refund_window_days : ℤ
  pub refund_in_window_action : String
  pub refund_out_of_window_action : String
  pub low_usage_policy_enabled : Bool
  pub low_usage_max_credits_used : ℤ
  pub low_usage_action : String
  pub high_usage_action : String
  pub dispute_action : String
  pub cancel_action : String

-- `DefaultPaymentAdjustmentPolicyConfig`
abbrev pub default_config : PaymentAdjustmentPolicyConfig
default_config = record {
  refund_window_days = pos 7;
  refund_in_window_action = Action.auto_refund;
  refund_out_of_window_action = Action.manual_review;
  low_usage_policy_enabled = false;
  low_usage_max_credits_used = pos 0;
  low_usage_action = Action.auto_refund;
  high_usage_action = Action.manual_review;
  dispute_action = Action.auto_refund;
  cancel_action = Action.keep_current_period;
}

-- `normalizePaymentAdjustmentCompensationAction`
unfoldable pub normalize_compensation_action : String → String → String
unfolding trim
normalize_compensation_action action fallback =
    if trim action == Action.auto_refund
    then Action.auto_refund
    else if trim action == Action.manual_review
    then Action.manual_review
    else if trim action == Action.reject
    then Action.reject
    else fallback

-- `normalizePaymentAdjustmentAction`
unfoldable pub normalize_action : String → String → String
unfolding trim
normalize_action action fallback =
    if trim action == Action.auto_refund
    then Action.auto_refund
    else if trim action == Action.manual_review
    then Action.manual_review
    else if trim action == Action.reject
    then Action.reject
    else if trim action == Action.keep_current_period
    then Action.keep_current_period
    else fallback

-- `normalizePaymentAdjustmentPolicyConfig`
unfoldable pub normalize_config : PaymentAdjustmentPolicyConfig → PaymentAdjustmentPolicyConfig
unfolding normalize_compensation_action normalize_action
normalize_config c = record {
  refund_window_days =
      if eqb_ℤ c.refund_window_days (pos 0)
      then default_config.refund_window_days
      else c.refund_window_days;
  refund_in_window_action =
      normalize_compensation_action c.refund_in_window_action
        default_config.refund_in_window_action;
  refund_out_of_window_action =
      normalize_compensation_action c.refund_out_of_window_action
        default_config.refund_out_of_window_action;
  low_usage_policy_enabled = c.low_usage_policy_enabled;
  low_usage_max_credits_used = c.low_usage_max_credits_used;
  low_usage_action =
      normalize_compensation_action c.low_usage_action default_config.low_usage_action;
  high_usage_action =
      normalize_compensation_action c.high_usage_action default_config.high_usage_action;
  dispute_action = normalize_compensation_action c.dispute_action default_config.dispute_action;
  cancel_action = normalize_action c.cancel_action default_config.cancel_action;
}

-- `decisionFromAction`, with the window's end.
unfoldable pub decision_from_action :
    String → String → Bool → Option Time → PaymentAdjustmentPolicyDecision
unfolding normalize_action
decision_from_action raw reason create_risk_flag window_ends_at =
    let action = normalize_action raw Action.manual_review in
    let is_refund = (action == Action.auto_refund) && not (action == Action.keep_current_period) in
    record {
      action = action;
      reason = reason;
      apply_compensation = is_refund;
      revoke_entitlements = is_refund;
      clawback_credits = is_refund;
      create_risk_flag = create_risk_flag;
      refund_window_ends_at = window_ends_at;
      manual_review = action == Action.manual_review;
      rejected = action == Action.reject;
      note =
          if action == Action.reject
          then "refund_policy_rejected"
          else if action == Action.manual_review
          then "refund_policy_manual_review"
          else "";
    }

-- Nanoseconds of `n` days.
abbrev pub days : ℕ → ℕ
days n = n * 86400000000000

-- `refundWindow`: whether now is in the window, its end, and whether the window is known.
unfoldable pub refund_window :
    PaymentAdjustmentPolicyConfig → Time → Option Order → Bool × Option Time × Bool
refund_window c now order = elim c.refund_window_days [
  | negsuc _ ↦ (true, none, true)
  | pos n ↦ elim n [
    | zero ↦ (true, none, true)
    | suc m ↦ elim order [
      | none ↦ (false, none, false)
      | some o ↦ elim o.paid_at [
        | none ↦ (false, none, false)
        | some paid ↦ (not (ltb (paid + days (suc m)) now), some (paid + days (suc m)), true)
      ]
    ]
  ]
]

-- `refundDecision`
unfoldable pub refund_decision :
    PaymentAdjustmentPolicyConfig
    → Time
    → PaymentAdjustmentPolicyInput
    → PaymentAdjustmentPolicyDecision
refund_decision c now input =
    let (within, ends, known) = refund_window c now input.order in
    if not known
    then decision_from_action c.refund_out_of_window_action "refund_window_unknown" false ends
    else if not within
    then decision_from_action c.refund_out_of_window_action "refund_out_of_window" false ends
    else if c.low_usage_policy_enabled && input.usage.known
    then if leb_ℤ input.usage.credits_used c.low_usage_max_credits_used
      then decision_from_action c.low_usage_action "refund_low_usage" false ends
      else decision_from_action c.high_usage_action "refund_high_usage" false ends
    else decision_from_action c.refund_in_window_action "refund_in_window" false ends

-- The decision on an event, by its type.
unfoldable pub decide_event :
    PaymentAdjustmentPolicyConfig
    → Time
    → PaymentAdjustmentPolicyInput
    → PaymentEventInbox
    → PaymentAdjustmentPolicyDecision
decide_event c now input event =
    if event.event_type == EventType.cancelled
    then record (decision_from_action c.cancel_action "cancel_keeps_current_paid_period" false
        none) { note = "cancel_keeps_current_paid_period" }
    else if event.event_type == EventType.disputed
    then record (decision_from_action c.dispute_action "payment_disputed" true none) {
      create_risk_flag = true;
    }
    else if event.event_type == EventType.refunded
    then refund_decision c now input
    else decision_from_action Action.reject "unsupported_payment_event" false none

-- `NewConfigurablePaymentAdjustmentPolicy` and `Decide`
unfoldable pub decide :
    PaymentAdjustmentPolicyConfig
    → Time
    → PaymentAdjustmentPolicyInput
    → PaymentAdjustmentPolicyDecision
decide config now input = elim input.event [
  | none ↦ decision_from_action Action.reject "invalid_payment_event" false none
  | some event ↦ decide_event (normalize_config config) now input event
]
