-- ===== src/Payment/AdjustmentPolicy/Actions.antt =====
-- The flags and the action of a decision of internal/service/payment_adjustment_policy.go.
use walnut_billing.Prelude.{
  String, ◌≡◌, refl, not, ◌&&◌, Bool, true, false, ◌⊎◌, inl, inr, Option, none, some, if◌then◌else◌,
}
use walnut_billing.Prelude.Text.{◌==◌, trim}
use walnut_billing.Prelude.Int.{leb_ℤ}
use walnut_billing.Domain.{Time}
use walnut_billing.Payment.Order.{PaymentEventInbox}
use walnut_billing.Payment.EventType
use walnut_billing.Payment.Action
use walnut_billing.Payment.AdjustmentPolicy.{
  PaymentAdjustmentPolicyConfig, PaymentAdjustmentPolicyInput, PaymentAdjustmentPolicyDecision,
  normalize_action, normalize_config, decision_from_action, refund_window, refund_decision,
  decide_event, decide,
}

-- One of the four actions.
abbrev pub IsAction : String → Type 0
IsAction a =
    (a ≡ Action.auto_refund)
    ⊎ (a ≡ Action.manual_review)
    ⊎ (a ≡ Action.reject)
    ⊎ (a ≡ Action.keep_current_period)

-- The credits are taken back, the entitlements revoked and the compensation applied together, and only
-- for a refund; the other two flags tell a review and a rejection.
pub record IsDecided (d : PaymentAdjustmentPolicyDecision) : Type 0 where
  pub one_action : IsAction d.action
  pub compensates : d.apply_compensation ≡ (d.action == Action.auto_refund)
  pub revokes : d.revoke_entitlements ≡ (d.action == Action.auto_refund)
  pub claws_back : d.clawback_credits ≡ (d.action == Action.auto_refund)
  pub reviews : d.manual_review ≡ (d.action == Action.manual_review)
  pub rejects : d.rejected ≡ (d.action == Action.reject)

normalize_action-IsAction :
    (raw fallback : String) → IsAction fallback → IsAction (normalize_action raw fallback)
unfolding normalize_action
normalize_action-IsAction raw fallback h =
    branches (trim raw == Action.auto_refund) (trim raw == Action.manual_review)
      (trim raw == Action.reject) (trim raw == Action.keep_current_period)
  where
    branches :
        (a b c d : Bool)
        → IsAction (
            if a
            then Action.auto_refund
            else if b
            then Action.manual_review
            else if c
            then Action.reject
            else if d
            then Action.keep_current_period
            else fallback)
    branches true b c d = inl refl
    branches false true c d = inr (inl refl)
    branches false false true d = inr (inr (inl refl))
    branches false false false true = inr (inr (inr refl))
    branches false false false false = h

decision_from_action-IsDecided :
    (raw reason : String) (flag : Bool) (ends : Option Time)
    → IsDecided (decision_from_action raw reason flag ends)
unfolding decision_from_action
decision_from_action-IsDecided raw reason flag ends = record {
  one_action = normalize_action-IsAction raw Action.manual_review (inr (inl refl));
  compensates = refund_alone (normalize_action-IsAction raw Action.manual_review (inr (inl refl)));
  revokes = refund_alone (normalize_action-IsAction raw Action.manual_review (inr (inl refl)));
  claws_back = refund_alone (normalize_action-IsAction raw Action.manual_review (inr (inl refl)));
  reviews = refl;
  rejects = refl;
}
  where
    refund_alone :
        {a : String}
        → IsAction a
        → ((a == Action.auto_refund) && not (a == Action.keep_current_period))
          ≡ (a == Action.auto_refund)
    refund_alone (inl h) = rw h refl
    refund_alone (inr (inl h)) = rw h refl
    refund_alone (inr (inr (inl h))) = rw h refl
    refund_alone (inr (inr (inr h))) = rw h refl

refund_decision-IsDecided :
    (c : PaymentAdjustmentPolicyConfig) (now : Time) (input : PaymentAdjustmentPolicyInput)
    → IsDecided (refund_decision c now input)
unfolding refund_decision
refund_decision-IsDecided c now input =
    let (within, ends, known) = refund_window c now input.order in
    branches ends known within (c.low_usage_policy_enabled && input.usage.known)
      (leb_ℤ input.usage.credits_used c.low_usage_max_credits_used)
  where
    branches :
        (ends : Option Time) (known within low few : Bool)
        → IsDecided (
            if not known
            then decision_from_action c.refund_out_of_window_action "refund_window_unknown" false
                ends
            else if not within
            then decision_from_action c.refund_out_of_window_action "refund_out_of_window" false
                ends
            else if low
            then if few
              then decision_from_action c.low_usage_action "refund_low_usage" false ends
              else decision_from_action c.high_usage_action "refund_high_usage" false ends
            else decision_from_action c.refund_in_window_action "refund_in_window" false ends)
    branches ends false within low few = decision_from_action-IsDecided _ _ _ _
    branches ends true false low few = decision_from_action-IsDecided _ _ _ _
    branches ends true true true true = decision_from_action-IsDecided _ _ _ _
    branches ends true true true false = decision_from_action-IsDecided _ _ _ _
    branches ends true true false few = decision_from_action-IsDecided _ _ _ _

-- The note and the risk flag play no part in the action.
IsDecided-note :
    (d : PaymentAdjustmentPolicyDecision) (note : String) (flag : Bool)
    → IsDecided d
    → IsDecided (record d { note = note; create_risk_flag = flag })
IsDecided-note d note flag h = record {
  one_action = h.one_action;
  compensates = h.compensates;
  revokes = h.revokes;
  claws_back = h.claws_back;
  reviews = h.reviews;
  rejects = h.rejects;
}

-- For every configuration, time and input, the decision has one of the four actions; it applies the
-- compensation, revokes the entitlements and takes the credits back together and just when the action
-- is a refund; and its other two flags tell a manual review and a rejection.
pub decide-IsDecided :
    (config : PaymentAdjustmentPolicyConfig) (now : Time) (input : PaymentAdjustmentPolicyInput)
    → IsDecided (decide config now input)
unfolding decide decide_event
decide-IsDecided config now input = by_event input.event
  where
    branches :
        (cancelled disputed refunded : Bool)
        → IsDecided (
            if cancelled
            then record (decision_from_action
                (normalize_config config).cancel_action
                "cancel_keeps_current_paid_period"
                false
                none) { note = "cancel_keeps_current_paid_period" }
            else if disputed
            then record (decision_from_action
                (normalize_config config).dispute_action
                "payment_disputed"
                true
                none) { create_risk_flag = true }
            else if refunded
            then refund_decision (normalize_config config) now input
            else decision_from_action Action.reject "unsupported_payment_event" false none)
    branches true disputed refunded =
        IsDecided-note _ "cancel_keeps_current_paid_period" _
          (decision_from_action-IsDecided _ _ _ _)
    branches false true refunded = IsDecided-note _ _ true (decision_from_action-IsDecided _ _ _ _)
    branches false false true = refund_decision-IsDecided _ _ _
    branches false false false = decision_from_action-IsDecided _ _ _ _

    by_event :
        (event : Option PaymentEventInbox)
        → IsDecided (elim event [
          | none ↦ decision_from_action Action.reject "invalid_payment_event" false none
          | some e ↦ decide_event (normalize_config config) now input e
        ])
    by_event none = decision_from_action-IsDecided _ _ _ _
    by_event (some e) =
        branches (e.event_type == EventType.cancelled) (e.event_type == EventType.disputed)
          (e.event_type == EventType.refunded)
