-- ===== src/Payment/AdjustmentPolicy/Refunds.antt =====
-- The refund window of internal/service/payment_adjustment_policy.go.
use walnut_billing.Prelude.{
  ℕ, suc, ◌+◌, ◌≤◌, String, ◌≡◌, refl, not, ◌&&◌, Bool, true, false, Bool-cases, inl, inr, Option,
  none, some, ltb, arith, if◌then◌else◌,
}
use walnut_billing.Prelude.Text.{◌==◌, trim}
use walnut_billing.Prelude.Int.{pos, eqb_ℤ}
use walnut_billing.Domain.{Time}
use walnut_billing.Payment.Order.{Order, PaymentEventInbox}
use walnut_billing.Payment.EventType
use walnut_billing.Payment.Action
use walnut_billing.Payment.AdjustmentPolicy.{
  PaymentAdjustmentPolicyConfig, PaymentAdjustmentPolicyInput, normalize_compensation_action,
  normalize_action, normalize_config, decision_from_action, days, refund_window, refund_decision,
  decide_event, decide,
}

-- The order has been paid, and at `now` no more than `n` days have passed since.
abbrev pub PaidWithin : ℕ → Time → Option Order → Type 0
PaidWithin n now order =
    (o : Order) × (paid : Time) × (order ≡ some o) × (o.paid_at ≡ some paid) × (now ≤ paid + days n)

window-PaidWithin :
    (c : PaymentAdjustmentPolicyConfig) (now : Time) (order : Option Order) (m : ℕ)
    → c.refund_window_days ≡ pos (suc m)
    → (refund_window c now order).2 ≡ true
    → (refund_window c now order).0 ≡ true
    → PaidWithin (suc m) now order
unfolding refund_window
window-PaidWithin c now none m configured = rw configured λ known within. cc
window-PaidWithin c now (some o) m configured = rw configured (paid_or_not o.paid_at refl)
  where
    paid_or_not :
        (p : Option Time)
        → o.paid_at ≡ p
        → (elim p as (λ q. Bool × Option Time × Bool) [
          | none ↦ (false, none, false)
          | some paid ↦ (not (ltb (paid + days (suc m)) now), some (paid + days (suc m)), true)
        ]).2
          ≡ true
        → (elim p as (λ q. Bool × Option Time × Bool) [
          | none ↦ (false, none, false)
          | some paid ↦ (not (ltb (paid + days (suc m)) now), some (paid + days (suc m)), true)
        ]).0
          ≡ true
        → PaidWithin (suc m) now (some o)
    paid_or_not none e known within = cc
    paid_or_not (some paid) e known within = (o, paid, refl, e, ground arith)

-- Without a refund as the action out of the window, a decision by that action does not compensate.
no_compensation :
    (raw reason : String) (ends : Option Time)
    → (trim raw == Action.auto_refund) ≡ false
    → (decision_from_action
        (normalize_compensation_action raw Action.manual_review)
        reason
        false
        ends).apply_compensation
      ≡ false
unfolding decision_from_action normalize_compensation_action normalize_action trim
no_compensation raw reason ends other =
    rw other (branches (trim raw == Action.manual_review) (trim raw == Action.reject))
  where
    branches :
        (b c : Bool)
        → (decision_from_action
            (if b then Action.manual_review else if c then Action.reject else Action.manual_review)
            reason
            false
            ends).apply_compensation
          ≡ false
    branches true c = refl
    branches false true = refl
    branches false false = refl

module _ (c : PaymentAdjustmentPolicyConfig)
    (outside : (reason : String) (ends : Option Time)
      → (decision_from_action c.refund_out_of_window_action reason false ends).apply_compensation
        ≡ false)
    (now : Time) (input : PaymentAdjustmentPolicyInput) where
  outside_window :
      (b : Bool)
      → (refund_window c now input.order).2 ≡ b
      → (b && (refund_window c now input.order).0) ≡ false
      → (refund_decision c now input).apply_compensation ≡ false
  unfolding refund_decision
  outside_window false unknown late = rw unknown (outside _ _)
  outside_window true known late = rw known (rw late (outside _ _))

  refund-PaidWithin :
      (m : ℕ)
      → c.refund_window_days ≡ pos (suc m)
      → (refund_decision c now input).apply_compensation ≡ true
      → PaidWithin (suc m) now input.order
  refund-PaidWithin m configured compensated =
      elim (Bool-cases (refund_window c now input.order).2) [
        | inl known ↦ elim (Bool-cases (refund_window c now input.order).0) [
          | inl within ↦ window-PaidWithin c now input.order m configured known within
          | inr late ↦ (let no = outside_window true known late in cc)
        ]
        | inr unknown ↦ (let no = outside_window false unknown refl in cc)
      ]

positive_days_kept :
    (m : ℕ) → (if eqb_ℤ (pos (suc m)) (pos 0) then pos 7 else pos (suc m)) ≡ pos (suc m)
positive_days_kept m = ground arith

-- If the window has a positive number of days and the action out of the window is not a refund, then a
-- refund event is compensated only for an order that has been paid, and no more than that many days
-- after its payment.
pub decide-PaidWithin :
    (config : PaymentAdjustmentPolicyConfig) (now : Time) (input : PaymentAdjustmentPolicyInput)
    (event : PaymentEventInbox) (m : ℕ)
    → input.event ≡ some event
    → event.event_type ≡ EventType.refunded
    → config.refund_window_days ≡ pos (suc m)
    → (trim config.refund_out_of_window_action == Action.auto_refund) ≡ false
    → (decide config now input).apply_compensation ≡ true
    → PaidWithin (suc m) now input.order
unfolding decide decide_event normalize_config refund_decision
decide-PaidWithin config now input event m is_event is_refund configured not_refunded =
    rw is_event (
      rw is_refund (
        refund-PaidWithin (normalize_config config)
          (λ reason ends.
            no_compensation config.refund_out_of_window_action reason ends not_refunded)
          now input m (rw configured (positive_days_kept m))))
