-- ===== src/Payment/OrderEvents/Transitions.antt =====
-- The moves of an order, one event after another.
use walnut_billing.Prelude.{
  String, ◌≡◌, refl, ◌⊎◌, inl, inr, ◌||◌, Bool, true, false, Bool-cases, Option, none, some, arith,
  if◌then◌else◌,
}
use walnut_billing.Prelude.Text.{◌==◌, eq_iff}
use walnut_billing.Domain.{Time}
use walnut_billing.Repository.Error.{Result, ok, err}
use walnut_billing.Payment.Order.{Order, OrderStatus, PaymentEventInbox, is_settled, is_open}
use walnut_billing.Payment.EventType
use walnut_billing.Payment.OrderEvents.{
  EventError, not_processable, is_paid_event, paid_by, transition,
}

-- A refund or a dispute.
abbrev pub is_reversal : PaymentEventInbox → Bool
is_reversal event =
    (event.event_type == EventType.refunded) || (event.event_type == EventType.disputed)

-- The moves that an order's status may make under an event of a type.
pub data Moves (type : String) : OrderStatus → OrderStatus → Type 0 where
  pays :
      (s : OrderStatus)
      → is_paid_event type ≡ true
      → is_settled s ≡ false
      → Moves type s OrderStatus.paid
  cancels :
      (s : OrderStatus)
      → type ≡ EventType.cancelled
      → is_settled s ≡ false
      → Moves type s OrderStatus.cancelled
  reverses :
      (s : OrderStatus)
      → (type ≡ EventType.refunded) ⊎ (type ≡ EventType.disputed)
      → Moves type s OrderStatus.refunded
  fails :
      (s : OrderStatus)
      → type ≡ EventType.renewal_failed
      → is_settled s ≡ false
      → Moves type s OrderStatus.failed
  lapses :
      (s : OrderStatus)
      → type ≡ EventType.subscription_expired
      → is_open s ≡ true
      → Moves type s OrderStatus.failed
  stays :
      (s : OrderStatus) → type ≡ EventType.subscription_expired → is_open s ≡ false → Moves type s s

-- What no event changes.
pub record IsSameSale (o o' : Order) : Type 0 where
  pub same_id : o'.id ≡ o.id
  pub same_trade : o'.out_trade_no ≡ o.out_trade_no
  pub same_user : o'.user_id ≡ o.user_id
  pub same_sku : o'.sku_code ≡ o.sku_code
  pub same_amount : o'.amount ≡ o.amount
  pub same_currency : o'.currency ≡ o.currency
  pub same_fulfilled : o'.fulfilled_at ≡ o.fulfilled_at
  pub same_payment : (t : Time) → o.paid_at ≡ some t → o'.paid_at ≡ some t

pub if-elim :
    {A : Type 0} (Q : A → Type 0) (b : Bool) (x y : A)
    → (b ≡ true → Q x)
    → (b ≡ false → Q y)
    → Q (if b then x else y)
if-elim Q true x y h k = h refl
if-elim Q false x y h k = k refl

-- The branches of the switch, each with what has been tested before it.
module _ (event : PaymentEventInbox) (now : Time) (o : Order)
    (Q : Result EventError (Option Order) → Type 0) where
  unless_settled :
      (o' : Order)
      → (is_settled o.status ≡ true → Q (ok none))
      → (is_settled o.status ≡ false → Q (ok (some o')))
      → Q (ok (if is_settled o.status then none else some o'))
  unless_settled o' h k = if-elim (λ x. Q (ok x)) (is_settled o.status) none (some o') h k

  pub transition-elim :
      (is_paid_event event.event_type ≡ true → is_settled o.status ≡ true → Q (ok none))
      → (is_paid_event event.event_type ≡ true
          → is_settled o.status ≡ false
          → Q (ok (some (paid_by event now o))))
      → (is_paid_event event.event_type ≡ false
          → event.event_type ≡ EventType.cancelled
          → (is_settled o.status ≡ true → Q (ok none))
            × (is_settled o.status ≡ false
                → Q (ok (some (record o { status = OrderStatus.cancelled })))))
      → (is_paid_event event.event_type ≡ false
          → (event.event_type ≡ EventType.refunded) ⊎ (event.event_type ≡ EventType.disputed)
          → Q (ok (some (record o { status = OrderStatus.refunded }))))
      → (is_paid_event event.event_type ≡ false
          → event.event_type ≡ EventType.renewal_failed
          → (is_settled o.status ≡ true → Q (ok none))
            × (is_settled o.status ≡ false
                → Q (ok (some (record o { status = OrderStatus.failed })))))
      → (is_paid_event event.event_type ≡ false
          → event.event_type ≡ EventType.subscription_expired
          → Q (
              ok (some (if is_open o.status then record o { status = OrderStatus.failed } else o))))
      → Q (err not_processable)
      → Q (transition event now o)
  unfolding transition
  transition-elim paid_settled paid_open cancelled reversed failed expired other =
      if-elim Q (is_paid_event event.event_type) _ _
        (λ paid. unless_settled _ (paid_settled paid) (paid_open paid))
        λ unpaid.
          if-elim Q (event.event_type == EventType.cancelled) _ _
            (λ e.
              unless_settled _ (cancelled unpaid ((eq_iff _ _).0 e)).0
                (cancelled unpaid ((eq_iff _ _).0 e)).1)
            λ _.
              if-elim Q
                ((event.event_type == EventType.refunded)
                  || (event.event_type == EventType.disputed))
                _ _ (λ e. reversed unpaid (one_of e))
                λ _.
                  if-elim Q (event.event_type == EventType.renewal_failed) _ _
                    (λ e.
                      unless_settled _ (failed unpaid ((eq_iff _ _).0 e)).0
                        (failed unpaid ((eq_iff _ _).0 e)).1)
                    λ _.
                      if-elim Q (event.event_type == EventType.subscription_expired) _ _
                        (λ e. expired unpaid ((eq_iff _ _).0 e)) λ _. other
    where
      one_of :
          is_reversal event ≡ true
          → (event.event_type ≡ EventType.refunded) ⊎ (event.event_type ≡ EventType.disputed)
      one_of e = elim (Bool-cases (event.event_type == EventType.refunded)) [
        | inl h ↦ inl ((eq_iff _ _).0 h)
        | inr h ↦ inr ((eq_iff _ _).0 (ground arith))
      ]
