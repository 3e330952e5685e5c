-- ===== src/Payment/OrderEvents/Status.antt =====
-- Which moves of an order an event makes, and what it leaves alone.
use walnut_billing.Prelude.{String, ◌≡◌, refl, Bool, Option, some}
use mathlib.Core.Path.{subst}
use walnut_billing.Domain.{Time}
use walnut_billing.Repository.Error.{Result, ok, err}
use walnut_billing.Payment.Order.{Order, OrderStatus, PaymentEventInbox, is_open}
use walnut_billing.Payment.OrderEvents.{EventError, paid_by, transition, check_payment, order_after}
use walnut_billing.Payment.OrderEvents.Transitions.{
  Moves, pays, cancels, reverses, fails, lapses, stays, IsSameSale, if-elim, transition-elim,
}

with_status-IsSameSale : (o : Order) (s : OrderStatus) → IsSameSale o (record o { status = s })
with_status-IsSameSale o s = record {
  same_id = refl;
  same_trade = refl;
  same_user = refl;
  same_sku = refl;
  same_amount = refl;
  same_currency = refl;
  same_fulfilled = refl;
  same_payment = λ t e. e;
}

paid_by-IsSameSale :
    (event : PaymentEventInbox) (now : Time) (o : Order) → IsSameSale o (paid_by event now o)
unfolding paid_by
paid_by-IsSameSale event now o = record {
  same_id = refl;
  same_trade = refl;
  same_user = refl;
  same_sku = refl;
  same_amount = refl;
  same_currency = refl;
  same_fulfilled = refl;
  same_payment = λ t e. rw e refl;
}

-- A result that updates the order to `o'`.
abbrev Updates : PaymentEventInbox → Order → Result EventError (Option Order) → Type 0
Updates event o r =
    (o' : Order) → r ≡ ok (some o') → Moves event.event_type o.status o'.status × IsSameSale o o'

updates_to :
    (event : PaymentEventInbox) (o p : Order)
    → Moves event.event_type o.status p.status
    → IsSameSale o p
    → Updates event o (ok (some p))
updates_to event o p moved same o' h =
    subst (λ q. Moves event.event_type o.status q.status × IsSameSale o q) (some_inj h)
      (moved, same)
  where
    some_inj :
        {r : Order} → ◌≡◌ {A = Result EventError (Option Order)} (ok (some p)) (ok (some r)) → p ≡ r
    some_inj h = cc

transition-Updates :
    (event : PaymentEventInbox) (now : Time) (o : Order) → Updates event o (transition event now o)
unfolding paid_by
transition-Updates event now o =
    transition-elim event now o (Updates event o) (λ paid settled o' h. cc)
      (λ paid unsettled.
        updates_to event o _ (pays o.status paid unsettled) (paid_by-IsSameSale event now o))
      (λ unpaid e. (
        λ settled o' h. cc,
        λ unsettled.
            updates_to event o _ (cancels o.status e unsettled) (with_status-IsSameSale o _),
      ))
      (λ unpaid e. updates_to event o _ (reverses o.status e) (with_status-IsSameSale o _))
      (λ unpaid e. (
        λ settled o' h. cc,
        λ unsettled. updates_to event o _ (fails o.status e unsettled) (with_status-IsSameSale o _),
      ))
      (λ unpaid e.
        if-elim (λ p. Updates event o (ok (some p))) (is_open o.status) _ _
          (λ early. updates_to event o _ (lapses o.status e early) (with_status-IsSameSale o _))
          (λ late.
            updates_to event o o (stays o.status e late) (with_status-IsSameSale o o.status)))
      (λ o' h. cc)

checked :
    (r : Result EventError (Unit {0})) (event : PaymentEventInbox) (o : Order)
    (t : Result EventError (Option Order))
    → Updates event o t
    → Updates event o (elim r [ err e ↦ err e | ok _ ↦ t ])
checked (ok u) event o t h o' k = h o' k
checked (err e) event o t h o' k = cc

-- If an event updates an order, the order's status makes one of the moves that `Moves` lists for the
-- event's type, a payment that is recorded keeps its time, and the order keeps its identity, its user,
-- product, amount and currency, and the time of its fulfillment.
pub order_after-Moves :
    (equal_fold : String → String → Bool) (event : PaymentEventInbox) (now : Time) (o o' : Order)
    → order_after equal_fold event now o ≡ ok (some o')
    → Moves event.event_type o.status o'.status × IsSameSale o o'
unfolding order_after
order_after-Moves equal_fold event now o o' =
    checked (check_payment equal_fold event o) event o (transition event now o)
      (transition-Updates event now o) o'
