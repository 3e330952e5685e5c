-- ===== src/Payment/OrderEvents/Again.antt =====
-- An event that is delivered again, and an order that is settled.
use walnut_billing.Prelude.{
  String, ◌≡◌, refl, sym, ◌⊎◌, inl, inr, Bool, true, false, Option, none, some, List, [], ◌∷◌, All,
  arith,
}
use mathlib.Core.Path.{subst}
use walnut_billing.Domain.{Time}
use walnut_billing.Repository.Error.{Result, ok, err}
use walnut_billing.Payment.Order.{Order, PaymentEventInbox, is_settled, is_open}
use walnut_billing.Payment.OrderEvents.{
  EventError, is_paid_event, paid_by, transition, check_payment, order_after,
}
use walnut_billing.Payment.OrderEvents.Transitions.{
  is_reversal, IsSameSale, if-elim, transition-elim,
}
use walnut_billing.Payment.OrderEvents.Status.{order_after-Moves}

-- A result that changes nothing of `o`.
abbrev pub IsDone : Order → Result EventError (Option Order) → Type 0
IsDone o r = (r ≡ ok none) ⊎ (r ≡ ok (some o))

-- A result that updates an order to one that the event leaves alone.
abbrev IsFinal : PaymentEventInbox → Time → Result EventError (Option Order) → Type 0
IsFinal event later r = (o' : Order) → r ≡ ok (some o') → IsDone o' (transition event later o')

final :
    (event : PaymentEventInbox) (later : Time) (p : Order)
    → IsDone p (transition event later p)
    → IsFinal event later (ok (some p))
final event later p h o' e = subst (λ q. IsDone q (transition event later q)) (same e) h
  where
    same : ◌≡◌ {A = Result EventError (Option Order)} (ok (some p)) (ok (some o')) → p ≡ o'
    same e = cc

transition-IsFinal :
    (event : PaymentEventInbox) (now later : Time) (o : Order)
    → IsFinal event later (transition event now o)
unfolding transition paid_by
transition-IsFinal event now later o =
    transition-elim event now o (IsFinal event later) (λ paid settled o' h. cc)
      (λ paid unsettled. final event later _ (rw paid (inl refl)))
      (λ unpaid e.
        (λ settled o' h. cc, λ unsettled. final event later _ (rw unpaid (rw e (inr refl)))))
      (λ unpaid e.
        final event later _
          (elim e [ inl r ↦ rw unpaid (rw r (inr refl)) | inr d ↦ rw unpaid (rw d (inr refl)) ]))
      (λ unpaid e.
        (λ settled o' h. cc, λ unsettled. final event later _ (rw unpaid (rw e (inr refl)))))
      (λ unpaid e.
        if-elim (λ p. IsFinal event later (ok (some p))) (is_open o.status) _ _
          (λ early. final event later _ (rw unpaid (rw e (inr refl))))
          (λ late. final event later o (rw unpaid (rw e (rw late (inr refl))))))
      (λ o' h. cc)

module _ (equal_fold : String → String → Bool) where
  check_payment-same :
      (event : PaymentEventInbox) (o o' : Order)
      → IsSameSale o o'
      → check_payment equal_fold event o' ≡ check_payment equal_fold event o
  unfolding check_payment
  check_payment-same event o o' same = rw same.same_amount (rw same.same_currency refl)

  -- An event that has updated an order leaves the updated order as it is when it is delivered again, at
  -- any later time: it asks for no update, or for the same row once more, and raises no error.
  pub order_after-IsDone :
      (event : PaymentEventInbox) (now later : Time) (o o' : Order)
      → order_after equal_fold event now o ≡ ok (some o')
      → IsDone o' (order_after equal_fold event later o')
  unfolding order_after
  order_after-IsDone event now later o o' h =
      subst
        (λ r. IsDone o' (elim r as (λ _. Result EventError (Option Order)) [
          | err e ↦ err e
          | ok _ ↦ transition event later o'
        ]))
        (sym (check_payment-same event o o' (order_after-Moves equal_fold event now o o' h).1))
        (checked (check_payment equal_fold event o) h)
    where
      checked :
          (r : Result EventError (Unit {0}))
          → ◌≡◌ {A = Result EventError (Option Order)}
              (elim r [ err e ↦ err e | ok _ ↦ transition event now o ])
              (ok (some o'))
          → IsDone o' (elim r [ err e ↦ err e | ok _ ↦ transition event later o' ])
      checked (ok u) h = transition-IsFinal event now later o o' h
      checked (err e) h = cc

  -- A settled order takes no event but a refund or a dispute to another state.
  order_after-settled :
      (event : PaymentEventInbox) (now : Time) (o o' : Order)
      → is_reversal event ≡ false
      → is_settled o.status ≡ true
      → order_after equal_fold event now o ≡ ok (some o')
      → o' ≡ o
  unfolding order_after transition is_paid_event
  order_after-settled event now o o' kind settled h = ground arith

  -- The order after a result: an error and an early return leave it.
  abbrev pub updated : Order → Result EventError (Option Order) → Order
  updated o (ok none) = o
  updated o (ok (some o')) = o'
  updated o (err e) = o

  -- The order after a sequence of events, each with the time of its processing.
  unfoldable pub after_events : List (PaymentEventInbox × Time) → Order → Order
  after_events [] o = o
  after_events ((event, now) ∷ events) o =
      after_events events (updated o (order_after equal_fold event now o))

  updated-settled :
      (event : PaymentEventInbox) (now : Time) (o : Order)
      → is_reversal event ≡ false
      → is_settled o.status ≡ true
      → updated o (order_after equal_fold event now o) ≡ o
  updated-settled event now o kind settled = by_result _ refl
    where
      by_result :
          (r : Result EventError (Option Order))
          → order_after equal_fold event now o ≡ r
          → updated o r ≡ o
      by_result (ok none) e = refl
      by_result (ok (some o')) e = order_after-settled event now o o' kind settled e
      by_result (err x) e = refl

  -- An order that is paid or fulfilled is the same after any sequence of events without a refund or a
  -- dispute: a late cancellation, a failed renewal or a second payment does not change it.
  pub after_events-settled :
      (events : List (PaymentEventInbox × Time)) (o : Order)
      → All (λ e. is_reversal e.0 ≡ false) events
      → is_settled o.status ≡ true
      → after_events events o ≡ o
  unfolding after_events
  after_events-settled [] o kinds settled = refl
  after_events-settled ((event, now) ∷ events) o (kind, kinds) settled =
      rw (updated-settled event now o kind settled) (after_events-settled events o kinds settled)
