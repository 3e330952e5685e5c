-- ===== src/Payment/OrderEvents.antt =====
-- The state machine of orders: `PaymentOrderEventProcessor` of
-- internal/service/payment_order_processor.go, with `OrderRepo` of internal/repository/gorm_repo/impl.go.
pub mod Transitions
pub mod Status
pub mod Again
use walnut_billing.Prelude.{
  String, Bool, true, false, not, ◌&&◌, ◌||◌, Option, none, some, List, if◌then◌else◌,
}
use walnut_billing.Prelude.Int.{ℤ, pos, ltb_ℤ, eqb_ℤ}
use walnut_billing.Prelude.Text.{◌==◌, trim, is_empty}
use walnut_billing.Domain.{Time}
use walnut_billing.Repository.Error.{
  GormError, Error, Result, ok, err, database, map_gorm_not_found,
}
use walnut_billing.Repository.Table.{Table}
use walnut_billing.Payment.Order.{Order, OrderStatus, PaymentEventInbox, is_settled, is_open}
use walnut_billing.Payment.EventType

-- The errors of the processor; `lookup_failed` wraps the repository's.
pub data EventError : Type 0 where
  not_processable amount_mismatch currency_mismatch : EventError
  lookup_failed : Error → EventError
  update_failed : GormError → EventError

-- `isPaymentPaidEvent`
unfoldable pub is_paid_event : String → Bool
is_paid_event type = (type == EventType.paid) || (type == EventType.renewal_paid)

-- `orders.GetByOutTradeNo`
unfoldable pub order_by_out_trade_no : Table Order → String → List Order → Result Error Order
order_by_out_trade_no orders out_trade_no rows =
    elim (orders.first (λ o. o.out_trade_no == out_trade_no) rows) [
      | ok o ↦ ok o
      | err e ↦ err (map_gorm_not_found e)
    ]

-- The order as a paid event leaves it; `now` is kept only for a first payment.
unfoldable pub paid_by : PaymentEventInbox → Time → Order → Order
paid_by event now o = record o {
  status = OrderStatus.paid;
  trade_no = event.provider_trade_no;
  provider = event.provider;
  paid_at = elim o.paid_at [ none ↦ some now | some t ↦ some t ];
}

-- The switch on the event's type: no order for an early return without an update.
unfoldable pub transition : PaymentEventInbox → Time → Order → Result EventError (Option Order)
transition event now o =
    if is_paid_event event.event_type
    then ok (if is_settled o.status then none else some (paid_by event now o))
    else if event.event_type == EventType.cancelled
    then ok
        (if is_settled o.status then none else some (record o { status = OrderStatus.cancelled }))
    else if (event.event_type == EventType.refunded) || (event.event_type == EventType.disputed)
    then ok (some (record o { status = OrderStatus.refunded }))
    else if event.event_type == EventType.renewal_failed
    then ok (if is_settled o.status then none else some (record o { status = OrderStatus.failed }))
    else if event.event_type == EventType.subscription_expired
    then ok (some (if is_open o.status then record o { status = OrderStatus.failed } else o))
    else err not_processable

-- `p.orders.Update`
unfoldable pub update_order :
    Table Order → Option Order → List Order → Result EventError (List Order)
update_order orders none rows = ok rows
update_order orders (some o) rows = elim (orders.save o rows) [
  | ok rows' ↦ ok rows'
  | err e ↦ err (update_failed e)
]

-- `strings.EqualFold` is a parameter: its folding of letters outside ASCII is Unicode's.
module _ (equal_fold : String → String → Bool) where
  -- `paymentCurrencyMatches`
  unfoldable pub payment_currency_matches : String → String → Bool
  payment_currency_matches order_currency event_currency =
      if is_empty (trim event_currency)
      then true
      else if is_empty (trim order_currency)
      then true
      else equal_fold (trim order_currency) (trim event_currency)

  -- The checks of a paid event against its order.
  unfoldable pub check_payment : PaymentEventInbox → Order → Result EventError (Unit {0})
  check_payment event o =
      if is_paid_event event.event_type
        && ltb_ℤ (pos 0) event.amount
        && ltb_ℤ (pos 0) o.amount
        && not (eqb_ℤ event.amount o.amount)
      then err amount_mismatch
      else if is_paid_event event.event_type
          && not (payment_currency_matches o.currency event.currency)
      then err currency_mismatch
      else ok tt

  -- What an event does to its order: an error, or the order to update.
  unfoldable pub order_after : PaymentEventInbox → Time → Order → Result EventError (Option Order)
  order_after event now o = elim (check_payment event o) [
    | err e ↦ err e
    | ok _ ↦ transition event now o
  ]

  -- `ProcessPaymentEvent`, with the rows of the orders after it.
  unfoldable pub process_payment_event :
      Table Order → Option PaymentEventInbox → Time → List Order → Result EventError (List Order)
  process_payment_event orders none now rows = err not_processable
  process_payment_event orders (some event) now rows =
      if is_empty event.out_trade_no
      then err not_processable
      else elim (order_by_out_trade_no orders event.out_trade_no rows) [
        | err e ↦ err (lookup_failed e)
        | ok o ↦ elim (order_after event now o) [
          | err e ↦ err e
          | ok next ↦ update_order orders next rows
        ]
      ]
