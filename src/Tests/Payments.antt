-- ===== src/Tests/Payments.antt =====
-- The theorems on payments at concrete orders and events.
use walnut_billing.Prelude.{String, ◌≡◌, refl, Bool, true, none, some, [], ◌∷◌}
use walnut_billing.Prelude.Text.{◌==◌, trim}
use walnut_billing.Prelude.Int.{pos}
use walnut_billing.Repository.Error.{ok}
use walnut_billing.Payment.Order.{Order, OrderStatus, PaymentEventInbox}
use walnut_billing.Payment.EventType
use walnut_billing.Payment.AdjustmentPolicy.{
  PaymentAdjustmentPolicyInput, default_config, normalize_config, normalize_compensation_action,
  normalize_action, decision_from_action, refund_window, refund_decision, decide_event, decide,
}
use walnut_billing.Payment.AdjustmentPolicy.Actions.{IsDecided, decide-IsDecided}
use walnut_billing.Payment.AdjustmentPolicy.Refunds.{PaidWithin, decide-PaidWithin}
use walnut_billing.Payment.OrderEvents.{
  is_paid_event, paid_by, transition, payment_currency_matches, check_payment, order_after,
}
use walnut_billing.Payment.RenewalPolicy.{default_renewal_config, decide_renewal}
use walnut_billing.Payment.RenewalPolicy.Decisions.{IsRenewal, decide_renewal-IsRenewal}
use walnut_billing.Payment.OrderEvents.Transitions.{Moves, IsSameSale}
use walnut_billing.Payment.OrderEvents.Status.{order_after-Moves}
use walnut_billing.Payment.OrderEvents.Again.{
  IsDone, order_after-IsDone, after_events, after_events-settled,
}

abbrev order : Order
order = record {
  id = 1;
  out_trade_no = "t1";
  license_key = "";
  user_id = "u";
  sku_code = "pro";
  amount = pos 990;
  currency = "USD";
  status = OrderStatus.checkout_created;
  provider = "creem";
  trade_no = "";
  provider_checkout_id = "";
  provider_customer_id = "";
  checkout_url = "";
  idempotency_key = none;
  paid_at = none;
  fulfilled_at = none;
  metadata = "";
  order_type = "checkout";
}

abbrev event_of : String → PaymentEventInbox
event_of type = record {
  id = "pe";
  provider = "creem";
  provider_event_id = "x";
  event_type = type;
  out_trade_no = "t1";
  provider_trade_no = "p1";
  amount = pos 990;
  currency = "USD";
  period_start_at = none;
  period_end_at = none;
  signature_verified = true;
  payload_hash = "";
  raw_payload = "";
  status = "received";
  attempts = pos 0;
  last_error = "";
  received_at = 5;
  processed_at = none;
  created_at = 5;
  updated_at = 5;
}

-- The order after its payment at 8.
abbrev paid_order : Order
paid_order = record order { status = OrderStatus.paid; trade_no = "p1"; paid_at = some 8 }

abbrev refund_request : PaymentAdjustmentPolicyInput
refund_request = record {
  event = some (event_of EventType.refunded);
  order = some paid_order;
  usage = record {
    known = true;
    credits_granted = pos 10;
    credits_available_for_clawback = pos 10;
    credits_used = pos 0;
  };
}

decide-IsDecided_example : IsDecided (decide default_config 20 refund_request)
decide-IsDecided_example = decide-IsDecided default_config 20 refund_request

refund_compensates : (decide default_config 20 refund_request).apply_compensation ≡ true
unfolding decide decide_event refund_decision refund_window decision_from_action normalize_config
    normalize_compensation_action normalize_action trim
refund_compensates = refl

decide-PaidWithin_example : PaidWithin 7 20 (some paid_order)
unfolding trim
decide-PaidWithin_example =
    decide-PaidWithin default_config 20 refund_request (event_of EventType.refunded) 6 refl refl
      refl refl refund_compensates

-- Texts are compared as they stand.
abbrev exactly : String → String → Bool
exactly a b = a == b

payment_runs : order_after exactly (event_of EventType.paid) 8 order ≡ ok (some paid_order)
unfolding order_after check_payment payment_currency_matches transition is_paid_event paid_by trim
payment_runs = refl

order_after-Moves_example :
    Moves EventType.paid OrderStatus.checkout_created OrderStatus.paid × IsSameSale order paid_order
order_after-Moves_example =
    order_after-Moves exactly (event_of EventType.paid) 8 order paid_order payment_runs

order_after-IsDone_example :
    IsDone paid_order (order_after exactly (event_of EventType.paid) 9 paid_order)
order_after-IsDone_example =
    order_after-IsDone exactly (event_of EventType.paid) 8 9 order paid_order payment_runs

after_events-settled_example :
    after_events exactly
      ((event_of EventType.cancelled, 9) ∷ (event_of EventType.renewal_failed, 10) ∷ [])
      paid_order
    ≡ paid_order
after_events-settled_example =
    after_events-settled exactly
      ((event_of EventType.cancelled, 9) ∷ (event_of EventType.renewal_failed, 10) ∷ []) paid_order
      (refl, (refl, tt)) refl

decide_renewal-IsRenewal_example :
    IsRenewal default_renewal_config
      (some (event_of EventType.renewal_failed))
      (decide_renewal default_renewal_config (some (event_of EventType.renewal_failed)))
decide_renewal-IsRenewal_example =
    decide_renewal-IsRenewal default_renewal_config (some (event_of EventType.renewal_failed))
