-- ===== src/Tests/Clawback.antt =====
-- A clawback of the credits that the tests grant.
use walnut_billing.Prelude.{◌≡◌, refl, true, Option, none, some, arith}
use walnut_billing.Prelude.Int.{ℤ, pos}
use walnut_billing.Domain.Credit.{CreditTransaction}
use walnut_billing.Repository.Error.{ok}
use walnut_billing.Repository.World.{World}
use walnut_billing.Credit.Books.{IsConsistent}
use walnut_billing.Credit.Books.Kept.{grant-IsConsistent}
use walnut_billing.Payment.Order.{Order, OrderStatus}
use walnut_billing.Payment.Clawback.{
  FulfillmentExecution, refund_clawback_key, clawback_amount, source_bucket, write_source,
  take_back, claw_back, clawback_fulfilled_credits,
}
use walnut_billing.Payment.Clawback.Books.{IsFunded, clawback-IsConsistent}
use walnut_billing.Tests.Open.{value_of}
use walnut_billing.Tests.World.{
  test_env, memory_gorm-IsGorm, test_service, start, start-IsConsistent, hundred, unary,
}
use walnut_billing.Tests.Runs.{granted}

abbrev refunded_order : Order
refunded_order = record {
  id = 1;
  out_trade_no = "o1";
  license_key = "";
  user_id = "u";
  sku_code = "pro";
  amount = pos 990;
  currency = "USD";
  status = OrderStatus.refunded;
  provider = "creem";
  trade_no = "p1";
  provider_checkout_id = "";
  provider_customer_id = "";
  checkout_url = "";
  idempotency_key = none;
  paid_at = some 8;
  fulfilled_at = some 9;
  metadata = "";
  order_type = "checkout";
}

abbrev execution : FulfillmentExecution
execution = record {
  id = "fx";
  order_id = 1;
  out_trade_no = "o1";
  user_id = "u";
  sku_code = "pro";
  rule_id = "credits";
  target_type = "credits";
  target_id = "";
  idempotency_key = "x";
  status = "applied";
  result_ref = "ctx_110";
  last_error = "";
  created_at = 9;
  updated_at = 9;
}

granted-IsFunded : IsFunded granted.store
unfolding value_of unary
granted-IsFunded = record { balances = (omega arith, tt); remainders = (omega arith, tt) }

abbrev run : World → ℤ × Option CreditTransaction
run w = value_of (pos 0, none) (clawback_fulfilled_credits test_env true refunded_order execution w)

abbrev clawed : World
clawed = (clawback_fulfilled_credits test_env true refunded_order execution granted).1

-- All of the hundred credits are taken back.
takes_all : (run granted).0 ≡ pos 100
unfolding value_of unary clawback_fulfilled_credits refund_clawback_key clawback_amount
    source_bucket write_source take_back claw_back
takes_all = refl

clawback_runs :
    clawback_fulfilled_credits test_env true refunded_order execution granted
    ≡ (ok (run granted), clawed)
unfolding value_of unary clawback_fulfilled_credits refund_clawback_key clawback_amount
    source_bucket write_source take_back claw_back
clawback_runs = refl

clawback-IsConsistent_example : IsConsistent clawed.store
clawback-IsConsistent_example =
    clawback-IsConsistent test_env memory_gorm-IsGorm true refunded_order execution (run granted)
      granted clawed
      (grant-IsConsistent test_env memory_gorm-IsGorm test_service refl hundred start
        start-IsConsistent)
      granted-IsFunded clawback_runs
