-- ===== src/Payment/Clawback.antt =====
-- The clawback of the credits of a refunded order: `clawbackFulfilledCredits` of
-- internal/service/payment_adjustment.go.
pub mod Books
use Prim.Native.String.{◌++◌}
use walnut_billing.Prelude.{
  ℕ, String, Bool, true, false, not, ◌&&◌, Option, none, some, if◌then◌else◌,
}
use walnut_billing.Prelude.Int.{ℤ, pos, ltb_ℤ, leb_ℤ, eqb_ℤ}
use walnut_billing.Prelude.Word.{sub64, neg64}
use walnut_billing.Prelude.Text.{◌==◌, trim, is_empty}
use walnut_billing.Domain.{Time}
use walnut_billing.Domain.Credit.{
  CreditAccount, CreditBucket, CreditTransaction, TransactionType, BucketStatus,
}
use walnut_billing.Repository.Error.{invalid_payment_adjustment}
use walnut_billing.Repository.World.{Env}
use walnut_billing.Repository.Monad.{Action, pure, raise_if, ◌>>=◌, ◌>>◌, if_found, time_now}
use walnut_billing.Repository.Credit.{
  account_by_id, update_account, bucket_by_id, update_bucket, transaction_by_id,
  transaction_by_idempotency_key,
}
use walnut_billing.Credit.Allocation.{min_int64}
use walnut_billing.Credit.Holding.{charged}
use walnut_billing.Credit.Ledger.{new_credit_transaction}
use walnut_billing.Payment.Order.{Order}

-- A delivery of an order, with the row that it has led to: internal/domain/models.go.
pub record FulfillmentExecution : Type 0 where
  pub id : String
  pub order_id : ℕ
  pub out_trade_no : String
  pub user_id : String
  pub sku_code : String
  pub rule_id : String
  pub target_type : String
  pub target_id : String
  pub idempotency_key : String
  pub status : String
  pub result_ref : String
  pub last_error : String
  pub created_at : Time
  pub updated_at : Time

-- `refundClawbackKey`
unfoldable pub refund_clawback_key : String → String → String
refund_clawback_key out_trade_no rule_id =
    "refund:clawback:" ++ trim out_trade_no ++ ":" ++ trim rule_id

-- The bucket of the original grant: it has none, or its row is gone, or it is there.
pub data SourceBucket : Type 0 where
  unattributed missing : SourceBucket
  found : CreditBucket → SourceBucket

-- What is taken back: no more than was granted, than the balance, and than the bucket has.
unfoldable pub clawback_amount : ℤ → CreditAccount → SourceBucket → ℤ
clawback_amount granted account SourceBucket.unattributed = min_int64 granted account.balance
clawback_amount granted account SourceBucket.missing = pos 0
clawback_amount granted account (SourceBucket.found b) =
    min_int64 (min_int64 granted account.balance) b.remaining

abbrev pub clawed_back : ℤ → Time → CreditBucket → CreditBucket
clawed_back amount now b = record b {
  remaining = sub64 b.remaining amount;
  status =
      if eqb_ℤ (sub64 b.remaining amount) (pos 0) && eqb_ℤ b.reserved (pos 0)
      then BucketStatus.depleted
      else b.status;
  updated_at = now;
}

module _ (env : Env) where
  unfoldable pub source_bucket : Bool → String → Action SourceBucket
  source_bucket has_buckets bucket_id =
      if has_buckets && not (is_empty (trim bucket_id))
      then if_found (bucket_by_id env.gorm bucket_id) (λ b. pure (SourceBucket.found b))
          (pure SourceBucket.missing)
      else pure SourceBucket.unattributed

  unfoldable pub write_source : SourceBucket → ℤ → Time → Action (Unit {0})
  write_source SourceBucket.unattributed amount now = pure tt
  write_source SourceBucket.missing amount now = pure tt
  write_source (SourceBucket.found b) amount now = update_bucket env.gorm (clawed_back amount now b)

  -- The account and the bucket are written only when credits are taken from them.
  unfoldable pub take_back : CreditAccount → SourceBucket → ℤ → Time → Action CreditAccount
  unfolding write_source
  take_back account source amount now =
      if ltb_ℤ (pos 0) amount
      then (do
        update_account env.gorm (charged env account amount now)
        write_source source amount now
        pure (charged env account amount now))
      else pure account

  -- The clawback of a grant that has been found.
  unfoldable pub claw_back :
      Bool → Order → String → CreditTransaction → Action (ℤ × Option CreditTransaction)
  unfolding source_bucket take_back
  claw_back has_buckets order key original =
      if leb_ℤ original.amount (pos 0) then pure (pos 0, none) else (do
        raise_if (not (original.user_id == order.user_id)) invalid_payment_adjustment
        account ← account_by_id env.gorm original.account_id
        source ← source_bucket has_buckets original.bucket_id
        now ← time_now env
        let amount = clawback_amount original.amount account source
        account' ← take_back account source amount now
        t ← new_credit_transaction env (record {
          account = account';
          reservation_id = "";
          bucket_id = original.bucket_id;
          transaction_type = TransactionType.clawback;
          amount = neg64 amount;
          idempotency_key = key;
          source = "refund_policy";
          description =
              "refund clawback for " ++ order.sku_code ++ " (" ++ order.out_trade_no ++ ")";
          created_at = now;
        })
        pure (amount, some t))

  -- `clawbackFulfilledCredits`
  unfoldable pub clawback_fulfilled_credits :
      Bool → Order → FulfillmentExecution → Action (ℤ × Option CreditTransaction)
  unfolding claw_back
  clawback_fulfilled_credits has_buckets order execution =
      if is_empty (trim execution.result_ref)
      then pure (pos 0, none)
      else if_found
          (transaction_by_idempotency_key env.gorm
            (refund_clawback_key order.out_trade_no execution.rule_id))
          (λ existing. pure (neg64 existing.amount, some existing))
          (if_found (transaction_by_id env.gorm execution.result_ref)
            (claw_back has_buckets order (refund_clawback_key order.out_trade_no execution.rule_id))
            (pure (pos 0, none)))
