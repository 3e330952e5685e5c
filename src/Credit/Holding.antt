-- ===== src/Credit/Holding.antt =====
-- Shares of buckets that a reservation holds, and their settlement: `reserveBucketCredits` and
-- `finalizeBucketAllocations` of internal/service/credit_bucket.go, with the expiry of buckets,
-- `expireCreditBucket` and its two loops.
use Prim.Native.String.{◌++◌}
use walnut_billing.Prelude.{
  String, Bool, true, false, Option, none, some, List, [], ◌∷◌, if◌then◌else◌,
}
use walnut_billing.Prelude.Int.{ℤ, pos, ltb_ℤ}
use walnut_billing.Prelude.Word.{add64, sub64, neg64}
use walnut_billing.Prelude.Text.{trim}
use walnut_billing.Domain.{Time}
use walnut_billing.Domain.Credit.{
  CreditAccount, CreditBucket, CreditTransaction, BucketStatus, TransactionType, ReservationStatus,
  bucket_status_text,
}
use walnut_billing.Repository.Error.{insufficient_credits, reservation_not_pending}
use walnut_billing.Repository.World.{Env, CreditBucketAllocation}
use walnut_billing.Repository.Monad.{Action, pure, raise_if, ◌>>=◌, ◌>>◌}
use walnut_billing.Repository.Credit.{
  CreditBucketQuery, account_by_id, update_account, bucket_by_id, list_buckets, update_bucket,
}
use walnut_billing.Credit.Allocation.{allocate, compact}
use walnut_billing.Credit.Bucket.{
  is_restored, hold_in_bucket, settle_in_bucket, expired_amount_of, cached_account, add_expiry,
  no_expiry,
}
use walnut_billing.Credit.Ledger.{CreditBucketExpiryResult, new_credit_transaction}

-- The active buckets of an account with a remainder, by a bound on their expiry.
abbrev pub bucket_query : String → Option Time → Option Time → ℤ → CreditBucketQuery
bucket_query account_id active_at expires_at_or_before limit = record {
  account_id = account_id;
  user_id = "";
  type = "";
  status = bucket_status_text BucketStatus.active;
  source_order_no = "";
  source_transaction_id = "";
  active_at = active_at;
  expires_at_or_before = expires_at_or_before;
  positive_remaining = true;
  limit = limit;
  offset = pos 0;
}

-- What the expiry of one bucket has changed.
pub record BucketExpiry : Type 0 where
  pub account : CreditAccount
  pub bucket : CreditBucket
  pub transaction : CreditTransaction
  pub amount : ℤ

module _ (env : Env) where
  -- `creditBucketExpireKey`
  unfoldable pub credit_bucket_expire_key : CreditBucket → String
  credit_bucket_expire_key b =
      "expire:"
      ++ trim b.id
      ++ ":"
      ++ (elim b.expires_at [ none ↦ "none" | some t ↦ env.format_stamp t ])

  abbrev pub charged : CreditAccount → ℤ → Time → CreditAccount
  charged account amount now = record account {
    balance = sub64 account.balance amount;
    updated_at = now;
  }

  -- The account is written only when credits are taken from it.
  unfoldable pub charge_expiry : CreditAccount → ℤ → Time → Action CreditAccount
  charge_expiry account amount now =
      if ltb_ℤ (pos 0) amount
      then (do
        update_account env.gorm (charged account amount now)
        pure (charged account amount now))
      else pure account

  abbrev pub expired_bucket : CreditBucket → Time → CreditBucket
  expired_bucket b now = record b {
    remaining = pos 0;
    status = BucketStatus.expired;
    updated_at = now;
  }

  -- `expireCreditBucket`
  unfoldable pub expire_credit_bucket : CreditAccount → CreditBucket → Time → Action BucketExpiry
  unfolding charge_expiry credit_bucket_expire_key expired_amount_of
  expire_credit_bucket account b now = do
    let amount = expired_amount_of account b
    account' ← charge_expiry account amount now
    update_bucket env.gorm (expired_bucket b now)
    t ← new_credit_transaction env (record {
      account = account';
      reservation_id = "";
      bucket_id = b.id;
      transaction_type = TransactionType.expire;
      amount = neg64 amount;
      idempotency_key = credit_bucket_expire_key (expired_bucket b now);
      source = "credit_bucket_expiry";
      description = "expire credit bucket";
      created_at = now;
    })
    pure (record {
      account = account';
      bucket = expired_bucket b now;
      transaction = t;
      amount = amount;
    })

  -- The loop of `expireCreditBucketsForAccount`, with the account as it stands.
  unfoldable pub expire_account_loop :
      CreditAccount
      → Time
      → CreditBucketExpiryResult
      → List CreditBucket
      → Action (CreditAccount × CreditBucketExpiryResult)
  expire_account_loop account now result [] = pure (account, result)
  expire_account_loop account now result (b ∷ bs) = do
    e ← expire_credit_bucket account b now
    expire_account_loop e.account now (add_expiry result e.bucket e.transaction e.amount) bs

  -- `expireCreditBucketsForAccount`
  unfoldable pub expire_credit_buckets_for_account :
      Bool → CreditAccount → Time → ℤ → Action (CreditAccount × CreditBucketExpiryResult)
  unfolding expire_account_loop
  expire_credit_buckets_for_account false account now limit = pure (account, no_expiry)
  expire_credit_buckets_for_account true account now limit = do
    buckets ← list_buckets env.gorm (bucket_query account.id none (some now) limit)
    expire_account_loop account now no_expiry buckets

  -- The account of a bucket: the one in the cache, or the one in the table.
  unfoldable pub cached_or_read : String → Option CreditAccount → Action CreditAccount
  cached_or_read id none = account_by_id env.gorm id
  cached_or_read id (some account) = pure account

  -- The loop of `expireCreditBucketsWithRepos`.
  unfoldable pub expire_loop :
      List (String × CreditAccount)
      → Time
      → CreditBucketExpiryResult
      → List CreditBucket
      → Action CreditBucketExpiryResult
  unfolding cached_account cached_or_read
  expire_loop cache now result [] = pure result
  expire_loop cache now result (b ∷ bs) = do
    account ← cached_or_read b.account_id (cached_account b.account_id cache)
    e ← expire_credit_bucket account b now
    expire_loop ((b.account_id, e.account) ∷ cache) now
        (add_expiry result e.bucket e.transaction e.amount) bs

  -- `expireCreditBucketsWithRepos`
  unfoldable pub expire_credit_buckets_with_repos :
      Bool → Time → ℤ → String → Action CreditBucketExpiryResult
  unfolding expire_loop
  expire_credit_buckets_with_repos false now limit account_id = pure no_expiry
  expire_credit_buckets_with_repos true now limit account_id = do
    buckets ← list_buckets env.gorm (bucket_query (trim account_id) none (some now) limit)
    expire_loop [] now no_expiry buckets

  -- The loop of `reserveBucketCredits` over the allocations.
  unfoldable pub hold_allocations : Time → List CreditBucketAllocation → Action (Unit {0})
  hold_allocations now [] = pure tt
  hold_allocations now (a ∷ rest) = do
    b ← bucket_by_id env.gorm a.bucket_id
    raise_if (ltb_ℤ b.remaining a.amount) insufficient_credits
    update_bucket env.gorm (hold_in_bucket a.amount now b)
    hold_allocations now rest

  -- `reserveBucketCredits`, with the account after the expiry of its buckets.
  unfoldable pub reserve_bucket_credits :
      Bool → CreditAccount → ℤ → Time → Action (CreditAccount × List CreditBucketAllocation)
  unfolding hold_allocations expire_credit_buckets_for_account
  reserve_bucket_credits false account amount now = pure (account, [])
  reserve_bucket_credits true account amount now = do
    (account', _) ← expire_credit_buckets_for_account true account now (pos 0)
    raise_if (ltb_ℤ account'.balance amount) insufficient_credits
    buckets ← list_buckets env.gorm (bucket_query account'.id (some now) none (pos 0))
    let shares = compact (allocate buckets amount now)
    hold_allocations now (compact shares)
    pure (account', compact shares)

  -- The loop of `finalizeBucketAllocations`, with what has been restored.
  unfoldable pub settle_allocations :
      ReservationStatus → Time → ℤ → List CreditBucketAllocation → Action ℤ
  settle_allocations final now restored [] = pure restored
  settle_allocations final now restored (a ∷ rest) = do
    b ← bucket_by_id env.gorm a.bucket_id
    raise_if (ltb_ℤ b.reserved a.amount) reservation_not_pending
    update_bucket env.gorm (settle_in_bucket final a.amount now b)
    settle_allocations final now
        (if is_restored final b now then add64 restored a.amount else restored) rest

  -- `finalizeBucketAllocations`
  unfoldable pub finalize_bucket_allocations :
      List CreditBucketAllocation → ReservationStatus → Time → Action ℤ
  unfolding settle_allocations compact
  finalize_bucket_allocations allocations final now =
      settle_allocations final now (pos 0) (compact allocations)
