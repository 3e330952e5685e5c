-- ===== src/Credit/Bucket.antt =====
-- Buckets of credits: their creation, reservation, finalization and expiry in
-- internal/service/credit_bucket.go. The pointer to an account or a bucket that the code mutates is
-- a value that is returned changed.
use walnut_billing.Prelude.{
  String, Bool, not, ◌&&◌, ◌||◌, Option, none, some, List, [], ◌∷◌, nat_eq, is_some, if◌then◌else◌,
}
use mathlib.Core.List.{◌++◌ as append}
use walnut_billing.Prelude.Int.{ℤ, pos, ltb_ℤ, eqb_ℤ}
use walnut_billing.Prelude.Word.{add64, sub64}
use walnut_billing.Prelude.Text.{◌==◌, trim}
use walnut_billing.Domain.{Time}
use walnut_billing.Domain.Credit.{
  CreditAccount, CreditBucket, CreditTransaction, BucketType, BucketStatus, ReservationStatus,
  is_released, is_topup, is_subscription_period,
}
use walnut_billing.Credit.Allocation.{open_at}
use walnut_billing.Credit.Ledger.{CreditGrantInput, CreditBucketExpiryResult, default_string}

-- `cloneTimeUTC`: the zero time counts as none.
unfoldable pub clone_time_utc : Option Time → Option Time
clone_time_utc none = none
clone_time_utc (some t) = if nat_eq t 0 then none else some t

-- `normalizeCreditBucketType`
unfoldable pub normalize_credit_bucket_type : CreditGrantInput → BucketType
unfolding trim
normalize_credit_bucket_type input =
    let type = trim input.bucket_type in
    if type == "admin"
    then BucketType.admin
    else if type == "legacy"
    then BucketType.legacy
    else if type == "topup"
    then BucketType.topup
    else if type == "subscription_period"
    then BucketType.subscription_period
    else if trim input.source == "fulfillment"
    then if is_some input.expires_at || is_some input.period_end_at
      then BucketType.subscription_period
      else BucketType.topup
    else BucketType.admin

-- The expiry of a new bucket: none for a top-up, the period's end for a period with no expiry.
unfoldable pub bucket_expiry : BucketType → Option Time → Option Time → Option Time
bucket_expiry type expires_at period_end =
    let expires = if is_topup type then none else expires_at in
    if is_subscription_period type && not (is_some expires) && is_some period_end
    then period_end
    else expires

-- The bucket that `newCreditBucketFromGrant` builds, with its id.
unfoldable pub bucket_from_grant :
    String → CreditAccount → CreditGrantInput → String → Time → CreditBucket
unfolding normalize_credit_bucket_type bucket_expiry clone_time_utc default_string trim
bucket_from_grant id account input key now =
    let type = normalize_credit_bucket_type input in
    let period_end = clone_time_utc input.period_end_at in
    record {
      id = id;
      account_id = account.id;
      user_id = account.user_id;
      type = type;
      source = default_string (trim input.source) "admin";
      source_order_no = trim input.source_order_no;
      source_transaction_id = "";
      period_start_at = clone_time_utc input.period_start_at;
      period_end_at = period_end;
      expires_at = bucket_expiry type (clone_time_utc input.expires_at) (clone_time_utc period_end);
      granted = input.amount;
      remaining = input.amount;
      reserved = pos 0;
      status = BucketStatus.active;
      idempotency_key = key;
      created_at = now;
      updated_at = now;
    }

-- A bucket after a share of it is reserved.
unfoldable pub hold_in_bucket : ℤ → Time → CreditBucket → CreditBucket
hold_in_bucket amount now b =
    let remaining' = sub64 b.remaining amount in
    let reserved' = add64 b.reserved amount in
    record b {
      remaining = remaining';
      reserved = reserved';
      status =
          if eqb_ℤ remaining' (pos 0) && eqb_ℤ reserved' (pos 0)
          then BucketStatus.depleted
          else b.status;
      updated_at = now;
    }

-- Whether a share goes back into its bucket.
abbrev pub is_restored : ReservationStatus → CreditBucket → Time → Bool
is_restored final b now = is_released final && open_at b.expires_at now

-- A bucket after a reserved share of it is committed or released.
unfoldable pub settle_in_bucket : ReservationStatus → ℤ → Time → CreditBucket → CreditBucket
settle_in_bucket final amount now b =
    let reserved' = sub64 b.reserved amount in
    let remaining' = if is_restored final b now then add64 b.remaining amount else b.remaining in
    let status' = if is_restored final b now then BucketStatus.active else b.status in
    record b {
      reserved = reserved';
      remaining = remaining';
      status =
          if eqb_ℤ remaining' (pos 0) && eqb_ℤ reserved' (pos 0)
          then if not (open_at b.expires_at now)
            then BucketStatus.expired
            else BucketStatus.depleted
          else status';
      updated_at = now;
    }

-- What of a bucket's remainder the account's balance still covers.
unfoldable pub expired_amount_of : CreditAccount → CreditBucket → ℤ
expired_amount_of account b =
    let amount = if ltb_ℤ account.balance b.remaining then account.balance else b.remaining in
    if ltb_ℤ amount (pos 0) then pos 0 else amount

-- `accountsByID`, by the bucket's account id.
unfoldable pub cached_account : String → List (String × CreditAccount) → Option CreditAccount
cached_account k [] = none
cached_account k ((j, a) ∷ m) = if j == k then some a else cached_account k m

unfoldable pub add_expiry :
    CreditBucketExpiryResult → CreditBucket → CreditTransaction → ℤ → CreditBucketExpiryResult
add_expiry result b t amount = record {
  expired_buckets = append result.expired_buckets (b ∷ []);
  transactions = append result.transactions (t ∷ []);
  expired_amount = add64 result.expired_amount amount;
}

abbrev pub no_expiry : CreditBucketExpiryResult
no_expiry = record { expired_buckets = []; transactions = []; expired_amount = pos 0 }
