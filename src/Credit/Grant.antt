-- ===== src/Credit/Grant.antt =====
-- `Grant` and `grantCreditsWithRepos` of internal/service/credit.go.
use walnut_billing.Prelude.{String, Bool, true, false, not, ◌&&◌, Option, none, some, if◌then◌else◌}
use walnut_billing.Prelude.Int.{pos, leb_ℤ}
use walnut_billing.Prelude.Word.{add64}
use walnut_billing.Prelude.Text.{trim, is_empty}
use walnut_billing.Domain.{Time}
use walnut_billing.Domain.Credit.{CreditAccount, CreditBucket, CreditTransaction, TransactionType}
use walnut_billing.Repository.Error.{user_not_found, invalid_credit_amount, idempotency_required}
use walnut_billing.Repository.World.{Env}
use walnut_billing.Repository.Monad.{
  Action, pure, raise_if, ◌>>=◌, ◌>>◌, if_found, time_now, generate_entity_id,
}
use walnut_billing.Repository.Credit.{
  account_by_id, update_account, create_bucket, bucket_by_id, transaction_by_idempotency_key,
}
use walnut_billing.Credit.Ledger.{
  CreditGrantInput, CreditMutationResult, default_string, new_credit_transaction,
  ensure_credit_account, with_balances,
}
use walnut_billing.Credit.Bucket.{bucket_from_grant}
use walnut_billing.Credit.Service.{CreditService, with_credit_transaction, ensure_user}

module _ (env : Env) where
  -- The bucket of an earlier grant, if it has one that is still there.
  unfoldable pub granted_bucket : Bool → String → Action (Option CreditBucket)
  granted_bucket has_buckets bucket_id =
      if has_buckets && not (is_empty (trim bucket_id))
      then if_found (bucket_by_id env.gorm bucket_id) (λ b. pure (some b)) (pure none)
      else pure none

  -- A grant whose idempotency key has been used: the earlier transaction.
  unfoldable pub replay_grant : Bool → CreditTransaction → Action CreditMutationResult
  unfolding granted_bucket
  replay_grant has_buckets existing = do
    account ← account_by_id env.gorm existing.account_id
    bucket ← granted_bucket has_buckets existing.bucket_id
    pure (record {
      account = account;
      reservation = none;
      transaction = some existing;
      bucket = bucket;
    })

  abbrev pub bucket_id_of : Option CreditBucket → String
  bucket_id_of none = ""
  bucket_id_of (some b) = b.id

  unfoldable pub new_bucket :
      Bool → CreditAccount → CreditGrantInput → String → Time → Action (Option CreditBucket)
  new_bucket false account input key now = pure none
  new_bucket true account input key now = do
    id ← generate_entity_id env "crb_"
    pure (some (bucket_from_grant id account input key now))

  -- The new bucket is stored with the id of its transaction.
  unfoldable pub store_bucket : Option CreditBucket → String → Action (Option CreditBucket)
  store_bucket none transaction_id = pure none
  store_bucket (some b) transaction_id = do
    create_bucket env.gorm (record b { source_transaction_id = transaction_id })
    pure (some (record b { source_transaction_id = transaction_id }))

  -- A grant with a new idempotency key.
  unfoldable pub apply_grant : Bool → CreditGrantInput → String → Action CreditMutationResult
  unfolding new_bucket store_bucket
  apply_grant has_buckets input key = do
    account ← ensure_credit_account env (trim input.user_id)
    now ← time_now env
    let account' = with_balances account (add64 account.balance input.amount) account.reserved now
    update_account env.gorm account'
    bucket ← new_bucket has_buckets account' input key now
    t ← new_credit_transaction env (record {
      account = account';
      reservation_id = "";
      bucket_id = bucket_id_of bucket;
      transaction_type = TransactionType.grant;
      amount = input.amount;
      idempotency_key = key;
      source = default_string (trim input.source) "admin";
      description = trim input.description;
      created_at = now;
    })
    stored ← store_bucket bucket t.id
    pure (record { account = account'; reservation = none; transaction = some t; bucket = stored })

  -- `grantCreditsWithRepos`
  unfoldable pub grant_credits_with_repos : Bool → CreditGrantInput → Action CreditMutationResult
  unfolding replay_grant apply_grant
  grant_credits_with_repos has_buckets input =
      if_found (transaction_by_idempotency_key env.gorm (trim input.idempotency_key))
        (replay_grant has_buckets) (apply_grant has_buckets input (trim input.idempotency_key))

  -- `Grant`
  unfoldable pub grant : CreditService → CreditGrantInput → Action CreditMutationResult
  unfolding trim is_empty
  grant svc input = do
    raise_if (is_empty (trim input.user_id)) user_not_found
    raise_if (leb_ℤ input.amount (pos 0)) invalid_credit_amount
    raise_if (is_empty (trim input.idempotency_key)) idempotency_required
    ensure_user env svc.has_users (trim input.user_id)
    with_credit_transaction env svc (λ has_buckets. grant_credits_with_repos has_buckets input)
