-- ===== src/Credit/Ledger.antt =====
-- Rows that several operations write: `newCreditTransaction` and `ensureCreditAccount` of
-- internal/service/credit.go, with the inputs and results of the service.
use walnut_billing.Prelude.{String, Option, List, if◌then◌else◌}
use walnut_billing.Prelude.Int.{ℤ, pos}
use walnut_billing.Prelude.Text.{is_empty}
use walnut_billing.Domain.{Time}
use walnut_billing.Domain.Credit.{
  CreditAccount, CreditBucket, CreditReservation, CreditTransaction, TransactionType,
}
use walnut_billing.Repository.World.{Env}
use walnut_billing.Repository.Monad.{
  Action, pure, ◌>>=◌, ◌>>◌, if_found, time_now, generate_entity_id,
}
use walnut_billing.Repository.Credit.{account_by_user_id, create_account, create_transaction}

pub record CreditGrantInput : Type 0 where
  pub user_id : String
  pub amount : ℤ
  pub idempotency_key : String
  pub source : String
  pub description : String
  pub bucket_type : String
  pub source_order_no : String
  pub period_start_at : Option Time
  pub period_end_at : Option Time
  pub expires_at : Option Time

-- A value of the `map[string]any` that callers pass as metadata.
pub data MetadataValue : Type 0 where
  text : String → MetadataValue
  bytes : String → MetadataValue
  other : MetadataValue

pub record CreditReservationInput : Type 0 where
  pub user_id : String
  pub operation : String
  pub amount : ℤ
  pub idempotency_key : String
  pub feature_id : String
  pub execution_id : String
  pub metadata : List (String × MetadataValue)
  pub expires_at : Option Time

pub record CreditFinalizationInput : Type 0 where
  pub reservation_id : String
  pub idempotency_key : String

pub record CreditMutationResult : Type 0 where
  pub account : CreditAccount
  pub reservation : Option CreditReservation
  pub transaction : Option CreditTransaction
  pub bucket : Option CreditBucket

pub record CreditBucketExpiryInput : Type 0 where
  pub now : Time
  pub limit : ℤ

pub record CreditBucketExpiryResult : Type 0 where
  pub expired_buckets : List CreditBucket
  pub transactions : List CreditTransaction
  pub expired_amount : ℤ

pub record CreditTransactionInput : Type 0 where
  pub account : CreditAccount
  pub reservation_id : String
  pub bucket_id : String
  pub transaction_type : TransactionType
  pub amount : ℤ
  pub idempotency_key : String
  pub source : String
  pub description : String
  pub created_at : Time

-- `defaultString` of internal/service/entitlement.go
unfoldable pub default_string : String → String → String
unfolding is_empty
default_string value fallback = if is_empty value then fallback else value

-- The ledger row of a mutation, with the balances after it.
unfoldable pub transaction_of : String → CreditTransactionInput → CreditTransaction
transaction_of id input = record {
  id = id;
  account_id = input.account.id;
  user_id = input.account.user_id;
  reservation_id = input.reservation_id;
  bucket_id = input.bucket_id;
  type = input.transaction_type;
  amount = input.amount;
  balance_after = input.account.balance;
  reserved_after = input.account.reserved;
  idempotency_key = input.idempotency_key;
  source = input.source;
  description = input.description;
  created_at = input.created_at;
}

-- An account with a new balance and reserved amount.
abbrev pub with_balances : CreditAccount → ℤ → ℤ → Time → CreditAccount
with_balances a balance reserved now = record a {
  balance = balance;
  reserved = reserved;
  updated_at = now;
}

-- A new account, with nothing on it.
abbrev pub empty_account : String → String → Time → CreditAccount
empty_account id user_id now = record {
  id = id;
  user_id = user_id;
  balance = pos 0;
  reserved = pos 0;
  created_at = now;
  updated_at = now;
}

module _ (env : Env) where
  -- `newCreditTransaction`
  unfoldable pub new_credit_transaction : CreditTransactionInput → Action CreditTransaction
  new_credit_transaction input = do
    id ← generate_entity_id env "ctx_"
    create_transaction env.gorm (transaction_of id input)
    pure (transaction_of id input)

  unfoldable pub open_account : String → Action CreditAccount
  open_account user_id = do
    id ← generate_entity_id env "cra_"
    now ← time_now env
    create_account env.gorm (empty_account id user_id now)
    pure (empty_account id user_id now)

  -- `ensureCreditAccount`
  unfoldable pub ensure_credit_account : String → Action CreditAccount
  unfolding open_account
  ensure_credit_account user_id =
      if_found (account_by_user_id env.gorm user_id) pure (open_account user_id)
