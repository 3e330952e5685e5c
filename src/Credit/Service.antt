-- ===== src/Credit/Service.antt =====
-- `creditServiceImpl` of internal/service/credit.go: its dependencies, its unit of work, the check of
-- the user, and `AccountForUser`.
use walnut_billing.Prelude.{String, Bool, true, false, if◌then◌else◌}
use walnut_billing.Prelude.Text.{trim, is_empty}
use walnut_billing.Domain.Credit.{CreditAccount}
use walnut_billing.Repository.Error.{user_not_found, credit_account_not_found}
use walnut_billing.Repository.World.{Env}
use walnut_billing.Repository.Monad.{Action, pure, raise_if, ◌>>◌, not_found_as}
use walnut_billing.Repository.Transaction.{in_transaction}
use walnut_billing.Repository.Credit.{user_by_id, account_by_user_id}

-- What the service was constructed with: `users`, `buckets` and `uowFactory` may be nil.
pub record CreditService : Type 0 where
  pub has_users : Bool
  pub has_buckets : Bool
  pub has_uow : Bool

module _ (env : Env) where
  -- `withCreditTransaction`. Without a unit of work the operation runs on the tables as they are,
  -- with the service's bucket repository; a unit of work always has one.
  unfoldable pub with_credit_transaction :
      {A : Type 0} → CreditService → (Bool → Action A) → Action A
  with_credit_transaction svc fn =
      if svc.has_uow then in_transaction env.gorm (fn true) else fn svc.has_buckets

  -- `ensureUser`
  unfoldable pub ensure_user : Bool → String → Action (Unit {0})
  ensure_user false user_id = pure tt
  ensure_user true user_id = do not_found_as user_not_found (user_by_id env.gorm user_id); pure tt

  -- `AccountForUser`
  unfoldable pub account_for_user : String → Action CreditAccount
  account_for_user user_id = do
    raise_if (is_empty (trim user_id)) user_not_found
    not_found_as credit_account_not_found (account_by_user_id env.gorm (trim user_id))
