-- ===== src/Credit/Requests/Handle.antt =====
-- The methods of `CreditService` of internal/service/credit.go, by their requests.
use walnut_billing.Repository.World.{Env}
use walnut_billing.Repository.Monad.{Action, pure, ◌>>=◌}
use walnut_billing.Credit.Service.{CreditService, account_for_user}
use walnut_billing.Credit.Grant.{grant}
use walnut_billing.Credit.Reserve.{reserve}
use walnut_billing.Credit.Finalize.{commit, release}
use walnut_billing.Credit.Queries.{expire_buckets, list_transactions, list_usage_records}
use walnut_billing.Credit.Requests.{Request, Response}

module _ (env : Env) (svc : CreditService) where
  unfoldable pub handle : Request → Action Response
  handle (Request.account_for_user user_id) = do
    a ← account_for_user env user_id
    pure (Response.account a)
  handle (Request.grant input) = do r ← grant env svc input; pure (Response.mutation r)
  handle (Request.reserve input) = do r ← reserve env svc input; pure (Response.mutation r)
  handle (Request.commit input) = do r ← commit env svc input; pure (Response.mutation r)
  handle (Request.release input) = do r ← release env svc input; pure (Response.mutation r)
  handle (Request.expire_buckets input) = do
    r ← expire_buckets env svc input
    pure (Response.expiry r)
  handle (Request.list_transactions user_id limit offset) = do
    ts ← list_transactions env user_id limit offset
    pure (Response.transactions ts)
  handle (Request.list_usage_records q) = do rs ← list_usage_records env q; pure (Response.usage rs)
