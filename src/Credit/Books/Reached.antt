-- ===== src/Credit/Books/Reached.antt =====
-- The books over sequences of requests to `CreditService` of internal/service/credit.go.
use walnut_billing.Prelude.{◌≡◌, refl, true, List, []}
use walnut_billing.Domain.{User}
use walnut_billing.Repository.World.{Store, World, Env}
use walnut_billing.Repository.Monad.{Action, pure, ◌>>=◌}
use walnut_billing.Repository.Keeps.{Keeps, Keeps-bind, Keeps-pure}
use walnut_billing.Repository.Credit.Rules.{IsGorm}
use walnut_billing.Credit.Service.{CreditService}
use walnut_billing.Credit.Requests.{Request}
use walnut_billing.Credit.Requests.Handle.{handle}
use walnut_billing.Credit.Reads.{
  account_for_user-Keeps, list_transactions-Keeps, list_usage_records-Keeps,
}
use walnut_billing.Credit.Books.{IsConsistent, ledger_sum, held_sum}
use walnut_billing.Credit.Books.Kept.{
  grant-IsConsistent, reserve-IsConsistent, finalize-IsConsistent, expire_buckets-IsConsistent,
}
use walnut_billing.Prelude.Word.{wrap64}
use walnut_billing.Repository.Table.{lookup}

-- The wallet before its first request.
abbrev pub no_credits : List User → Store
no_credits users = record {
  users = users;
  accounts = [];
  reservations = [];
  transactions = [];
  buckets = [];
}

-- The worlds that requests reach, one after another, from a wallet with no credits; each starts at any
-- reading of the clock and of the random source.
pub data Reaches (env : Env) (svc : CreditService) : Store → Type 0 where
  start : (users : List User) → Reaches env svc (no_credits users)
  step :
      (request : Request) (w : World)
      → Reaches env svc w.store
      → Reaches env svc (handle env svc request w).1.store

no_credits-IsConsistent : (users : List User) → IsConsistent (no_credits users)
unfolding wrap64 lookup ledger_sum held_sum
no_credits-IsConsistent users = record { balanced = λ k. refl; held = λ k. refl }

module _ (env : Env) (laws : IsGorm env.gorm) (svc : CreditService) (uow : svc.has_uow ≡ true) where
  answered :
      {A B : Type 0} (m : Action A) (f : A → B)
      → Keeps IsConsistent m
      → Keeps IsConsistent (m >>= λ a. pure (f a))
  answered m f h = Keeps-bind IsConsistent _ _ h λ a. Keeps-pure IsConsistent _

  handle-Keeps : (request : Request) → Keeps IsConsistent (handle env svc request)
  unfolding handle
  handle-Keeps (Request.account_for_user user_id) =
      answered _ _ (account_for_user-Keeps _ env user_id)
  handle-Keeps (Request.grant input) =
      answered _ _ (record { keeps = grant-IsConsistent env laws svc uow input })
  handle-Keeps (Request.reserve input) =
      answered _ _ (record { keeps = reserve-IsConsistent env laws svc uow input })
  handle-Keeps (Request.commit input) =
      answered _ _ (record { keeps = λ w h. (finalize-IsConsistent env laws svc uow input w h).0 })
  handle-Keeps (Request.release input) =
      answered _ _ (record { keeps = λ w h. (finalize-IsConsistent env laws svc uow input w h).1 })
  handle-Keeps (Request.expire_buckets input) =
      answered _ _ (record { keeps = expire_buckets-IsConsistent env laws svc uow input })
  handle-Keeps (Request.list_transactions user_id limit offset) =
      answered _ _ (list_transactions-Keeps _ env user_id limit offset)
  handle-Keeps (Request.list_usage_records q) = answered _ _ (list_usage_records-Keeps _ env q)

  -- If GORM keeps its promises and the service has a unit of work, every store that a sequence of
  -- requests reaches from a wallet with no credits has consistent books, failed requests included.
  pub Reaches-IsConsistent : (s : Store) → Reaches env svc s → IsConsistent s
  Reaches-IsConsistent s (start users) = no_credits-IsConsistent users
  Reaches-IsConsistent s (step request w r) =
      (handle-Keeps request).keeps w (Reaches-IsConsistent w.store r)
