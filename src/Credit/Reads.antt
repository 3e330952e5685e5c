-- ===== src/Credit/Reads.antt =====
-- The methods of the wallet that only read.
use walnut_billing.Prelude.{String, List, [], ◌∷◌}
use walnut_billing.Prelude.Int.{ℤ}
use walnut_billing.Repository.World.{Store, Env}
use walnut_billing.Repository.Keeps.{
  Keeps, Keeps-pure, Keeps-bind, Keeps-read, Keeps-read_all, Keeps-not_found_as, Keeps-raise_if,
}
use walnut_billing.Repository.Credit.{
  account_by_user_id, list_transactions_by_user, list_reservations,
  list_transactions_by_reservation_ids,
}
use walnut_billing.Credit.Service.{account_for_user}
use walnut_billing.Credit.Queries.{UsageRecordQuery, list_transactions, list_usage_records}

module _ (P : Store → Type 0) (env : Env) where
  pub account_for_user-Keeps : (user_id : String) → Keeps P (account_for_user env user_id)
  unfolding account_for_user account_by_user_id
  account_for_user-Keeps user_id =
      Keeps-bind P _ _ (Keeps-raise_if P _ _) λ u. Keeps-not_found_as P _ _ (Keeps-read P _)

  pub list_transactions-Keeps :
      (user_id : String) (limit offset : ℤ) → Keeps P (list_transactions env user_id limit offset)
  unfolding list_transactions list_transactions_by_user
  list_transactions-Keeps user_id limit offset =
      Keeps-bind P _ _ (Keeps-raise_if P _ _) λ u. Keeps-read_all P _

  transactions_of-Keeps :
      (ids : List String) → Keeps P (list_transactions_by_reservation_ids env.gorm ids)
  unfolding list_transactions_by_reservation_ids
  transactions_of-Keeps [] = Keeps-read_all P _
  transactions_of-Keeps (i ∷ ids) = Keeps-read_all P _

  pub list_usage_records-Keeps : (q : UsageRecordQuery) → Keeps P (list_usage_records env q)
  unfolding list_usage_records list_reservations
  list_usage_records-Keeps q = Keeps-bind P _ _ (Keeps-raise_if P _ _) λ u.
      Keeps-bind P _ _ (Keeps-read_all P _)
        λ rs. Keeps-bind P _ _ (transactions_of-Keeps _) λ ts. Keeps-pure P _
