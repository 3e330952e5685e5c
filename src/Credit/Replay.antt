-- ===== src/Credit/Replay.antt =====
-- What the branches of internal/service/credit.go for a repeated idempotency key do to the tables.
use walnut_billing.Prelude.{Bool}
use walnut_billing.Domain.Credit.{CreditReservation, CreditTransaction}
use walnut_billing.Repository.World.{Store, Env}
use walnut_billing.Repository.Keeps.{
  Keeps, Keeps-pure, Keeps-bind, Keeps-read, Keeps-if, Keeps-if_found,
}
use walnut_billing.Repository.Credit.{account_by_id, bucket_by_id, reservation_by_id}
use walnut_billing.Credit.Grant.{replay_grant}
use walnut_billing.Credit.Reserve.{replay_reserve}
use walnut_billing.Credit.Finalize.{replay_finalize}

module _ (P : Store → Type 0) (env : Env) where
  pub replay_grant-Keeps :
      (has_buckets : Bool) (existing : CreditTransaction)
      → Keeps P (replay_grant env has_buckets existing)
  unfolding replay_grant account_by_id bucket_by_id
  replay_grant-Keeps has_buckets existing = Keeps-bind P _ _ (Keeps-read P _) λ account.
      Keeps-bind P _ _
        (Keeps-if P _ _ _
          (Keeps-if_found P _ _ _ (Keeps-read P _) (λ b. Keeps-pure P _) (Keeps-pure P _))
          (Keeps-pure P _))
        λ bucket. Keeps-pure P _

  pub replay_reserve-Keeps : (existing : CreditReservation) → Keeps P (replay_reserve env existing)
  unfolding replay_reserve account_by_id
  replay_reserve-Keeps existing = Keeps-bind P _ _ (Keeps-read P _) λ account. Keeps-pure P _

  pub replay_finalize-Keeps :
      (existing : CreditTransaction) → Keeps P (replay_finalize env existing)
  unfolding replay_finalize account_by_id reservation_by_id
  replay_finalize-Keeps existing =
      Keeps-bind P _ _ (Keeps-read P _)
        λ reservation. Keeps-bind P _ _ (Keeps-read P _) λ account. Keeps-pure P _
