-- ===== src/Tests/Settles.antt =====
-- The settlement of a reservation that is held in no bucket.
use walnut_billing.Prelude.{refl, none}
use walnut_billing.Prelude.Int.{pos}
use walnut_billing.Prelude.Text.{trim}
use walnut_billing.Domain.Credit.{
  CreditAccount, CreditReservation, ReservationStatus, TransactionType,
}
use walnut_billing.Repository.World.{World, Env}
use walnut_billing.Repository.Table.Key.{has_key}
use walnut_billing.Repository.Succeeds.{Succeeds}
use walnut_billing.Credit.Ledger.{empty_account, with_balances}
use walnut_billing.Credit.Reserve.{reserve}
use walnut_billing.Credit.Finalize.{commit, release}
use walnut_billing.Credit.Settlement.{IsReady, IsSettlement}
use walnut_billing.Credit.Settles.{commit-Succeeds, release-Succeeds}
use walnut_billing.Tests.Open.{value_of}
use walnut_billing.Tests.World.{
  test_env, memory_gorm-IsGorm, memory_gorm-IsReliable, test_service, thirty, unary,
}
use walnut_billing.Tests.Runs.{granted, finalization}

-- An environment that does not encode splits.
abbrev plain_env : Env
plain_env = record test_env { marshal_allocations = λ shares. none }

abbrev plain_held : World
plain_held = (reserve plain_env test_service thirty granted).1

abbrev the_reservation : CreditReservation
the_reservation = record {
  id = "crr_1110";
  account_id = "cra_0";
  user_id = "u";
  operation = "chat";
  amount = pos 30;
  status = ReservationStatus.pending;
  idempotency_key = "r1";
  feature_id = "f";
  execution_id = "e";
  metadata = "";
  bucket_allocations = "";
  expires_at = none;
  committed_at = none;
  released_at = none;
  created_at = 12;
  updated_at = 12;
}

abbrev the_account : CreditAccount
the_account = with_balances (empty_account "cra_0" "u" 10) (pos 70) (pos 30) 12

plain_held-IsReady :
    IsReady plain_env ReservationStatus.committed "crr_1110" the_reservation the_account plain_held
unfolding value_of unary
plain_held-IsReady = record {
  keyed_accounts = (refl, tt);
  keyed_reservations = (refl, tt);
  keyed_transactions = (refl, (refl, tt));
  there = refl;
  pending = refl;
  in_time = refl;
  owner = refl;
  covered = refl;
  bucketless = refl;
  digits = unary 5;
  drawn = refl;
  fresh = refl;
}

plain_release-IsReady :
    IsReady plain_env ReservationStatus.released "crr_1110" the_reservation the_account plain_held
unfolding value_of unary
plain_release-IsReady = record {
  keyed_accounts = (refl, tt);
  keyed_reservations = (refl, tt);
  keyed_transactions = (refl, (refl, tt));
  there = refl;
  pending = refl;
  in_time = refl;
  owner = refl;
  covered = refl;
  bucketless = refl;
  digits = unary 5;
  drawn = refl;
  fresh = refl;
}

commit-Succeeds_example :
    Succeeds
      (λ res w'.
        IsSettlement plain_env ReservationStatus.committed TransactionType.commit
          (trim finalization.idempotency_key)
          the_reservation
          the_account
          plain_held
          res
          w')
      (commit plain_env test_service finalization plain_held)
unfolding value_of unary has_key
commit-Succeeds_example =
    commit-Succeeds plain_env memory_gorm-IsGorm memory_gorm-IsReliable test_service refl
      finalization the_reservation the_account plain_held refl refl refl plain_held-IsReady

release-Succeeds_example :
    Succeeds
      (λ res w'.
        IsSettlement plain_env ReservationStatus.released TransactionType.release
          (trim finalization.idempotency_key)
          the_reservation
          the_account
          plain_held
          res
          w')
      (release plain_env test_service finalization plain_held)
unfolding value_of unary has_key
release-Succeeds_example =
    release-Succeeds plain_env memory_gorm-IsGorm memory_gorm-IsReliable test_service refl
      finalization the_reservation the_account plain_held refl refl refl plain_release-IsReady
