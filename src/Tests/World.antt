-- ===== src/Tests/World.antt =====
-- An environment with the engine in memory, and the stores that the tests start from.
use Prim.Native.String.{◌++◌}
use walnut_billing.Prelude.{ℕ, zero, suc, true, ◌+◌, String, refl, none, some, [], ◌∷◌}
use walnut_billing.Prelude.Int.{pos}
use walnut_billing.Domain.{UserStatus}
use walnut_billing.Repository.Error.{ok}
use walnut_billing.Repository.World.{Store, World, Gorm, Env}
use walnut_billing.Repository.Credit.Rules.{IsGorm}
use walnut_billing.Credit.Ledger.{CreditGrantInput, CreditReservationInput}
use walnut_billing.Credit.Books.{IsConsistent, ledger_sum, held_sum}
use walnut_billing.Prelude.Word.{wrap64}
use walnut_billing.Repository.Table.{lookup, upsert}
use walnut_billing.Credit.Service.{CreditService}
use walnut_billing.Repository.Reliable.{IsReliable}
use walnut_billing.Tests.Engine.{
  memory_table-Finds, memory_create-fresh, memory_save, memory_table, memory_table-IsTable,
}

abbrev pub memory_gorm : Gorm
memory_gorm = record {
  users = memory_table (λ u. u.id);
  accounts = memory_table (λ a. a.id);
  reservations = memory_table (λ r. r.id);
  transactions = memory_table (λ t. t.id);
  buckets = memory_table (λ b. b.id);
  begin = λ s. ok tt;
  commit = λ s. ok tt;
  rollback = λ before now. before;
}

pub memory_gorm-IsGorm : IsGorm memory_gorm
memory_gorm-IsGorm = record {
  accounts = memory_table-IsTable (λ a. a.id);
  buckets = memory_table-IsTable (λ b. b.id);
  reservations = memory_table-IsTable (λ r. r.id);
  transactions = memory_table-IsTable (λ t. t.id);
  restores = λ before now. refl;
}

pub memory_gorm-IsReliable : IsReliable memory_gorm
unfolding memory_save
memory_gorm-IsReliable = record {
  begins = λ s. refl;
  commits = λ s. refl;
  finds_accounts = memory_table-Finds (λ a. a.id);
  finds_reservations = memory_table-Finds (λ r. r.id);
  finds_transactions = memory_table-Finds (λ t. t.id);
  saves_accounts = λ r rows. (upsert (λ x. x.id) r rows, refl);
  saves_reservations = λ r rows. (upsert (λ x. x.id) r rows, refl);
  creates_transactions = memory_create-fresh (λ t. t.id);
}

-- The numbers in unary.
unfoldable pub unary : ℕ → String
unary zero = "0"
unary (suc n) = "1" ++ unary n

-- The codecs know the one text of the tests.
abbrev pub test_env : Env
test_env = record {
  gorm = memory_gorm;
  clock = λ n. 10 + n;
  random = λ n. some (unary n);
  marshal_allocations = λ shares. some "[one]";
  unmarshal_allocations = λ raw. some (record { bucket_id = "crb_10"; amount = pos 30 } ∷ []);
  marshal_metadata = λ m. none;
  unmarshal_metadata = λ raw. none;
  format_stamp = λ t. unary t;
}

abbrev pub test_service : CreditService
test_service = record { has_users = true; has_buckets = true; has_uow = true }

abbrev pub one_user : Store
one_user = record {
  users =
      record {
        id = "u";
        email = "u@x";
        display_name = "";
        status = UserStatus.active;
        created_at = 1;
        updated_at = 1;
      }
      ∷ [];
  accounts = [];
  reservations = [];
  transactions = [];
  buckets = [];
}

abbrev pub start : World
start = record { store = one_user; ticks = 0; draws = 0 }

abbrev pub hundred : CreditGrantInput
hundred = record {
  user_id = " u ";
  amount = pos 100;
  idempotency_key = "g1";
  source = "fulfillment";
  description = "";
  bucket_type = "";
  source_order_no = "o1";
  period_start_at = none;
  period_end_at = some 90;
  expires_at = none;
}

abbrev pub thirty : CreditReservationInput
thirty = record {
  user_id = "u";
  operation = "chat";
  amount = pos 30;
  idempotency_key = "r1";
  feature_id = "f";
  execution_id = "e";
  metadata = [];
  expires_at = none;
}

pub start-IsConsistent : IsConsistent start.store
unfolding wrap64 lookup ledger_sum held_sum
start-IsConsistent = record { balanced = λ k. refl; held = λ k. refl }
