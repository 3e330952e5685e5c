-- ===== src/Tests/Runs.antt =====
-- Runs of the wallet in memory.
use walnut_billing.Prelude.Int.{pos}
use walnut_billing.Repository.World.{World}
use walnut_billing.Credit.Ledger.{CreditFinalizationInput, CreditBucketExpiryInput}
use walnut_billing.Credit.Grant.{grant}
use walnut_billing.Credit.Reserve.{reserve}
use walnut_billing.Credit.Finalize.{commit, release}
use walnut_billing.Credit.Queries.{expire_buckets}
use walnut_billing.Tests.World.{test_env, test_service, start, hundred, thirty}

abbrev pub granted : World
granted = (grant test_env test_service hundred start).1

abbrev pub held : World
held = (reserve test_env test_service thirty granted).1

abbrev pub finalization : CreditFinalizationInput
finalization = record { reservation_id = "crr_1110"; idempotency_key = "f1" }

abbrev pub committed : World
committed = (commit test_env test_service finalization held).1

abbrev pub released : World
released = (release test_env test_service finalization held).1

abbrev pub sweep : CreditBucketExpiryInput
sweep = record { now = 90; limit = pos 0 }

abbrev pub swept : World
swept = (expire_buckets test_env test_service sweep granted).1
