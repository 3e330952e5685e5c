-- ===== src/Tests/Witnesses.antt =====
-- The theorems on the wallet at the runs of the tests.
use walnut_billing.Prelude.{◌≡◌, refl, false, none}
use walnut_billing.Prelude.Int.{pos}
use walnut_billing.Prelude.Text.{trim}
use walnut_billing.Repository.Table.Key.{has_key}
use walnut_billing.Credit.Once.Finalized.{commit_once, release_once}
use walnut_billing.Repository.Error.{Error, insufficient_credits, Result, ok, err}
use walnut_billing.Repository.World.{World}
use walnut_billing.Credit.Ledger.{CreditReservationInput, CreditMutationResult, empty_account}
use walnut_billing.Credit.Requests.{Request}
use walnut_billing.Credit.Requests.Handle.{handle}
use walnut_billing.Credit.Atomic.{handle_atomic}
use walnut_billing.Credit.Once.Twice.{grant_twice, reserve_twice, commit_twice}
use walnut_billing.Credit.Books.Reached.{Reaches, Reaches-IsConsistent}
use walnut_billing.Tests.Open.{value_of}
use walnut_billing.Credit.Grant.{grant}
use walnut_billing.Credit.Reserve.{reserve}
use walnut_billing.Credit.Finalize.{commit, release}
use walnut_billing.Credit.Queries.{expire_buckets}
use walnut_billing.Credit.Books.{IsConsistent}
use walnut_billing.Credit.Books.Kept.{
  grant-IsConsistent, reserve-IsConsistent, finalize-IsConsistent, expire_buckets-IsConsistent,
}
use walnut_billing.Tests.World.{
  test_env, memory_gorm-IsGorm, test_service, one_user, start, unary, start-IsConsistent, hundred,
  thirty,
}
use walnut_billing.Tests.Runs.{granted, held, committed, released, finalization, sweep}

granted-IsConsistent : IsConsistent granted.store
granted-IsConsistent =
    grant-IsConsistent test_env memory_gorm-IsGorm test_service refl hundred start
      start-IsConsistent

held-IsConsistent : IsConsistent held.store
held-IsConsistent =
    reserve-IsConsistent test_env memory_gorm-IsGorm test_service refl thirty granted
      granted-IsConsistent

grant-IsConsistent_example : IsConsistent (grant test_env test_service hundred start).1.store
grant-IsConsistent_example =
    grant-IsConsistent test_env memory_gorm-IsGorm test_service refl hundred start
      start-IsConsistent

reserve-IsConsistent_example : IsConsistent (reserve test_env test_service thirty granted).1.store
reserve-IsConsistent_example =
    reserve-IsConsistent test_env memory_gorm-IsGorm test_service refl thirty granted
      granted-IsConsistent

finalize-IsConsistent_example :
    IsConsistent (commit test_env test_service finalization held).1.store
    × IsConsistent (release test_env test_service finalization held).1.store
finalize-IsConsistent_example =
    finalize-IsConsistent test_env memory_gorm-IsGorm test_service refl finalization held
      held-IsConsistent

expire_buckets-IsConsistent_example :
    IsConsistent (expire_buckets test_env test_service sweep granted).1.store
expire_buckets-IsConsistent_example =
    expire_buckets-IsConsistent test_env memory_gorm-IsGorm test_service refl sweep granted
      granted-IsConsistent

-- A reservation of more than the balance.
abbrev too_much : CreditReservationInput
too_much = record thirty { amount = pos 500 }

too_much_fails :
    (handle test_env test_service (Request.reserve too_much) granted).0 ≡ err insufficient_credits
unfolding value_of unary
too_much_fails = refl

handle_atomic_example :
    (handle test_env test_service (Request.reserve too_much) granted).1.store ≡ granted.store
handle_atomic_example =
    handle_atomic test_env (λ before now. refl) test_service refl (Request.reserve too_much) granted
      insufficient_credits too_much_fails

Reaches-IsConsistent_example :
    IsConsistent
      (handle test_env test_service
        (Request.reserve thirty)
        (handle test_env test_service (Request.grant hundred) start).1).1.store
Reaches-IsConsistent_example =
    Reaches-IsConsistent test_env memory_gorm-IsGorm test_service refl _ (
      Reaches.step (Request.reserve thirty)
        (handle test_env test_service (Request.grant hundred) start).1
        (Reaches.step (Request.grant hundred) start (Reaches.start one_user.users)))

-- A result to fall back on.
abbrev no_result : CreditMutationResult
no_result = record {
  account = empty_account "" "" 0;
  reservation = none;
  transaction = none;
  bucket = none;
}

abbrev result_of : Result Error CreditMutationResult × World → CreditMutationResult
result_of r = value_of no_result r

grant_runs :
    grant test_env test_service hundred start
    ≡ (ok (result_of (grant test_env test_service hundred start)), granted)
unfolding value_of unary
grant_runs = refl

reserve_runs :
    reserve test_env test_service thirty granted
    ≡ (ok (result_of (reserve test_env test_service thirty granted)), held)
unfolding value_of unary
reserve_runs = refl

commit_runs :
    commit test_env test_service finalization held
    ≡ (ok (result_of (commit test_env test_service finalization held)), committed)
unfolding value_of unary
commit_runs = refl

grant_twice_example :
    (grant test_env test_service (record hundred { amount = pos 7 }) granted).1.store
    ≡ granted.store
grant_twice_example =
    grant_twice test_env memory_gorm-IsGorm test_service refl hundred
      (record hundred { amount = pos 7 }) _ start granted grant_runs refl

reserve_twice_example : (reserve test_env test_service thirty held).1.store ≡ held.store
reserve_twice_example =
    reserve_twice test_env memory_gorm-IsGorm test_service refl thirty thirty _ granted held
      reserve_runs refl

commit_twice_example :
    ((commit test_env test_service finalization committed).1.store ≡ committed.store)
    × ((release test_env test_service finalization committed).1.store ≡ committed.store)
commit_twice_example =
    commit_twice test_env memory_gorm-IsGorm test_service refl finalization finalization _ held
      committed commit_runs refl

release_runs :
    release test_env test_service finalization held
    ≡ (ok (result_of (release test_env test_service finalization held)), released)
unfolding value_of unary
release_runs = refl

key_fresh :
    has_key (λ t. t.idempotency_key) (trim finalization.idempotency_key) held.store.transactions
    ≡ false
unfolding value_of unary has_key
key_fresh = refl

commit_once_example :
    ((commit test_env test_service
        (record finalization { idempotency_key = "f2" })
        committed).1.store
      ≡ committed.store)
    × ((release test_env test_service
          (record finalization { idempotency_key = "f2" })
          committed).1.store
        ≡ committed.store)
commit_once_example =
    commit_once test_env memory_gorm-IsGorm test_service refl finalization
      (record finalization { idempotency_key = "f2" }) _ held committed key_fresh commit_runs refl

release_once_example :
    ((commit test_env test_service
        (record finalization { idempotency_key = "f2" })
        released).1.store
      ≡ released.store)
    × ((release test_env test_service
          (record finalization { idempotency_key = "f2" })
          released).1.store
        ≡ released.store)
release_once_example =
    release_once test_env memory_gorm-IsGorm test_service refl finalization
      (record finalization { idempotency_key = "f2" }) _ held released key_fresh release_runs refl
