-- ===== src/Tests/Open.antt =====
-- All the definitions that a run of the wallet goes through, opened together.
use walnut_billing.Repository.Error.{Error, Result, ok, err}
use walnut_billing.Repository.World.{World}
use walnut_billing.Repository.Monad.{
  pure, raise, ◌>>=◌, raise_if, if_found, not_found_as, from_gorm, from_gorm_read, read, read_all,
  write, time_now, generate_entity_id,
}
use walnut_billing.Repository.Transaction.{begin_uow, finish_uow, begun, in_transaction}
use walnut_billing.Repository.Credit.{
  bucket_matches, bucket_order, reservation_matches, listed_in, user_by_id, create_account,
  account_by_id, account_by_user_id, update_account, create_bucket, bucket_by_id, list_buckets,
  update_bucket, create_reservation, reservation_by_id, reservation_by_idempotency_key,
  list_reservations, update_reservation, create_transaction, transaction_by_id,
  transaction_by_idempotency_key, list_transactions_by_user, list_transactions_by_reservation_ids,
}
use walnut_billing.Repository.Table.{lookup, upsert}
use walnut_billing.Repository.Error.{map_gorm_not_found}
use walnut_billing.Credit.Allocation.{
  min_int64, credit_bucket_available_at, spends_before, insert_stable, sort_stable, spend, allocate,
  compact, single_allocation_bucket_id, sum_amounts, total_allocation_amount, encode_allocations,
  decode_allocations,
}
use walnut_billing.Credit.Ledger.{
  default_string, transaction_of, new_credit_transaction, open_account, ensure_credit_account,
}
use walnut_billing.Credit.Bucket.{
  clone_time_utc, normalize_credit_bucket_type, bucket_expiry, bucket_from_grant, hold_in_bucket,
  settle_in_bucket, expired_amount_of, cached_account, add_expiry,
}
use walnut_billing.Credit.Holding.{
  credit_bucket_expire_key, charge_expiry, expire_credit_bucket, expire_account_loop,
  expire_credit_buckets_for_account, cached_or_read, expire_loop, expire_credit_buckets_with_repos,
  hold_allocations, reserve_bucket_credits, settle_allocations, finalize_bucket_allocations,
}
use walnut_billing.Credit.Usage.{
  metadata_value, to_usage_metadata_string, sanitized_keys, sanitized_usage_metadata,
  encode_usage_metadata, decode_usage_metadata, usage_record_from_reservation,
}
use walnut_billing.Credit.Service.{with_credit_transaction, ensure_user, account_for_user}
use walnut_billing.Credit.Grant.{
  granted_bucket, replay_grant, new_bucket, store_bucket, apply_grant, grant_credits_with_repos,
  grant,
}
use walnut_billing.Credit.Reserve.{
  check_expiry, replay_reserve, reservation_of, apply_reserve, reserve,
}
use walnut_billing.Credit.Finalize.{
  restored_amount, finalized, balance_after, replay_finalize, settle_buckets, write_finalized,
  apply_finalize, finalize_reservation, commit, release,
}
use walnut_billing.Credit.Queries.{
  reservation_query, expiry_time, expire_buckets, list_transactions, usage_records,
  list_usage_records,
}
use walnut_billing.Credit.Requests.Handle.{handle}
use walnut_billing.Tests.Engine.{
  memory_create, memory_save, first_from, memory_first, found_from, memory_find,
}
use walnut_billing.Domain.Credit.{reservation_status_text, bucket_status_text, bucket_type_text}
use walnut_billing.Prelude.Word.{wrap64, add64, sub64, neg64}
use walnut_billing.Prelude.Text.{
  is_space, is_empty, trim_left, put_right, trim_right, trim, text_lt,
}
use walnut_billing.Prelude.Int.{◌+ℤ◌, ◌-ℤ◌, neg}

-- The value of a run that ended without an error, and otherwise a value of the caller's.
unfoldable pub value_of : {A : Type 0} → A → Result Error A × World → A
unfolding pure raise ◌>>=◌ raise_if if_found not_found_as from_gorm from_gorm_read read read_all
    write time_now generate_entity_id begin_uow finish_uow begun in_transaction bucket_matches
    bucket_order reservation_matches listed_in user_by_id create_account account_by_id
    account_by_user_id update_account create_bucket bucket_by_id list_buckets update_bucket
    create_reservation reservation_by_id reservation_by_idempotency_key list_reservations
    update_reservation create_transaction transaction_by_id transaction_by_idempotency_key
    list_transactions_by_user list_transactions_by_reservation_ids lookup upsert map_gorm_not_found
    min_int64 credit_bucket_available_at spends_before insert_stable sort_stable spend allocate
    compact single_allocation_bucket_id sum_amounts total_allocation_amount encode_allocations
    decode_allocations default_string transaction_of new_credit_transaction open_account
    ensure_credit_account clone_time_utc normalize_credit_bucket_type bucket_expiry
    bucket_from_grant hold_in_bucket settle_in_bucket expired_amount_of cached_account add_expiry
    credit_bucket_expire_key charge_expiry expire_credit_bucket expire_account_loop
    expire_credit_buckets_for_account cached_or_read expire_loop expire_credit_buckets_with_repos
    hold_allocations reserve_bucket_credits settle_allocations finalize_bucket_allocations
    metadata_value to_usage_metadata_string sanitized_keys sanitized_usage_metadata
    encode_usage_metadata decode_usage_metadata usage_record_from_reservation
    with_credit_transaction ensure_user account_for_user granted_bucket replay_grant new_bucket
    store_bucket apply_grant grant_credits_with_repos grant check_expiry replay_reserve
    reservation_of apply_reserve reserve restored_amount finalized balance_after replay_finalize
    settle_buckets write_finalized apply_finalize finalize_reservation commit release
    reservation_query expiry_time expire_buckets list_transactions usage_records list_usage_records
    handle memory_create memory_save first_from memory_first found_from memory_find
    reservation_status_text bucket_status_text bucket_type_text wrap64 add64 sub64 neg64 is_space
    is_empty trim_left put_right trim_right trim text_lt ◌+ℤ◌ ◌-ℤ◌ neg
value_of a (ok b, w) = b
value_of a (err e, w) = a
