-- ===== src/Tests/Allocation.antt =====
-- The theorems on allocation at two buckets.
use walnut_billing.Prelude.{String, ◌≡◌, Option, none, some, List, [], ◌∷◌, keep, arith}
use walnut_billing.Prelude.Int.{ℤ, pos}
use walnut_billing.Domain.{Time}
use walnut_billing.Domain.Credit.{CreditBucket, BucketType, BucketStatus}
use walnut_billing.Credit.Allocation.{credit_bucket_available_at, allocate}
use walnut_billing.Credit.Allocation.Total.{taken, total, min_ℕ, allocate-total}
use walnut_billing.Credit.Allocation.Spent.{IsEarliestFirst, allocate-IsEarliestFirst}

abbrev bucket_of : String → Option Time → ℤ → CreditBucket
bucket_of id expires_at remaining = record {
  id = id;
  account_id = "a";
  user_id = "u";
  type = BucketType.admin;
  source = "admin";
  source_order_no = "";
  source_transaction_id = "";
  period_start_at = none;
  period_end_at = none;
  expires_at = expires_at;
  granted = remaining;
  remaining = remaining;
  reserved = pos 0;
  status = BucketStatus.active;
  idempotency_key = id;
  created_at = 1;
  updated_at = 1;
}

-- Two buckets, of which the second expires first.
abbrev two_buckets : List CreditBucket
two_buckets = bucket_of "b1" none (pos 20) ∷ bucket_of "b2" (some 50) (pos 15) ∷ []

allocate-total_example :
    taken (allocate two_buckets (pos 30) 10)
    ≡ min_ℕ 30 (total (keep (λ b. credit_bucket_available_at b 10) two_buckets))
allocate-total_example = allocate-total two_buckets 30 10 (omega arith, omega arith)

allocate-IsEarliestFirst_example :
    IsEarliestFirst
      (keep (λ b. credit_bucket_available_at b 10) two_buckets)
      (pos 30)
      (allocate two_buckets (pos 30) 10)
allocate-IsEarliestFirst_example = allocate-IsEarliestFirst two_buckets (pos 30) 10
