-- ===== src/Credit/Allocation.antt =====
-- How a reservation is split over buckets: the allocation strategy and the helpers on allocations
-- of internal/service/credit_bucket.go.
pub mod Total
pub mod Order
pub mod Spent
use walnut_billing.Prelude.{
  String, Bool, true, false, not, ◌||◌, Option, none, some, List, [], ◌∷◌, ltb, nat_eq, keep,
  if◌then◌else◌,
}
use walnut_billing.Prelude.Int.{ℤ, pos, ltb_ℤ, leb_ℤ}
use walnut_billing.Prelude.Word.{add64, sub64}
use walnut_billing.Prelude.Text.{trim, is_empty, text_lt}
use walnut_billing.Domain.{Time}
use walnut_billing.Domain.Credit.{CreditBucket, is_active}
use walnut_billing.Repository.World.{CreditBucketAllocation, Env}

-- `minInt64`
unfoldable pub min_int64 : ℤ → ℤ → ℤ
min_int64 a b = if ltb_ℤ a b then a else b

-- `t == nil || t.After(now)`
abbrev pub open_at : Option Time → Time → Bool
open_at none now = true
open_at (some t) now = ltb now t

-- `creditBucketAvailableAt`
unfoldable pub credit_bucket_available_at : CreditBucket → Time → Bool
credit_bucket_available_at b now =
    if not (is_active b.status) || leb_ℤ b.remaining (pos 0)
    then false
    else open_at b.expires_at now

-- The comparison that `Allocate` sorts by.
abbrev pub sooner : Option Time → Option Time → Bool → Bool
sooner none none next = next
sooner none (some d) next = false
sooner (some c) none next = true
sooner (some c) (some d) next = if not (nat_eq c d) then ltb c d else next

unfoldable pub spends_before : CreditBucket → CreditBucket → Bool
spends_before a b = sooner a.expires_at b.expires_at (
    if not (nat_eq a.created_at b.created_at)
    then ltb a.created_at b.created_at
    else text_lt a.id b.id)

-- `sort.SliceStable`
unfoldable pub insert_stable : CreditBucket → List CreditBucket → List CreditBucket
insert_stable b [] = b ∷ []
insert_stable b (c ∷ cs) = if spends_before c b then c ∷ insert_stable b cs else b ∷ c ∷ cs

unfoldable pub sort_stable : List CreditBucket → List CreditBucket
unfolding insert_stable
sort_stable [] = []
sort_stable (b ∷ bs) = insert_stable b (sort_stable bs)

-- The loop of `Allocate` over the sorted buckets, with the amount that remains.
unfoldable pub spend : ℤ → List CreditBucket → List CreditBucketAllocation
unfolding min_int64
spend remaining [] = []
spend remaining (b ∷ bs) =
    let used = min_int64 b.remaining remaining in
    let rest = spend (if leb_ℤ used (pos 0) then remaining else sub64 remaining used) bs in
    if leb_ℤ remaining (pos 0)
    then []
    else if leb_ℤ used (pos 0)
    then rest
    else record { bucket_id = b.id; amount = used } ∷ rest

-- `earliestExpiringBucketAllocationStrategy.Allocate`
unfoldable pub allocate : List CreditBucket → ℤ → Time → List CreditBucketAllocation
unfolding spend sort_stable credit_bucket_available_at
allocate buckets amount now =
    if leb_ℤ amount (pos 0)
    then []
    else spend amount (sort_stable (keep (λ b. credit_bucket_available_at b now) buckets))

-- `compactCreditBucketAllocations`
unfoldable pub compact : List CreditBucketAllocation → List CreditBucketAllocation
unfolding trim is_empty
compact [] = []
compact (a ∷ shares) =
    if is_empty (trim a.bucket_id) || leb_ℤ a.amount (pos 0)
    then compact shares
    else record a { bucket_id = trim a.bucket_id } ∷ compact shares

-- `singleAllocationBucketID`
unfoldable pub single_allocation_bucket_id : List CreditBucketAllocation → String
unfolding compact
single_allocation_bucket_id shares = elim (compact shares) [
  | [] ↦ ""
  | a ∷ rest ↦ elim rest [ [] ↦ a.bucket_id | _ ∷ _ ↦ "" ]
]

unfoldable pub sum_amounts : ℤ → List CreditBucketAllocation → ℤ
sum_amounts total [] = total
sum_amounts total (a ∷ shares) = sum_amounts (add64 total a.amount) shares

-- `totalCreditBucketAllocationAmount`
unfoldable pub total_allocation_amount : List CreditBucketAllocation → ℤ
unfolding compact sum_amounts
total_allocation_amount shares = sum_amounts (pos 0) (compact shares)

module _ (env : Env) where
  -- `encodeCreditBucketAllocations`
  unfoldable pub encode_allocations : List CreditBucketAllocation → String
  unfolding compact
  encode_allocations shares = elim (compact shares) [
    | [] ↦ ""
    | b ∷ bs ↦ elim (env.marshal_allocations (b ∷ bs)) [ none ↦ "" | some text ↦ text ]
  ]

  -- `decodeCreditBucketAllocations`
  unfoldable pub decode_allocations : String → List CreditBucketAllocation
  unfolding compact trim is_empty
  decode_allocations raw =
      if is_empty (trim raw)
      then []
      else elim (env.unmarshal_allocations (trim raw)) [ none ↦ [] | some shares ↦ compact shares ]
