-- ===== src/Credit/Allocation/Total.antt =====
-- What `Allocate` of internal/service/credit_bucket.go takes in all.
use walnut_billing.Prelude.{
  ℕ, ◌+◌, ◌-◌, ◌≤◌, ◌<◌, ◌≡◌, refl, ◌∙◌, true, false, Bool-cases, inl, inr, List, [], ◌∷◌, All, ltb,
  leb, keep, ap, arith, if◌then◌else◌,
}
use walnut_billing.Prelude.Int.{ℤ, pos, negsuc, pos_part, ◌-ℤ◌, leb_ℤ, eq_of_parts, int_laws}
use walnut_billing.Prelude.Word.{wrap64, sub64, IsInt64, wrap64_id}
use walnut_billing.Domain.{Time}
use walnut_billing.Domain.Credit.{CreditBucket}
use walnut_billing.Repository.World.{CreditBucketAllocation}
use walnut_billing.Credit.Allocation.{
  min_int64, credit_bucket_available_at, spends_before, insert_stable, sort_stable, spend, allocate,
}

abbrev pub min_ℕ : ℕ → ℕ → ℕ
min_ℕ a b = if ltb a b then a else b

-- What a split takes in all.
abbrev pub taken : List CreditBucketAllocation → ℕ
taken [] = 0
taken (a ∷ shares) = pos_part a.amount + taken shares

-- What buckets have in all.
abbrev pub total : List CreditBucket → ℕ
total [] = 0
total (b ∷ bs) = pos_part b.remaining + total bs

abbrev pub HasCredits : CreditBucket → Type 0
HasCredits b = leb_ℤ b.remaining (pos 0) ≡ false

sub64_exact : (n m : ℕ) → m ≤ n → IsInt64 (pos n) → sub64 (pos n) (pos m) ≡ pos (n - m)
unfolding sub64
sub64_exact n m le h =
    ap wrap64 (eq_of_parts (pos n -ℤ pos m) (pos (n - m)) (omega int_laws))
    ∙ wrap64_id (pos (n - m)) (omega arith, omega arith)

pub sub64_self : (n : ℤ) → leb_ℤ n (pos 0) ≡ false → sub64 n n ≡ pos 0
unfolding sub64
sub64_self (pos n) h =
    ap wrap64 (eq_of_parts (pos n -ℤ pos n) (pos 0) (omega int_laws))
    ∙ wrap64_id (pos 0) (omega arith, omega arith)
sub64_self (negsuc n) h = ground arith

-- The loop's body on a bucket, of which `used` is taken.
abbrev take_from : ℕ → CreditBucket → List CreditBucket → ℤ → List CreditBucketAllocation
take_from n b bs used =
    let rest = spend (if leb_ℤ used (pos 0) then pos n else sub64 (pos n) used) bs in
    if leb_ℤ (pos n) (pos 0)
    then []
    else if leb_ℤ used (pos 0)
    then rest
    else record { bucket_id = b.id; amount = used } ∷ rest

take_from-taken :
    (n : ℕ) (b : CreditBucket) (bs : List CreditBucket) (u : ℕ)
    → IsInt64 (pos n)
    → 0 < u
    → u ≤ n
    → taken (take_from n b bs (pos u)) ≡ u + taken (spend (pos (n - u)) bs)
take_from-taken n b bs u h some_ le = rw⁻¹ (sub64_exact n u le h) (ground arith)

min_int64_first : (m n : ℕ) → ltb m n ≡ true → min_int64 (pos m) (pos n) ≡ pos m
unfolding min_int64
min_int64_first m n h = ground arith

min_int64_second : (m n : ℕ) → ltb m n ≡ false → min_int64 (pos m) (pos n) ≡ pos n
unfolding min_int64
min_int64_second m n h = ground arith

-- One bucket, when the loop is right on the others.
take_from_lem :
    (n : ℕ) (b : CreditBucket) (bs : List CreditBucket) (r : ℤ)
    → IsInt64 (pos n)
    → leb_ℤ r (pos 0) ≡ false
    → ((k : ℕ) → IsInt64 (pos k) → taken (spend (pos k) bs) ≡ min_ℕ k (total bs))
    → taken (take_from n b bs (min_int64 r (pos n))) ≡ min_ℕ n (pos_part r + total bs)
take_from_lem n b bs (negsuc m) h has rest = ground arith
take_from_lem n b bs (pos m) h has rest = elim (Bool-cases (leb n 0)) [
  | inl none_ ↦ ground arith
  | inr some_ ↦ elim (Bool-cases (ltb m n)) [
    | inl less ↦ rw (min_int64_first m n less) (
        take_from-taken n b bs m h (ground arith) (ground arith)
        ∙ ap (λ x. m + x) (rest (n - m) (omega arith, omega arith))
        ∙ ground arith)
    | inr all_ ↦ rw (min_int64_second m n all_) (
        take_from-taken n b bs n h (ground arith) (ground arith)
        ∙ ap (λ x. n + x) (rest (n - n) (omega arith, omega arith))
        ∙ ground arith)
  ]
]

spend_lem :
    (n : ℕ) (bs : List CreditBucket)
    → IsInt64 (pos n)
    → All HasCredits bs
    → taken (spend (pos n) bs) ≡ min_ℕ n (total bs)
unfolding spend
spend_lem n [] h all = ground arith
spend_lem n (b ∷ bs) h (has, all) =
    take_from_lem n b bs b.remaining h has (λ k i. spend_lem k bs i all)

insert_stable-total :
    (b : CreditBucket) (bs : List CreditBucket)
    → total (insert_stable b bs) ≡ pos_part b.remaining + total bs
unfolding insert_stable
insert_stable-total b [] = refl
insert_stable-total b (c ∷ cs) = elim (Bool-cases (spends_before c b)) [
  | inl first ↦
      rw first (ap (λ x. pos_part c.remaining + x) (insert_stable-total b cs) ∙ omega arith)
  | inr second ↦ rw second refl
]

sort_stable-total : (bs : List CreditBucket) → total (sort_stable bs) ≡ total bs
unfolding sort_stable
sort_stable-total [] = refl
sort_stable-total (b ∷ bs) =
    insert_stable-total b (sort_stable bs)
    ∙ ap (λ x. pos_part b.remaining + x) (sort_stable-total bs)

insert_stable-All :
    (b : CreditBucket) (bs : List CreditBucket)
    → HasCredits b
    → All HasCredits bs
    → All HasCredits (insert_stable b bs)
unfolding insert_stable
insert_stable-All b [] h all = (h, all)
insert_stable-All b (c ∷ cs) h (hc, all) = elim (Bool-cases (spends_before c b)) [
  | inl first ↦ rw first (hc, insert_stable-All b cs h all)
  | inr second ↦ rw second (h, (hc, all))
]

pub sort_stable-All : (bs : List CreditBucket) → All HasCredits bs → All HasCredits (sort_stable bs)
unfolding sort_stable
sort_stable-All [] all = tt
sort_stable-All (b ∷ bs) (h, all) = insert_stable-All b (sort_stable bs) h (sort_stable-All bs all)

pub available-All :
    (now : Time) (bs : List CreditBucket)
    → All HasCredits (keep (λ b. credit_bucket_available_at b now) bs)
unfolding credit_bucket_available_at
available-All now [] = tt
available-All now (b ∷ bs) = elim (Bool-cases (credit_bucket_available_at b now)) [
  | inl here ↦ rw here (ground arith, available-All now bs)
  | inr shut ↦ rw shut (available-All now bs)
]

skip_guard :
    (n : ℕ) (shares : List CreditBucketAllocation) (z : ℕ)
    → leb n 0 ≡ false
    → taken shares ≡ z
    → taken (if leb_ℤ (pos n) (pos 0) then [] else shares) ≡ z
skip_guard n shares z h e = ground arith

-- The split of a positive 64-bit amount takes, over all its shares, the amount or all the credits of the
-- available buckets, whichever is less: it never takes more, and falls short only when they do.
pub allocate-total :
    (buckets : List CreditBucket) (n : ℕ) (now : Time)
    → IsInt64 (pos n)
    → taken (allocate buckets (pos n) now)
      ≡ min_ℕ n (total (keep (λ b. credit_bucket_available_at b now) buckets))
unfolding allocate
allocate-total buckets n now h = elim (Bool-cases (leb n 0)) [
  | inl none_ ↦ ground arith
  | inr some_ ↦ skip_guard n _ _ some_ (
      spend_lem n (sort_stable (keep (λ b. credit_bucket_available_at b now) buckets)) h
        (sort_stable-All _ (available-All now buckets))
      ∙ ap (min_ℕ n) (sort_stable-total _))
]
