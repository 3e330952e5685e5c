-- ===== src/Credit/Allocation/Spent.antt =====
-- Which buckets `Allocate` of internal/service/credit_bucket.go spends, and how much of each.
use walnut_billing.Prelude.{
  ◌<◌, ◌≡◌, refl, ap, ◌⊎◌, inl, inr, Bool, true, false, not, Bool-cases, Option, none, some, List,
  [], ◌∷◌, All, keep, ltb, nat_eq, arith, if◌then◌else◌,
}
use mathlib.Core.List.{Permᴰ}
use walnut_billing.Prelude.Int.{ℤ, pos, ltb_ℤ, leb_ℤ}
use walnut_billing.Prelude.Word.{sub64}
use walnut_billing.Prelude.Text.{text_lt}
use walnut_billing.Domain.{Time}
use walnut_billing.Domain.Credit.{CreditBucket}
use walnut_billing.Repository.World.{CreditBucketAllocation}
use walnut_billing.Credit.Allocation.{
  min_int64, credit_bucket_available_at, sooner, spends_before, sort_stable, spend, allocate,
}
use walnut_billing.Credit.Allocation.Total.{HasCredits, sort_stable-All, available-All, sub64_self}
use walnut_billing.Credit.Allocation.Order.{IsSorted, sort_stable-IsSorted}

-- An expiry before another; no expiry is the latest.
abbrev pub EndsBefore : Option Time → Option Time → Type 0
EndsBefore none d = ⊥
EndsBefore (some c) none = Unit
EndsBefore (some c) (some d) = c < d

-- A bucket that ends before another, or as late but was created before it, or at the same time too but
-- has not the greater id.
abbrev pub IsNotAfter : CreditBucket → CreditBucket → Type 0
IsNotAfter a b =
    EndsBefore a.expires_at b.expires_at
    ⊎ ((a.expires_at ≡ b.expires_at)
        × ((a.created_at < b.created_at)
            ⊎ ((a.created_at ≡ b.created_at) × (text_lt b.id a.id ≡ false))))

abbrev pub IsInOrder : List CreditBucket → Type 0
IsInOrder [] = Unit
IsInOrder (a ∷ []) = Unit
IsInOrder (a ∷ b ∷ bs) = IsNotAfter a b × IsInOrder (b ∷ bs)

-- The shares of an amount in a list of buckets: all of one bucket after the other while the amount is
-- more, and what is left of the amount from the next one, with which the shares end.
abbrev pub Drains : ℤ → List CreditBucket → List CreditBucketAllocation → Type 0
Drains n [] [] = Unit
Drains n [] (x ∷ xs) = ⊥
Drains n (b ∷ bs) [] = leb_ℤ n (pos 0) ≡ true
Drains n (b ∷ bs) (x ∷ xs) =
    (leb_ℤ n (pos 0) ≡ false)
    × (x.bucket_id ≡ b.id)
    × (((ltb_ℤ b.remaining n ≡ true)
          × (x.amount ≡ b.remaining)
          × Drains (sub64 n b.remaining) bs xs)
        ⊎ ((ltb_ℤ b.remaining n ≡ false) × (x.amount ≡ n) × (xs ≡ [])))

-- The shares drain the buckets in the order of their ends.
pub record IsEarliestFirst (buckets : List CreditBucket) (amount : ℤ)
    (shares : List CreditBucketAllocation) : Type 0 where
  pub order : List CreditBucket
  pub same_buckets : Permᴰ buckets order
  pub in_order : IsInOrder order
  pub drained : Drains amount order shares

sooner-EndsBefore :
    (c d : Option Time) (next : Bool)
    → sooner d c next ≡ false
    → EndsBefore c d ⊎ ((c ≡ d) × (next ≡ false))
sooner-EndsBefore none none next h = inr (refl, h)
sooner-EndsBefore none (some d) next h = cc
sooner-EndsBefore (some c) none next h = inl tt
sooner-EndsBefore (some c) (some d) next h = elim (Bool-cases (nat_eq d c)) [
  | inl as_late ↦
      let same : c ≡ d = ground (arith, as_late) in inr (ap some same, ground (arith, as_late, h))
  | inr other ↦ inl (ground (arith, other, h))
]

created-IsNotAfter :
    (a b : CreditBucket)
    → (if not (nat_eq b.created_at a.created_at)
        then ltb b.created_at a.created_at
        else text_lt b.id a.id)
      ≡ false
    → (a.created_at < b.created_at) ⊎ ((a.created_at ≡ b.created_at) × (text_lt b.id a.id ≡ false))
created-IsNotAfter a b h = elim (Bool-cases (nat_eq b.created_at a.created_at)) [
  | inl together ↦ inr (ground (arith, together), ground (arith, together, h))
  | inr other ↦ inl (ground (arith, other, h))
]

spends_before-IsNotAfter : (a b : CreditBucket) → spends_before b a ≡ false → IsNotAfter a b
unfolding spends_before
spends_before-IsNotAfter a b h = by_end (sooner-EndsBefore a.expires_at b.expires_at _ h)
  where
    by_end :
        EndsBefore a.expires_at b.expires_at
          ⊎ ((a.expires_at ≡ b.expires_at)
              × ((if not (nat_eq b.created_at a.created_at)
                    then ltb b.created_at a.created_at
                    else text_lt b.id a.id)
                  ≡ false))
        → IsNotAfter a b
    by_end (inl sooner_) = inl sooner_
    by_end (inr (as_late, next)) = inr (as_late, created-IsNotAfter a b next)

IsSorted-IsInOrder : (bs : List CreditBucket) → IsSorted bs → IsInOrder bs
IsSorted-IsInOrder [] h = tt
IsSorted-IsInOrder (a ∷ []) h = tt
IsSorted-IsInOrder (a ∷ b ∷ bs) (ab, h) =
    (spends_before-IsNotAfter a b ab, IsSorted-IsInOrder (b ∷ bs) h)

spend_none : (n : ℤ) (bs : List CreditBucket) → leb_ℤ n (pos 0) ≡ true → spend n bs ≡ []
unfolding spend
spend_none n [] h = refl
spend_none n (b ∷ bs) h = rw h refl

spend-Drains : (n : ℤ) (bs : List CreditBucket) → All HasCredits bs → Drains n bs (spend n bs)
unfolding spend min_int64
spend-Drains n [] all = tt
spend-Drains n (b ∷ bs) (has, all) = elim (Bool-cases (leb_ℤ n (pos 0))) [
  | inl nothing ↦ rw nothing nothing
  | inr some_ ↦ elim (Bool-cases (ltb_ℤ b.remaining n)) [
    | inl less ↦ rw some_ (
        rw less (rw has (some_, refl, inl (less, refl, spend-Drains (sub64 n b.remaining) bs all))))
    | inr enough ↦ rw some_ (
        rw enough (
          rw some_ (
            some_,
            refl,
            inr (enough, refl, spend_none (sub64 n n) bs (rw (sub64_self n some_) refl)),
          )))
  ]
]

-- For every list of buckets, amount and time: the split spends the buckets that are available at the
-- time in the order of their expiry, those without one last, then of their creation, then of their id:
-- all that a bucket has while more is asked for, and the rest of the amount from the next one, and then
-- none. No bucket in that order is skipped.
pub allocate-IsEarliestFirst :
    (buckets : List CreditBucket) (amount : ℤ) (now : Time)
    → IsEarliestFirst
        (keep (λ b. credit_bucket_available_at b now) buckets)
        amount
        (allocate buckets amount now)
unfolding allocate
allocate-IsEarliestFirst buckets amount now =
    let available = keep (λ b. credit_bucket_available_at b now) buckets in
    let (same, sorted) = sort_stable-IsSorted available in
    let drains =
      spend-Drains amount (sort_stable available)
        (sort_stable-All available (available-All now buckets)) in
    record {
      order = sort_stable available;
      same_buckets = same;
      in_order = IsSorted-IsInOrder (sort_stable available) sorted;
      drained = elim (Bool-cases (leb_ℤ amount (pos 0))) [
        | inl nothing ↦ rw nothing (drains_none amount (sort_stable available) nothing)
        | inr some_ ↦ rw some_ drains
      ];
    }
  where
    drains_none : (n : ℤ) (bs : List CreditBucket) → leb_ℤ n (pos 0) ≡ true → Drains n bs []
    drains_none n [] h = tt
    drains_none n (b ∷ bs) h = h
