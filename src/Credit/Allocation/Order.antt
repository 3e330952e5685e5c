-- ===== src/Credit/Allocation/Order.antt =====
-- The stable sort of `Allocate` of internal/service/credit_bucket.go.
use walnut_billing.Prelude.{
  String, ◌≡◌, refl, Bool, true, false, Bool-cases, inl, inr, Option, none, some, List, [], ◌∷◌,
  arith, if◌then◌else◌,
}
use mathlib.Core.List.{Permᴰ}
use walnut_billing.Prelude.Text.{text_lt}
use walnut_billing.Domain.{Time}
use walnut_billing.Domain.Credit.{CreditBucket}
use walnut_billing.Credit.Allocation.{sooner, spends_before, insert_stable, sort_stable}

text_lt-asym : (s t : String) → text_lt s t ≡ true → text_lt t s ≡ false
unfolding text_lt
text_lt-asym String.[] String.[] h = cc
text_lt-asym String.[] (String.◌∷◌ d t) h = refl
text_lt-asym (String.◌∷◌ c s) String.[] h = cc
text_lt-asym (String.◌∷◌ c s) (String.◌∷◌ d t) h = ground (arith, text_lt-asym s t)

sooner-asym :
    (c d : Option Time) (x y : Bool)
    → (x ≡ true → y ≡ false)
    → sooner c d x ≡ true
    → sooner d c y ≡ false
sooner-asym none none x y h e = h e
sooner-asym none (some d) x y h e = cc
sooner-asym (some c) none x y h e = refl
sooner-asym (some c) (some d) x y h e = ground arith

spends_before-asym : (a b : CreditBucket) → spends_before a b ≡ true → spends_before b a ≡ false
unfolding spends_before
spends_before-asym a b h =
    sooner-asym a.expires_at b.expires_at _ _ (λ e. ground (arith, text_lt-asym a.id b.id)) h

-- Of two neighbours, the second is never to be spent before the first.
abbrev pub IsSorted : List CreditBucket → Type 0
IsSorted [] = Unit
IsSorted (a ∷ []) = Unit
IsSorted (a ∷ b ∷ bs) = (spends_before b a ≡ false) × IsSorted (b ∷ bs)

-- A bucket inserted after `c`, which may precede it, into what follows `c`.
insert_after-IsSorted :
    (b c : CreditBucket) (bs : List CreditBucket)
    → spends_before b c ≡ false
    → IsSorted (c ∷ bs)
    → IsSorted (insert_stable b bs)
    → IsSorted (c ∷ insert_stable b bs)
unfolding insert_stable
insert_after-IsSorted b c [] before h k = (before, k)
insert_after-IsSorted b c (d ∷ ds) before (cd, h) k = elim (Bool-cases (spends_before d b)) [
  | inl first ↦ by_first first k
  | inr second ↦ by_second second k
]
  where
    by_first :
        spends_before d b ≡ true
        → IsSorted (if spends_before d b then d ∷ insert_stable b ds else b ∷ d ∷ ds)
        → IsSorted (c ∷ (if spends_before d b then d ∷ insert_stable b ds else b ∷ d ∷ ds))
    by_first e = rw e λ k. (cd, k)

    by_second :
        spends_before d b ≡ false
        → IsSorted (if spends_before d b then d ∷ insert_stable b ds else b ∷ d ∷ ds)
        → IsSorted (c ∷ (if spends_before d b then d ∷ insert_stable b ds else b ∷ d ∷ ds))
    by_second e = rw e λ k. (before, k)

tail-IsSorted : (c : CreditBucket) (bs : List CreditBucket) → IsSorted (c ∷ bs) → IsSorted bs
tail-IsSorted c [] h = tt
tail-IsSorted c (d ∷ ds) (cd, h) = h

insert_stable-IsSorted :
    (b : CreditBucket) (bs : List CreditBucket) → IsSorted bs → IsSorted (insert_stable b bs)
unfolding insert_stable
insert_stable-IsSorted b [] h = tt
insert_stable-IsSorted b (c ∷ cs) h = elim (Bool-cases (spends_before c b)) [
  | inl first ↦ rw first (
      insert_after-IsSorted b c cs (spends_before-asym c b first) h
        (insert_stable-IsSorted b cs (tail-IsSorted c cs h)))
  | inr second ↦ rw second (second, h)
]

perm_refl : (bs : List CreditBucket) → Permᴰ bs bs
perm_refl [] = Permᴰ.nil
perm_refl (b ∷ bs) = Permᴰ.cons refl (perm_refl bs)

insert_stable-Permᴰ :
    (b : CreditBucket) (bs : List CreditBucket) → Permᴰ (b ∷ bs) (insert_stable b bs)
unfolding insert_stable
insert_stable-Permᴰ b [] = Permᴰ.cons refl Permᴰ.nil
insert_stable-Permᴰ b (c ∷ cs) = elim (Bool-cases (spends_before c b)) [
  | inl first ↦
      rw first (Permᴰ.trans (Permᴰ.swap refl refl) (Permᴰ.cons refl (insert_stable-Permᴰ b cs)))
  | inr second ↦ rw second (perm_refl (b ∷ c ∷ cs))
]

-- The sort keeps the buckets, each as often as it was there, and leaves no bucket that the comparison
-- puts before the one that it follows.
pub sort_stable-IsSorted :
    (bs : List CreditBucket) → Permᴰ bs (sort_stable bs) × IsSorted (sort_stable bs)
unfolding sort_stable
sort_stable-IsSorted [] = (Permᴰ.nil, tt)
sort_stable-IsSorted (b ∷ bs) =
    let (same, sorted) = sort_stable-IsSorted bs in
    (
      Permᴰ.trans (Permᴰ.cons refl same) (insert_stable-Permᴰ b (sort_stable bs)),
      insert_stable-IsSorted b (sort_stable bs) sorted,
    )
