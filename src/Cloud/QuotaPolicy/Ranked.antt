-- ===== src/Cloud/QuotaPolicy/Ranked.antt =====
-- The grant that a decision on the quota of internal/service/cloud_storage.go is made by.
use walnut_billing.Prelude.{
  arith, ℕ, zero, suc, Bool, ◌≡◌, refl, sym, ap, ◌∙◌, true, false, inl, inr, Bool-cases, List, [],
  ◌∷◌, All, ltb, leb, nat_eq, if◌then◌else◌,
}
use walnut_billing.Domain.{Time}
use walnut_billing.Domain.Cloud.{EntitlementGrant}
use walnut_billing.Cloud.QuotaPolicy.{CloudStoragePlan, no_plan, trial, monthly, lifetime, custom}
use walnut_billing.Cloud.QuotaPolicy.Best.{
  rank, plan_of_grant, is_usable, best_rank, max, decided_at,
}

-- The plan of a rank.
abbrev plan_of_rank : ℕ → CloudStoragePlan
plan_of_rank zero = no_plan
plan_of_rank (suc zero) = custom
plan_of_rank (suc (suc zero)) = trial
plan_of_rank (suc (suc (suc zero))) = monthly
plan_of_rank _ = lifetime

plan_of_rank-rank : (p : CloudStoragePlan) → plan_of_rank (rank p) ≡ p
plan_of_rank-rank no_plan = refl
plan_of_rank-rank custom = refl
plan_of_rank-rank trial = refl
plan_of_rank-rank monthly = refl
plan_of_rank-rank lifetime = refl

pub same_plan : (p q : CloudStoragePlan) → rank p ≡ rank q → p ≡ q
same_plan p q e = sym (plan_of_rank-rank p) ∙ ap plan_of_rank e ∙ plan_of_rank-rank q

-- A grant with the predicate that is usable at the time, and of the rank.
pub record IsRanked (P : EntitlementGrant → Type 0) (now : Time) (n : ℕ) : Type 0 where
  pub grant : EntitlementGrant
  pub holds : P grant
  pub usable : is_usable now grant ≡ true
  pub ranks : n ≡ rank (plan_of_grant grant)

pub best_rank-IsRanked :
    (P : EntitlementGrant → Type 0) (now : Time) (gs : List EntitlementGrant)
    → All P gs
    → ltb 0 (best_rank now gs) ≡ true
    → IsRanked P now (best_rank now gs)
best_rank-IsRanked P now [] all h = cc
best_rank-IsRanked P now (g ∷ gs) (p, all) h =
    by_usable (is_usable now g) refl (best_rank-IsRanked P now gs all) h
  where
    later :
        (n : ℕ)
        → leb n (best_rank now gs) ≡ true
        → (ltb 0 (best_rank now gs) ≡ true → IsRanked P now (best_rank now gs))
        → ltb 0 (max n (best_rank now gs)) ≡ true
        → IsRanked P now (max n (best_rank now gs))
    later n below rest h = rw below (rest (ground (arith, below, h)))

    by_usable :
        (b : Bool)
        → is_usable now g ≡ b
        → (ltb 0 (best_rank now gs) ≡ true → IsRanked P now (best_rank now gs))
        → ltb 0 (max (if b then rank (plan_of_grant g) else 0) (best_rank now gs)) ≡ true
        → IsRanked P now (max (if b then rank (plan_of_grant g) else 0) (best_rank now gs))
    by_usable false _ rest h = later 0 (ground arith) rest h
    by_usable true usable rest h =
        elim (Bool-cases (leb (rank (plan_of_grant g)) (best_rank now gs))) [
          | inl below ↦ later _ below rest h
          | inr above ↦ rw above (record { grant = g; holds = p; usable = usable; ranks = refl })
        ]

-- A time that is set is the time of the decision.
pub set_time :
    (wall wall' now : Time) → nat_eq now 0 ≡ false → decided_at wall now ≡ decided_at wall' now
set_time wall wall' now set = rw set refl
