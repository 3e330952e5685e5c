-- ===== src/Cloud/QuotaPolicy/Best.antt =====
-- The plan is that of the best grant.
use walnut_billing.Prelude.{
  ℕ, zero, suc, Bool, ◌≡◌, refl, ap, ◌∙◌, true, false, ◌&&◌, Option, none, some, List, [], ◌∷◌,
  arith, ltb, leb, nat_eq, is_some, if◌then◌else◌,
}
use walnut_billing.Prelude.Int.{ℤ, pos, negsuc, pos_part, leb_ℤ}
use walnut_billing.Prelude.Text.{◌==◌}
use walnut_billing.Domain.{Time}
use walnut_billing.Domain.Cloud.{EntitlementGrant, is_active_grant}
use walnut_billing.Cloud.QuotaPolicy.{
  CloudStoragePlan, no_plan, trial, monthly, lifetime, custom, CloudStorageQuotaPolicyConfig,
  CloudStorageQuotaDecision, PlanFlags, counts_for_cloud, flag_grant, flag_grants, plan_of,
  no_flags, plan_for_grants, quota_of, is_plan, normalize_quota_config, decide_quota, at_least_zero,
  set_or,
}

-- How good a plan is.
abbrev pub rank : CloudStoragePlan → ℕ
rank no_plan = 0
rank custom = 1
rank trial = 2
rank monthly = 3
rank lifetime = 4

-- The plan that a grant gives by itself.
abbrev pub plan_of_grant : EntitlementGrant → CloudStoragePlan
plan_of_grant g =
    if g.source == "fulfillment"
    then (if is_some g.expires_at then monthly else lifetime)
    else if g.source == "subscription_grace"
    then monthly
    else if g.source == "trial"
    then trial
    else custom

abbrev pub max : ℕ → ℕ → ℕ
max a b = if leb a b then b else a

-- Before the end, or with no end.
abbrev pub until : Time → Option Time → Bool
until now none = true
until now (some t) = ltb now t

-- A grant for cloud storage that is active, has started and has not expired.
abbrev pub is_usable : Time → EntitlementGrant → Bool
is_usable now g =
    (g.entitlement_id == "cloud.storage")
    && is_active_grant g.status
    && leb g.starts_at now
    && until now g.expires_at

-- The best rank among the usable grants.
abbrev pub best_rank : Time → List EntitlementGrant → ℕ
best_rank now [] = 0
best_rank now (g ∷ gs) =
    max (if is_usable now g then rank (plan_of_grant g) else 0) (best_rank now gs)

counts_for_cloud-is_usable :
    (g : EntitlementGrant) (now : Time) → counts_for_cloud g now ≡ is_usable now g
unfolding counts_for_cloud
counts_for_cloud-is_usable g now = ground arith

flag_grant-rank :
    (g : EntitlementGrant) (f : PlanFlags)
    → rank (plan_of (flag_grant g f)) ≡ max (rank (plan_of_grant g)) (rank (plan_of f))
unfolding flag_grant plan_of
flag_grant-rank g f = ground arith

max_swap : (a b c : ℕ) → max (max a b) c ≡ max b (max a c)
max_swap a b c = ground arith

flag_grants-rank :
    (gs : List EntitlementGrant) (now : Time) (f : PlanFlags)
    → rank (plan_of (flag_grants gs now f)) ≡ max (rank (plan_of f)) (best_rank now gs)
unfolding flag_grants
flag_grants-rank [] now f = ground arith
flag_grants-rank (g ∷ gs) now f =
    flag_grants-rank gs now (if counts_for_cloud g now then flag_grant g f else f)
    ∙ rw (counts_for_cloud-is_usable g now) (by_test (is_usable now g))
  where
    by_test :
        (b : Bool)
        → max (rank (plan_of (if b then flag_grant g f else f))) (best_rank now gs)
          ≡ max
              (rank (plan_of f))
              (max (if b then rank (plan_of_grant g) else 0) (best_rank now gs))
    by_test true =
        ap (λ r. max r (best_rank now gs)) (flag_grant-rank g f)
        ∙ max_swap (rank (plan_of_grant g)) (rank (plan_of f)) (best_rank now gs)
    by_test false = ground arith

-- The time of a decision: the clock's, if none is given.
abbrev pub decided_at : Time → Time → Time
decided_at wall now = if nat_eq now 0 then wall else now

plan_rank :
    (wall : Time) (grants : List EntitlementGrant) (now : Time)
    → rank (plan_for_grants wall grants now) ≡ best_rank (decided_at wall now) grants
unfolding plan_for_grants
plan_rank wall grants now =
    flag_grants-rank grants (decided_at wall now) no_flags
    ∙ from_zero (best_rank (decided_at wall now) grants)
  where
    from_zero : (b : ℕ) → max 0 b ≡ b
    from_zero b = ground arith

-- A configured amount if it is positive, and otherwise the default amount, if that is positive.
abbrev pub amount_or_default : CloudStorageQuotaPolicyConfig → ℤ → ℤ
amount_or_default c (pos (suc n)) = pos (suc n)
amount_or_default c _ = pos (pos_part c.default_quota_bytes)

-- What the policy promises for a plan.
abbrev pub promised : CloudStorageQuotaPolicyConfig → CloudStoragePlan → ℤ
promised c no_plan = pos 0
promised c custom = pos (pos_part c.default_quota_bytes)
promised c trial = amount_or_default c c.trial_quota_bytes
promised c monthly = amount_or_default c c.monthly_quota_bytes
promised c lifetime = amount_or_default c c.lifetime_quota_bytes

default_promised : (q : ℤ) → at_least_zero (at_least_zero q) ≡ pos (pos_part q)
default_promised (pos n) = ground arith
default_promised (negsuc n) = ground arith

set_promised :
    (c : CloudStorageQuotaPolicyConfig) (q : ℤ)
    → at_least_zero (set_or (at_least_zero c.default_quota_bytes) q) ≡ amount_or_default c q
set_promised c (pos zero) = default_promised c.default_quota_bytes
set_promised c (pos (suc n)) = ground arith
set_promised c (negsuc n) =
    let e : leb_ℤ (negsuc n) (pos 0) ≡ true = ground arith in
    rw e (default_promised c.default_quota_bytes)

quota_promised :
    (c : CloudStorageQuotaPolicyConfig) (plan : CloudStoragePlan)
    → at_least_zero (quota_of (normalize_quota_config c) plan) ≡ promised c plan
unfolding quota_of normalize_quota_config
quota_promised c no_plan = refl
quota_promised c custom = default_promised c.default_quota_bytes
quota_promised c trial = set_promised c c.trial_quota_bytes
quota_promised c monthly = set_promised c c.monthly_quota_bytes
quota_promised c lifetime = set_promised c c.lifetime_quota_bytes

is_plan-rank : (plan : CloudStoragePlan) → is_plan plan ≡ ltb 0 (rank plan)
is_plan-rank no_plan = refl
is_plan-rank trial = refl
is_plan-rank monthly = refl
is_plan-rank lifetime = refl
is_plan-rank custom = refl

-- A decision gives the plan of the best grant, an entitlement exactly if a grant is usable, and the
-- amount that is promised for the plan.
pub record IsBest (c : CloudStorageQuotaPolicyConfig) (best : ℕ) (d : CloudStorageQuotaDecision)
    : Type 0 where
  pub plan : rank d.plan ≡ best
  pub entitled : d.has_entitlement ≡ ltb 0 best
  pub quota : d.quota_bytes ≡ promised c d.plan

-- For every configuration, time and list of grants: the decision has the plan of the best usable
-- grant (a lifetime before a monthly, a trial and any other grant), has an entitlement exactly if a
-- grant is usable, and has the configured quota of its plan, or the default quota if that is not
-- positive, and no quota without a plan.
pub decide_quota-IsBest :
    (c : CloudStorageQuotaPolicyConfig) (wall : Time) (grants : List EntitlementGrant) (now : Time)
    → IsBest c (best_rank (decided_at wall now) grants) (decide_quota c wall grants now)
unfolding decide_quota
decide_quota-IsBest c wall grants now = record {
  plan = plan_rank wall grants now;
  entitled =
      is_plan-rank (plan_for_grants wall grants now) ∙ ap (ltb 0) (plan_rank wall grants now);
  quota = quota_promised c (plan_for_grants wall grants now);
}
