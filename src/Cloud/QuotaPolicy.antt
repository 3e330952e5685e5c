-- ===== src/Cloud/QuotaPolicy.antt =====
-- `PlanAwareCloudStorageQuotaPolicy` of internal/service/cloud_storage.go: the plan and the quota of
-- a user by the grants.
pub mod Best
pub mod Ranked
use walnut_billing.Prelude.{
  String, Bool, true, false, not, ◌&&◌, ◌||◌, Option, none, some, List, [], ◌∷◌, ◌*◌, ltb, nat_eq,
  is_some, if◌then◌else◌,
}
use walnut_billing.Prelude.Int.{ℤ, pos, negsuc, leb_ℤ, ltb_ℤ}
use walnut_billing.Prelude.Word.{wrap64}
use walnut_billing.Prelude.Text.{◌==◌}
use walnut_billing.Domain.{Time}
use walnut_billing.Domain.Cloud.{EntitlementGrant, is_active_grant}

-- `CloudStoragePlan…`
pub data CloudStoragePlan : Type 0 where
  no_plan trial monthly lifetime custom : CloudStoragePlan

pub record CloudStorageQuotaPolicyConfig : Type 0 where
  pub default_quota_bytes : ℤ
  pub trial_quota_bytes : ℤ
  pub monthly_quota_bytes : ℤ
  pub lifetime_quota_bytes : ℤ

pub record CloudStorageQuotaDecision : Type 0 where
  pub plan : CloudStoragePlan
  pub has_entitlement : Bool
  pub quota_bytes : ℤ

-- `isGrantActive` of internal/service/entitlement.go
unfoldable pub is_grant_active : EntitlementGrant → Time → Bool
is_grant_active g now =
    is_active_grant g.status
    && not (not (nat_eq g.starts_at 0) && ltb now g.starts_at)
    && elim g.expires_at [ none ↦ true | some t ↦ ltb now t ]

-- `if value < 0 { value = 0 }`
abbrev pub at_least_zero : ℤ → ℤ
at_least_zero q = if ltb_ℤ q (pos 0) then pos 0 else q

-- `if value <= 0 { value = fallback }`
abbrev pub set_or : ℤ → ℤ → ℤ
set_or fallback q = if leb_ℤ q (pos 0) then fallback else q

-- `normalizeCloudStorageQuotaPolicyConfig`
unfoldable pub normalize_quota_config :
    CloudStorageQuotaPolicyConfig → CloudStorageQuotaPolicyConfig
normalize_quota_config c =
    let fallback = at_least_zero c.default_quota_bytes in
    record {
      default_quota_bytes = fallback;
      trial_quota_bytes = set_or fallback c.trial_quota_bytes;
      monthly_quota_bytes = set_or fallback c.monthly_quota_bytes;
      lifetime_quota_bytes = set_or fallback c.lifetime_quota_bytes;
    }

-- `mbToBytes`
unfoldable pub mb_to_bytes : ℤ → ℤ
mb_to_bytes (pos n) = wrap64 (pos (n * 1048576))
mb_to_bytes (negsuc n) = pos 0

-- The flags of the loop of `cloudStoragePlanForGrants`.
pub record PlanFlags : Type 0 where
  pub has_custom : Bool
  pub has_trial : Bool
  pub has_monthly : Bool
  pub has_lifetime : Bool

-- The switch on a grant.
unfoldable pub flag_grant : EntitlementGrant → PlanFlags → PlanFlags
flag_grant g f =
    if (g.source == "fulfillment") && not (is_some g.expires_at)
    then record f { has_lifetime = true }
    else if (g.source == "fulfillment") && is_some g.expires_at
    then record f { has_monthly = true }
    else if g.source == "subscription_grace"
    then record f { has_monthly = true }
    else if g.source == "trial"
    then record f { has_trial = true }
    else record f { has_custom = true }

unfoldable pub counts_for_cloud : EntitlementGrant → Time → Bool
unfolding is_grant_active
counts_for_cloud g now = (g.entitlement_id == "cloud.storage") && is_grant_active g now

-- The loop over the grants.
unfoldable pub flag_grants : List EntitlementGrant → Time → PlanFlags → PlanFlags
unfolding flag_grant counts_for_cloud
flag_grants [] now f = f
flag_grants (g ∷ gs) now f =
    flag_grants gs now (if counts_for_cloud g now then flag_grant g f else f)

-- The switch on the flags.
unfoldable pub plan_of : PlanFlags → CloudStoragePlan
plan_of f =
    if f.has_lifetime
    then lifetime
    else if f.has_monthly
    then monthly
    else if f.has_trial
    then trial
    else if f.has_custom
    then custom
    else no_plan

abbrev pub no_flags : PlanFlags
no_flags = record {
  has_custom = false;
  has_trial = false;
  has_monthly = false;
  has_lifetime = false;
}

-- `cloudStoragePlanForGrants`, which reads the clock at `wall` for a zero time.
unfoldable pub plan_for_grants : Time → List EntitlementGrant → Time → CloudStoragePlan
unfolding flag_grants plan_of
plan_for_grants wall grants now =
    plan_of (flag_grants grants (if nat_eq now 0 then wall else now) no_flags)

-- The quota of a plan.
unfoldable pub quota_of : CloudStorageQuotaPolicyConfig → CloudStoragePlan → ℤ
quota_of c no_plan = pos 0
quota_of c trial = c.trial_quota_bytes
quota_of c monthly = c.monthly_quota_bytes
quota_of c lifetime = c.lifetime_quota_bytes
quota_of c custom = c.default_quota_bytes

abbrev pub is_plan : CloudStoragePlan → Bool
is_plan no_plan = false
is_plan _ = true

-- `Decide`, of a policy that was made with a configuration.
unfoldable pub decide_quota :
    CloudStorageQuotaPolicyConfig → Time → List EntitlementGrant → Time → CloudStorageQuotaDecision
unfolding plan_for_grants quota_of normalize_quota_config
decide_quota c wall grants now =
    let plan = plan_for_grants wall grants now in
    record {
      plan = plan;
      has_entitlement = is_plan plan;
      quota_bytes = at_least_zero (quota_of (normalize_quota_config c) plan);
    }
