-- ===== src/Cloud/Entry.antt =====
-- The checks before each operation of internal/service/cloud_storage.go: the provider, the user, the
-- quota and the bytes in use.
pub mod Passed
pub mod Entitled
use walnut_billing.Prelude.{String, Bool, true, false, not, ◌||◌, nat_eq, List, if◌then◌else◌}
use walnut_billing.Prelude.Int.{ℤ, pos, leb_ℤ, ltb_ℤ}
use walnut_billing.Prelude.Word.{add64, sub64}
use walnut_billing.Prelude.Text.{◌==◌, trim, is_empty}
use walnut_billing.Domain.{Time, User, UserStatus}
use walnut_billing.Domain.Cloud.{CloudObject}
use walnut_billing.Repository.Error.{Error, Result}
use walnut_billing.Repository.Flow.{pure, ◌>>=◌, ◌>>◌, raise_if, from_result, mapped}
use walnut_billing.Cloud.Errors.{access_denied, provider_not_configured, invalid, user_not_found}
use walnut_billing.Cloud.QuotaPolicy.{CloudStorageQuotaDecision, decide_quota}
use walnut_billing.Cloud.Resources.{CloudResourceDescriptor, sum_resource_bytes, sum_object_bytes}
use walnut_billing.Cloud.World.{
  CloudState, CloudEnv, CloudFlow, from_read, cloud_now, active_bytes, cloud_grants,
}

abbrev pub is_disabled : UserStatus → Bool
is_disabled UserStatus.active = false
is_disabled UserStatus.disabled = true

-- `usedBytes - existing + requested`, and at least what is requested.
unfoldable pub projected_usage : ℤ → List CloudObject → List CloudResourceDescriptor → ℤ
projected_usage used existing resources =
    let requested = sum_resource_bytes (pos 0) resources in
    let projected = add64 (sub64 used (sum_object_bytes (pos 0) existing)) requested in
    if ltb_ℤ projected requested then requested else projected

-- A user with the quota and the bytes in use.
pub record CloudAccess : Type 0 where
  pub user : User
  pub quota : CloudStorageQuotaDecision
  pub used_bytes : ℤ

module _ (env : CloudEnv) where
  -- `requireConfiguredProvider`
  unfoldable pub require_configured_provider : CloudFlow (Unit {0})
  require_configured_provider =
      raise_if (is_empty (trim env.provider_id) || (env.provider_id == "unconfigured"))
        provider_not_configured

  -- `UserRepo.GetByID`
  unfoldable pub cloud_user_by_id : String → CloudState → Result Error User
  unfolding mapped
  cloud_user_by_id id s = mapped (env.gorm.users.first (λ u. u.id == id) s.users)

  -- `loadActiveUser`; a user without a status counts as active.
  unfoldable pub load_active_user : String → CloudFlow User
  load_active_user user_id = do
    raise_if (is_empty (trim user_id)) invalid
    user ← from_result (λ s. from_read user_not_found (cloud_user_by_id (trim user_id) s))
    raise_if (is_disabled user.status) access_denied
    pure user

  -- The clock, which `cloudStoragePlanForGrants` reads again for a zero time.
  unfoldable pub wall_for : Time → CloudFlow Time
  wall_for now = if nat_eq now 0 then cloud_now env else pure now

  -- `cloudStorageQuotaDecision`
  unfoldable pub quota_decision : User → CloudFlow CloudStorageQuotaDecision
  quota_decision user = do
    listed_at ← cloud_now env
    grants ← from_result (cloud_grants env user.id listed_at)
    now ← cloud_now env
    wall ← wall_for now
    pure (decide_quota env.config wall grants now)

  -- `authorizeCloudAccess`; the policy gives no quota without an entitlement, so the second guard refuses
  -- whomever the first does.
  unfoldable pub authorize_cloud_access : String → CloudFlow CloudAccess
  authorize_cloud_access user_id = do
    user ← load_active_user user_id
    quota ← quota_decision user
    raise_if (not quota.has_entitlement) access_denied
    raise_if (leb_ℤ quota.quota_bytes (pos 0)) access_denied
    used ← from_result (active_bytes env user.id)
    pure (record { user = user; quota = quota; used_bytes = used })

  -- A user with an entitlement, as the reading operations ask for it.
  unfoldable pub entitled_user : String → CloudFlow User
  entitled_user user_id = do
    user ← load_active_user user_id
    quota ← quota_decision user
    raise_if (not quota.has_entitlement) access_denied
    pure user
