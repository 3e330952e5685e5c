-- ===== src/Subscription/Projection.antt =====
-- The read model of a user's software subscription: internal/service/software_subscription_projection.go.
pub mod Latest
use walnut_billing.Prelude.{
  String, Bool, true, false, not, ◌&&◌, ◌||◌, Option, none, some, List, [], ◌∷◌, ltb, nat_eq,
  is_some, if◌then◌else◌,
}
use walnut_billing.Prelude.Text.{◌==◌, trim, is_empty}
use walnut_billing.Domain.{Time}
use walnut_billing.Domain.Cloud.{EntitlementGrant}
use walnut_billing.Repository.Error.{GormError, Error, Result, ok, err, is_not_found}
use walnut_billing.Cloud.QuotaPolicy.{is_grant_active}
use walnut_billing.Entitlement.Snapshot.{is_current_access_entitlement_id}

-- A row of internal/domain/subscription.go.
pub record SubscriptionCancellation : Type 0 where
  pub id : String
  pub user_id : String
  pub sku_code : String
  pub status : String
  pub cancel_at_period_end : Bool
  pub current_period_ends_at : Time
  pub source_order_no : String
  pub reason : String
  pub source : String
  pub idempotency_key : String
  pub resume_idempotency_key : String
  pub resumed_at : Option Time
  pub created_at : Time
  pub updated_at : Time

pub data PlanError : Type 0 where
  policy_unavailable user_not_found : PlanError
  repository : Error → PlanError
  database : GormError → PlanError

-- `SKUProOwnAIMonthly` and `SKUProOwnAILifetime`
abbrev pub sku_monthly : String
sku_monthly = "pro_own_ai_monthly"

abbrev pub sku_lifetime : String
sku_lifetime = "pro_own_ai_lifetime"

-- `SoftwareSubscriptionStatus…`, of those that the projection gives.
pub data SubscriptionStatus : Type 0 where
  no_subscription active cancel_at_period_end : SubscriptionStatus

pub record SoftwareSubscriptionProjection : Type 0 where
  pub user_id : String
  pub sku_code : String
  pub status : SubscriptionStatus
  pub cancels : Bool
  pub current_period_start_at : String
  pub current_period_ends_at : String

-- `isSoftwareSubscriptionGrant`
unfoldable pub is_software_subscription_grant : EntitlementGrant → Time → Bool
is_software_subscription_grant g now =
    (g.source == "fulfillment")
    && is_current_access_entitlement_id g.entitlement_id
    && is_grant_active g now

-- The grant that is selected, or the first one.
abbrev pub later_start : EntitlementGrant → Option EntitlementGrant → Option EntitlementGrant
later_start g none = some g
later_start g (some selected) = if ltb selected.starts_at g.starts_at then some g else some selected

-- `latestActiveLifetimeGrant`, after a grant that is selected.
unfoldable pub latest_active_lifetime_grant :
    Time → Option EntitlementGrant → List EntitlementGrant → Option EntitlementGrant
latest_active_lifetime_grant now selected [] = selected
latest_active_lifetime_grant now selected (g ∷ gs) =
    latest_active_lifetime_grant now
      (if not (is_software_subscription_grant g now) || is_some g.expires_at
        then selected
        else later_start g selected)
      gs

-- `grant.ExpiresAt.After(*selected.ExpiresAt)`, of grants that expire.
abbrev pub expires_later : Option Time → Option Time → Bool
expires_later (some a) (some b) = ltb b a
expires_later _ _ = false

abbrev pub later_end : EntitlementGrant → Option EntitlementGrant → Option EntitlementGrant
later_end g none = some g
later_end g (some selected) =
    if expires_later g.expires_at selected.expires_at then some g else some selected

-- `latestActiveMonthlyGrant`, after a grant that is selected.
unfoldable pub latest_active_monthly_grant :
    Time → Option EntitlementGrant → List EntitlementGrant → Option EntitlementGrant
latest_active_monthly_grant now selected [] = selected
latest_active_monthly_grant now selected (g ∷ gs) =
    latest_active_monthly_grant now
      (if not (is_software_subscription_grant g now) || not (is_some g.expires_at)
        then selected
        else later_end g selected)
      gs

-- `now`, or the clock for a zero time.
abbrev pub time_or : Time → Time → Time
time_or wall now = if nat_eq now 0 then wall else now

module _ (rfc3339 : Time → String) where
  -- `formatSoftwareSubscriptionTime`
  unfoldable pub format_subscription_time : Time → String
  format_subscription_time t = if nat_eq t 0 then "" else rfc3339 t

  -- A monthly projection with the cancellation that `FindActive` has found; there may be no repository.
  unfoldable pub with_cancellation :
      SoftwareSubscriptionProjection
      → Option (Result Error SubscriptionCancellation)
      → Result PlanError SoftwareSubscriptionProjection
  with_cancellation p none = ok p
  with_cancellation p (some (err e)) = if is_not_found e then ok p else err (repository e)
  with_cancellation p (some (ok c)) = ok (record p {
    status = SubscriptionStatus.cancel_at_period_end;
    cancels = true;
    current_period_ends_at =
        if nat_eq c.current_period_ends_at 0
        then p.current_period_ends_at
        else rfc3339 c.current_period_ends_at;
  })

  unfoldable pub lifetime_projection : String → EntitlementGrant → SoftwareSubscriptionProjection
  lifetime_projection user_id g = record {
    user_id = user_id;
    sku_code = sku_lifetime;
    status = SubscriptionStatus.active;
    cancels = false;
    current_period_start_at = format_subscription_time g.starts_at;
    current_period_ends_at = "";
  }

  abbrev pub no_projection : String → SoftwareSubscriptionProjection
  no_projection user_id = record {
    user_id = user_id;
    sku_code = "";
    status = SubscriptionStatus.no_subscription;
    cancels = false;
    current_period_start_at = "";
    current_period_ends_at = "";
  }

  -- What follows the selection of the latest monthly grant.
  unfoldable pub project_monthly :
      String
      → Option (Result Error SubscriptionCancellation)
      → Option EntitlementGrant
      → Result PlanError SoftwareSubscriptionProjection
  project_monthly user_id find none = ok (no_projection user_id)
  project_monthly user_id find (some g) = elim g.expires_at [
    | none ↦ ok (no_projection user_id)
    | some t ↦
        with_cancellation
          (record {
            user_id = user_id;
            sku_code = sku_monthly;
            status = SubscriptionStatus.active;
            cancels = false;
            current_period_start_at = format_subscription_time g.starts_at;
            current_period_ends_at = rfc3339 t;
          })
          find
  ]

  unfoldable pub project_selected :
      String
      → Option (Result Error SubscriptionCancellation)
      → Option EntitlementGrant
      → Option EntitlementGrant
      → Result PlanError SoftwareSubscriptionProjection
  project_selected user_id find (some g) monthly = ok (lifetime_projection user_id g)
  project_selected user_id find none monthly = project_monthly user_id find monthly

  -- `projectSoftwareSubscriptionFromGrants`, with a reading of the clock, and what `FindActive` finds
  -- for the user among the cancellations of monthly plans at the end of their period.
  unfoldable pub project_from_grants :
      Time
      → Option (Result Error SubscriptionCancellation)
      → String
      → List EntitlementGrant
      → Time
      → Result PlanError SoftwareSubscriptionProjection
  project_from_grants wall find user_id grants now =
      if is_empty (trim user_id)
      then err user_not_found
      else project_selected (trim user_id) find
          (latest_active_lifetime_grant (time_or wall now) none grants)
          (latest_active_monthly_grant (time_or wall now) none grants)

abbrev pub is_active_plan : SubscriptionStatus → Bool
is_active_plan SubscriptionStatus.active = true
is_active_plan _ = false

abbrev pub is_ending_plan : SubscriptionStatus → Bool
is_ending_plan SubscriptionStatus.cancel_at_period_end = true
is_ending_plan _ = false

-- `softwareSubscriptionIsLifetimeActive`
unfoldable pub is_lifetime_active : SoftwareSubscriptionProjection → Bool
is_lifetime_active p = (p.sku_code == sku_lifetime) && is_active_plan p.status

-- `softwareSubscriptionIsMonthlyActive`
unfoldable pub is_monthly_active : SoftwareSubscriptionProjection → Bool
is_monthly_active p =
    (p.sku_code == sku_monthly) && (is_active_plan p.status || is_ending_plan p.status)

-- `softwareSubscriptionIsCancelAtPeriodEnd`
unfoldable pub is_cancelled_at_period_end : SoftwareSubscriptionProjection → Bool
is_cancelled_at_period_end p = (p.sku_code == sku_monthly) && is_ending_plan p.status && p.cancels
