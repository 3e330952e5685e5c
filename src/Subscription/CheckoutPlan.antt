-- ===== src/Subscription/CheckoutPlan.antt =====
-- `SoftwareAccessPlanCheckoutPolicy` of internal/service/checkout_policy.go.
pub mod Exclusive
use walnut_billing.Prelude.{
  String, Bool, true, false, not, ◌&&◌, ◌||◌, List, Option, none, some, if◌then◌else◌,
}
use walnut_billing.Prelude.Text.{◌==◌, trim, is_empty}
use walnut_billing.Domain.{Time}
use walnut_billing.Domain.Cloud.{EntitlementGrant}
use walnut_billing.Repository.Error.{GormError, Error, Result, ok, err}
use walnut_billing.Subscription.Projection.{
  SubscriptionCancellation, PlanError, database, sku_monthly, sku_lifetime,
  SoftwareSubscriptionProjection, project_from_grants, is_lifetime_active, is_monthly_active,
  is_cancelled_at_period_end,
}

-- A decision; the cause of a refusal of this policy is always the same error.
pub record CheckoutPolicyDecision : Type 0 where
  pub allowed : Bool
  pub reason : String
  pub action : String
  pub message : String

-- `allowCheckoutDecision`
abbrev pub allow_checkout_decision : CheckoutPolicyDecision
allow_checkout_decision = record { allowed = true; reason = ""; action = "allow"; message = "" }

abbrev pub blocked : String → String → String → CheckoutPolicyDecision
blocked reason action message = record {
  allowed = false;
  reason = reason;
  action = action;
  message = message;
}

-- The guards on the projection.
unfoldable pub decide_plan : String → SoftwareSubscriptionProjection → CheckoutPolicyDecision
decide_plan sku p =
    if is_lifetime_active p
    then blocked "already_lifetime" "keep_existing_access" "lifetime access is already active"
    else if (sku == sku_monthly) && is_cancelled_at_period_end p
    then blocked "cancel_at_period_end" "resume_subscription"
        "monthly subscription is cancelled at period end; resume instead of creating checkout"
    else if (sku == sku_monthly) && is_monthly_active p
    then blocked "subscription_active" "manage_subscription"
        "monthly subscription is already active"
    else if (sku == sku_lifetime) && is_monthly_active p && not (is_cancelled_at_period_end p)
    then blocked "subscription_active" "manage_subscription"
        "cancel monthly renewal before buying lifetime access"
    else allow_checkout_decision

abbrev pub decided :
    String
    → Result PlanError SoftwareSubscriptionProjection
    → Result PlanError CheckoutPolicyDecision
decided sku (ok p) = ok (decide_plan sku p)
decided sku (err e) = err e

module _ (rfc3339 : Time → String) where
  -- `softwareSubscriptionProjector.Project`, of the grants that are listed.
  unfoldable pub project :
      Time
      → Option (Result Error SubscriptionCancellation)
      → String
      → Result GormError (List EntitlementGrant)
      → Time
      → Result PlanError SoftwareSubscriptionProjection
  project wall find user_id (ok grants) now =
      project_from_grants rfc3339 wall find (trim user_id) grants now
  project wall find user_id (err e) now = err (database e)

  -- `Evaluate`, for the user's id, which is empty without a user, and the SKU of the checkout.
  unfoldable pub evaluate_plan :
      Time
      → Option (Result Error SubscriptionCancellation)
      → String
      → String
      → Result GormError (List EntitlementGrant)
      → Time
      → Result PlanError CheckoutPolicyDecision
  evaluate_plan wall find user_id sku_code listed now =
      if is_empty (trim user_id)
      then ok allow_checkout_decision
      else if not (trim sku_code == sku_monthly) && not (trim sku_code == sku_lifetime)
      then ok allow_checkout_decision
      else decided (trim sku_code) (project wall find (trim user_id) listed now)
