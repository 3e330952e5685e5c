-- ===== src/Tests/Subscription.antt =====
-- The theorem on checkouts of plans at a concrete user.
use walnut_billing.Prelude.{◌≡◌, refl, true, false, ◌||◌, some, none, [], ◌∷◌}
use walnut_billing.Prelude.Text.{◌==◌, is_space, is_empty, trim_left, put_right, trim_right, trim}
use walnut_billing.Domain.Cloud.{EntitlementGrant, GrantStatus}
use walnut_billing.Repository.Error.{ok}
use walnut_billing.Cloud.QuotaPolicy.{is_grant_active}
use walnut_billing.Entitlement.Snapshot.{is_current_access_entitlement_id}
use walnut_billing.Subscription.Projection.{
  SubscriptionCancellation, sku_monthly, sku_lifetime, is_software_subscription_grant,
  latest_active_lifetime_grant, latest_active_monthly_grant, time_or, format_subscription_time,
  with_cancellation, project_monthly, project_selected, project_from_grants, is_lifetime_active,
  is_monthly_active, is_cancelled_at_period_end,
}
use walnut_billing.Subscription.CheckoutPlan.{
  allow_checkout_decision, decide_plan, project, evaluate_plan,
}
use walnut_billing.Subscription.CheckoutPlan.Exclusive.{IsExclusive, evaluate_plan-IsExclusive}

-- A monthly plan that is active.
abbrev plan : EntitlementGrant
plan = record {
  id = "g1";
  user_id = "u";
  entitlement_id = "editorial.studio";
  status = GrantStatus.active;
  source = "fulfillment";
  starts_at = 10;
  expires_at = some 100;
  created_by = "";
  idempotency_key = none;
  created_at = 10;
  updated_at = 10;
  revoked_at = none;
}

abbrev cancelled : SubscriptionCancellation
cancelled = record {
  id = "c1";
  user_id = "u";
  sku_code = "pro_own_ai_monthly";
  status = "cancel_at_period_end";
  cancel_at_period_end = true;
  current_period_ends_at = 100;
  source_order_no = "";
  reason = "";
  source = "";
  idempotency_key = "k";
  resume_idempotency_key = "";
  resumed_at = none;
  created_at = 20;
  updated_at = 20;
}

lifetime_allowed :
    evaluate_plan (λ t. "t") 50 (some (ok cancelled)) "u" "pro_own_ai_lifetime " (ok (plan ∷ [])) 50
    ≡ ok allow_checkout_decision
unfolding is_space is_empty trim_left put_right trim_right trim is_grant_active
    is_current_access_entitlement_id is_software_subscription_grant latest_active_lifetime_grant
    latest_active_monthly_grant format_subscription_time with_cancellation project_monthly
    project_selected project_from_grants is_lifetime_active is_monthly_active
    is_cancelled_at_period_end decide_plan project evaluate_plan
lifetime_allowed = refl

named : is_empty (trim "u") ≡ false
unfolding is_space is_empty trim_left put_right trim_right trim
named = refl

is_plan_sku :
    ((trim "pro_own_ai_lifetime " == sku_monthly) || (trim "pro_own_ai_lifetime " == sku_lifetime))
    ≡ true
unfolding is_space is_empty trim_left put_right trim_right trim
is_plan_sku = refl

evaluate_plan-IsExclusive_example :
    IsExclusive (trim "pro_own_ai_lifetime ") (time_or 50 50) (some (ok cancelled)) (plan ∷ [])
evaluate_plan-IsExclusive_example =
    evaluate_plan-IsExclusive (λ t. "t") 50 (some (ok cancelled)) "u" "pro_own_ai_lifetime "
      (plan ∷ []) 50 allow_checkout_decision named is_plan_sku lifetime_allowed refl
