-- ===== src/Subscription/CheckoutPlan/Exclusive.antt =====
-- Plans exclude each other: what an allowed checkout has shown.
use walnut_billing.Prelude.{
  arith, String, Bool, ◌≡◌, ◌⊎◌, inl, inr, refl, sym, true, false, not, ◌&&◌, ◌||◌, Option, none,
  some, List, All, is_some, Bool-cases, if◌then◌else◌,
}
use mathlib.Core.Path.{subst}
use walnut_billing.Prelude.Text.{◌==◌, eq_iff, trim, is_empty}
use walnut_billing.Domain.{Time}
use walnut_billing.Domain.Cloud.{EntitlementGrant}
use walnut_billing.Repository.Error.{Error, is_not_found, Result, ok, err}
use walnut_billing.Subscription.Projection.{
  SubscriptionCancellation, PlanError, repository, user_not_found, sku_monthly, sku_lifetime,
  SoftwareSubscriptionProjection, latest_active_lifetime_grant, latest_active_monthly_grant,
  time_or, format_subscription_time, SubscriptionStatus, with_cancellation, project_monthly,
  project_selected, project_from_grants, is_lifetime_active, is_monthly_active,
  is_cancelled_at_period_end, lifetime_projection, no_projection,
}
use walnut_billing.Subscription.CheckoutPlan.{
  CheckoutPolicyDecision, decide_plan, decided, project, evaluate_plan,
}
use walnut_billing.Subscription.Projection.Latest.{
  NoLifetime, NoMonthly, HasEnd, lifetime-none, monthly-none, monthly-HasEnd,
}

abbrev pub Found : Type 0
Found = Option (Result Error SubscriptionCancellation)

-- What an allowed checkout has shown: no active lifetime plan, and no active monthly plan, unless the
-- checkout is for a lifetime plan and the monthly one has been cancelled.
pub record IsExclusive (sku : String) (now : Time) (find : Found) (grants : List EntitlementGrant)
    : Type 0 where
  pub no_lifetime : All (NoLifetime now) grants
  pub no_monthly :
      All (NoMonthly now) grants
      ⊎ ((sku ≡ sku_lifetime) × ((c : SubscriptionCancellation) × (find ≡ some (ok c))))

abbrev IsPlanSku : String → Type 0
IsPlanSku sku = (sku ≡ sku_monthly) ⊎ (sku ≡ sku_lifetime)

lifetime_blocked :
    (rfc3339 : Time → String) (sku user_id : String) (g : EntitlementGrant)
    → (decide_plan sku (lifetime_projection rfc3339 user_id g)).allowed ≡ false
unfolding decide_plan is_lifetime_active lifetime_projection
lifetime_blocked rfc3339 sku user_id g = refl

monthly_blocked :
    (sku user_id start end_ : String)
    → IsPlanSku sku
    → (decide_plan sku (record {
      user_id = user_id;
      sku_code = sku_monthly;
      status = SubscriptionStatus.active;
      cancels = false;
      current_period_start_at = start;
      current_period_ends_at = end_;
    })).allowed
      ≡ false
unfolding decide_plan is_lifetime_active is_monthly_active is_cancelled_at_period_end
monthly_blocked sku user_id start end_ (inl e) = rw e refl
monthly_blocked sku user_id start end_ (inr e) = rw e refl

ending_blocked :
    (sku : String) (p : SoftwareSubscriptionProjection)
    → sku ≡ sku_monthly
    → p.sku_code ≡ sku_monthly
    → p.status ≡ SubscriptionStatus.cancel_at_period_end
    → p.cancels ≡ true
    → (decide_plan sku p).allowed ≡ false
unfolding decide_plan is_lifetime_active is_monthly_active is_cancelled_at_period_end
ending_blocked sku p e a b c = rw e (rw a (rw b (rw c refl)))

-- Allowed, by a decision that is no error.
abbrev IsAllowed : Result PlanError CheckoutPolicyDecision → Type 0
IsAllowed (ok d) = d.allowed ≡ true
IsAllowed (err e) = ⊥

no_such_value : (b : Bool) → b ≡ true → ¬ (b ≡ false)
no_such_value b h k = cc

-- Past a guard.
past_guard :
    (b : Bool) (x y : Result PlanError CheckoutPolicyDecision)
    → b ≡ false
    → IsAllowed (if b then x else y)
    → IsAllowed y
past_guard true x y e h = absurd (no_such_value true refl e)
past_guard false x y e h = h

past_error :
    (sku : String) (b : Bool) (e : PlanError) (y : Result PlanError SoftwareSubscriptionProjection)
    → IsAllowed (decided sku (if b then err e else y))
    → IsAllowed (decided sku y)
past_error sku true e y h = absurd h
past_error sku false e y h = h

module _ (rfc3339 : Time → String) (sku : String) (now : Time) (find : Found)
    (grants : List EntitlementGrant) where
  cancelled_open :
      (p : SoftwareSubscriptionProjection) (f : Found)
      → IsPlanSku sku
      → f ≡ find
      → p.sku_code ≡ sku_monthly
      → ((decide_plan sku p).allowed ≡ false)
      → IsAllowed (decided sku (with_cancellation rfc3339 p f))
      → (sku ≡ sku_lifetime) × ((c : SubscriptionCancellation) × (find ≡ some (ok c)))
  unfolding with_cancellation
  cancelled_open p none which at monthly blocked h = cc
  cancelled_open p (some (err e)) which at monthly blocked h = by_missing (is_not_found e) h
    where
      by_missing :
          (b : Bool)
          → IsAllowed (decided sku (if b then ok p else err (repository e)))
          → (sku ≡ sku_lifetime) × ((c : SubscriptionCancellation) × (find ≡ some (ok c)))
      by_missing true h = cc
      by_missing false h = absurd h
  cancelled_open p (some (ok c)) (inr lifetime) at monthly blocked h = (lifetime, (c, sym at))
  cancelled_open p (some (ok c)) (inl is) at monthly blocked h =
      absurd (no_such_value _ h (ending_blocked sku _ is monthly refl refl))

  selected_open :
      (user_id : String) (m : Option EntitlementGrant)
      → IsPlanSku sku
      → HasEnd m
      → (m ≡ none → All (NoMonthly now) grants)
      → IsAllowed (decided sku (project_monthly rfc3339 user_id find m))
      → All (NoMonthly now) grants
        ⊎ ((sku ≡ sku_lifetime) × ((c : SubscriptionCancellation) × (find ≡ some (ok c))))
  unfolding project_monthly
  selected_open user_id none which has no_monthly h = inl (no_monthly refl)
  selected_open user_id (some g) which has no_monthly h = by_end g.expires_at has h
    where
      by_end :
          (o : Option Time)
          → is_some o ≡ true
          → IsAllowed (
              decided sku (elim o [
                | none ↦ ok (no_projection rfc3339 user_id)
                | some t ↦
                    with_cancellation rfc3339
                      (record {
                        user_id = user_id;
                        sku_code = sku_monthly;
                        status = SubscriptionStatus.active;
                        cancels = false;
                        current_period_start_at = format_subscription_time rfc3339 g.starts_at;
                        current_period_ends_at = rfc3339 t;
                      })
                      find
              ]))
          → All (NoMonthly now) grants
            ⊎ ((sku ≡ sku_lifetime) × ((c : SubscriptionCancellation) × (find ≡ some (ok c))))
      by_end none e h = cc
      by_end (some t) e h =
          inr (cancelled_open _ find which refl refl (monthly_blocked sku user_id _ _ which) h)

exclusive :
    (rfc3339 : Time → String) (sku : String) (now : Time) (find : Found)
    (grants : List EntitlementGrant) (user_id : String) (o : Option EntitlementGrant)
    → IsPlanSku sku
    → (o ≡ none → All (NoLifetime now) grants)
    → IsAllowed (
        decided sku
          (project_selected rfc3339 user_id find o (latest_active_monthly_grant now none grants)))
    → IsExclusive sku now find grants
unfolding project_selected
exclusive rfc3339 sku now find grants user_id (some g) which no_lifetime h =
    absurd (no_such_value _ h (lifetime_blocked rfc3339 sku user_id g))
exclusive rfc3339 sku now find grants user_id none which no_lifetime h = record {
  no_lifetime = no_lifetime refl;
  no_monthly =
      selected_open rfc3339 sku now find grants user_id
        (latest_active_monthly_grant now none grants) which (monthly-HasEnd now grants none tt)
        (monthly-none now grants) h;
}

either_plan :
    (sku : String) → ((sku == sku_monthly) || (sku == sku_lifetime)) ≡ true → IsPlanSku sku
either_plan sku h = elim (Bool-cases (sku == sku_monthly)) [
  | inl monthly ↦ inl ((eq_iff sku sku_monthly).0 monthly)
  | inr other ↦ inr ((eq_iff sku sku_lifetime).0 (ground (arith, h, other)))
]

-- For every checkout of a monthly or a lifetime plan by a user, with the listed grants of the user and
-- what is found of the user's cancellations: if the policy allows it, no listed grant is an active lifetime plan,
-- and either none is an active monthly plan, or the checkout is for a lifetime plan and a
-- cancellation at the end of the period was found.
pub evaluate_plan-IsExclusive :
    (rfc3339 : Time → String) (wall : Time) (find : Found) (user_id sku_code : String)
    (grants : List EntitlementGrant) (now : Time) (d : CheckoutPolicyDecision)
    → is_empty (trim user_id) ≡ false
    → ((trim sku_code == sku_monthly) || (trim sku_code == sku_lifetime)) ≡ true
    → evaluate_plan rfc3339 wall find user_id sku_code (ok grants) now ≡ ok d
    → d.allowed ≡ true
    → IsExclusive (trim sku_code) (time_or wall now) find grants
unfolding evaluate_plan project project_from_grants
evaluate_plan-IsExclusive rfc3339 wall find user_id sku_code grants now d filled plan decided_
      allowed =
    let sku = trim sku_code in
    let at = time_or wall now in
    let whole = subst IsAllowed (sym decided_) allowed in
    let for_plan = past_guard (is_empty (trim user_id)) _ _ filled whole in
    let projected =
      past_guard (not (sku == sku_monthly) && not (sku == sku_lifetime)) _ _ (ground (arith, plan))
        for_plan in
    let selected =
      past_error sku (is_empty (trim (trim (trim user_id)))) user_not_found _ projected in
    exclusive rfc3339 sku at find grants (trim (trim (trim user_id)))
      (latest_active_lifetime_grant at none grants) (either_plan sku plan) (lifetime-none at grants)
      selected
