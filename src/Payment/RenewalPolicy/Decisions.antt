-- ===== src/Payment/RenewalPolicy/Decisions.antt =====
-- What the policy of internal/service/subscription_renewal_policy.go answers to each type of event.
use walnut_billing.Prelude.{
  String, ◌≡◌, refl, sym, ◌∙◌, ◌⊎◌, inl, inr, Bool, true, false, not, ◌||◌, Bool-cases, Option,
  none, some, arith, if◌then◌else◌,
}
use walnut_billing.Prelude.Int.{pos, ◌<ℤ◌}
use walnut_billing.Prelude.Text.{◌==◌, eq_iff, trim}
use walnut_billing.Payment.Order.{PaymentEventInbox}
use walnut_billing.Payment.RenewalPolicy.{
  SubscriptionRenewalPolicyDecision, SubscriptionRenewalPolicyConfig, normalize_renewal_config,
  default_renewal_config, decide_renewal_type, decide_renewal,
}

-- There is an event, and its type is the text, up to white space around it.
abbrev pub is_of_type : String → Option PaymentEventInbox → Bool
is_of_type text none = false
is_of_type text (some event) = trim event.event_type == text

-- The actions on a subscription that has ended.
abbrev pub is_expiry : String → Bool
is_expiry a = (a == "expire_grace") || (a == "natural_expiry")

-- A failed renewal or an expiry: the events that a grace period belongs to.
abbrev pub is_lapse : Option PaymentEventInbox → Bool
is_lapse event =
    is_of_type "payment.renewal_failed" event || is_of_type "payment.subscription_expired" event

-- The decision that the event calls for: its action tells what the event was.
pub record IsRenewal (config : SubscriptionRenewalPolicyConfig) (event : Option PaymentEventInbox)
    (d : SubscriptionRenewalPolicyDecision) : Type 0 where
  pub fulfills : (d.action == "fulfill_renewal") ≡ is_of_type "payment.renewal_paid" event
  pub grants : (d.action == "grant_grace") ≡ is_of_type "payment.renewal_failed" event
  pub ends : is_expiry d.action ≡ is_of_type "payment.subscription_expired" event
  pub ignores :
      (d.action == "ignore") ≡ not (is_of_type "payment.renewal_paid" event || is_lapse event)
  pub grace : is_lapse event ≡ true → pos 0 <ℤ d.grace_period_days
  pub configured_grace :
      is_lapse event ≡ true
      → pos 0 <ℤ config.grace_period_days
      → d.grace_period_days ≡ config.grace_period_days
  pub configured_action :
      is_of_type "payment.subscription_expired" event ≡ true
      → is_expiry (trim config.expired_action) ≡ true
      → d.action ≡ trim config.expired_action

-- A configuration with a grace period and one of the two actions on expiry, as configured where that
-- can be.
record IsNormal (config c : SubscriptionRenewalPolicyConfig) : Type 0 where
  grace : pos 0 <ℤ c.grace_period_days
  expiry : (c.expired_action ≡ "expire_grace") ⊎ (c.expired_action ≡ "natural_expiry")
  same_grace : pos 0 <ℤ config.grace_period_days → c.grace_period_days ≡ config.grace_period_days
  same_action :
      is_expiry (trim config.expired_action) ≡ true → c.expired_action ≡ trim config.expired_action

normalize-IsNormal :
    (config : SubscriptionRenewalPolicyConfig) → IsNormal config (normalize_renewal_config config)
unfolding normalize_renewal_config
normalize-IsNormal config = record {
  grace = ground arith;
  expiry = expiry_of (trim config.expired_action);
  same_grace = λ h. ground arith;
  same_action = λ h. rw h refl;
}
  where
    expiry_of :
        (a : String)
        → ((if is_expiry a then a else default_renewal_config.expired_action) ≡ "expire_grace")
          ⊎ ((if is_expiry a then a else default_renewal_config.expired_action) ≡ "natural_expiry")
    expiry_of a = elim (Bool-cases (a == "expire_grace")) [
      | inl grace ↦ rw grace (inl ((eq_iff a "expire_grace").0 grace))
      | inr other ↦ elim (Bool-cases (a == "natural_expiry")) [
        | inl natural ↦ rw other (rw natural (inr ((eq_iff a "natural_expiry").0 natural)))
        | inr neither ↦ rw other (rw neither (inl refl))
      ]
    ]

-- A text that is one of two different texts is not the other.
apart : (t a b : String) → (a == b) ≡ false → (t == a) ≡ true → (t == b) ≡ false
apart t a b other h = rw ((eq_iff t a).0 h) other

module _ (config c : SubscriptionRenewalPolicyConfig) (event : PaymentEventInbox)
    (normal : IsNormal config c) where
  expiry_apart :
      (a : String)
      → (a ≡ "expire_grace") ⊎ (a ≡ "natural_expiry")
      → (a == "fulfill_renewal" ≡ false)
        × (a == "grant_grace" ≡ false)
        × (is_expiry a ≡ true)
        × (a == "ignore" ≡ false)
  expiry_apart a (inl e) = rw e (refl, refl, refl, refl)
  expiry_apart a (inr e) = rw e (refl, refl, refl, refl)

  decide_type-IsRenewal :
      (paid failed expired : Bool)
      → is_of_type "payment.renewal_paid" (some event) ≡ paid
      → is_of_type "payment.renewal_failed" (some event) ≡ failed
      → is_of_type "payment.subscription_expired" (some event) ≡ expired
      → IsRenewal config (some event) (decide_renewal_type c (trim event.event_type))
  unfolding decide_renewal_type
  decide_type-IsRenewal true failed expired p f x =
      let no_failure = apart _ _ "payment.renewal_failed" refl p in
      let no_expiry = apart _ _ "payment.subscription_expired" refl p in
      rw p (record {
        fulfills = sym p;
        grants = sym no_failure;
        ends = sym no_expiry;
        ignores = rw p refl;
        grace = λ h. ground (arith, no_failure, no_expiry);
        configured_grace = λ h _. ground (arith, no_failure, no_expiry);
        configured_action = λ h _. cc;
      })
  decide_type-IsRenewal false true expired p f x =
      let no_expiry = apart _ _ "payment.subscription_expired" refl f in
      rw p (
        rw f (record {
          fulfills = sym p;
          grants = sym f;
          ends = sym no_expiry;
          ignores = rw p (rw f refl);
          grace = λ h. normal.grace;
          configured_grace = λ h. normal.same_grace;
          configured_action = λ h _. cc;
        }))
  decide_type-IsRenewal false false true p f x =
      let (not_paid, not_failed, ends, acts) = expiry_apart c.expired_action normal.expiry in
      rw p (
        rw f (
          rw x (record {
            fulfills = not_paid ∙ sym p;
            grants = not_failed ∙ sym f;
            ends = ends ∙ sym x;
            ignores = acts ∙ rw p (rw f (rw x refl));
            grace = λ h. normal.grace;
            configured_grace = λ h. normal.same_grace;
            configured_action = λ h. normal.same_action;
          })))
  decide_type-IsRenewal false false false p f x = rw p (
      rw f (
        rw x (record {
          fulfills = sym p;
          grants = sym f;
          ends = sym x;
          ignores = rw p (rw f (rw x refl));
          grace = λ h. ground (arith, p, f, x);
          configured_grace = λ h _. ground (arith, p, f, x);
          configured_action = λ h _. cc;
        })))

-- For every configuration, and for every event or none, with its type up to white space: the action is
-- "fulfill_renewal" exactly for a "payment.renewal_paid", "grant_grace" exactly for a
-- "payment.renewal_failed", "expire_grace" or "natural_expiry" exactly for a
-- "payment.subscription_expired", and "ignore" exactly for everything else.
-- A failed renewal and an expiry have a grace period of at least a day, the configured one if that is
-- positive, and an expiry has the configured action if that is one of the two.
pub decide_renewal-IsRenewal :
    (config : SubscriptionRenewalPolicyConfig) (event : Option PaymentEventInbox)
    → IsRenewal config event (decide_renewal config event)
unfolding decide_renewal
decide_renewal-IsRenewal config none = record {
  fulfills = refl;
  grants = refl;
  ends = refl;
  ignores = refl;
  grace = λ h. cc;
  configured_grace = λ h _. cc;
  configured_action = λ h _. cc;
}
decide_renewal-IsRenewal config (some event) =
    decide_type-IsRenewal config (normalize_renewal_config config) event (normalize-IsNormal config)
      _ _ _ refl refl refl
