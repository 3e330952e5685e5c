-- ===== src/Subscription/Projection/Latest.antt =====
-- The latest active grants of internal/service/software_subscription_projection.go.
use walnut_billing.Prelude.{
  arith, Bool, ◌≡◌, inl, inr, refl, true, false, not, ◌&&◌, ◌||◌, Option, none, some, List, [], ◌∷◌,
  All, is_some, ltb, Bool-cases, if◌then◌else◌,
}
use walnut_billing.Domain.{Time}
use walnut_billing.Domain.Cloud.{EntitlementGrant}
use walnut_billing.Subscription.Projection.{
  is_software_subscription_grant, later_end, latest_active_lifetime_grant,
  latest_active_monthly_grant, expires_later,
}

-- Not an active plan without an end.
abbrev pub NoLifetime : Time → EntitlementGrant → Type 0
NoLifetime now g = (is_software_subscription_grant g now && not (is_some g.expires_at)) ≡ false

-- Not an active plan with an end.
abbrev pub NoMonthly : Time → EntitlementGrant → Type 0
NoMonthly now g = (is_software_subscription_grant g now && is_some g.expires_at) ≡ false

lifetime-some :
    (now : Time) (x : EntitlementGrant) (gs : List EntitlementGrant)
    → is_some (latest_active_lifetime_grant now (some x) gs) ≡ true
unfolding latest_active_lifetime_grant
lifetime-some now x [] = refl
lifetime-some now x (g ∷ gs) =
    elim (Bool-cases (not (is_software_subscription_grant g now) || is_some g.expires_at)) [
      | inl skipped ↦ rw skipped (lifetime-some now x gs)
      | inr taken ↦ rw taken (elim (Bool-cases (ltb x.starts_at g.starts_at)) [
        | inl later ↦ rw later (lifetime-some now g gs)
        | inr earlier ↦ rw earlier (lifetime-some now x gs)
      ])
    ]

pub lifetime-none :
    (now : Time) (gs : List EntitlementGrant)
    → latest_active_lifetime_grant now none gs ≡ none
    → All (NoLifetime now) gs
unfolding latest_active_lifetime_grant
lifetime-none now [] h = tt
lifetime-none now (g ∷ gs) h =
    by_test (not (is_software_subscription_grant g now) || is_some g.expires_at) refl h
      (lifetime-none now gs)
  where
    by_test :
        (b : Bool)
        → (not (is_software_subscription_grant g now) || is_some g.expires_at) ≡ b
        → latest_active_lifetime_grant now (if b then none else some g) gs ≡ none
        → (latest_active_lifetime_grant now none gs ≡ none → All (NoLifetime now) gs)
        → All (NoLifetime now) (g ∷ gs)
    by_test true e h rest = (ground (arith, e), rest h)
    by_test false e h rest = let has = lifetime-some now g gs in cc

monthly-some :
    (now : Time) (x : EntitlementGrant) (gs : List EntitlementGrant)
    → is_some (latest_active_monthly_grant now (some x) gs) ≡ true
unfolding latest_active_monthly_grant
monthly-some now x [] = refl
monthly-some now x (g ∷ gs) =
    elim (Bool-cases (not (is_software_subscription_grant g now) || not (is_some g.expires_at))) [
      | inl skipped ↦ rw skipped (monthly-some now x gs)
      | inr taken ↦ rw taken (elim (Bool-cases (expires_later g.expires_at x.expires_at)) [
        | inl later ↦ rw later (monthly-some now g gs)
        | inr earlier ↦ rw earlier (monthly-some now x gs)
      ])
    ]

pub monthly-none :
    (now : Time) (gs : List EntitlementGrant)
    → latest_active_monthly_grant now none gs ≡ none
    → All (NoMonthly now) gs
unfolding latest_active_monthly_grant
monthly-none now [] h = tt
monthly-none now (g ∷ gs) h =
    by_test (not (is_software_subscription_grant g now) || not (is_some g.expires_at)) refl h
      (monthly-none now gs)
  where
    by_test :
        (b : Bool)
        → (not (is_software_subscription_grant g now) || not (is_some g.expires_at)) ≡ b
        → latest_active_monthly_grant now (if b then none else some g) gs ≡ none
        → (latest_active_monthly_grant now none gs ≡ none → All (NoMonthly now) gs)
        → All (NoMonthly now) (g ∷ gs)
    by_test true e h rest = (ground (arith, e), rest h)
    by_test false e h rest = let has = monthly-some now g gs in cc

-- A selected grant has an end.
abbrev pub HasEnd : Option EntitlementGrant → Type 0
HasEnd none = Unit {0}
HasEnd (some g) = is_some g.expires_at ≡ true

later_end-HasEnd :
    (g : EntitlementGrant) (o : Option EntitlementGrant)
    → is_some g.expires_at ≡ true
    → HasEnd o
    → HasEnd (later_end g o)
later_end-HasEnd g none e h = e
later_end-HasEnd g (some x) e h = elim (Bool-cases (expires_later g.expires_at x.expires_at)) [
  | inl later ↦ rw later e
  | inr earlier ↦ rw earlier h
]

pub monthly-HasEnd :
    (now : Time) (gs : List EntitlementGrant) (o : Option EntitlementGrant)
    → HasEnd o
    → HasEnd (latest_active_monthly_grant now o gs)
unfolding latest_active_monthly_grant
monthly-HasEnd now [] o h = h
monthly-HasEnd now (g ∷ gs) o h =
    monthly-HasEnd now gs _
      (by_test (not (is_software_subscription_grant g now) || not (is_some g.expires_at)) refl)
  where
    by_test :
        (b : Bool)
        → (not (is_software_subscription_grant g now) || not (is_some g.expires_at)) ≡ b
        → HasEnd (if b then o else later_end g o)
    by_test true e = h
    by_test false e = later_end-HasEnd g o (ground (arith, e)) h
