-- ===== src/Entitlement/Snapshot.antt =====
-- `SnapshotForUser` of internal/service/entitlement.go, with the current entitlements of
-- internal/service/access_entitlements.go.
pub mod Earned
use walnut_billing.Prelude.{String, Bool, true, false, ◌&&◌, ◌||◌, List, [], ◌∷◌, if◌then◌else◌}
use walnut_billing.Prelude.Int.{ℤ}
use walnut_billing.Prelude.Text.{◌==◌, trim, is_empty}
use walnut_billing.Domain.{Time, UserStatus}
use walnut_billing.Domain.Credit.{CreditAccount}
use walnut_billing.Domain.Cloud.{EntitlementGrant}
use walnut_billing.Repository.Error.{Error, Result, ok, err}
use walnut_billing.Repository.Flow.{pure, ◌>>=◌, ◌>>◌, raise_if, from_result}
use walnut_billing.Cloud.QuotaPolicy.{is_grant_active}
use walnut_billing.Entitlement.World.{
  EntitlementError, user_not_found, EntitlementState, EntitlementEnv, EntitlementFlow, required,
  entitlement_now, registered_user, grants_of_user, account_of_user,
}

pub record EntitlementSnapshotUser : Type 0 where
  pub id : String
  pub email : String
  pub display_name : String
  pub status : UserStatus

-- The map of entitlements has `true` at the ids of a list. `Features`, which is always empty, is left out.
pub record EntitlementSnapshot : Type 0 where
  pub user : EntitlementSnapshotUser
  pub entitlements : List String
  pub credits : List (String × ℤ)
  pub updated_at : String
  pub source : String

-- `CurrentAdvancedEntitlements`
abbrev pub current_advanced_entitlements : List String
current_advanced_entitlements = "editorial.studio" ∷ "cloud.storage" ∷ []

abbrev pub is_one_of : List String → String → Bool
is_one_of [] id = false
is_one_of (x ∷ xs) id = (id == x) || is_one_of xs id

-- `IsCurrentAccessEntitlementID`
unfoldable pub is_current_access_entitlement_id : String → Bool
is_current_access_entitlement_id id = is_one_of current_advanced_entitlements id

-- `entitlements[id] = true`
unfoldable pub put_entitlement : String → List String → List String
put_entitlement id ids = if is_one_of ids id then ids else id ∷ ids

-- The loop over the grants.
unfoldable pub active_entitlements : Time → List EntitlementGrant → List String → List String
active_entitlements now [] ids = ids
active_entitlements now (g ∷ gs) ids = active_entitlements now gs (
    if is_grant_active g now && is_current_access_entitlement_id g.entitlement_id
    then put_entitlement g.entitlement_id ids
    else ids)

unfoldable pub credits_of : Result Error CreditAccount → List (String × ℤ)
credits_of (ok a) = ("credits.balance", a.balance) ∷ ("credits.reserved", a.reserved) ∷ []
credits_of (err e) = []

module _ (env : EntitlementEnv) where
  -- `creditSnapshotWithRepo`, which leaves an error out.
  unfoldable pub credit_snapshot : String → EntitlementState → List (String × ℤ)
  credit_snapshot user_id s =
      if env.has_accounts then credits_of (account_of_user env user_id s) else []

  -- `snapshotForUserWithRepos`
  unfoldable pub snapshot_for_user : String → EntitlementFlow EntitlementSnapshot
  snapshot_for_user user_id = do
    raise_if (is_empty (trim user_id)) user_not_found
    user ← from_result (λ s. required user_not_found (registered_user env (trim user_id) s))
    grants ← from_result (grants_of_user env (trim user_id))
    now ← entitlement_now env
    credits ← from_result (λ s. ok (credit_snapshot (trim user_id) s))
    pure (record {
      user = record {
        id = user.id;
        email = user.email;
        display_name = user.display_name;
        status = user.status;
      };
      entitlements = active_entitlements now grants [];
      credits = credits;
      updated_at = env.rfc3339 now;
      source = "billing_provider";
    })
