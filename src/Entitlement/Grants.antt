-- ===== src/Entitlement/Grants.antt =====
-- `CreateGrant` and `ListGrants` of internal/service/entitlement.go.
pub mod Steps
pub mod Ends
pub mod Twice
use walnut_billing.Prelude.{
  String, Bool, true, false, not, ◌&&◌, ◌||◌, Option, none, some, List, [], ◌∷◌, nat_eq,
  if◌then◌else◌,
}
use walnut_billing.Prelude.Text.{◌==◌, trim, is_empty}
use walnut_billing.Domain.{Time}
use walnut_billing.Domain.Cloud.{EntitlementGrant, GrantStatus}
use walnut_billing.Domain.Registration.{RegistrationRequest}
use walnut_billing.Repository.Error.{Error, Result, ok, err, is_not_found}
use walnut_billing.Repository.Flow.{pure, raise, ◌>>=◌, ◌>>◌, raise_if, from_result}
use walnut_billing.Credit.Ledger.{default_string}
use walnut_billing.Cloud.QuotaPolicy.{is_grant_active}
use walnut_billing.Entitlement.World.{
  EntitlementError, invalid_grant, unknown_entitlement, user_not_found, registration_not_found,
  repository, EntitlementState, EntitlementGrantQuery, EntitlementEnv, EntitlementFlow,
  has_entitlement, required, entitlement_now, generate_entitlement_id, registered_user,
  registration_by_id, add_grant, grant_by_key, grants_of_user, grants_for,
}

pub record GrantInput : Type 0 where
  pub user_id : String
  pub registration_id : String
  pub entitlement_id : String
  pub created_by : String
  pub source : String
  pub starts_at : Time
  pub expires_at : Option Time
  pub idempotency_key : String

-- The first active grant of a list for an entitlement.
unfoldable pub active_grant_for : String → Time → List EntitlementGrant → Option EntitlementGrant
active_grant_for entitlement_id now [] = none
active_grant_for entitlement_id now (g ∷ gs) =
    if (g.entitlement_id == entitlement_id) && is_grant_active g now
    then some g
    else active_grant_for entitlement_id now gs

-- The row of a new grant; an empty key is left out.
unfoldable pub grant_of : String → GrantInput → Time → EntitlementGrant
grant_of id i now = record {
  id = id;
  user_id = trim i.user_id;
  entitlement_id = trim i.entitlement_id;
  status = GrantStatus.active;
  source = default_string (trim i.source) "manual";
  starts_at = if nat_eq i.starts_at 0 then now else i.starts_at;
  expires_at = i.expires_at;
  created_by = default_string (trim i.created_by) "admin";
  idempotency_key =
      if is_empty (trim i.idempotency_key) then none else some (trim i.idempotency_key);
  created_at = now;
  updated_at = now;
  revoked_at = none;
}

module _ (env : EntitlementEnv) where
  -- The end of `createGrantWithRepos`: a new row.
  unfoldable pub store_grant : GrantInput → Time → EntitlementFlow EntitlementGrant
  store_grant i now = do
    id ← generate_entitlement_id env "grt_"
    add_grant env (grant_of id i now)
    pure (grant_of id i now)

  unfoldable pub found_or_stored :
      GrantInput → Time → Option EntitlementGrant → EntitlementFlow EntitlementGrant
  found_or_stored i now (some g) = pure g
  found_or_stored i now none = store_grant i now

  -- What follows the look-up of the key.
  unfoldable pub new_grant : GrantInput → EntitlementFlow EntitlementGrant
  new_grant i = do
    raise_if (not (has_entitlement env.catalog (trim i.entitlement_id))) unknown_entitlement
    user ← from_result (λ s. required user_not_found (registered_user env (trim i.user_id) s))
    now ← entitlement_now env
    (if is_empty (trim i.idempotency_key)
        then (do
          existing ← from_result (grants_of_user env (trim i.user_id))
          found_or_stored i now (active_grant_for (trim i.entitlement_id) now existing))
        else store_grant i now)

  -- A grant that was made with the key.
  unfoldable pub replay_or_grant :
      GrantInput → Result Error EntitlementGrant → EntitlementFlow EntitlementGrant
  replay_or_grant i (ok g) = do
    raise_if (not (g.user_id == trim i.user_id) || not (g.entitlement_id == trim i.entitlement_id))
        invalid_grant
    pure g
  replay_or_grant i (err e) = if is_not_found e then new_grant i else raise (repository e)

  -- `createGrantWithRepos`
  unfoldable pub create_grant_with_repos : GrantInput → EntitlementFlow EntitlementGrant
  create_grant_with_repos i = do
    raise_if (is_empty (trim i.user_id) || is_empty (trim i.entitlement_id)) invalid_grant
    (if is_empty (trim i.idempotency_key)
        then new_grant i
        else from_result (λ s. ok (grant_by_key env (trim i.idempotency_key) s))
          >>= replay_or_grant i)

  -- The input with the user and the entitlement of a registration, which have to agree with it.
  unfoldable pub from_registration : GrantInput → RegistrationRequest → EntitlementFlow GrantInput
  from_registration i r = do
    raise_if (not (is_empty (trim i.user_id)) && not (trim i.user_id == r.user_id)) invalid_grant
    raise_if
        (not (is_empty (trim i.entitlement_id))
          && not (trim i.entitlement_id == r.requested_entitlement))
        invalid_grant
    pure (record i { user_id = r.user_id; entitlement_id = r.requested_entitlement })

  unfoldable pub resolve_registration : GrantInput → EntitlementFlow GrantInput
  resolve_registration i =
      if is_empty (trim i.registration_id)
      then pure i
      else from_result
          (λ s. required registration_not_found (registration_by_id env (trim i.registration_id) s))
        >>= from_registration i

  -- `CreateGrant`
  unfoldable pub create_grant : GrantInput → EntitlementFlow EntitlementGrant
  create_grant i = do resolved ← resolve_registration i; create_grant_with_repos resolved

  -- `ListGrants`; the clock is read to leave expired grants out.
  unfoldable pub list_grants : EntitlementGrantQuery → EntitlementFlow (List EntitlementGrant)
  list_grants q = do
    now ← (if q.include_expired then pure 0 else entitlement_now env)
    from_result (grants_for env q now)
