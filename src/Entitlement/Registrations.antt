-- ===== src/Entitlement/Registrations.antt =====
-- `SubmitRegistration`, `ListRegistrations` and `ReviewRegistration` of internal/service/entitlement.go.
use walnut_billing.Prelude.{
  String, not, ◌&&◌, ◌||◌, Option, none, some, List, is_some, if◌then◌else◌,
}
use walnut_billing.Prelude.Text.{trim, is_empty}
use walnut_billing.Domain.{Time, User, UserStatus}
use walnut_billing.Domain.Registration.{
  RegistrationRequest, RegistrationStatus, valid_registration_status,
}
use walnut_billing.Repository.Error.{Error, Result, ok, err, is_not_found}
use walnut_billing.Repository.Flow.{pure, raise, ◌>>=◌, ◌>>◌, raise_if, from_result}
use walnut_billing.Credit.Ledger.{default_string}
use walnut_billing.Entitlement.World.{
  invalid_registration, unknown_entitlement, registration_not_found, repository, RegistrationQuery,
  EntitlementEnv, EntitlementFlow, has_entitlement, required, entitlement_now,
  generate_entitlement_id, create_user, update_user, user_by_email, create_registration,
  update_registration, registration_by_id, registrations_for,
}

pub record RegistrationInput : Type 0 where
  pub email : String
  pub display_name : String
  pub requested_entitlement : String
  pub device_id : String
  pub source : String
  pub note : String

pub record RegistrationResult : Type 0 where
  pub user : User
  pub registration : RegistrationRequest

pub record ReviewRegistrationInput : Type 0 where
  pub registration_id : String
  pub status : String
  pub reviewed_by : String
  pub review_note : String

-- The entitlement that is asked for.
abbrev pub requested : RegistrationInput → String
requested i = default_string (trim i.requested_entitlement) "editorial.studio"

-- The row of a new request.
unfoldable pub registration_of :
    String → User → String → RegistrationInput → Time → RegistrationRequest
registration_of id user email i now = record {
  id = id;
  user_id = user.id;
  email = email;
  display_name = trim i.display_name;
  requested_entitlement = requested i;
  status = RegistrationStatus.pending;
  source = default_string (trim i.source) "desktop";
  device_id = trim i.device_id;
  note = trim i.note;
  review_note = "";
  reviewed_by = "";
  reviewed_at = none;
  created_at = now;
  updated_at = now;
}

-- The row of a request after a review.
unfoldable pub reviewed :
    ReviewRegistrationInput → RegistrationStatus → Time → RegistrationRequest → RegistrationRequest
reviewed i status now r = record r {
  status = status;
  reviewed_by = default_string (trim i.reviewed_by) "admin";
  review_note = trim i.review_note;
  reviewed_at = some now;
  updated_at = now;
}

module _ (env : EntitlementEnv) where
  unfoldable pub new_user : String → RegistrationInput → Time → EntitlementFlow User
  new_user email i now = do
    id ← generate_entitlement_id env "usr_"
    let user : User = record {
      id = id;
      email = email;
      display_name = trim i.display_name;
      status = UserStatus.active;
      created_at = now;
      updated_at = now;
    }
    create_user env user
    pure user

  -- A user without a name takes that of the request.
  unfoldable pub name_user : RegistrationInput → Time → User → EntitlementFlow User
  name_user i now user =
      if is_empty user.display_name && not (is_empty (trim i.display_name))
      then (do
        update_user env (record user { display_name = trim i.display_name; updated_at = now })
        pure (record user { display_name = trim i.display_name; updated_at = now }))
      else pure user

  unfoldable pub named_or_new_user :
      String → RegistrationInput → Time → Result Error User → EntitlementFlow User
  named_or_new_user email i now (ok user) = name_user i now user
  named_or_new_user email i now (err e) =
      if is_not_found e then new_user email i now else raise (repository e)

  -- `SubmitRegistration`; `email` is what `normalizeEmail` makes of that of the request.
  unfoldable pub submit_registration : RegistrationInput → EntitlementFlow RegistrationResult
  submit_registration i = do
    let email = env.to_lower (trim i.email)
    raise_if (is_empty email) invalid_registration
    raise_if (not (has_entitlement env.catalog (requested i))) unknown_entitlement
    now ← entitlement_now env
    found ← from_result (λ s. ok (user_by_email env email s))
    user ← named_or_new_user email i now found
    id ← generate_entitlement_id env "reg_"
    create_registration env (registration_of id user email i now)
    pure (record { user = user; registration = registration_of id user email i now })

  -- `ListRegistrations`
  unfoldable pub list_registrations : RegistrationQuery → EntitlementFlow (List RegistrationRequest)
  list_registrations q =
      from_result (registrations_for env (record q { email = env.to_lower (trim q.email) }))

  unfoldable pub store_review :
      ReviewRegistrationInput
      → RegistrationRequest
      → Option RegistrationStatus
      → EntitlementFlow RegistrationRequest
  store_review i r none = raise invalid_registration
  store_review i r (some status) = do
    now ← entitlement_now env
    update_registration env (reviewed i status now r)
    pure (reviewed i status now r)

  -- `ReviewRegistration`
  unfoldable pub review_registration : ReviewRegistrationInput → EntitlementFlow RegistrationRequest
  review_registration i = do
    raise_if
        (is_empty (trim i.registration_id) || not (is_some (valid_registration_status i.status)))
        invalid_registration
    r ←
        from_result
          (λ s. required registration_not_found (registration_by_id env (trim i.registration_id) s))
    store_review i r (valid_registration_status i.status)
