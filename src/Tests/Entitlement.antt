-- ===== src/Tests/Entitlement.antt =====
-- Entitlements: an environment in memory, runs, and the theorems at them.
use walnut_billing.Prelude.{◌+◌, ◌≡◌, refl, true, false, none, some, [], ◌∷◌, length}
use walnut_billing.Prelude.Text.{is_space, is_empty, trim_left, put_right, trim_right, trim}
use walnut_billing.Repository.Error.{Result, ok, err, map_gorm_not_found}
use walnut_billing.Repository.Table.{lookup, upsert}
use walnut_billing.Repository.Flow.{pure, raise, ◌>>=◌, raise_if, from_result, mapped}
use walnut_billing.Domain.Registration.{valid_registration_status}
use walnut_billing.Credit.Ledger.{default_string}
use walnut_billing.Cloud.QuotaPolicy.{is_grant_active}
use walnut_billing.Domain.Cloud.{EntitlementGrant}
use walnut_billing.Entitlement.World.{
  EntitlementError, EntitlementState, EntitlementEnv, new_static_catalog, default_catalog,
  has_entitlement, entitlement_now, generate_entitlement_id, create_user, update_user,
  registered_user, user_by_email, create_registration, update_registration, registration_by_id,
  add_grant, grant_by_key, grants_of_user, account_of_user,
}
use walnut_billing.Entitlement.Laws.{person_id, registration_id, grant_id, IsLawfulEntitlement}
use walnut_billing.Entitlement.Grants.{
  GrantInput, active_grant_for, grant_of, store_grant, found_or_stored, new_grant, replay_or_grant,
  create_grant_with_repos, from_registration, resolve_registration, create_grant,
}
use walnut_billing.Entitlement.Grants.Steps.{Granted}
use walnut_billing.Entitlement.Grants.Ends.{Resolves, create_grant-Ends}
use walnut_billing.Entitlement.Grants.Twice.{create_grant_twice}
use walnut_billing.Entitlement.Registrations.{
  RegistrationInput, ReviewRegistrationInput, registration_of, reviewed, new_user, name_user,
  named_or_new_user, submit_registration, store_review, review_registration,
}
use walnut_billing.Entitlement.Snapshot.{
  EntitlementSnapshot, is_current_access_entitlement_id, put_entitlement, active_entitlements,
  credits_of, credit_snapshot, snapshot_for_user,
}
use walnut_billing.Entitlement.Snapshot.Earned.{IsEarnedSnapshot, snapshot_for_user-Earned}
use walnut_billing.Tests.Engine.{
  memory_create, memory_save, first_from, memory_first, found_from, memory_find, memory_table,
  memory_table-IsTable,
}

abbrev grants_env : EntitlementEnv
grants_env = record {
  users = memory_table person_id;
  registrations = memory_table registration_id;
  grants = memory_table grant_id;
  accounts = memory_table (λ a. a.id);
  clock = λ n. 50 + n;
  random = λ n. some "1";
  to_lower = λ s. s;
  rfc3339 = λ t. "t";
  catalog = default_catalog;
  has_accounts = true;
}

abbrev nobody : EntitlementState
nobody = record { users = []; registrations = []; grants = []; accounts = []; ticks = 0; draws = 0 }

abbrev registration_input : RegistrationInput
registration_input = record {
  email = " a@b.c";
  display_name = "A";
  requested_entitlement = "";
  device_id = "mac";
  source = "";
  note = "";
}

abbrev review_input : ReviewRegistrationInput
review_input = record {
  registration_id = "reg_1";
  status = "approved";
  reviewed_by = "";
  review_note = "";
}

abbrev grant_input : GrantInput
grant_input = record {
  user_id = "";
  registration_id = "reg_1 ";
  entitlement_id = "";
  created_by = "";
  source = "";
  starts_at = 0;
  expires_at = none;
  idempotency_key = "k ";
}

-- The state of a run, with all the definitions that it goes through opened.
unfoldable state_after :
    {A : Type 0} → Result EntitlementError A × EntitlementState → EntitlementState
unfolding pure raise ◌>>=◌ raise_if from_result mapped valid_registration_status default_string
    is_grant_active new_static_catalog default_catalog has_entitlement entitlement_now
    generate_entitlement_id create_user update_user registered_user user_by_email
    create_registration update_registration registration_by_id add_grant grant_by_key grants_of_user
    account_of_user active_grant_for grant_of store_grant found_or_stored new_grant replay_or_grant
    create_grant_with_repos from_registration resolve_registration create_grant registration_of
    reviewed new_user name_user named_or_new_user submit_registration store_review
    review_registration is_current_access_entitlement_id put_entitlement active_entitlements
    credits_of credit_snapshot snapshot_for_user memory_create memory_save first_from memory_first
    found_from memory_find lookup upsert map_gorm_not_found is_space is_empty trim_left put_right
    trim_right trim
state_after (r, s) = s

abbrev submitted : EntitlementState
submitted = state_after (submit_registration grants_env registration_input nobody)

abbrev approved : EntitlementState
approved = state_after (review_registration grants_env review_input submitted)

one_registration : length approved.registrations ≡ 1
unfolding state_after
one_registration = refl

grants_env-IsLawful : IsLawfulEntitlement grants_env
grants_env-IsLawful = record {
  users = memory_table-IsTable person_id;
  registrations = memory_table-IsTable registration_id;
  grants = memory_table-IsTable grant_id;
}

abbrev IsReturned : {A : Type 0} → Result EntitlementError A → Type 0
IsReturned (ok a) = Unit {0}
IsReturned (err e) = ⊥

abbrev returned : {A : Type 0} → (r : Result EntitlementError A) → IsReturned r → A
returned (ok a) h = a
returned (err e) h = absurd h

returned_is :
    {A : Type 0} → (r : Result EntitlementError A) (h : IsReturned r) → r ≡ ok (returned r h)
returned_is (ok a) h = refl
returned_is (err e) h = absurd h

grant_works : IsReturned (create_grant grants_env grant_input approved).0
unfolding state_after
grant_works = tt

abbrev granted : EntitlementGrant
granted = returned (create_grant grants_env grant_input approved).0 grant_works

abbrev granted_state : EntitlementState
granted_state = (create_grant grants_env grant_input approved).1

again_works : IsReturned (create_grant grants_env grant_input granted_state).0
unfolding state_after
again_works = tt

has_key : is_empty (trim grant_input.idempotency_key) ≡ false
unfolding state_after
has_key = refl

snapshot_works : IsReturned (snapshot_for_user grants_env "usr_1" granted_state).0
unfolding state_after
snapshot_works = tt

abbrev snapshot : EntitlementSnapshot
snapshot = returned (snapshot_for_user grants_env "usr_1" granted_state).0 snapshot_works

has_studio : snapshot.entitlements ≡ "editorial.studio" ∷ []
unfolding state_after
has_studio = refl

create_grant-Ends_example :
    (j : GrantInput) × Resolves grants_env grant_input approved j
    × Granted grants_env j approved granted granted_state
create_grant-Ends_example =
    create_grant-Ends grants_env grant_input approved granted grants_env-IsLawful
      (returned_is (create_grant grants_env grant_input approved).0 grant_works)

create_grant_twice_example :
    (create_grant grants_env grant_input granted_state).1.grants ≡ granted_state.grants
create_grant_twice_example =
    create_grant_twice grants_env grant_input grant_input approved granted
      (returned (create_grant grants_env grant_input granted_state).0 again_works)
      grants_env-IsLawful has_key refl
      (returned_is (create_grant grants_env grant_input approved).0 grant_works)
      (returned_is (create_grant grants_env grant_input granted_state).0 again_works)

snapshot_for_user-Earned_example : IsEarnedSnapshot grants_env "usr_1" granted_state snapshot
snapshot_for_user-Earned_example =
    snapshot_for_user-Earned grants_env "usr_1" granted_state snapshot grants_env-IsLawful
      (returned_is (snapshot_for_user grants_env "usr_1" granted_state).0 snapshot_works)
