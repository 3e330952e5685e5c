-- ===== src/Entitlement/World.antt =====
-- The state and the environment of `entitlementServiceImpl` of internal/service/entitlement.go, its catalog,
-- and its repositories of internal/repository/gorm_repo/entitlement.go.
use walnut_billing.Prelude.{
  ℕ, suc, String, Bool, true, false, ◌&&◌, ◌||◌, Option, none, some, List, [], ◌∷◌, ltb,
  if◌then◌else◌,
}
use Prim.Native.String
use walnut_billing.Prelude.Int.{ℤ}
use walnut_billing.Prelude.Text.{◌==◌, trim, is_empty}
use walnut_billing.Domain.{Time, User}
use walnut_billing.Domain.Credit.{CreditAccount}
use walnut_billing.Domain.Cloud.{EntitlementGrant}
use walnut_billing.Domain.Registration.{
  RegistrationRequest, registration_status_text, grant_status_text,
}
use walnut_billing.Repository.Error.{GormError, Error, entropy, Result, ok, err, is_not_found}
use walnut_billing.Repository.Table.{Table}
use walnut_billing.Repository.Flow.{Flow, mapped}
use walnut_billing.Repository.Credit.{positive, unless_empty}

-- The errors of the service; `repository` is one of a repository.
pub data EntitlementError : Type 0 where
  user_not_found registration_not_found invalid_registration invalid_grant : EntitlementError
  unknown_entitlement : EntitlementError
  repository : Error → EntitlementError
  database : GormError → EntitlementError

pub record EntitlementState : Type 0 where
  pub users : List User
  pub registrations : List RegistrationRequest
  pub grants : List EntitlementGrant
  pub accounts : List CreditAccount
  pub ticks : ℕ
  pub draws : ℕ

-- The ids of `StaticEntitlementCatalog`.
abbrev pub StaticEntitlementCatalog : Type 0
StaticEntitlementCatalog = List String

-- `NewStaticEntitlementCatalog`; a map of ids.
unfoldable pub new_static_catalog : List String → StaticEntitlementCatalog
new_static_catalog [] = []
new_static_catalog (id ∷ ids) =
    let rest = new_static_catalog ids in if is_empty (trim id) then rest else trim id ∷ rest

-- `DefaultEntitlementCatalog`
unfoldable pub default_catalog : StaticEntitlementCatalog
default_catalog = new_static_catalog (
    "software.basic" ∷ "software.advanced" ∷ "editorial.studio" ∷ "workflow.batch_cleanup"
    ∷ "workflow.advanced" ∷ "cloud.storage" ∷ [])

-- `HasEntitlement`
unfoldable pub has_entitlement : StaticEntitlementCatalog → String → Bool
has_entitlement [] id = false
has_entitlement (x ∷ xs) id = (x == id) || has_entitlement xs id

-- `RegistrationQuery` and `EntitlementGrantQuery` of internal/repository/repository.go
pub record RegistrationQuery : Type 0 where
  pub status : String
  pub user_id : String
  pub email : String
  pub limit : ℤ
  pub offset : ℤ

pub record EntitlementGrantQuery : Type 0 where
  pub user_id : String
  pub entitlement_id : String
  pub status : String
  pub include_expired : Bool
  pub limit : ℤ
  pub offset : ℤ

-- `to_lower` is `strings.ToLower`; `rfc3339` is the format of a time.
pub record EntitlementEnv : Type 0 where
  pub users : Table User
  pub registrations : Table RegistrationRequest
  pub grants : Table EntitlementGrant
  pub accounts : Table CreditAccount
  pub clock : ℕ → Time
  pub random : ℕ → Option String
  pub to_lower : String → String
  pub rfc3339 : Time → String
  pub catalog : StaticEntitlementCatalog
  pub has_accounts : Bool

abbrev pub EntitlementFlow : Type 0 → Type 0
EntitlementFlow A = Flow EntitlementState EntitlementError A

abbrev pub listed : {A : Type 0} → Result GormError A → Result EntitlementError A
listed (ok a) = ok a
listed (err e) = err (database e)

-- A read whose missing row is an error of the service.
abbrev pub required : {A : Type 0} → EntitlementError → Result Error A → Result EntitlementError A
required missing (ok a) = ok a
required missing (err e) = err (if is_not_found e then missing else repository e)

abbrev pub stored :
    {Row : Type 0}
    → (List Row → EntitlementState → EntitlementState)
    → EntitlementState
    → Result GormError (List Row)
    → Result EntitlementError (Unit {0}) × EntitlementState
stored put s (ok rows) = (ok tt, put rows s)
stored put s (err e) = (err (database e), s)

abbrev pub put_users : List User → EntitlementState → EntitlementState
put_users rows s = record s { users = rows }

abbrev pub put_registrations : List RegistrationRequest → EntitlementState → EntitlementState
put_registrations rows s = record s { registrations = rows }

abbrev pub put_grants : List EntitlementGrant → EntitlementState → EntitlementState
put_grants rows s = record s { grants = rows }

unfoldable pub registration_query_matches : RegistrationQuery → RegistrationRequest → Bool
registration_query_matches q r =
    unless_empty q.status (registration_status_text r.status)
    && unless_empty q.user_id r.user_id
    && unless_empty q.email r.email

-- `expires_at IS NULL OR expires_at > ?`
abbrev pub expires_after : Time → Option Time → Bool
expires_after now none = true
expires_after now (some t) = ltb now t

unfoldable pub grant_query_matches : EntitlementGrantQuery → Time → EntitlementGrant → Bool
grant_query_matches q now g =
    unless_empty q.user_id g.user_id
    && unless_empty q.entitlement_id g.entitlement_id
    && unless_empty q.status (grant_status_text g.status)
    && (q.include_expired || expires_after now g.expires_at)

-- `idempotency_key = ?`
abbrev pub has_grant_key : String → Option String → Bool
has_grant_key key none = false
has_grant_key key (some k) = k == key

module _ (env : EntitlementEnv) where
  -- `time.Now().UTC()`
  unfoldable pub entitlement_now : EntitlementFlow Time
  entitlement_now s = (ok (env.clock s.ticks), record s { ticks = suc s.ticks })

  abbrev pub prefixed_id : String → Option String → Result EntitlementError String
  prefixed_id prefix none = err (repository entropy)
  prefixed_id prefix (some digits) = ok (String.◌++◌ prefix digits)

  -- `generateEntityID`
  unfoldable pub generate_entitlement_id : String → EntitlementFlow String
  generate_entitlement_id prefix s =
      (prefixed_id prefix (env.random s.draws), record s { draws = suc s.draws })

  -- `UserRepo`
  unfoldable pub create_user : User → EntitlementFlow (Unit {0})
  create_user u s = stored put_users s (env.users.create u s.users)

  unfoldable pub update_user : User → EntitlementFlow (Unit {0})
  update_user u s = stored put_users s (env.users.save u s.users)

  unfoldable pub registered_user : String → EntitlementState → Result Error User
  registered_user id s = mapped (env.users.first (λ u. u.id == id) s.users)

  unfoldable pub user_by_email : String → EntitlementState → Result Error User
  user_by_email email s = mapped (env.users.first (λ u. u.email == email) s.users)

  -- `RegistrationRepo`
  unfoldable pub create_registration : RegistrationRequest → EntitlementFlow (Unit {0})
  create_registration r s = stored put_registrations s (env.registrations.create r s.registrations)

  unfoldable pub update_registration : RegistrationRequest → EntitlementFlow (Unit {0})
  update_registration r s = stored put_registrations s (env.registrations.save r s.registrations)

  unfoldable pub registration_by_id : String → EntitlementState → Result Error RegistrationRequest
  registration_by_id id s = mapped (env.registrations.first (λ r. r.id == id) s.registrations)

  unfoldable pub registrations_for :
      RegistrationQuery → EntitlementState → Result EntitlementError (List RegistrationRequest)
  registrations_for q s = listed (
      env.registrations.find (registration_query_matches q) (λ a b. ltb b.created_at a.created_at)
        (positive q.limit) (positive q.offset) s.registrations)

  -- `EntitlementGrantRepo`
  unfoldable pub add_grant : EntitlementGrant → EntitlementFlow (Unit {0})
  add_grant g s = stored put_grants s (env.grants.create g s.grants)

  unfoldable pub grant_by_key : String → EntitlementState → Result Error EntitlementGrant
  grant_by_key key s = mapped (env.grants.first (λ g. has_grant_key key g.idempotency_key) s.grants)

  unfoldable pub grants_of_user :
      String → EntitlementState → Result EntitlementError (List EntitlementGrant)
  grants_of_user user_id s = listed (
      env.grants.find (λ g. g.user_id == user_id) (λ a b. ltb b.created_at a.created_at) none none
        s.grants)

  unfoldable pub grants_for :
      EntitlementGrantQuery
      → Time
      → EntitlementState
      → Result EntitlementError (List EntitlementGrant)
  grants_for q now s = listed (
      env.grants.find (grant_query_matches q now) (λ a b. ltb b.created_at a.created_at)
        (positive q.limit) (positive q.offset) s.grants)

  -- `CreditAccountRepo.GetByUserID`
  unfoldable pub account_of_user : String → EntitlementState → Result Error CreditAccount
  account_of_user user_id s = mapped (env.accounts.first (λ a. a.user_id == user_id) s.accounts)
