-- ===== src/Entitlement/Laws.antt =====
-- What the theorems on entitlements ask of the database, and what a read has found.
use walnut_billing.Prelude.{String, ◌≡◌, refl, true}
use walnut_billing.Domain.{User}
use walnut_billing.Domain.Cloud.{EntitlementGrant}
use walnut_billing.Domain.Registration.{RegistrationRequest}
use walnut_billing.Repository.Error.{
  GormError, record_not_found, failed, Error, is_not_found, map_gorm_not_found, Result, ok, err,
}
use walnut_billing.Repository.Flow.{mapped}
use walnut_billing.Repository.Table.{IsTable}
use walnut_billing.Entitlement.World.{EntitlementError, EntitlementEnv, required, listed}

abbrev pub person_id : User → String
person_id u = u.id

abbrev pub registration_id : RegistrationRequest → String
registration_id r = r.id

abbrev pub grant_id : EntitlementGrant → String
grant_id g = g.id

pub record IsLawfulEntitlement (env : EntitlementEnv) : Type 0 where
  pub users : IsTable person_id env.users
  pub registrations : IsTable registration_id env.registrations
  pub grants : IsTable grant_id env.grants

pub required_row :
    {Row : Type 0} (missing : EntitlementError) (r : Result GormError Row) (x : Row)
    → required missing (mapped r) ≡ ok x
    → r ≡ ok x
unfolding mapped
required_row missing (ok a) x h = cc
required_row missing (err e) x h = cc

pub read_row : {Row : Type 0} → (r : Result GormError Row) (x : Row) → mapped r ≡ ok x → r ≡ ok x
unfolding mapped
read_row (ok a) x h = cc
read_row (err e) x h = cc

pub no_row :
    {Row : Type 0}
    → (r : Result GormError Row) (e : Error) → mapped r ≡ err e
    → is_not_found e ≡ true
    → r ≡ err record_not_found
unfolding mapped map_gorm_not_found
no_row (ok a) e h k = cc
no_row (err record_not_found) e h k = refl
no_row (err (failed n)) e h k = cc

pub listed_rows : {A : Type 0} → (r : Result GormError A) (x : A) → listed r ≡ ok x → r ≡ ok x
listed_rows (ok a) x h = cc
listed_rows (err e) x h = cc
