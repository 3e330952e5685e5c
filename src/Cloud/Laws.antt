-- ===== src/Cloud/Laws.antt =====
-- What the theorems on cloud storage ask of the database: GORM's documented behaviour on its tables.
use walnut_billing.Prelude.{String, ◌≡◌, Option, List}
use walnut_billing.Domain.{User}
use walnut_billing.Domain.Cloud.{
  CloudProject, CloudManifest, CloudObject, CloudSyncSession, EntitlementGrant,
}
use walnut_billing.Repository.Table.{IsTable, lookup}
use walnut_billing.Cloud.World.{CloudState, CloudEnv}

abbrev pub user_id_of : User → String
user_id_of u = u.id

abbrev pub project_id_of : CloudProject → String
project_id_of p = p.id

abbrev pub session_id_of : CloudSyncSession → String
session_id_of x = x.id

abbrev pub manifest_id_of : CloudManifest → String
manifest_id_of m = m.id

abbrev pub object_id_of : CloudObject → String
object_id_of o = o.id

abbrev pub grant_id_of : EntitlementGrant → String
grant_id_of g = g.id

abbrev pub session_row : String → List CloudSyncSession → Option CloudSyncSession
session_row k rows = lookup session_id_of k rows

pub record IsLawfulCloud (env : CloudEnv) : Type 0 where
  pub users : IsTable user_id_of env.gorm.users
  pub grants : IsTable grant_id_of env.gorm.grants
  pub projects : IsTable project_id_of env.gorm.projects
  pub sessions : IsTable session_id_of env.gorm.sessions
  pub manifests : IsTable manifest_id_of env.gorm.manifests
  pub objects : IsTable object_id_of env.gorm.objects
  pub rolls_back : (before now : CloudState) → env.gorm.rollback before now ≡ before
