-- ===== src/Cloud/World.antt =====
-- The state and the environment of `cloudStorageService` of internal/service/cloud_storage.go, and its
-- repositories of internal/repository/gorm_repo/cloud_storage.go.
use walnut_billing.Prelude.{
  ℕ, suc, String, Bool, true, ◌&&◌, ◌||◌, Option, none, some, List, ltb, if◌then◌else◌,
}
use Prim.Native.String
use walnut_billing.Prelude.Int.{ℤ}
use walnut_billing.Prelude.Text.{◌==◌, is_empty}
use walnut_billing.Domain.{Time, User}
use walnut_billing.Domain.Cloud.{
  EntitlementGrant, CloudProject, CloudManifest, CloudObject, CloudSyncSession, is_active_grant,
  is_active_object,
}
use walnut_billing.Repository.Error.{GormError, Error, entropy, Result, ok, err, is_not_found}
use walnut_billing.Repository.Table.{Table}
use walnut_billing.Repository.Flow.{Flow, mapped}
use walnut_billing.Cloud.Errors.{CloudError, repository, database}
use walnut_billing.Cloud.QuotaPolicy.{CloudStorageQuotaPolicyConfig}

pub record CloudState : Type 0 where
  pub users : List User
  pub grants : List EntitlementGrant
  pub projects : List CloudProject
  pub sessions : List CloudSyncSession
  pub manifests : List CloudManifest
  pub objects : List CloudObject
  pub ticks : ℕ
  pub draws : ℕ

pub record CloudObjectLifecycleTag : Type 0 where
  pub key : String
  pub value : String

pub record CloudObjectUploadRequest : Type 0 where
  pub object_key : String
  pub content_type : String
  pub size_bytes : ℤ
  pub content_hash : String
  pub lifecycle_tags : List CloudObjectLifecycleTag

pub record CloudObjectUploadTarget : Type 0 where
  pub object_key : String
  pub upload_url : String
  pub method : String
  pub headers : List (String × String)
  pub provider : String

pub record CloudObjectDownloadTarget : Type 0 where
  pub object_key : String
  pub download_url : String
  pub method : String
  pub headers : List (String × String)
  pub provider : String
  pub expires_at : Time

-- GORM on the tables: `upsert_object` is `Create` with a conflict on a column, which assigns columns
-- of the new row to the old one; `sum_objects` is the sum of the sizes of the rows that meet a
-- condition.
pub record CloudGorm : Type 0 where
  pub users : Table User
  pub grants : Table EntitlementGrant
  pub projects : Table CloudProject
  pub sessions : Table CloudSyncSession
  pub manifests : Table CloudManifest
  pub objects : Table CloudObject
  pub upsert_object :
      (CloudObject → String)
      → (CloudObject → CloudObject → CloudObject)
      → CloudObject
      → List CloudObject
      → Result GormError (List CloudObject)
  pub sum_objects : (CloudObject → Bool) → List CloudObject → Result GormError ℤ
  pub begin : CloudState → Result GormError (Unit {0})
  pub commit : CloudState → Result GormError (Unit {0})
  pub rollback : CloudState → CloudState → CloudState

-- The object store is asked for targets at a reading of the clock.
pub record CloudEnv : Type 0 where
  pub gorm : CloudGorm
  pub clock : ℕ → Time
  pub random : ℕ → Option String
  pub config : CloudStorageQuotaPolicyConfig
  pub has_uow : Bool
  pub provider_id : String
  pub upload_target : ℕ → CloudObjectUploadRequest → Result CloudError CloudObjectUploadTarget
  pub download_target : ℕ → String → Result CloudError CloudObjectDownloadTarget
  pub decimal : ℤ → String
  pub digest : List (List String) → String

abbrev pub CloudFlow : Type 0 → Type 0
CloudFlow A = Flow CloudState CloudError A

abbrev pub from_gorm : {A : Type 0} → Result GormError A → Result CloudError A
from_gorm (ok a) = ok a
from_gorm (err e) = err (database e)

abbrev pub from_read : {A : Type 0} → CloudError → Result Error A → Result CloudError A
from_read missing (ok a) = ok a
from_read missing (err e) = err (if is_not_found e then missing else repository e)

abbrev pub passed : {A : Type 0} → Result Error A → Result CloudError A
passed (ok a) = ok a
passed (err e) = err (repository e)

-- A write to one table.
abbrev pub written :
    {Row : Type 0}
    → (List Row → CloudState → CloudState)
    → CloudState
    → Result GormError (List Row)
    → Result CloudError (Unit {0}) × CloudState
written put s (ok rows) = (ok tt, put rows s)
written put s (err e) = (err (database e), s)

abbrev pub put_projects : List CloudProject → CloudState → CloudState
put_projects rows s = record s { projects = rows }

abbrev pub put_sessions : List CloudSyncSession → CloudState → CloudState
put_sessions rows s = record s { sessions = rows }

abbrev pub put_manifests : List CloudManifest → CloudState → CloudState
put_manifests rows s = record s { manifests = rows }

abbrev pub put_objects : List CloudObject → CloudState → CloudState
put_objects rows s = record s { objects = rows }

-- `query.EntitlementID` and `query.Status` are set; expired grants are left out at a time.
unfoldable pub cloud_grant_matches : String → Time → EntitlementGrant → Bool
cloud_grant_matches user_id now g =
    (is_empty user_id || (g.user_id == user_id))
    && (g.entitlement_id == "cloud.storage")
    && is_active_grant g.status
    && elim g.expires_at [ none ↦ true | some t ↦ ltb now t ]

-- The columns of a new row that `Upsert` assigns to the row with its key.
unfoldable pub assign_columns : CloudObject → CloudObject → CloudObject
assign_columns new old = record old {
  manifest_id = new.manifest_id;
  resource_id = new.resource_id;
  resource_kind = new.resource_kind;
  content_hash = new.content_hash;
  size_bytes = new.size_bytes;
  content_type = new.content_type;
  status = new.status;
  updated_at = new.updated_at;
}

module _ (env : CloudEnv) where
  -- `time.Now().UTC()`
  unfoldable pub cloud_now : CloudFlow Time
  cloud_now s = (ok (env.clock s.ticks), record s { ticks = suc s.ticks })

  abbrev pub with_prefix : String → Option String → Result CloudError String
  with_prefix prefix none = err (repository entropy)
  with_prefix prefix (some digits) = ok (String.◌++◌ prefix digits)

  -- `generateEntityID`
  unfoldable pub generate_cloud_id : String → CloudFlow String
  generate_cloud_id prefix s =
      (with_prefix prefix (env.random s.draws), record s { draws = suc s.draws })

  -- `CloudProjectRepo`
  unfoldable pub create_project : CloudProject → CloudFlow (Unit {0})
  create_project p s = written put_projects s (env.gorm.projects.create p s.projects)

  unfoldable pub update_project : CloudProject → CloudFlow (Unit {0})
  update_project p s = written put_projects s (env.gorm.projects.save p s.projects)

  unfoldable pub project_by_id : String → CloudState → Result Error CloudProject
  unfolding mapped
  project_by_id id s = mapped (env.gorm.projects.first (λ p. p.id == id) s.projects)

  unfoldable pub project_by_client : String → String → CloudState → Result Error CloudProject
  unfolding mapped
  project_by_client user_id client s = mapped (
      env.gorm.projects.first (λ p. (p.user_id == user_id) && (p.client_project_id == client))
        s.projects)

  -- `CloudSyncSessionRepo`
  unfoldable pub create_session : CloudSyncSession → CloudFlow (Unit {0})
  create_session x s = written put_sessions s (env.gorm.sessions.create x s.sessions)

  unfoldable pub update_session : CloudSyncSession → CloudFlow (Unit {0})
  update_session x s = written put_sessions s (env.gorm.sessions.save x s.sessions)

  unfoldable pub session_by_id : String → CloudState → Result Error CloudSyncSession
  unfolding mapped
  session_by_id id s = mapped (env.gorm.sessions.first (λ x. x.id == id) s.sessions)

  -- `CloudManifestRepo`
  unfoldable pub create_manifest : CloudManifest → CloudFlow (Unit {0})
  create_manifest m s = written put_manifests s (env.gorm.manifests.create m s.manifests)

  unfoldable pub manifest_by_key : String → CloudState → Result Error CloudManifest
  unfolding mapped
  manifest_by_key key s =
      mapped (env.gorm.manifests.first (λ m. m.idempotency_key == key) s.manifests)

  -- `CloudObjectRepo`
  unfoldable pub upsert_object : CloudObject → CloudFlow (Unit {0})
  upsert_object o s =
      written put_objects s (env.gorm.upsert_object (λ x. x.object_key) assign_columns o s.objects)

  unfoldable pub update_object : CloudObject → CloudFlow (Unit {0})
  update_object o s = written put_objects s (env.gorm.objects.save o s.objects)

  unfoldable pub object_by_key : String → CloudState → Result Error CloudObject
  unfolding mapped
  object_by_key key s = mapped (env.gorm.objects.first (λ o. o.object_key == key) s.objects)

  -- `ListByProject`, of the active objects, the last updated first.
  unfoldable pub active_objects : String → CloudState → Result CloudError (List CloudObject)
  active_objects project_id s = from_gorm (
      env.gorm.objects.find (λ o. (o.cloud_project_id == project_id) && is_active_object o.status)
        (λ a b. ltb b.updated_at a.updated_at) none none s.objects)

  -- `SumActiveBytesByUser`
  unfoldable pub active_bytes : String → CloudState → Result CloudError ℤ
  active_bytes user_id s =
      from_gorm
        (env.gorm.sum_objects (λ o. (o.user_id == user_id) && is_active_object o.status) s.objects)

  -- `EntitlementGrantRepo.List`, as cloud storage calls it.
  unfoldable pub cloud_grants :
      String → Time → CloudState → Result CloudError (List EntitlementGrant)
  unfolding cloud_grant_matches
  cloud_grants user_id now s = from_gorm (
      env.gorm.grants.find (cloud_grant_matches user_id now) (λ a b. ltb b.created_at a.created_at)
        none none s.grants)
