-- ===== src/Cloud/Commit.antt =====
-- `CommitManifest` of internal/service/cloud_storage.go: the manifest of an upload, against its session.
pub mod Writes
pub mod Valid
pub mod Stored
use walnut_billing.Prelude.{
  String, Bool, false, not, ◌||◌, some, List, [], ◌∷◌, length, ltb, if◌then◌else◌,
}
use walnut_billing.Prelude.Int.{ℤ, pos, leb_ℤ, ltb_ℤ, eqb_ℤ}
use walnut_billing.Prelude.Word.{sub64}
use walnut_billing.Prelude.Text.{◌==◌, trim, is_empty}
use walnut_billing.Domain.{Time}
use walnut_billing.Domain.Cloud.{
  CloudProject, CloudManifest, CloudObject, CloudSyncSession, ObjectStatus, SyncStatus,
  is_authorized, is_committed_sync,
}
use walnut_billing.Repository.Flow.{pure, raise, ◌>>=◌, ◌>>◌, raise_if, from_result, modify}
use walnut_billing.Cloud.Errors.{
  over_quota, invalid, project_not_found, session_not_found, session_expired, session_committed,
}
use walnut_billing.Cloud.Resources.{
  CloudResourceDescriptor, sum_resource_bytes, cloud_resource_fingerprint,
}
use walnut_billing.Cloud.QuotaPolicy.{CloudStoragePlan}
use walnut_billing.Cloud.World.{
  CloudEnv, CloudFlow, from_read, cloud_now, generate_cloud_id, project_by_id, update_project,
  session_by_id, update_session, create_manifest, upsert_object, update_object, active_objects,
}
use walnut_billing.Cloud.Entry.{projected_usage, CloudAccess}
use walnut_billing.Cloud.Authorize.{key_of_resource, rename_project}

pub record CloudManifestCommitInput : Type 0 where
  pub user_id : String
  pub client_project_id : String
  pub project_name : String
  pub sync_session_id : String
  pub manifest_hash : String
  pub manifest_version : ℤ
  pub resources : List CloudResourceDescriptor
  pub idempotency_key : String

pub record CloudStorageUsage : Type 0 where
  pub user_id : String
  pub plan : CloudStoragePlan
  pub used_bytes : ℤ
  pub quota_bytes : ℤ
  pub remaining_bytes : ℤ
  pub over_quota : Bool

pub record CloudManifestCommitResult : Type 0 where
  pub project : CloudProject
  pub manifest : CloudManifest
  pub usage : CloudStorageUsage

-- `usageFor`; a plan has a name.
unfoldable pub usage_for : String → CloudStoragePlan → ℤ → ℤ → CloudStorageUsage
usage_for user_id plan used quota = record {
  user_id = user_id;
  plan = plan;
  used_bytes = used;
  quota_bytes = quota;
  remaining_bytes = if ltb_ℤ (sub64 quota used) (pos 0) then pos 0 else sub64 quota used;
  over_quota = ltb_ℤ quota used;
}

-- The row of a manifest.
unfoldable pub manifest_of :
    String
    → String
    → CloudProject
    → CloudManifestCommitInput
    → List CloudResourceDescriptor
    → Time
    → CloudManifest
manifest_of id user_id project i resources now = record {
  id = id;
  user_id = user_id;
  cloud_project_id = project.id;
  client_project_id = trim i.client_project_id;
  manifest_hash = trim i.manifest_hash;
  manifest_version = if leb_ℤ i.manifest_version (pos 0) then pos 1 else i.manifest_version;
  object_count = pos (length resources);
  total_bytes = sum_resource_bytes (pos 0) resources;
  status = "committed";
  sync_session_id = trim i.sync_session_id;
  idempotency_key = trim i.idempotency_key;
  created_at = now;
  committed_at = some now;
}

-- The row of an object of a manifest.
unfoldable pub object_of :
    String
    → String
    → CloudProject
    → CloudManifest
    → String
    → CloudResourceDescriptor
    → Time
    → CloudObject
object_of id user_id project manifest client_project_id r now = record {
  id = id;
  user_id = user_id;
  cloud_project_id = project.id;
  client_project_id = trim client_project_id;
  manifest_id = manifest.id;
  resource_id = r.resource_id;
  resource_kind = r.resource_kind;
  object_key = key_of_resource user_id client_project_id r;
  content_hash = r.content_hash;
  size_bytes = r.size_bytes;
  content_type = r.content_type;
  status = ObjectStatus.active;
  created_at = now;
  updated_at = now;
}

-- `keep[key]`, of the keys of the resources.
unfoldable pub keeps_key : String → String → List CloudResourceDescriptor → String → Bool
keeps_key user_id client_project_id [] key = false
keeps_key user_id client_project_id (r ∷ rs) key =
    (key_of_resource user_id client_project_id r == key)
    || keeps_key user_id client_project_id rs key

module _ (env : CloudEnv) where
  -- A session whose time is over expires.
  unfoldable pub expire_session : {A : Type 0} → CloudSyncSession → CloudFlow A
  expire_session x = do
    now ← cloud_now env
    modify
        (λ s. (update_session env (record x { status = SyncStatus.expired; updated_at = now }) s).1)
    raise session_expired

  -- `validateCloudSyncSession`, of a session that has been found.
  unfoldable pub validate_session :
      CloudSyncSession → String → String → List CloudResourceDescriptor → CloudFlow CloudSyncSession
  validate_session x user_id client_project_id resources = do
    raise_if
        (not (x.user_id == user_id)
          || not (x.client_project_id == trim client_project_id)
          || not (x.provider == env.provider_id))
        invalid
    raise_if (is_committed_sync x.status || not (is_empty (trim x.manifest_id))) session_committed
    raise_if (not (is_authorized x.status)) invalid
    now ← cloud_now env
    if ltb x.expires_at now then expire_session x else do
      raise_if
          (not (
              x.resource_fingerprint == cloud_resource_fingerprint env.decimal env.digest resources)
            || not (eqb_ℤ x.requested_bytes (sum_resource_bytes (pos 0) resources)))
          invalid
      pure x

  -- `authorizedCommitSession`
  unfoldable pub authorized_commit_session :
      String
      → CloudManifestCommitInput
      → List CloudResourceDescriptor
      → CloudFlow (CloudSyncSession × CloudProject)
  authorized_commit_session user_id i resources = do
    found ←
        from_result
          (λ s. from_read session_not_found (session_by_id env (trim i.sync_session_id) s))
    x ← validate_session found user_id (trim i.client_project_id) resources
    project ←
        from_result (λ s. from_read project_not_found (project_by_id env x.cloud_project_id s))
    raise_if
        (not (project.user_id == user_id)
          || not (project.client_project_id == trim i.client_project_id))
        invalid
    pure (x, project)

  -- The loop that stores the objects.
  unfoldable pub store_objects :
      String
      → CloudProject
      → CloudManifest
      → String
      → Time
      → List CloudResourceDescriptor
      → CloudFlow (Unit {0})
  store_objects user_id project manifest client_project_id now [] = pure tt
  store_objects user_id project manifest client_project_id now (r ∷ rs) = do
    id ← generate_cloud_id env "cob_"
    upsert_object env (object_of id user_id project manifest client_project_id r now)
    store_objects user_id project manifest client_project_id now rs

  -- The loop that marks the objects which the manifest does not have.
  unfoldable pub replace_objects :
      String
      → String
      → List CloudResourceDescriptor
      → Time
      → List CloudObject
      → CloudFlow (Unit {0})
  replace_objects user_id client_project_id resources now [] = pure tt
  replace_objects user_id client_project_id resources now (o ∷ os) =
      let rest = replace_objects user_id client_project_id resources now os in
      if keeps_key user_id client_project_id resources o.object_key
      then rest
      else update_object env (record o { status = ObjectStatus.replaced; updated_at = now }) >> rest

  -- `commitWithRepos`, from the check of the quota on.
  unfoldable pub write_manifest :
      CloudAccess
      → CloudManifestCommitInput
      → List CloudResourceDescriptor
      → CloudSyncSession
      → CloudProject
      → CloudFlow CloudManifestCommitResult
  write_manifest access i resources x project = do
    existing ← from_result (active_objects env project.id)
    let projected = projected_usage access.used_bytes existing resources
    raise_if (ltb_ℤ access.quota.quota_bytes projected) over_quota
    now ← cloud_now env
    id ← generate_cloud_id env "cmf_"
    let manifest = manifest_of id access.user.id project i resources now
    create_manifest env manifest
    store_objects access.user.id project manifest i.client_project_id now resources
    replace_objects access.user.id i.client_project_id resources now existing
    let current : CloudProject = record project { last_manifest_id = manifest.id; updated_at = now }
    update_project env current
    update_session env (record x {
      status = SyncStatus.committed;
      manifest_id = manifest.id;
      updated_at = now;
      committed_at = some now;
    })
    pure (record {
      project = current;
      manifest = manifest;
      usage = usage_for access.user.id access.quota.plan projected access.quota.quota_bytes;
    })

  -- `commitWithRepos`
  unfoldable pub commit_with_repos :
      CloudAccess
      → CloudManifestCommitInput
      → List CloudResourceDescriptor
      → CloudFlow CloudManifestCommitResult
  commit_with_repos access i resources = do
    found ← authorized_commit_session access.user.id i resources
    project ← rename_project env i.project_name found.1
    write_manifest access i resources found.0 project
