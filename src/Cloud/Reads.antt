-- ===== src/Cloud/Reads.antt =====
-- The reading operations of internal/service/cloud_storage.go: `ListProjects`, `LatestManifest` and
-- `BuildDownloadTarget`.
pub mod Own
use walnut_billing.Prelude.{
  ℕ, String, Bool, true, false, not, ◌&&◌, ◌||◌, Option, none, some, List, [], ◌∷◌, ltb,
  if◌then◌else◌,
}
use walnut_billing.Prelude.Int.{ℤ, pos, leb_ℤ, ltb_ℤ}
use walnut_billing.Prelude.Text.{◌==◌, trim, is_empty}
use walnut_billing.Domain.Cloud.{CloudProject, CloudManifest, CloudObject, is_active_object}
use walnut_billing.Repository.Error.{Error, Result, ok, err, is_not_found}
use walnut_billing.Repository.Flow.{pure, ◌>>=◌, ◌>>◌, raise_if, from_result, mapped}
use walnut_billing.Repository.Credit.{positive}
use walnut_billing.Cloud.Errors.{CloudError, invalid, project_not_found, repository}
use walnut_billing.Cloud.World.{
  CloudState, CloudEnv, CloudFlow, from_gorm, from_read, project_by_id, project_by_client,
  object_by_key, active_objects,
}
use walnut_billing.Cloud.Entry.{require_configured_provider, entitled_user}
use walnut_billing.Cloud.Summaries.{
  CloudStorageProjectSummary, CloudStorageProjectQuery, CloudStorageProjectList,
  CloudStorageLatestManifestQuery, CloudStorageLatestManifest, CloudDownloadTargetInput,
  CloudDownloadTargetAuthorization, cloud_manifest_summary, cloud_storage_project_summary,
  cloud_object_summary, cloud_object_summaries,
}

-- A manifest that is not there is left out.
abbrev pub if_found : Result Error CloudManifest → Result CloudError (Option CloudManifest)
if_found (ok m) = ok (some m)
if_found (err e) = if is_not_found e then ok none else err (repository e)

abbrev pub first_manifest : List CloudManifest → Option CloudManifest
first_manifest [] = none
first_manifest (m ∷ ms) = some m

-- `firstNonEmpty`, of two texts.
unfoldable pub first_non_empty : String → String → String
first_non_empty a b =
    if not (is_empty (trim a)) then trim a else if not (is_empty (trim b)) then trim b else ""

-- `if limit <= 0 || limit > 100 { limit = 50 }`
abbrev pub page_limit : ℤ → ℤ
page_limit n = if leb_ℤ n (pos 0) || ltb_ℤ (pos 100) n then pos 50 else n

-- `if offset < 0 { offset = 0 }`
abbrev pub page_offset : ℤ → ℤ
page_offset n = if ltb_ℤ n (pos 0) then pos 0 else n

module _ (env : CloudEnv) where
  -- `CloudManifestRepo.GetByID`
  unfoldable pub manifest_by_id : String → CloudState → Result Error CloudManifest
  manifest_by_id id s = mapped (env.gorm.manifests.first (λ m. m.id == id) s.manifests)

  -- `CloudManifestRepo.ListByProject`
  unfoldable pub manifests_of_project :
      String → ℤ → ℤ → CloudState → Result CloudError (List CloudManifest)
  manifests_of_project project_id limit offset s = from_gorm (
      env.gorm.manifests.find (λ m. m.cloud_project_id == project_id)
        (λ a b. ltb b.created_at a.created_at) (positive limit) (positive offset) s.manifests)

  -- `CloudProjectRepo.ListByUser`
  unfoldable pub projects_of_user :
      String → String → ℤ → ℤ → CloudState → Result CloudError (List CloudProject)
  projects_of_user user_id status limit offset s = from_gorm (
      env.gorm.projects.find
        (λ p. (p.user_id == user_id) && (is_empty status || (p.status == status)))
        (λ a b. ltb b.updated_at a.updated_at) (positive limit) (positive offset) s.projects)

  -- The loop over the projects, with the last manifest of each, if it is found.
  unfoldable pub summarize_projects :
      List CloudProject → CloudFlow (List CloudStorageProjectSummary)
  summarize_projects [] = pure []
  summarize_projects (p ∷ ps) = do
    manifest ←
        (if not (is_empty (trim p.last_manifest_id))
          then from_result (λ s. if_found (manifest_by_id p.last_manifest_id s))
          else pure none)
    rest ← summarize_projects ps
    pure (cloud_storage_project_summary p manifest ∷ rest)

  -- `ListProjects`
  unfoldable pub list_projects : CloudStorageProjectQuery → CloudFlow CloudStorageProjectList
  list_projects q = do
    user ← entitled_user env q.user_id
    projects ←
        from_result
          (projects_of_user user.id (trim q.status) (page_limit q.limit) (page_offset q.offset))
    summaries ← summarize_projects projects
    pure (record { user_id = user.id; projects = summaries })

  unfoldable pub own_project : String → CloudProject → CloudFlow CloudProject
  own_project user_id p = do raise_if (not (p.user_id == user_id)) project_not_found; pure p

  -- `projectForLatestManifest`, of the two ids of its query.
  unfoldable pub project_for_latest_manifest : String → String → String → CloudFlow CloudProject
  project_for_latest_manifest user_id cloud_project_id client_project_id =
      if not (is_empty (trim cloud_project_id))
      then from_result
          (λ s. from_read project_not_found (project_by_id env (trim cloud_project_id) s))
        >>= own_project user_id
      else raise_if (is_empty (trim client_project_id)) invalid
        >> from_result (λ s.
          from_read project_not_found (project_by_client env user_id (trim client_project_id) s))

  unfoldable pub latest_with_objects :
      CloudProject → Option CloudManifest → CloudFlow CloudStorageLatestManifest
  latest_with_objects project manifest = do
    objects ← from_result (active_objects env project.id)
    pure (record {
      project = cloud_storage_project_summary project manifest;
      manifest = cloud_manifest_summary manifest;
      objects = cloud_object_summaries objects;
    })

  -- What follows the read of the last manifest; without it there are no objects.
  unfoldable pub latest_or_empty :
      CloudProject → Option CloudManifest → CloudFlow CloudStorageLatestManifest
  latest_or_empty project (some m) = latest_with_objects project (some m)
  latest_or_empty project none = pure (record {
    project = cloud_storage_project_summary project none;
    manifest = none;
    objects = [];
  })

  -- `LatestManifest`
  unfoldable pub latest_manifest :
      CloudStorageLatestManifestQuery → CloudFlow CloudStorageLatestManifest
  latest_manifest q = do
    user ← entitled_user env q.user_id
    project ← project_for_latest_manifest user.id q.cloud_project_id q.client_project_id
    (if not (is_empty (trim project.last_manifest_id))
        then from_result (λ s. if_found (manifest_by_id project.last_manifest_id s))
          >>= latest_or_empty project
        else from_result (manifests_of_project project.id (pos 1) (pos 0)) >>= λ manifests.
            latest_with_objects project (first_manifest manifests))

  -- `BuildDownloadTarget`
  unfoldable pub build_download_target :
      CloudDownloadTargetInput → CloudFlow CloudDownloadTargetAuthorization
  build_download_target i = do
    require_configured_provider env
    user ← entitled_user env i.user_id
    raise_if (is_empty (trim i.object_key)) invalid
    object ←
        from_result (λ s. from_read project_not_found (object_by_key env (trim i.object_key) s))
    raise_if (not (object.user_id == user.id) || not (is_active_object object.status))
        project_not_found
    project ←
        project_for_latest_manifest user.id
          (first_non_empty i.cloud_project_id object.cloud_project_id)
          (first_non_empty i.client_project_id object.client_project_id)
    raise_if (not (object.cloud_project_id == project.id)) project_not_found
    target ← from_result (λ s. env.download_target s.ticks object.object_key)
    pure (record {
      user_id = user.id;
      cloud_project_id = project.id;
      client_project_id = project.client_project_id;
      object = cloud_object_summary object;
      download_target = target;
    })
