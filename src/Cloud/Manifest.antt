-- ===== src/Cloud/Manifest.antt =====
-- `CommitManifest` of internal/service/cloud_storage.go, with its unit of work and its replay.
pub mod Outcome
use walnut_billing.Prelude.{String, not, ◌&&◌, ◌||◌, List, if◌then◌else◌}
use walnut_billing.Prelude.Text.{◌==◌, trim, is_empty}
use walnut_billing.Domain.Cloud.{CloudManifest}
use walnut_billing.Repository.Error.{Error, Result, ok, err, is_not_found}
use walnut_billing.Repository.Flow.{pure, raise, ◌>>=◌, ◌>>◌, raise_if, from_result}
use walnut_billing.Cloud.Errors.{CloudError, invalid, repository, database}
use walnut_billing.Cloud.Resources.{CloudResourceDescriptor, normalize_cloud_resources}
use walnut_billing.Cloud.World.{
  CloudState, CloudEnv, CloudFlow, passed, project_by_id, manifest_by_key, active_bytes,
}
use walnut_billing.Cloud.Entry.{
  CloudAccess, require_configured_provider, load_active_user, quota_decision,
  authorize_cloud_access,
}
use walnut_billing.Cloud.Commit.{
  CloudManifestCommitInput, CloudStorageUsage, CloudManifestCommitResult, usage_for,
  commit_with_repos,
}

module _ (env : CloudEnv) where
  -- `Usage`
  unfoldable pub storage_usage : String → CloudFlow CloudStorageUsage
  storage_usage user_id = do
    user ← load_active_user env user_id
    used ← from_result (active_bytes env user.id)
    quota ← quota_decision env user
    pure (usage_for user.id quota.plan used quota.quota_bytes)

  -- The end of a unit of work: the deferred rollback runs after an error.
  unfoldable pub finish_commit :
      {A : Type 0}
      → CloudState
      → Result CloudError A × CloudState
      → Result CloudError A × CloudState
  finish_commit before (ok a, s) = elim (env.gorm.commit s) [
    | ok _ ↦ (ok a, s)
    | err e ↦ (err (database e), env.gorm.rollback before s)
  ]
  finish_commit before (err e, s) = (err e, env.gorm.rollback before s)

  unfoldable pub begun_commit : {A : Type 0} → CloudFlow A → CloudFlow A
  unfolding finish_commit
  begun_commit m s = elim (env.gorm.begin s) [
    | ok _ ↦ finish_commit s (m s)
    | err e ↦ (err (database e), s)
  ]

  -- `commitWithTransaction`
  unfoldable pub commit_with_transaction :
      CloudAccess
      → CloudManifestCommitInput
      → List CloudResourceDescriptor
      → CloudFlow CloudManifestCommitResult
  commit_with_transaction access i resources =
      if env.has_uow
      then begun_commit (commit_with_repos env access i resources)
      else commit_with_repos env access i resources

  -- A manifest that was committed with the key of the request.
  unfoldable pub replay_manifest :
      CloudAccess → CloudManifestCommitInput → CloudManifest → CloudFlow CloudManifestCommitResult
  replay_manifest access i existing = do
    raise_if
        (not (existing.user_id == access.user.id)
          || (not (is_empty (trim existing.sync_session_id))
              && not (existing.sync_session_id == trim i.sync_session_id)))
        invalid
    project ← from_result (λ s. passed (project_by_id env existing.cloud_project_id s))
    usage ← storage_usage access.user.id
    pure (record { project = project; manifest = existing; usage = usage })

  unfoldable pub replay_or_commit :
      CloudAccess
      → CloudManifestCommitInput
      → List CloudResourceDescriptor
      → Result Error CloudManifest
      → CloudFlow CloudManifestCommitResult
  replay_or_commit access i resources (ok existing) = replay_manifest access i existing
  replay_or_commit access i resources (err e) =
      if is_not_found e then commit_with_transaction access i resources else raise (repository e)

  -- `CommitManifest`
  unfoldable pub commit_manifest : CloudManifestCommitInput → CloudFlow CloudManifestCommitResult
  commit_manifest i = do
    require_configured_provider env
    resources ← from_result (λ _. normalize_cloud_resources i.resources)
    raise_if
        (is_empty (trim i.idempotency_key)
          || is_empty (trim i.manifest_hash)
          || is_empty (trim i.sync_session_id))
        invalid
    access ← authorize_cloud_access env i.user_id
    found ← from_result (λ s. ok (manifest_by_key env (trim i.idempotency_key) s))
    replay_or_commit access i resources found
