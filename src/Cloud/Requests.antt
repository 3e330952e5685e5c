-- ===== src/Cloud/Requests.antt =====
-- The interface `CloudStorageService` of internal/service/cloud_storage.go as requests, one after another.
use walnut_billing.Prelude.{String, List, [], ◌∷◌}
use walnut_billing.Cloud.World.{CloudState, CloudEnv}
use walnut_billing.Cloud.Authorize.{CloudSyncAuthorizationInput, authorize_sync}
use walnut_billing.Cloud.Commit.{CloudManifestCommitInput}
use walnut_billing.Cloud.Manifest.{storage_usage, commit_manifest}
use walnut_billing.Cloud.Summaries.{
  CloudStorageProjectQuery, CloudStorageLatestManifestQuery, CloudDownloadTargetInput,
}
use walnut_billing.Cloud.Reads.{list_projects, latest_manifest, build_download_target}

pub data CloudRequest : Type 0 where
  to_authorize : CloudSyncAuthorizationInput → CloudRequest
  to_commit : CloudManifestCommitInput → CloudRequest
  usage_of : String → CloudRequest
  projects_for : CloudStorageProjectQuery → CloudRequest
  latest_for : CloudStorageLatestManifestQuery → CloudRequest
  to_download : CloudDownloadTargetInput → CloudRequest

module _ (env : CloudEnv) where
  -- The state after a request, whatever it returns.
  unfoldable pub after_cloud : CloudRequest → CloudState → CloudState
  after_cloud (to_authorize i) s = (authorize_sync env i s).1
  after_cloud (to_commit i) s = (commit_manifest env i s).1
  after_cloud (usage_of user_id) s = (storage_usage env user_id s).1
  after_cloud (projects_for q) s = (list_projects env q s).1
  after_cloud (latest_for q) s = (latest_manifest env q s).1
  after_cloud (to_download i) s = (build_download_target env i s).1

  unfoldable pub after_clouds : List CloudRequest → CloudState → CloudState
  after_clouds [] s = s
  after_clouds (r ∷ rs) s = after_clouds rs (after_cloud r s)
