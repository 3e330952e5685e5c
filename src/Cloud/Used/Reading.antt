-- ===== src/Cloud/Used/Reading.antt =====
-- The checks and the reading operations of internal/service/cloud_storage.go leave a used session used.
use walnut_billing.Prelude.{String, not, Option, none, some, List, [], ◌∷◌, nat_eq, if◌then◌else◌}
use walnut_billing.Prelude.Text.{trim, is_empty}
use walnut_billing.Domain.{Time, User}
use walnut_billing.Domain.Cloud.{CloudProject, CloudManifest}
use walnut_billing.Repository.Flow.{pure, from_result}
use walnut_billing.Repository.Flow.Invariant.{
  Keeps-bind, Keeps-guard, Keeps-read, Keeps-from_result, Keeps-if,
}
use walnut_billing.Cloud.World.{CloudEnv}
use walnut_billing.Cloud.Entry.{
  load_active_user, wall_for, quota_decision, authorize_cloud_access, entitled_user,
  require_configured_provider,
}
use walnut_billing.Cloud.Manifest.{storage_usage}
use walnut_billing.Cloud.Summaries.{
  CloudStorageProjectQuery, CloudStorageLatestManifestQuery, CloudDownloadTargetInput,
}
use walnut_billing.Cloud.Reads.{
  manifest_by_id, if_found, summarize_projects, list_projects, own_project,
  project_for_latest_manifest, latest_with_objects, latest_or_empty, latest_manifest,
  build_download_target,
}
use walnut_billing.Cloud.Used.{Any, Stays, cloud_now-Stays}

module _ (id : String) (env : CloudEnv) where
  load_active_user-Stays : (user_id : String) → Stays id (load_active_user env user_id)
  unfolding load_active_user pure
  load_active_user-Stays user_id s h =
      Keeps-guard _ _ _ _ _ s h
        λ _. Keeps-read _ _ _ _ s h λ u _. Keeps-guard _ _ _ _ _ s h λ _. (h, tt)

  wall_for-Stays : (now : Time) → Stays id (wall_for env now)
  unfolding wall_for pure
  wall_for-Stays now s h =
      Keeps-if _ _ (nat_eq now 0) _ _ s (λ _. cloud_now-Stays id env s h) (λ _. (h, tt))

  quota_decision-Stays : (user : User) → Stays id (quota_decision env user)
  unfolding quota_decision pure
  quota_decision-Stays user s h = Keeps-bind _ Any _ _ _ s (cloud_now-Stays id env s h) λ _ t i _.
      Keeps-read _ _ _ _ t i λ _ _.
        Keeps-bind _ Any _ _ _ t (cloud_now-Stays id env t i)
          λ now u j _. Keeps-bind _ Any _ _ _ u (wall_for-Stays now u j) λ _ v k _. (k, tt)

  entitled_user-Stays : (user_id : String) → Stays id (entitled_user env user_id)
  unfolding entitled_user pure
  entitled_user-Stays user_id s h =
      Keeps-bind _ Any _ _ _ s (load_active_user-Stays user_id s h) λ u t i _.
        Keeps-bind _ Any _ _ _ t (quota_decision-Stays u t i)
          λ _ v j _. Keeps-guard _ _ _ _ _ v j λ _. (j, tt)

  pub authorize_cloud_access-Stays :
      (user_id : String) → Stays id (authorize_cloud_access env user_id)
  unfolding authorize_cloud_access pure
  authorize_cloud_access-Stays user_id s h =
      Keeps-bind _ Any _ _ _ s (load_active_user-Stays user_id s h) λ u t i _.
        Keeps-bind _ Any _ _ _ t (quota_decision-Stays u t i) λ _ v j _.
          Keeps-guard _ _ _ _ _ v j
            λ _. Keeps-guard _ _ _ _ _ v j λ _. Keeps-read _ _ _ _ v j λ _ _. (j, tt)

  pub storage_usage-Stays : (user_id : String) → Stays id (storage_usage env user_id)
  unfolding storage_usage pure
  storage_usage-Stays user_id s h =
      Keeps-bind _ Any _ _ _ s (load_active_user-Stays user_id s h) λ u t i _.
        Keeps-read _ _ _ _ t i
          λ _ _. Keeps-bind _ Any _ _ _ t (quota_decision-Stays u t i) λ _ v j _. (j, tt)

  optional_manifest-Stays :
      (p : CloudProject)
      → Stays id (
          if not (is_empty (trim p.last_manifest_id))
          then from_result (λ s. if_found (manifest_by_id env p.last_manifest_id s))
          else pure none)
  unfolding pure
  optional_manifest-Stays p s h =
      Keeps-if _ _ (not (is_empty (trim p.last_manifest_id))) _ _ s
        (λ _. Keeps-from_result _ (λ s. if_found (manifest_by_id env p.last_manifest_id s)) s h)
        (λ _. (h, tt))

  summarize_projects-Stays : (ps : List CloudProject) → Stays id (summarize_projects env ps)
  unfolding summarize_projects pure
  summarize_projects-Stays [] s h = (h, tt)
  summarize_projects-Stays (p ∷ ps) s h =
      Keeps-bind _ Any _ _ _ s (optional_manifest-Stays p s h)
        λ _ t i _. Keeps-bind _ Any _ _ _ t (summarize_projects-Stays ps t i) λ _ u j _. (j, tt)

  pub list_projects-Stays : (q : CloudStorageProjectQuery) → Stays id (list_projects env q)
  unfolding list_projects pure
  list_projects-Stays q s h =
      Keeps-bind _ Any _ _ _ s (entitled_user-Stays q.user_id s h) λ _ t i _.
        Keeps-read _ _ _ _ t i
          λ ps _. Keeps-bind _ Any _ _ _ t (summarize_projects-Stays ps t i) λ _ u j _. (j, tt)

  own_project-Stays : (user_id : String) (p : CloudProject) → Stays id (own_project env user_id p)
  unfolding own_project pure
  own_project-Stays user_id p s h = Keeps-guard _ _ _ _ _ s h λ _. (h, tt)

  project_for-Stays :
      (user_id cloud_project_id client_project_id : String)
      → Stays id (project_for_latest_manifest env user_id cloud_project_id client_project_id)
  unfolding project_for_latest_manifest
  project_for-Stays user_id cloud_project_id client_project_id s h =
      Keeps-if _ _ (not (is_empty (trim cloud_project_id))) _ _ s
        (λ _. Keeps-read _ _ _ _ s h λ p _. own_project-Stays user_id p s h)
        (λ _. Keeps-guard _ _ _ _ _ s h λ _. Keeps-from_result _ _ s h)

  latest_with_objects-Stays :
      (p : CloudProject) (m : Option CloudManifest) → Stays id (latest_with_objects env p m)
  unfolding latest_with_objects pure
  latest_with_objects-Stays p m s h = Keeps-read _ _ _ _ s h λ _ _. (h, tt)

  latest_or_empty-Stays :
      (p : CloudProject) (m : Option CloudManifest) → Stays id (latest_or_empty env p m)
  unfolding latest_or_empty pure
  latest_or_empty-Stays p (some m) s h = latest_with_objects-Stays p (some m) s h
  latest_or_empty-Stays p none s h = (h, tt)

  pub latest_manifest-Stays :
      (q : CloudStorageLatestManifestQuery) → Stays id (latest_manifest env q)
  unfolding latest_manifest
  latest_manifest-Stays q s h =
      Keeps-bind _ Any _ _ _ s (entitled_user-Stays q.user_id s h) λ u t i _.
        Keeps-bind _ Any _ _ _ t (project_for-Stays u.id q.cloud_project_id q.client_project_id t i)
          λ p v j _.
            Keeps-if _ _ (not (is_empty (trim p.last_manifest_id))) _ _ v
              (λ _. Keeps-read _ _ _ _ v j λ m _. latest_or_empty-Stays p m v j)
              (λ _. Keeps-read _ _ _ _ v j λ ms _. latest_with_objects-Stays p _ v j)

  pub build_download_target-Stays :
      (i : CloudDownloadTargetInput) → Stays id (build_download_target env i)
  unfolding build_download_target require_configured_provider pure
  build_download_target-Stays i s h = Keeps-guard _ _ _ _ _ s h λ _.
      Keeps-bind _ Any _ _ _ s (entitled_user-Stays i.user_id s h) λ u t k _.
        Keeps-guard _ _ _ _ _ t k λ _. Keeps-read _ _ _ _ t k λ o _. Keeps-guard _ _ _ _ _ t k λ _.
          Keeps-bind _ Any _ _ _ t (project_for-Stays u.id _ _ t k)
            λ p v l _. Keeps-guard _ _ _ _ _ v l λ _. Keeps-read _ _ _ _ v l λ _ _. (l, tt)
