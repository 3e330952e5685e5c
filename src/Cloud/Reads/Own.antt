-- ===== src/Cloud/Reads/Own.antt =====
-- What a target for a download has shown: `BuildDownloadTarget` of internal/service/cloud_storage.go.
use walnut_billing.Prelude.{arith, ℕ, String, Bool, ◌≡◌, refl, ◌∙◌, true, false, not, ◌||◌, some}
use mathlib.Core.Path.{subst}
use walnut_billing.Prelude.Text.{◌==◌, eq_iff, trim, is_empty}
use walnut_billing.Domain.Cloud.{CloudProject, CloudObject, is_active_object}
use walnut_billing.Repository.Error.{ok}
use walnut_billing.Repository.Table.{lookup}
use walnut_billing.Repository.Flow.{pure}
use walnut_billing.Repository.Flow.Success.{
  OnOk, OnOk-value, OnOk-if, OnOk-from_result, OnOk-bind, OnOk-guard, OnOk-read,
}
use walnut_billing.Cloud.World.{
  CloudState, CloudEnv, project_by_id, project_by_client, object_by_key,
}
use walnut_billing.Cloud.Laws.{project_id_of, object_id_of, IsLawfulCloud}
use walnut_billing.Cloud.Entry.{require_configured_provider}
use walnut_billing.Cloud.Entry.Passed.{IsSameCloud, found_row, entitled_user-Passed}
use walnut_billing.Cloud.Summaries.{
  CloudDownloadTargetInput, CloudDownloadTargetAuthorization, cloud_object_summary,
}
use walnut_billing.Cloud.Reads.{own_project, project_for_latest_manifest, build_download_target}

both : (a b : Bool) → (not a || not b) ≡ false → (a ≡ true) × (b ≡ true)
both a b h = ground arith

module _ (env : CloudEnv) where
  -- A row of the projects that belongs to a user.
  pub record IsProjectOf (user_id : String) (s : CloudState) (p : CloudProject) : Type 0 where
    pub there : lookup project_id_of p.id s.projects ≡ some p
    pub owner : p.user_id ≡ user_id

  project_for-Own :
      (user_id cloud_project_id client_project_id : String) (s : CloudState)
      → IsLawfulCloud env
      → OnOk
          (λ p s'. IsProjectOf user_id s p × IsSameCloud s s')
          (project_for_latest_manifest env user_id cloud_project_id client_project_id s)
  unfolding project_for_latest_manifest own_project project_by_id project_by_client pure
  project_for-Own user_id cloud_project_id client_project_id s laws =
      OnOk-if _ (not (is_empty (trim cloud_project_id))) _ _ s
        (λ _. OnOk-read _ _ _ s λ p read. OnOk-guard _ _ _ _ s λ mine.
          let found = laws.projects.first_ok _ s.projects p (found_row _ _ p read) in
          (
            record { there = found.1; owner = (eq_iff p.user_id user_id).0 (ground (arith, mine)) },
            unchanged,
          ))
        (λ _. OnOk-guard _ _ _ _ s λ _. OnOk-from_result _ _ s λ p read.
          let found = laws.projects.first_ok _ s.projects p (found_row _ _ p read) in
          (
            record {
              there = found.1;
              owner = (eq_iff p.user_id user_id).0 (ground (arith, found.0));
            },
            unchanged,
          ))
    where
      unchanged : IsSameCloud s s
      unchanged = record { projects = refl; sessions = refl; manifests = refl; objects = refl }

  -- An active object of the user with the key of the request, in a project of the user.
  pub record IsOwnDownload (i : CloudDownloadTargetInput) (s : CloudState)
      (a : CloudDownloadTargetAuthorization) : Type 0 where
    pub object : CloudObject
    pub there : lookup object_id_of object.id s.objects ≡ some object
    pub key : object.object_key ≡ trim i.object_key
    pub owner : object.user_id ≡ trim i.user_id
    pub active : is_active_object object.status ≡ true
    pub project : CloudProject
    pub own : IsProjectOf (trim i.user_id) s project
    pub part : object.cloud_project_id ≡ project.id
    pub user : a.user_id ≡ trim i.user_id
    pub project_shown : a.cloud_project_id ≡ project.id
    pub object_shown : a.object ≡ cloud_object_summary object
    pub asked : (t : ℕ) × (env.download_target t object.object_key ≡ ok a.download_target)

  download-Own :
      (i : CloudDownloadTargetInput) (s : CloudState)
      → IsLawfulCloud env
      → OnOk (λ a s'. IsOwnDownload i s a) (build_download_target env i s)
  unfolding build_download_target require_configured_provider object_by_key pure
  download-Own i s laws = OnOk-guard _ _ _ _ s λ _.
      OnOk-bind _ _ _ _ s (entitled_user-Passed env i.user_id s laws) λ user t (named, same).
        OnOk-guard _ _ _ _ t λ _. OnOk-read _ _ _ t λ object read. OnOk-guard _ _ _ _ t λ mine.
          OnOk-bind _ _ _ _ t (project_for-Own user.id _ _ t laws) λ project u (own, same').
            OnOk-guard _ _ _ _ u λ part. OnOk-read _ _ _ u λ target asked.
              let found = laws.objects.first_ok _ t.objects object (found_row _ _ object read) in
              let checks = both (object.user_id == user.id) _ mine in
              record {
                object = object;
                there =
                    subst (λ rows. lookup object_id_of object.id rows ≡ some object) same.objects
                      found.1;
                key = (eq_iff object.object_key (trim i.object_key)).0 found.0;
                owner = (eq_iff object.user_id user.id).0 checks.0 ∙ named;
                active = checks.1;
                project = project;
                own = record {
                  there =
                      subst (λ rows. lookup project_id_of project.id rows ≡ some project)
                        same.projects own.there;
                  owner = own.owner ∙ named;
                };
                part = (eq_iff object.cloud_project_id project.id).0 (ground (arith, part));
                user = named;
                project_shown = refl;
                object_shown = refl;
                asked = (u.ticks, asked);
              }

  -- Under the laws of GORM: when a request for a download returns a target, it is the target of the
  -- object store for an active object of the user of the request with the key of the request, all up
  -- to white space, and the object is in a project of the same user.
  pub build_download_target-IsOwn :
      (i : CloudDownloadTargetInput) (s : CloudState) (a : CloudDownloadTargetAuthorization)
      → IsLawfulCloud env
      → (build_download_target env i s).0 ≡ ok a
      → IsOwnDownload i s a
  build_download_target-IsOwn i s a laws returned =
      OnOk-value (λ a s'. IsOwnDownload i s a) _ a (download-Own i s laws) returned
