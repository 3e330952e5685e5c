-- ===== src/Cloud/Used/Authorizing.antt =====
-- `AuthorizeSync` of internal/service/cloud_storage.go leaves a used session used.
use walnut_billing.Prelude.{String, not, ◌&&◌, List, [], ◌∷◌}
use walnut_billing.Prelude.Text.{◌==◌, trim, is_empty}
use walnut_billing.Domain.Cloud.{CloudProject}
use walnut_billing.Repository.Error.{Error, is_not_found, Result, ok, err}
use walnut_billing.Repository.Flow.{pure, raise}
use walnut_billing.Repository.Flow.Invariant.{Keeps-bind, Keeps-guard, Keeps-read, Keeps-if}
use walnut_billing.Cloud.Resources.{CloudResourceDescriptor}
use walnut_billing.Cloud.World.{CloudEnv}
use walnut_billing.Cloud.Laws.{IsLawfulCloud}
use walnut_billing.Cloud.Entry.{require_configured_provider}
use walnut_billing.Cloud.Authorize.{
  CloudSyncAuthorizationInput, rename_project, new_project, found_or_new_project, ensure_project,
  upload_targets, authorize_resources, authorize_sync,
}
use walnut_billing.Cloud.Used.{
  Any, Stays, cloud_now-Stays, generate-Stays, create_project-Stays, update_project-Stays,
}
use walnut_billing.Cloud.Used.Reading.{authorize_cloud_access-Stays}
use walnut_billing.Cloud.Used.Sessions.{create_session-Stays}

module _ (id : String) (env : CloudEnv) where
  pub rename_project-Stays :
      (name : String) (p : CloudProject) → Stays id (rename_project env name p)
  unfolding rename_project pure
  rename_project-Stays name p s h =
      Keeps-if _ _ (not (is_empty (trim name)) && not (p.name == trim name)) _ _ s
        (λ _. Keeps-bind _ Any _ _ _ s (cloud_now-Stays id env s h) λ _ t i _.
          Keeps-bind _ Any _ _ _ t (update_project-Stays id env _ t i) λ _ u j _. (j, tt))
        (λ _. (h, tt))

  new_project-Stays :
      (user_id client_project_id name : String)
      → Stays id (new_project env user_id client_project_id name)
  unfolding new_project pure
  new_project-Stays user_id client_project_id name s h =
      Keeps-bind _ Any _ _ _ s (generate-Stays id env "cpr_" s h) λ _ t i _.
        Keeps-bind _ Any _ _ _ t (cloud_now-Stays id env t i)
          λ _ u j _. Keeps-bind _ Any _ _ _ u (create_project-Stays id env _ u j) λ _ v k _. (k, tt)

  found_or_new-Stays :
      (user_id client_project_id name : String) (r : Result Error CloudProject)
      → Stays id (found_or_new_project env user_id client_project_id name r)
  unfolding found_or_new_project raise
  found_or_new-Stays user_id client_project_id name (ok p) s h = rename_project-Stays name p s h
  found_or_new-Stays user_id client_project_id name (err e) s h =
      Keeps-if _ _ (is_not_found e) _ _ s
        (λ _. new_project-Stays user_id client_project_id name s h) (λ _. h)

  ensure_project-Stays :
      (user_id client_project_id name : String)
      → Stays id (ensure_project env user_id client_project_id name)
  unfolding ensure_project
  ensure_project-Stays user_id client_project_id name s h = Keeps-guard _ _ _ _ _ s h λ _.
      Keeps-read _ _ _ _ s h λ r _. found_or_new-Stays user_id (trim client_project_id) name r s h

  upload_targets-Stays :
      (user_id project_id client_project_id : String) (rs : List CloudResourceDescriptor)
      → Stays id (upload_targets env user_id project_id client_project_id rs)
  unfolding upload_targets pure
  upload_targets-Stays user_id project_id client_project_id [] s h = (h, tt)
  upload_targets-Stays user_id project_id client_project_id (r ∷ rs) s h =
      Keeps-read _ _ _ _ s h λ _ _.
        Keeps-bind _ Any _ _ _ s (upload_targets-Stays user_id project_id client_project_id rs s h)
          λ _ t i _. (i, tt)

  module _ (laws : IsLawfulCloud env) where
    authorize_resources-Stays :
        (i : CloudSyncAuthorizationInput) (resources : List CloudResourceDescriptor)
        → Stays id (authorize_resources env i resources)
    unfolding authorize_resources pure
    authorize_resources-Stays i resources s h =
        Keeps-bind _ Any _ _ _ s (authorize_cloud_access-Stays id env i.user_id s h) λ access t j _.
          Keeps-bind _ Any _ _ _ t
            (ensure_project-Stays access.user.id i.client_project_id i.project_name t j)
            λ p u k _. Keeps-read _ _ _ _ u k λ existing _. Keeps-guard _ _ _ _ _ u k λ _.
              Keeps-bind _ Any _ _ _ u
                (upload_targets-Stays access.user.id p.id i.client_project_id resources u k)
                λ _ v l _. Keeps-bind _ Any _ _ _ v (generate-Stays id env "csy_" v l) λ _ w m _.
                  Keeps-bind _ Any _ _ _ w (cloud_now-Stays id env w m) λ _ x n _.
                    Keeps-bind _ Any _ _ _ x (create_session-Stays id env laws _ x n)
                      λ _ y o _. (o, tt)

    pub authorize_sync-Stays : (i : CloudSyncAuthorizationInput) → Stays id (authorize_sync env i)
    unfolding authorize_sync require_configured_provider
    authorize_sync-Stays i s h =
        Keeps-guard _ _ _ _ _ s h
          λ _. Keeps-read _ _ _ _ s h λ resources _. authorize_resources-Stays i resources s h
