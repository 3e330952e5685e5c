-- ===== src/Cloud/Used/Committing.antt =====
-- `CommitManifest` of internal/service/cloud_storage.go leaves a used session used.
use walnut_billing.Prelude.{String, sym, List, [], ◌∷◌}
use mathlib.Core.Path.{subst}
use walnut_billing.Domain.{Time}
use walnut_billing.Domain.Cloud.{CloudProject, CloudManifest, CloudObject, CloudSyncSession}
use walnut_billing.Repository.Error.{GormError, Error, is_not_found, Result, ok, err}
use walnut_billing.Repository.Flow.{pure, raise}
use walnut_billing.Repository.Flow.Invariant.{Keeps, Keeps-bind, Keeps-guard, Keeps-read, Keeps-if}
use walnut_billing.Cloud.Errors.{CloudError, database}
use walnut_billing.Cloud.Resources.{CloudResourceDescriptor}
use walnut_billing.Cloud.World.{CloudState, CloudEnv, CloudFlow}
use walnut_billing.Cloud.Laws.{IsLawfulCloud}
use walnut_billing.Cloud.Entry.{CloudAccess, require_configured_provider}
use walnut_billing.Cloud.Commit.{
  CloudManifestCommitInput, CloudManifestCommitResult, keeps_key, store_objects, replace_objects,
  write_manifest, commit_with_repos,
}
use walnut_billing.Cloud.Manifest.{
  finish_commit, begun_commit, commit_with_transaction, replay_manifest, replay_or_commit,
  commit_manifest,
}
use walnut_billing.Cloud.Used.{
  IsUsed, Any, Stays, cloud_now-Stays, generate-Stays, update_project-Stays, create_manifest-Stays,
  upsert_object-Stays, update_object-Stays,
}
use walnut_billing.Cloud.Used.Reading.{authorize_cloud_access-Stays, storage_usage-Stays}
use walnut_billing.Cloud.Used.Sessions.{
  Other, update_session-Stays, authorized_commit_session-Keeps,
}
use walnut_billing.Cloud.Used.Authorizing.{rename_project-Stays}

module _ (id : String) (env : CloudEnv) where
  store_objects-Stays :
      (user_id : String) (p : CloudProject) (m : CloudManifest) (client_project_id : String)
      (now : Time) (rs : List CloudResourceDescriptor)
      → Stays id (store_objects env user_id p m client_project_id now rs)
  unfolding store_objects pure
  store_objects-Stays user_id p m client_project_id now [] s h = (h, tt)
  store_objects-Stays user_id p m client_project_id now (r ∷ rs) s h =
      Keeps-bind _ Any _ _ _ s (generate-Stays id env "cob_" s h) λ _ t i _.
        Keeps-bind _ Any _ _ _ t (upsert_object-Stays id env _ t i)
          λ _ u j _. store_objects-Stays user_id p m client_project_id now rs u j

  replace_objects-Stays :
      (user_id client_project_id : String) (rs : List CloudResourceDescriptor) (now : Time)
      (os : List CloudObject)
      → Stays id (replace_objects env user_id client_project_id rs now os)
  unfolding replace_objects pure
  replace_objects-Stays user_id client_project_id rs now [] s h = (h, tt)
  replace_objects-Stays user_id client_project_id rs now (o ∷ os) s h =
      Keeps-if _ _ (keeps_key user_id client_project_id rs o.object_key) _ _ s
        (λ _. replace_objects-Stays user_id client_project_id rs now os s h)
        (λ _.
          Keeps-bind _ Any _ _ _ s (update_object-Stays id env _ s h)
            λ _ t i _. replace_objects-Stays user_id client_project_id rs now os t i)

  module _ (laws : IsLawfulCloud env) where
    write_manifest-Stays :
        (access : CloudAccess) (i : CloudManifestCommitInput)
        (resources : List CloudResourceDescriptor) (x : CloudSyncSession) (p : CloudProject)
        → Other id env laws x
        → Stays id (write_manifest env access i resources x p)
    unfolding write_manifest pure
    write_manifest-Stays access i resources x p other s h = Keeps-read _ _ _ _ s h λ existing _.
        Keeps-guard _ _ _ _ _ s h λ _.
          Keeps-bind _ Any _ _ _ s (cloud_now-Stays id env s h) λ now t1 h1 _.
            Keeps-bind _ Any _ _ _ t1 (generate-Stays id env "cmf_" t1 h1) λ _ t2 h2 _.
              Keeps-bind _ Any _ _ _ t2 (create_manifest-Stays id env _ t2 h2) λ _ t3 h3 _.
                Keeps-bind _ Any _ _ _ t3 (store_objects-Stays _ _ _ _ _ resources t3 h3)
                  λ _ t4 h4 _.
                    Keeps-bind _ Any _ _ _ t4 (replace_objects-Stays _ _ resources _ existing t4 h4)
                      λ _ t5 h5 _.
                        Keeps-bind _ Any _ _ _ t5 (update_project-Stays id env _ t5 h5) λ _ t6 h6 _.
                          Keeps-bind _ Any _ _ _ t6 (update_session-Stays id env laws _ other t6 h6)
                            λ _ t7 h7 _. (h7, tt)

    commit_with_repos-Stays :
        (access : CloudAccess) (i : CloudManifestCommitInput)
        (resources : List CloudResourceDescriptor)
        → Stays id (commit_with_repos env access i resources)
    unfolding commit_with_repos
    commit_with_repos-Stays access i resources s h =
        Keeps-bind _ (λ f. Other id env laws f.0) _ _ _ s
          (authorized_commit_session-Keeps id env laws access.user.id i resources s h)
          λ f t j other.
            Keeps-bind _ Any _ _ _ t (rename_project-Stays id env i.project_name f.1 t j)
              λ p u k _. write_manifest-Stays access i resources f.0 p other u k

    finish_commit-Keeps :
        (A : Type 0) (s : CloudState) (x : Result CloudError A × CloudState)
        → IsUsed id s
        → Keeps (IsUsed id) Any x
        → Keeps (IsUsed id) Any (finish_commit env s x)
    unfolding finish_commit
    finish_commit-Keeps A s (ok a, t) h (i, _) = by_commit (env.gorm.commit t)
      where
        by_commit :
            (r : Result GormError (Unit {0}))
            → Keeps
                (IsUsed id)
                {E = CloudError}
                {A = A}
                Any
                (elim r [ ok _ ↦ (ok a, t) | err e ↦ (err (database e), env.gorm.rollback s t) ])
        by_commit (ok _) = (i, tt)
        by_commit (err e) = subst (IsUsed id) (sym (laws.rolls_back s t)) h
    finish_commit-Keeps A s (err e, t) h i = subst (IsUsed id) (sym (laws.rolls_back s t)) h

    begun_commit-Stays : (A : Type 0) (m : CloudFlow A) → Stays id m → Stays id (begun_commit env m)
    unfolding begun_commit
    begun_commit-Stays A m stays s h = by_begin (env.gorm.begin s)
      where
        by_begin :
            (r : Result GormError (Unit {0}))
            → Keeps
                (IsUsed id)
                {E = CloudError}
                {A = A}
                Any
                (elim r [ ok _ ↦ finish_commit env s (m s) | err e ↦ (err (database e), s) ])
        by_begin (ok _) = finish_commit-Keeps A s (m s) h (stays s h)
        by_begin (err e) = h

    commit_with_transaction-Stays :
        (access : CloudAccess) (i : CloudManifestCommitInput)
        (resources : List CloudResourceDescriptor)
        → Stays id (commit_with_transaction env access i resources)
    unfolding commit_with_transaction
    commit_with_transaction-Stays access i resources s h =
        let stays = commit_with_repos-Stays access i resources in
        Keeps-if (IsUsed id) Any env.has_uow
          (begun_commit env (commit_with_repos env access i resources))
          (commit_with_repos env access i resources) s
          (λ _.
            begun_commit-Stays CloudManifestCommitResult (commit_with_repos env access i resources)
              stays s h)
          (λ _. stays s h)

    replay_or_commit-Stays :
        (access : CloudAccess) (i : CloudManifestCommitInput)
        (resources : List CloudResourceDescriptor) (r : Result Error CloudManifest)
        → Stays id (replay_or_commit env access i resources r)
    unfolding replay_or_commit replay_manifest pure raise
    replay_or_commit-Stays access i resources (ok m) s h = Keeps-guard _ _ _ _ _ s h λ _.
        Keeps-read _ _ _ _ s h λ p _.
          Keeps-bind _ Any _ _ _ s (storage_usage-Stays id env access.user.id s h)
            λ _ t j _. (j, tt)
    replay_or_commit-Stays access i resources (err e) s h =
        Keeps-if _ _ (is_not_found e) _ _ s
          (λ _. commit_with_transaction-Stays access i resources s h) (λ _. h)

    pub commit_manifest-Stays : (i : CloudManifestCommitInput) → Stays id (commit_manifest env i)
    unfolding commit_manifest require_configured_provider
    commit_manifest-Stays i s h = Keeps-guard _ _ _ _ _ s h λ _.
        Keeps-read _ _ _ _ s h λ resources _. Keeps-guard _ _ _ _ _ s h λ _.
          Keeps-bind _ Any _ _ _ s (authorize_cloud_access-Stays id env i.user_id s h)
            λ access t j _.
              Keeps-read _ _ _ _ t j λ r _. replay_or_commit-Stays access i resources r t j
