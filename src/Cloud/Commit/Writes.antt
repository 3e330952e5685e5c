-- ===== src/Cloud/Commit/Writes.antt =====
-- What the steps of a commit leave of the sessions and the manifests.
use walnut_billing.Prelude.{
  suc, Option, String, ◌≡◌, refl, ◌∙◌, not, ◌&&◌, none, some, List, [], ◌∷◌, ◌++◌,
}
use walnut_billing.Prelude.Text.{◌==◌, trim, is_empty}
use walnut_billing.Domain.{Time}
use walnut_billing.Domain.Cloud.{CloudProject, CloudManifest, CloudObject, CloudSyncSession}
use walnut_billing.Repository.Error.{GormError, Result, ok, err}
use walnut_billing.Repository.Table.{upsert}
use walnut_billing.Repository.Flow.{pure}
use walnut_billing.Repository.Flow.Success.{OnOk, OnOk-if, OnOk-bind}
use walnut_billing.Cloud.Errors.{CloudError}
use walnut_billing.Cloud.Resources.{CloudResourceDescriptor}
use walnut_billing.Cloud.World.{
  CloudState, CloudEnv, put_projects, put_objects, put_manifests, put_sessions, written,
  with_prefix, cloud_now, generate_cloud_id, update_project, update_session, create_manifest,
  upsert_object, assign_columns, update_object,
}
use walnut_billing.Cloud.Laws.{session_id_of, IsLawfulCloud}
use walnut_billing.Cloud.Authorize.{rename_project}
use walnut_billing.Cloud.Commit.{store_objects, replace_objects, keeps_key}

-- The sessions and the manifests are the same.
pub record IsKept (s s' : CloudState) : Type 0 where
  pub sessions : s'.sessions ≡ s.sessions
  pub manifests : s'.manifests ≡ s.manifests

abbrev pub kept : (s : CloudState) → IsKept s s
kept s = record { sessions = refl; manifests = refl }

pub kept-trans : {s t u : CloudState} → IsKept s t → IsKept t u → IsKept s u
kept-trans h k = record {
  sessions = k.sessions ∙ h.sessions;
  manifests = k.manifests ∙ h.manifests;
}

-- A write that has succeeded.
written-ok :
    {Row : Type 0} (put : List Row → CloudState → CloudState) (s : CloudState)
    (r : Result GormError (List Row)) (P : Unit {0} → CloudState → Type 0)
    → ((rows : List Row) → r ≡ ok rows → P tt (put rows s))
    → OnOk P (written put s r)
written-ok put s (ok rows) P h = h rows refl
written-ok put s (err e) P h = tt

written-Kept :
    {Row : Type 0} (put : List Row → CloudState → CloudState) (s : CloudState)
    (r : Result GormError (List Row))
    → ((rows : List Row) → IsKept s (put rows s))
    → OnOk (λ _ t. IsKept s t) (written put s r)
written-Kept put s r h = written-ok put s r (λ _ t. IsKept s t) λ rows _. h rows

-- What keeps them since a later state keeps them.
pub kept_since :
    {A : Type 0} {s t : CloudState} (x : Result CloudError A × CloudState)
    → IsKept s t
    → OnOk (λ _ u. IsKept t u) x
    → OnOk (λ _ u. IsKept s u) x
kept_since (ok a, u) h k = kept-trans h k
kept_since (err e, u) h k = tt

module _ (env : CloudEnv) where
  pub cloud_now-Kept : (s : CloudState) → OnOk (λ _ t. IsKept s t) (cloud_now env s)
  unfolding cloud_now
  cloud_now-Kept s = record { sessions = refl; manifests = refl }

  pub generate-Kept :
      (prefix : String) (s : CloudState) → OnOk (λ _ t. IsKept s t) (generate_cloud_id env prefix s)
  unfolding generate_cloud_id
  generate-Kept prefix s = by_draw (env.random s.draws)
    where
      by_draw :
          (o : Option String)
          → OnOk (λ _ t. IsKept s t) (with_prefix env prefix o, record s { draws = suc s.draws })
      by_draw none = tt
      by_draw (some digits) = record { sessions = refl; manifests = refl }

  pub update_project-Kept :
      (p : CloudProject) (s : CloudState) → OnOk (λ _ t. IsKept s t) (update_project env p s)
  unfolding update_project
  update_project-Kept p s =
      written-Kept put_projects s (env.gorm.projects.save p s.projects)
        λ rows. record { sessions = refl; manifests = refl }

  upsert_object-Kept :
      (o : CloudObject) (s : CloudState) → OnOk (λ _ t. IsKept s t) (upsert_object env o s)
  unfolding upsert_object
  upsert_object-Kept o s =
      written-Kept put_objects s
        (env.gorm.upsert_object (λ x. x.object_key) assign_columns o s.objects)
        λ rows. record { sessions = refl; manifests = refl }

  update_object-Kept :
      (o : CloudObject) (s : CloudState) → OnOk (λ _ t. IsKept s t) (update_object env o s)
  unfolding update_object
  update_object-Kept o s =
      written-Kept put_objects s (env.gorm.objects.save o s.objects)
        λ rows. record { sessions = refl; manifests = refl }

  pub rename_project-Kept :
      (name : String) (p : CloudProject) (s : CloudState)
      → OnOk (λ q t. (q.id ≡ p.id) × IsKept s t) (rename_project env name p s)
  unfolding rename_project pure
  rename_project-Kept name p s =
      OnOk-if _ (not (is_empty (trim name)) && not (p.name == trim name)) _ _ s
        (λ _.
          OnOk-bind _ _ _ _ s (cloud_now-Kept s) λ now t h.
            OnOk-bind _ _ _ _ t (update_project-Kept _ t) λ _ u k. (refl, kept-trans h k))
        (λ _. (refl, kept s))

  pub store_objects-Kept :
      (user_id : String) (project : CloudProject) (manifest : CloudManifest)
      (client_project_id : String) (now : Time) (rs : List CloudResourceDescriptor) (s : CloudState)
      → OnOk
          (λ _ t. IsKept s t)
          (store_objects env user_id project manifest client_project_id now rs s)
  unfolding store_objects pure
  store_objects-Kept user_id project manifest client_project_id now [] s = kept s
  store_objects-Kept user_id project manifest client_project_id now (r ∷ rs) s =
      OnOk-bind _ _ _ _ s (generate-Kept "cob_" s) λ id t h.
        OnOk-bind _ _ _ _ t (upsert_object-Kept _ t) λ _ u k.
          kept_since _ (kept-trans h k)
            (store_objects-Kept user_id project manifest client_project_id now rs u)

  pub replace_objects-Kept :
      (user_id client_project_id : String) (rs : List CloudResourceDescriptor) (now : Time)
      (os : List CloudObject) (s : CloudState)
      → OnOk (λ _ t. IsKept s t) (replace_objects env user_id client_project_id rs now os s)
  unfolding replace_objects pure
  replace_objects-Kept user_id client_project_id rs now [] s = kept s
  replace_objects-Kept user_id client_project_id rs now (o ∷ os) s =
      OnOk-if _ (keeps_key user_id client_project_id rs o.object_key) _ _ s
        (λ _. replace_objects-Kept user_id client_project_id rs now os s)
        (λ _.
          OnOk-bind _ _ _ _ s (update_object-Kept _ s)
            λ _ t h. kept_since _ h (replace_objects-Kept user_id client_project_id rs now os t))

  pub create_manifest-Added :
      (m : CloudManifest) (s : CloudState)
      → IsLawfulCloud env
      → OnOk
          (λ _ t. (t.sessions ≡ s.sessions) × (t.manifests ≡ s.manifests ++ m ∷ []))
          (create_manifest env m s)
  unfolding create_manifest
  create_manifest-Added m s laws =
      written-ok put_manifests s (env.gorm.manifests.create m s.manifests)
        (λ _ t. (t.sessions ≡ s.sessions) × (t.manifests ≡ s.manifests ++ m ∷ []))
        λ rows added. (refl, (laws.manifests.create_ok m s.manifests rows added).1)

  pub update_session-Saved :
      (x : CloudSyncSession) (s : CloudState)
      → IsLawfulCloud env
      → OnOk
          (λ _ t. (t.sessions ≡ upsert session_id_of x s.sessions) × (t.manifests ≡ s.manifests))
          (update_session env x s)
  unfolding update_session
  update_session-Saved x s laws =
      written-ok put_sessions s (env.gorm.sessions.save x s.sessions)
        (λ _ t. (t.sessions ≡ upsert session_id_of x s.sessions) × (t.manifests ≡ s.manifests))
        λ rows saved. (laws.sessions.save_ok x s.sessions rows saved, refl)
