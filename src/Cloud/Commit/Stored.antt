-- ===== src/Cloud/Commit/Stored.antt =====
-- What a commit that returns a result has written.
use walnut_billing.Prelude.{
  arith, ℕ, ◌≡◌, refl, ap, ◌∙◌, true, false, inl, inr, Bool-cases, List, [], ◌∷◌, ◌++◌,
  if◌then◌else◌,
}
use walnut_billing.Prelude.Int.{ℤ, pos, negsuc, ltb_ℤ}
use walnut_billing.Prelude.Word.{add64, sub64}
use walnut_billing.Prelude.Text.{trim}
use walnut_billing.Domain.Cloud.{CloudObject, CloudProject, CloudSyncSession, is_committed_sync}
use walnut_billing.Repository.Table.{upsert}
use walnut_billing.Repository.Flow.{pure}
use walnut_billing.Repository.Flow.Success.{OnOk, OnOk-mono, OnOk-bind, OnOk-guard, OnOk-read}
use walnut_billing.Cloud.Resources.{CloudResourceDescriptor, sum_resource_bytes, sum_object_bytes}
use walnut_billing.Cloud.World.{CloudState, CloudEnv}
use walnut_billing.Cloud.Laws.{session_id_of, IsLawfulCloud}
use walnut_billing.Cloud.Entry.{CloudAccess, projected_usage}
use walnut_billing.Cloud.Commit.{
  CloudManifestCommitInput, CloudManifestCommitResult, usage_for, manifest_of, write_manifest,
  commit_with_repos,
}
use walnut_billing.Cloud.Commit.Writes.{
  IsKept, kept-trans, cloud_now-Kept, generate-Kept, update_project-Kept, rename_project-Kept,
  store_objects-Kept, replace_objects-Kept, create_manifest-Added, update_session-Saved,
}
use walnut_billing.Cloud.Commit.Valid.{IsAuthorized, authorized_commit_session-Authorized}

not_below_itself : (a : ℤ) → ltb_ℤ a a ≡ false
not_below_itself (pos n) = ground arith
not_below_itself (negsuc n) = ground arith

covers_least : (p q : ℤ) → ltb_ℤ (if ltb_ℤ p q then q else p) q ≡ false
covers_least p q = elim (Bool-cases (ltb_ℤ p q)) [
  | inl below ↦ rw below (not_below_itself q)
  | inr over ↦ rw over over
]

covers_resources :
    (used : ℤ) (existing : List CloudObject) (rs : List CloudResourceDescriptor)
    → ltb_ℤ (projected_usage used existing rs) (sum_resource_bytes (pos 0) rs) ≡ false
unfolding projected_usage
covers_resources used existing rs =
    let requested = sum_resource_bytes (pos 0) rs in
    covers_least (add64 (sub64 used (sum_object_bytes (pos 0) existing)) requested) requested

-- The rows of the manifest and of its session, and the usage within the quota.
pub record IsWritten (access : CloudAccess) (i : CloudManifestCommitInput)
    (resources : List CloudResourceDescriptor) (x : CloudSyncSession) (s : CloudState)
    (a : CloudManifestCommitResult) (s' : CloudState) : Type 0 where
  pub total : a.manifest.total_bytes ≡ sum_resource_bytes (pos 0) resources
  pub of_user : a.manifest.user_id ≡ access.user.id
  pub of_session : a.manifest.sync_session_id ≡ trim i.sync_session_id
  pub keyed : a.manifest.idempotency_key ≡ trim i.idempotency_key
  pub manifests : s'.manifests ≡ s.manifests ++ a.manifest ∷ []
  pub used : CloudSyncSession
  pub sessions : s'.sessions ≡ upsert session_id_of used s.sessions
  pub same_id : used.id ≡ x.id
  pub is_used : is_committed_sync used.status ≡ true
  pub for_manifest : used.manifest_id ≡ a.manifest.id
  pub quota : a.usage.quota_bytes ≡ access.quota.quota_bytes
  pub fits : ltb_ℤ access.quota.quota_bytes a.usage.used_bytes ≡ false
  pub covers : ltb_ℤ a.usage.used_bytes (sum_resource_bytes (pos 0) resources) ≡ false

module _ (env : CloudEnv) where
  write_manifest-Written :
      (access : CloudAccess) (i : CloudManifestCommitInput)
      (resources : List CloudResourceDescriptor) (x : CloudSyncSession) (project : CloudProject)
      (s : CloudState)
      → IsLawfulCloud env
      → OnOk
          (λ a s'. IsWritten access i resources x s a s')
          (write_manifest env access i resources x project s)
  unfolding write_manifest pure manifest_of usage_for
  write_manifest-Written access i resources x project s laws = OnOk-read _ _ _ s λ existing _.
      OnOk-guard _ _ _ _ s λ fits. OnOk-bind _ _ _ _ s (cloud_now-Kept env s) λ now t1 k1.
        OnOk-bind _ _ _ _ t1 (generate-Kept env "cmf_" t1) λ id t2 k2.
          OnOk-bind _ _ _ _ t2 (create_manifest-Added env _ t2 laws) λ _ t3 (e3, m3).
            OnOk-bind _ _ _ _ t3 (store_objects-Kept env _ _ _ _ _ resources t3) λ _ t4 k4.
              OnOk-bind _ _ _ _ t4 (replace_objects-Kept env _ _ resources _ existing t4) λ _ t5 k5.
                OnOk-bind _ _ _ _ t5 (update_project-Kept env _ t5) λ _ t6 k6.
                  OnOk-bind _ _ _ _ t6 (update_session-Saved env _ t6 laws) λ _ t7 (e7, m7).
                    let before = kept-trans k1 k2 in
                    let after = kept-trans k4 (kept-trans k5 k6) in
                    record {
                      total = refl;
                      of_user = refl;
                      of_session = refl;
                      keyed = refl;
                      manifests =
                          m7
                          ∙ after.manifests
                          ∙ m3
                          ∙ ap
                              (λ ms.
                                ms ++ manifest_of id access.user.id project i resources now ∷ [])
                              before.manifests;
                      used = _;
                      sessions =
                          e7 ∙ ap (upsert session_id_of _) (after.sessions ∙ e3 ∙ before.sessions);
                      same_id = refl;
                      is_used = refl;
                      for_manifest = refl;
                      quota = refl;
                      fits = fits;
                      covers = covers_resources access.used_bytes existing resources;
                    }

  -- A commit that has found its session usable, at that reading of the clock, and has written.
  pub record IsStored (tick : ℕ) (access : CloudAccess) (i : CloudManifestCommitInput)
      (resources : List CloudResourceDescriptor) (s : CloudState) (a : CloudManifestCommitResult)
      (s' : CloudState) : Type 0 where
    pub session : CloudSyncSession
    pub project : CloudProject
    pub authorized : IsAuthorized env tick access.user.id i resources s session project
    pub written : IsWritten access i resources session s a s'

  pub from_kept :
      (access : CloudAccess) (i : CloudManifestCommitInput)
      (resources : List CloudResourceDescriptor) (x : CloudSyncSession) (s t : CloudState)
      (a : CloudManifestCommitResult) (s' : CloudState)
      → IsKept s t
      → IsWritten access i resources x t a s'
      → IsWritten access i resources x s a s'
  from_kept access i resources x s t a s' k w = record {
    total = w.total;
    of_user = w.of_user;
    of_session = w.of_session;
    keyed = w.keyed;
    used = w.used;
    same_id = w.same_id;
    is_used = w.is_used;
    for_manifest = w.for_manifest;
    quota = w.quota;
    fits = w.fits;
    covers = w.covers;
    manifests = w.manifests ∙ ap (λ ms. ms ++ a.manifest ∷ []) k.manifests;
    sessions = w.sessions ∙ ap (upsert session_id_of w.used) k.sessions;
  }

  pub commit_with_repos-Stored :
      (access : CloudAccess) (i : CloudManifestCommitInput)
      (resources : List CloudResourceDescriptor) (s : CloudState)
      → IsLawfulCloud env
      → OnOk
          (λ a s'. IsStored s.ticks access i resources s a s')
          (commit_with_repos env access i resources s)
  unfolding commit_with_repos
  commit_with_repos-Stored access i resources s laws =
      OnOk-bind _ _ _ _ s
        (authorized_commit_session-Authorized env access.user.id i resources s laws)
        λ found t (authorized, h).
          OnOk-bind _ _ _ _ t (rename_project-Kept env i.project_name found.1 t) λ project u (_, k).
            OnOk-mono (λ a s'. IsWritten access i resources found.0 u a s')
              (λ a s'. IsStored s.ticks access i resources s a s') _
              (write_manifest-Written access i resources found.0 project u laws)
              λ a s' w. record {
                session = found.0;
                project = found.1;
                authorized = authorized;
                written = from_kept access i resources found.0 s u a s' (kept-trans h k) w;
              }
