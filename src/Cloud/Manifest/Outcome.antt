-- ===== src/Cloud/Manifest/Outcome.antt =====
-- How `CommitManifest` of internal/service/cloud_storage.go ends when it returns a result.
use walnut_billing.Prelude.{
  arith, ℕ, String, ◌≡◌, ◌⊎◌, inl, inr, refl, sym, ap, ◌∙◌, true, false, some, List, All,
}
use mathlib.Core.Path.{subst}
use walnut_billing.Prelude.Text.{◌==◌, eq_iff, trim}
use walnut_billing.Domain.Cloud.{CloudManifest}
use walnut_billing.Repository.Error.{
  GormError, record_not_found, failed, Error, is_not_found, map_gorm_not_found, Result, ok, err,
}
use walnut_billing.Repository.Table.{lookup}
use walnut_billing.Repository.Flow.{pure, mapped}
use walnut_billing.Repository.Flow.Success.{
  OnOk, OnOk-value, OnOk-mono, OnOk-raise, OnOk-if, OnOk-bind, OnOk-guard, OnOk-read,
}
use walnut_billing.Cloud.Errors.{CloudError, database}
use walnut_billing.Cloud.Resources.{CloudResourceDescriptor, normalize_cloud_resources}
use walnut_billing.Cloud.World.{CloudState, CloudEnv, CloudFlow, manifest_by_key}
use walnut_billing.Cloud.Laws.{session_row, manifest_id_of, IsLawfulCloud}
use walnut_billing.Cloud.Entry.{CloudAccess, require_configured_provider}
use walnut_billing.Cloud.Entry.Passed.{
  IsSameCloud, same-trans, load_active_user-Passed, quota_decision-Same,
}
use walnut_billing.Cloud.Entry.Entitled.{after_quota, IsGranted, authorize_cloud_access-Passed}
use walnut_billing.Cloud.Commit.{
  CloudManifestCommitInput, CloudManifestCommitResult, commit_with_repos,
}
use walnut_billing.Cloud.Commit.Stored.{IsStored, from_kept, commit_with_repos-Stored}
use walnut_billing.Cloud.Manifest.{
  storage_usage, finish_commit, begun_commit, commit_with_transaction, replay_manifest,
  replay_or_commit, commit_manifest,
}

module _ (env : CloudEnv) where
  -- A manifest of the user with the key of the request was there, and is returned.
  pub record IsReplayed (i : CloudManifestCommitInput) (s : CloudState)
      (a : CloudManifestCommitResult) (s' : CloudState) : Type 0 where
    pub there : lookup manifest_id_of a.manifest.id s.manifests ≡ some a.manifest
    pub keyed : a.manifest.idempotency_key ≡ trim i.idempotency_key
    pub of_user : a.manifest.user_id ≡ trim i.user_id
    pub unchanged : IsSameCloud s s'

  -- No manifest had the key of the request, the user may store, and the manifest was stored; the session
  -- was in time at the reading of the clock after those for the quota.
  pub record IsCommitted (i : CloudManifestCommitInput) (s : CloudState)
      (a : CloudManifestCommitResult) (s' : CloudState) : Type 0 where
    pub fresh : All (λ m. (m.idempotency_key == trim i.idempotency_key) ≡ false) s.manifests
    pub access : CloudAccess
    pub granted : IsGranted env i.user_id s access
    pub resources : List CloudResourceDescriptor
    pub cleaned : normalize_cloud_resources i.resources ≡ ok resources
    pub stored : IsStored env (after_quota env s.ticks) access i resources s a s'

  storage_usage-Same :
      (user_id : String) (s : CloudState)
      → IsLawfulCloud env
      → OnOk (λ _ t. IsSameCloud s t) (storage_usage env user_id s)
  unfolding storage_usage pure
  storage_usage-Same user_id s laws =
      OnOk-bind _ _ _ _ s (load_active_user-Passed env user_id s laws) λ u t (_, _, e).
        OnOk-read _ _ _ t λ used _.
          OnOk-bind _ _ _ _ t (quota_decision-Same env u t)
            λ quota v h. subst (λ x. IsSameCloud x v) e h

  replay_manifest-Replayed :
      (access : CloudAccess) (i : CloudManifestCommitInput) (m : CloudManifest) (s : CloudState)
      → IsLawfulCloud env
      → OnOk
          (λ a t. (a.manifest ≡ m) × (m.user_id ≡ access.user.id) × IsSameCloud s t)
          (replay_manifest env access i m s)
  unfolding replay_manifest pure
  replay_manifest-Replayed access i m s laws = OnOk-guard _ _ _ _ s λ own.
      OnOk-read _ _ _ s λ project _.
        OnOk-bind _ _ _ _ s (storage_usage-Same access.user.id s laws)
          λ usage t h. (refl, (eq_iff m.user_id access.user.id).0 (ground (arith, own)), h)

  finish-Run :
      {A : Type 0} (P : A → CloudState → Type 0) (s : CloudState)
      (x : Result CloudError A × CloudState)
      → OnOk P x
      → OnOk P (finish_commit env s x)
  unfolding finish_commit
  finish-Run P s (ok a, t) h = by_commit (env.gorm.commit t)
    where
      by_commit :
          (r : Result GormError (Unit {0}))
          → OnOk {E = CloudError} P
              (elim r [ ok _ ↦ (ok a, t) | err e ↦ (err (database e), env.gorm.rollback s t) ])
      by_commit (ok _) = h
      by_commit (err e) = tt
  finish-Run P s (err e, t) h = tt

  -- A unit of work that has returned a result has run to its end.
  begun-Run :
      {A : Type 0} (P : A → CloudState → Type 0) (m : CloudFlow A) (s : CloudState)
      → OnOk P (m s)
      → OnOk P (begun_commit env m s)
  unfolding begun_commit
  begun-Run P m s h = by_begin (env.gorm.begin s)
    where
      by_begin :
          (r : Result GormError (Unit {0}))
          → OnOk {E = CloudError} P
              (elim r [ ok _ ↦ finish_commit env s (m s) | err e ↦ (err (database e), s) ])
      by_begin (ok _) = finish-Run P s (m s) h
      by_begin (err e) = tt

  commit_with_transaction-Stored :
      (access : CloudAccess) (i : CloudManifestCommitInput)
      (resources : List CloudResourceDescriptor) (s : CloudState)
      → IsLawfulCloud env
      → OnOk
          (λ a t. IsStored env s.ticks access i resources s a t)
          (commit_with_transaction env access i resources s)
  unfolding commit_with_transaction
  commit_with_transaction-Stored access i resources s laws =
      let runs = commit_with_repos-Stored env access i resources s laws in
      OnOk-if (λ a t. IsStored env s.ticks access i resources s a t) env.has_uow
        (begun_commit env (commit_with_repos env access i resources))
        (commit_with_repos env access i resources) s
        (λ _. begun-Run _ (commit_with_repos env access i resources) s runs) (λ _. runs)

  -- A read by a key that has found nothing.
  missing_row :
      {Row : Type 0} (r : Result GormError Row) (e : Error)
      → mapped r ≡ err e
      → is_not_found e ≡ true
      → r ≡ err record_not_found
  unfolding mapped map_gorm_not_found
  missing_row (ok a) e h k = cc
  missing_row (err record_not_found) e h k = refl
  missing_row (err (failed n)) e h k = cc

  mapped_ok : {Row : Type 0} (r : Result GormError Row) (x : Row) → mapped r ≡ ok x → r ≡ ok x
  unfolding mapped
  mapped_ok (ok a) x h = cc
  mapped_ok (err e) x h = cc

  abbrev Ends :
      CloudManifestCommitInput → CloudState → CloudManifestCommitResult → CloudState → Type 0
  Ends i s a s' = IsReplayed i s a s' ⊎ IsCommitted i s a s'

  -- The same, of the tables before the checks.
  stored_from :
      (tick : ℕ) (access : CloudAccess) (i : CloudManifestCommitInput)
      (resources : List CloudResourceDescriptor) (s t : CloudState) (a : CloudManifestCommitResult)
      (s' : CloudState)
      → IsSameCloud s t
      → IsStored env tick access i resources t a s'
      → IsStored env tick access i resources s a s'
  stored_from tick access i resources s t a s' h x = record {
    session = x.session;
    project = x.project;
    authorized = record {
      there =
          subst (λ rows. session_row x.session.id rows ≡ some x.session) h.sessions
            x.authorized.there;
      named = x.authorized.named;
      usable = x.authorized.usable;
      for_project = x.authorized.for_project;
      owner = x.authorized.owner;
      client = x.authorized.client;
    };
    written =
        from_kept env access i resources x.session s t a s'
          (record { sessions = h.sessions; manifests = h.manifests }) x.written;
  }

  replay_or_commit-Ends :
      (access : CloudAccess) (i : CloudManifestCommitInput)
      (resources : List CloudResourceDescriptor) (s t : CloudState) (r : Result Error CloudManifest)
      → IsLawfulCloud env
      → IsGranted env i.user_id s access
      → normalize_cloud_resources i.resources ≡ ok resources
      → IsSameCloud s t
      → t.ticks ≡ after_quota env s.ticks
      → manifest_by_key env (trim i.idempotency_key) t ≡ r
      → OnOk (λ a s'. Ends i s a s') (replay_or_commit env access i resources r t)
  unfolding replay_or_commit manifest_by_key
  replay_or_commit-Ends access i resources s t (ok m) laws granted cleaned h ticks found =
      OnOk-mono (λ a u. (a.manifest ≡ m) × (m.user_id ≡ access.user.id) × IsSameCloud t u)
        (λ a u. Ends i s a u) _ (replay_manifest-Replayed access i m t laws)
        λ a u (shown, own, k).
          let row = laws.manifests.first_ok _ t.manifests m (mapped_ok _ m found) in
          inl (record {
            there =
                subst (λ n. lookup manifest_id_of n.id s.manifests ≡ some n) (sym shown)
                  (subst (λ rows. lookup manifest_id_of m.id rows ≡ some m) h.manifests row.1);
            keyed = ap (λ n. n.idempotency_key) shown ∙ (eq_iff m.idempotency_key _).0 row.0;
            of_user = ap (λ n. n.user_id) shown ∙ own ∙ granted.named;
            unchanged = same-trans h k;
          })
  replay_or_commit-Ends access i resources s t (err e) laws granted cleaned h ticks found =
      OnOk-if (λ a u. Ends i s a u) (is_not_found e) _ _ t
        (λ missing.
          OnOk-mono (λ a u. IsStored env t.ticks access i resources t a u) (λ a u. Ends i s a u) _
            (commit_with_transaction-Stored access i resources t laws)
            λ a u stored. inr (record {
              fresh =
                  subst (All (λ m. (m.idempotency_key == trim i.idempotency_key) ≡ false))
                    h.manifests
                    (laws.manifests.first_not_found _ t.manifests (missing_row _ e found missing));
              access = access;
              granted = granted;
              resources = resources;
              cleaned = cleaned;
              stored =
                  subst (λ n. IsStored env n access i resources s a u) ticks
                    (stored_from t.ticks access i resources s t a u h stored);
            }))
        (λ _. OnOk-raise _ _ t)

  commit-Ends :
      (i : CloudManifestCommitInput) (s : CloudState)
      → IsLawfulCloud env
      → OnOk (λ a s'. Ends i s a s') (commit_manifest env i s)
  unfolding commit_manifest require_configured_provider
  commit-Ends i s laws = OnOk-guard _ _ _ _ s λ _. OnOk-read _ _ _ s λ resources cleaned.
      OnOk-guard _ _ _ _ s λ _.
        OnOk-bind _ _ _ _ s (authorize_cloud_access-Passed env i.user_id s laws)
          λ access t (granted, h, ticks). OnOk-read _ _ _ t λ r found.
            let read : manifest_by_key env (trim i.idempotency_key) t ≡ r = cc in
            replay_or_commit-Ends access i resources s t r laws granted cleaned h ticks read

  -- Under the laws of GORM, for every request to commit a manifest that returns a result: either a
  -- manifest with the key of the request (up to white space), which is a row of the table and belongs to
  -- the user, is returned, and the projects, sessions, manifests and objects are as they were; or no
  -- manifest had that key, the table of grants had a grant of the user for cloud storage that was active,
  -- started and not expired at the time of the request, the quota is the positive amount that is promised
  -- for the plan of this grant, the session of the request was in the table, unused,
  -- authorized, not past its expiry at the time of the request, and for the user, the project and the
  -- resources, one manifest with the total of the resources was added, the session was marked as used for
  -- it and no other session was changed, and the usage that is returned is at least that total and at
  -- most the quota.
  -- The time is the second reading of the clock for the grant (the third if that is zero), and the next
  -- reading for the session.
  pub commit_manifest-Ends :
      (i : CloudManifestCommitInput) (s : CloudState) (a : CloudManifestCommitResult)
      → IsLawfulCloud env
      → (commit_manifest env i s).0 ≡ ok a
      → IsReplayed i s a (commit_manifest env i s).1 ⊎ IsCommitted i s a (commit_manifest env i s).1
  commit_manifest-Ends i s a laws returned =
      OnOk-value (λ a s'. Ends i s a s') _ a (commit-Ends i s laws) returned
