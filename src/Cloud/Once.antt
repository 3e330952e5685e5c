-- ===== src/Cloud/Once.antt =====
-- A session of an upload is used for one manifest.
use walnut_billing.Prelude.{
  String, ◌≡◌, refl, sym, ap, ◌∙◌, ◌⊎◌, inl, inr, true, false, some, List, [], ◌∷◌, All,
}
use mathlib.Core.Path.{subst}
use walnut_billing.Prelude.Text.{◌==◌, eq_iff, trim}
use walnut_billing.Domain.Cloud.{is_committed_sync}
use walnut_billing.Repository.Error.{ok}
use walnut_billing.Repository.Table.Lookup.{All-lookup, lookup-upsert}
use walnut_billing.Repository.Flow.Invariant.{Keeps-state}
use walnut_billing.Cloud.World.{CloudState, CloudEnv}
use walnut_billing.Cloud.Laws.{session_id_of, manifest_id_of, session_row, IsLawfulCloud}
use walnut_billing.Cloud.Commit.{CloudManifestCommitInput, CloudManifestCommitResult}
use walnut_billing.Cloud.Authorize.{authorize_sync}
use walnut_billing.Cloud.Manifest.{storage_usage, commit_manifest}
use walnut_billing.Cloud.Manifest.Outcome.{IsReplayed, IsCommitted, commit_manifest-Ends}
use walnut_billing.Cloud.Reads.{list_projects, latest_manifest, build_download_target}
use walnut_billing.Cloud.Requests.{
  CloudRequest, to_authorize, to_commit, usage_of, projects_for, latest_for, to_download,
  after_cloud, after_clouds,
}
use walnut_billing.Cloud.Used.{IsUsed, Any}
use walnut_billing.Cloud.Used.Reading.{
  storage_usage-Stays, list_projects-Stays, latest_manifest-Stays, build_download_target-Stays,
}
use walnut_billing.Cloud.Used.Authorizing.{authorize_sync-Stays}
use walnut_billing.Cloud.Used.Committing.{commit_manifest-Stays}

module _ (env : CloudEnv) (laws : IsLawfulCloud env) where
  after_cloud-Used :
      (id : String) (r : CloudRequest) (s : CloudState)
      → IsUsed id s
      → IsUsed id (after_cloud env r s)
  unfolding after_cloud
  after_cloud-Used id (to_authorize i) s h =
      Keeps-state (IsUsed id) Any (authorize_sync env i s) (authorize_sync-Stays id env laws i s h)
  after_cloud-Used id (to_commit i) s h =
      Keeps-state (IsUsed id) Any (commit_manifest env i s)
        (commit_manifest-Stays id env laws i s h)
  after_cloud-Used id (usage_of u) s h =
      Keeps-state (IsUsed id) Any (storage_usage env u s) (storage_usage-Stays id env u s h)
  after_cloud-Used id (projects_for q) s h =
      Keeps-state (IsUsed id) Any (list_projects env q s) (list_projects-Stays id env q s h)
  after_cloud-Used id (latest_for q) s h =
      Keeps-state (IsUsed id) Any (latest_manifest env q s) (latest_manifest-Stays id env q s h)
  after_cloud-Used id (to_download i) s h =
      Keeps-state (IsUsed id) Any (build_download_target env i s)
        (build_download_target-Stays id env i s h)

  after_clouds-Used :
      (id : String) (rs : List CloudRequest) (s : CloudState)
      → IsUsed id s
      → IsUsed id (after_clouds env rs s)
  unfolding after_clouds
  after_clouds-Used id [] s h = h
  after_clouds-Used id (r ∷ rs) s h =
      after_clouds-Used id rs (after_cloud env r s) (after_cloud-Used id r s h)

  -- A commit of a manifest uses its session.
  committed-Used :
      (i : CloudManifestCommitInput) (s : CloudState) (a : CloudManifestCommitResult)
      (s' : CloudState)
      → IsCommitted env i s a s'
      → IsUsed (trim i.sync_session_id) s'
  committed-Used i s a s' h =
      let w = h.stored.written in
      let named : (w.used.id == trim i.sync_session_id) ≡ true =
        (eq_iff w.used.id (trim i.sync_session_id)).1 (w.same_id ∙ h.stored.authorized.named) in
      record {
        session = w.used;
        there =
            ap (session_row (trim i.sync_session_id)) w.sessions
            ∙ lookup-upsert session_id_of (trim i.sync_session_id) w.used s.sessions
            ∙ rw named refl;
        is_used = w.is_used;
      }

  -- A used session cannot be committed again.
  used-Refused :
      (j : CloudManifestCommitInput) (s : CloudState) (b : CloudManifestCommitResult)
      (s' : CloudState)
      → IsUsed (trim j.sync_session_id) s
      → ¬ IsCommitted env j s b s'
  used-Refused j s b s' h k =
      let x = k.stored.session in
      let there : session_row (trim j.sync_session_id) s.sessions ≡ some x =
        subst (λ n. session_row n s.sessions ≡ some x) k.stored.authorized.named
          k.stored.authorized.there in
      let unused : is_committed_sync x.status ≡ false = k.stored.authorized.usable.unused in
      let both : some x ≡ some h.session = sym there ∙ h.there in let is : x ≡ h.session = cc in cc

  -- A manifest with the key of a request is not there if no manifest has that key.
  fresh-Committed :
      (i : CloudManifestCommitInput) (s : CloudState) (a : CloudManifestCommitResult)
      (s' : CloudState)
      → All (λ m. (m.idempotency_key == trim i.idempotency_key) ≡ false) s.manifests
      → IsReplayed env i s a s' ⊎ IsCommitted env i s a s'
      → IsCommitted env i s a s'
  fresh-Committed i s a s' fresh (inr committed) = committed
  fresh-Committed i s a s' fresh (inl replayed) =
      let other : (a.manifest.idempotency_key == trim i.idempotency_key) ≡ false =
        All-lookup manifest_id_of _ a.manifest.id a.manifest s.manifests fresh replayed.there in
      let own = (eq_iff a.manifest.idempotency_key (trim i.idempotency_key)).1 replayed.keyed in cc

  replay_only :
      (j : CloudManifestCommitInput) (s : CloudState) (b : CloudManifestCommitResult)
      (s' : CloudState)
      → IsUsed (trim j.sync_session_id) s
      → IsReplayed env j s b s' ⊎ IsCommitted env j s b s'
      → IsReplayed env j s b s'
  replay_only j s b s' used (inl replayed) = replayed
  replay_only j s b s' used (inr committed) = absurd (used-Refused j s b s' used committed)

  -- Under the laws of GORM: after a commit with a new key that has returned a result, and any sequence
  -- of further requests, a commit with the same session that returns a result returns a manifest that
  -- was already there, with the key of its request and of its user, and leaves the projects, sessions,
  -- manifests and objects as they are.
  pub commit_manifest_once :
      (i j : CloudManifestCommitInput) (s : CloudState) (rs : List CloudRequest)
      (a b : CloudManifestCommitResult)
      → All (λ m. (m.idempotency_key == trim i.idempotency_key) ≡ false) s.manifests
      → trim j.sync_session_id ≡ trim i.sync_session_id
      → (commit_manifest env i s).0 ≡ ok a
      → (commit_manifest env j (after_clouds env rs (commit_manifest env i s).1)).0 ≡ ok b
      → IsReplayed env j
          (after_clouds env rs (commit_manifest env i s).1)
          b
          (commit_manifest env j (after_clouds env rs (commit_manifest env i s).1)).1
  commit_manifest_once i j s rs a b fresh same first second =
      let between = after_clouds env rs (commit_manifest env i s).1 in
      let committed = fresh-Committed i s a _ fresh (commit_manifest-Ends env i s a laws first) in
      let used = after_clouds-Used _ rs _ (committed-Used i s a _ committed) in
      replay_only j between b _ (subst (λ k. IsUsed k between) (sym same) used)
        (commit_manifest-Ends env j between b laws second)
