-- ===== src/Tests/Cloud/Runs.antt =====
-- The theorems on cloud storage at concrete requests.
use walnut_billing.Prelude.{◌≡◌, refl, false, ◌⊎◌, [], ◌∷◌, All, length}
use walnut_billing.Prelude.Text.{◌==◌, trim}
use walnut_billing.Repository.Error.{Result, ok, err}
use walnut_billing.Cloud.Errors.{CloudError}
use walnut_billing.Cloud.World.{CloudState}
use walnut_billing.Cloud.Commit.{CloudManifestCommitResult}
use walnut_billing.Cloud.Manifest.{commit_manifest}
use walnut_billing.Cloud.Manifest.Outcome.{IsReplayed, IsCommitted, commit_manifest-Ends}
use walnut_billing.Cloud.Summaries.{CloudDownloadTargetAuthorization}
use walnut_billing.Cloud.Reads.{build_download_target}
use walnut_billing.Cloud.Reads.Own.{IsOwnDownload, build_download_target-IsOwn}
use walnut_billing.Cloud.Requests.{to_authorize, after_clouds}
use walnut_billing.Cloud.Once.{commit_manifest_once}
use walnut_billing.Tests.Cloud.World.{
  cloud_env, authorize_input, commit_input, download_input, cloud_after, authorized_state,
  cloud_env-IsLawful,
}

abbrev IsValue : {A : Type 0} → Result CloudError A → Type 0
IsValue (ok a) = Unit {0}
IsValue (err e) = ⊥

abbrev value : {A : Type 0} → (r : Result CloudError A) → IsValue r → A
value (ok a) h = a
value (err e) h = absurd h

value_is : {A : Type 0} → (r : Result CloudError A) (h : IsValue r) → r ≡ ok (value r h)
value_is (ok a) h = refl
value_is (err e) h = absurd h

one_session : length authorized_state.sessions ≡ 1
unfolding cloud_after
one_session = refl

commit_works : IsValue (commit_manifest cloud_env commit_input authorized_state).0
unfolding cloud_after
commit_works = tt

-- What the first commit returns.
abbrev first : CloudManifestCommitResult
first = value (commit_manifest cloud_env commit_input authorized_state).0 commit_works

-- The state after the commit and one more authorization.
abbrev later : CloudState
later =
    after_clouds cloud_env (to_authorize authorize_input ∷ [])
      (commit_manifest cloud_env commit_input authorized_state).1

two_sessions : length later.sessions ≡ 2
unfolding cloud_after
two_sessions = refl

again_works : IsValue (commit_manifest cloud_env commit_input later).0
unfolding cloud_after
again_works = tt

abbrev again : CloudManifestCommitResult
again = value (commit_manifest cloud_env commit_input later).0 again_works

download_works : IsValue (build_download_target cloud_env download_input later).0
unfolding cloud_after
download_works = tt

abbrev target : CloudDownloadTargetAuthorization
target = value (build_download_target cloud_env download_input later).0 download_works

no_manifests :
    All
      (λ m. (m.idempotency_key == trim commit_input.idempotency_key) ≡ false)
      authorized_state.manifests
unfolding cloud_after
no_manifests = tt

commit_manifest-Ends_example :
    IsReplayed cloud_env commit_input authorized_state first
      (commit_manifest cloud_env commit_input authorized_state).1
    ⊎ IsCommitted cloud_env commit_input authorized_state first
        (commit_manifest cloud_env commit_input authorized_state).1
commit_manifest-Ends_example =
    commit_manifest-Ends cloud_env commit_input authorized_state first cloud_env-IsLawful
      (value_is (commit_manifest cloud_env commit_input authorized_state).0 commit_works)

commit_manifest_once_example :
    IsReplayed cloud_env commit_input later again (commit_manifest cloud_env commit_input later).1
commit_manifest_once_example =
    commit_manifest_once cloud_env cloud_env-IsLawful commit_input commit_input authorized_state
      (to_authorize authorize_input ∷ []) first again no_manifests refl
      (value_is (commit_manifest cloud_env commit_input authorized_state).0 commit_works)
      (value_is (commit_manifest cloud_env commit_input later).0 again_works)

build_download_target-IsOwn_example : IsOwnDownload cloud_env download_input later target
build_download_target-IsOwn_example =
    build_download_target-IsOwn cloud_env download_input later target cloud_env-IsLawful
      (value_is (build_download_target cloud_env download_input later).0 download_works)
