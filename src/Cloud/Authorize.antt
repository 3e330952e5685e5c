-- ===== src/Cloud/Authorize.antt =====
-- `AuthorizeSync` of internal/service/cloud_storage.go: targets for an upload, and a session for it.
use walnut_billing.Prelude.{String, not, ◌&&◌, none, List, [], ◌∷◌, ◌+◌, if◌then◌else◌}
use walnut_billing.Prelude.Int.{ℤ, pos, ltb_ℤ}
use walnut_billing.Prelude.Text.{◌==◌, trim, is_empty, text_lt}
use walnut_billing.Domain.{Time}
use walnut_billing.Domain.Cloud.{CloudProject, CloudSyncSession, SyncStatus}
use walnut_billing.Repository.Error.{Error, Result, ok, err, is_not_found}
use walnut_billing.Repository.Flow.{pure, raise, ◌>>=◌, ◌>>◌, raise_if, from_result}
use walnut_billing.Cloud.Errors.{over_quota, invalid, repository}
use walnut_billing.Cloud.Paths.{sanitize_path_segment, object_key_for}
use walnut_billing.Cloud.Resources.{
  CloudResourceDescriptor, normalize_cloud_resources, sum_resource_bytes,
  cloud_resource_fingerprint,
}
use walnut_billing.Cloud.World.{
  CloudObjectLifecycleTag, CloudObjectUploadTarget, CloudEnv, CloudFlow, cloud_now,
  generate_cloud_id, create_project, update_project, project_by_client, create_session,
  active_objects,
}
use walnut_billing.Cloud.Entry.{
  projected_usage, require_configured_provider, authorize_cloud_access,
}

pub record CloudSyncAuthorizationInput : Type 0 where
  pub user_id : String
  pub client_project_id : String
  pub project_name : String
  pub resources : List CloudResourceDescriptor

pub record CloudSyncAuthorization : Type 0 where
  pub id : String
  pub user_id : String
  pub cloud_project_id : String
  pub client_project_id : String
  pub provider : String
  pub quota_bytes : ℤ
  pub used_bytes : ℤ
  pub requested_bytes : ℤ
  pub upload_targets : List CloudObjectUploadTarget
  pub expires_at : Time

-- `cloudObjectLifecycleTags`
unfoldable pub lifecycle_tags :
    String → String → String → CloudResourceDescriptor → List CloudObjectLifecycleTag
lifecycle_tags user_id cloud_project_id client_project_id r =
    record { key = "walnut.user_id"; value = sanitize_path_segment user_id }
    ∷ record { key = "walnut.cloud_project_id"; value = sanitize_path_segment cloud_project_id }
    ∷ record { key = "walnut.client_project_id"; value = sanitize_path_segment client_project_id }
    ∷ record { key = "walnut.resource_kind"; value = sanitize_path_segment r.resource_kind }
    ∷ []

-- `objectKeyFor`
abbrev pub key_of_resource : String → String → CloudResourceDescriptor → String
key_of_resource user_id client_project_id r =
    object_key_for user_id client_project_id r.resource_kind r.content_hash r.filename

-- `sort.Slice(targets, …)`
unfoldable pub insert_target :
    CloudObjectUploadTarget → List CloudObjectUploadTarget → List CloudObjectUploadTarget
insert_target t [] = t ∷ []
insert_target t (u ∷ us) =
    if text_lt t.object_key u.object_key then t ∷ u ∷ us else u ∷ insert_target t us

unfoldable pub sort_targets : List CloudObjectUploadTarget → List CloudObjectUploadTarget
unfolding insert_target
sort_targets [] = []
sort_targets (t ∷ ts) = insert_target t (sort_targets ts)

-- `15 * time.Minute`
abbrev pub quarter_hour : Time
quarter_hour = 900000000000

module _ (env : CloudEnv) where
  -- A project with another name in the request is renamed.
  unfoldable pub rename_project : String → CloudProject → CloudFlow CloudProject
  rename_project name p =
      if not (is_empty (trim name)) && not (p.name == trim name)
      then (do
        now ← cloud_now env
        update_project env (record p { name = trim name; updated_at = now })
        pure (record p { name = trim name; updated_at = now }))
      else pure p

  unfoldable pub new_project : String → String → String → CloudFlow CloudProject
  new_project user_id client_project_id name = do
    id ← generate_cloud_id env "cpr_"
    now ← cloud_now env
    let p : CloudProject = record {
      id = id;
      user_id = user_id;
      client_project_id = client_project_id;
      name = trim name;
      status = "active";
      last_manifest_id = "";
      created_at = now;
      updated_at = now;
    }
    create_project env p
    pure p

  unfoldable pub found_or_new_project :
      String → String → String → Result Error CloudProject → CloudFlow CloudProject
  found_or_new_project user_id client_project_id name (ok p) = rename_project name p
  found_or_new_project user_id client_project_id name (err e) =
      if is_not_found e then new_project user_id client_project_id name else raise (repository e)

  -- `ensureProject`
  unfoldable pub ensure_project : String → String → String → CloudFlow CloudProject
  ensure_project user_id client_project_id name = do
    raise_if (is_empty (trim client_project_id)) invalid
    found ← from_result (λ s. ok (project_by_client env user_id (trim client_project_id) s))
    found_or_new_project user_id (trim client_project_id) name found

  -- The loop over the resources that asks for targets.
  unfoldable pub upload_targets :
      String
      → String
      → String
      → List CloudResourceDescriptor
      → CloudFlow (List CloudObjectUploadTarget)
  upload_targets user_id project_id client_project_id [] = pure []
  upload_targets user_id project_id client_project_id (r ∷ rs) = do
    target ← from_result (λ s. env.upload_target s.ticks (record {
      object_key = key_of_resource user_id client_project_id r;
      content_type = r.content_type;
      size_bytes = r.size_bytes;
      content_hash = r.content_hash;
      lifecycle_tags = lifecycle_tags user_id project_id client_project_id r;
    }))
    targets ← upload_targets user_id project_id client_project_id rs
    pure (target ∷ targets)

  -- The row of a new session.
  unfoldable pub session_of :
      String
      → String
      → CloudProject
      → String
      → List CloudResourceDescriptor
      → ℤ
      → ℤ
      → Time
      → CloudSyncSession
  session_of id user_id project client_project_id resources used quota now = record {
    id = id;
    user_id = user_id;
    cloud_project_id = project.id;
    client_project_id = trim client_project_id;
    provider = env.provider_id;
    resource_fingerprint = cloud_resource_fingerprint env.decimal env.digest resources;
    requested_bytes = sum_resource_bytes (pos 0) resources;
    used_bytes = used;
    quota_bytes = quota;
    status = SyncStatus.authorized;
    manifest_id = "";
    expires_at = now + quarter_hour;
    created_at = now;
    updated_at = now;
    committed_at = none;
  }

  -- `AuthorizeSync`, of cleaned resources.
  unfoldable pub authorize_resources :
      CloudSyncAuthorizationInput → List CloudResourceDescriptor → CloudFlow CloudSyncAuthorization
  authorize_resources i resources = do
    access ← authorize_cloud_access env i.user_id
    project ← ensure_project access.user.id i.client_project_id i.project_name
    existing ← from_result (active_objects env project.id)
    raise_if (ltb_ℤ access.quota.quota_bytes (projected_usage access.used_bytes existing resources))
        over_quota
    targets ← upload_targets access.user.id project.id i.client_project_id resources
    id ← generate_cloud_id env "csy_"
    now ← cloud_now env
    create_session env (
        session_of id access.user.id project i.client_project_id resources access.used_bytes
          access.quota.quota_bytes now)
    pure (record {
      id = id;
      user_id = access.user.id;
      cloud_project_id = project.id;
      client_project_id = trim i.client_project_id;
      provider = env.provider_id;
      quota_bytes = access.quota.quota_bytes;
      used_bytes = access.used_bytes;
      requested_bytes = sum_resource_bytes (pos 0) resources;
      upload_targets = sort_targets targets;
      expires_at = now + quarter_hour;
    })

  -- `AuthorizeSync`
  unfoldable pub authorize_sync : CloudSyncAuthorizationInput → CloudFlow CloudSyncAuthorization
  authorize_sync i = do
    require_configured_provider env
    resources ← from_result (λ _. normalize_cloud_resources i.resources)
    authorize_resources i resources
