-- ===== src/Tests/Cloud/World.antt =====
-- Tables of cloud storage in memory, an environment over them, and requests.
use walnut_billing.Prelude.{
  true, ◌+◌, String, refl, none, some, List, [], ◌∷◌, keep, ltb, if◌then◌else◌,
}
use walnut_billing.Prelude.Int.{pos, negsuc, ◌+ℤ◌, ◌-ℤ◌, neg}
use walnut_billing.Prelude.Word.{wrap64, add64, sub64}
use walnut_billing.Prelude.Text.{
  ◌==◌, is_space, is_empty, trim_left, put_right, trim_right, trim, take_text, text_lt,
}
use walnut_billing.Domain.{UserStatus}
use walnut_billing.Domain.Cloud.{CloudObject, GrantStatus}
use walnut_billing.Repository.Error.{Result, ok, map_gorm_not_found}
use walnut_billing.Repository.Table.{lookup, upsert}
use walnut_billing.Repository.Flow.{pure, raise, ◌>>=◌, raise_if, from_result, modify, mapped}
use walnut_billing.Credit.Ledger.{default_string}
use walnut_billing.Cloud.Errors.{CloudError}
use walnut_billing.Cloud.QuotaPolicy.{
  is_grant_active, normalize_quota_config, flag_grant, counts_for_cloud, flag_grants, plan_of,
  plan_for_grants, quota_of, decide_quota,
}
use walnut_billing.Cloud.Paths.{
  is_safe, is_edge, is_slash, replace_unsafe, cut_left, put_kept, cut_right, sanitize_path_segment,
  has_slash, after_slash, path_base, sanitize_filename, object_key_for,
}
use walnut_billing.Cloud.Resources.{
  CloudResourceDescriptor, clean_resource, is_bad_resource, same_resource, put_resource,
  seen_resources, resource_before, insert_resource, sort_resources, normalize_cloud_resources,
  sum_resource_bytes, sum_object_bytes, fingerprint_line, cloud_resource_fingerprint,
}
use walnut_billing.Cloud.World.{
  CloudState, CloudEnv, assign_columns, cloud_grant_matches, cloud_now, generate_cloud_id,
  create_project, update_project, project_by_id, project_by_client, create_session, update_session,
  session_by_id, create_manifest, manifest_by_key, upsert_object, update_object, object_by_key,
  active_objects, active_bytes, cloud_grants,
}
use walnut_billing.Cloud.Laws.{
  user_id_of, project_id_of, session_id_of, manifest_id_of, object_id_of, IsLawfulCloud,
}
use walnut_billing.Cloud.Entry.{
  projected_usage, require_configured_provider, cloud_user_by_id, load_active_user, wall_for,
  quota_decision, authorize_cloud_access, entitled_user,
}
use walnut_billing.Cloud.Authorize.{
  CloudSyncAuthorizationInput, lifecycle_tags, insert_target, sort_targets, rename_project,
  new_project, found_or_new_project, ensure_project, upload_targets, session_of,
  authorize_resources, authorize_sync,
}
use walnut_billing.Cloud.Commit.{
  CloudManifestCommitInput, usage_for, manifest_of, object_of, keeps_key, expire_session,
  validate_session, authorized_commit_session, store_objects, replace_objects, write_manifest,
  commit_with_repos,
}
use walnut_billing.Cloud.Manifest.{
  storage_usage, finish_commit, begun_commit, commit_with_transaction, replay_manifest,
  replay_or_commit, commit_manifest,
}
use walnut_billing.Cloud.Summaries.{CloudDownloadTargetInput, cloud_object_summary}
use walnut_billing.Cloud.Reads.{
  first_non_empty, own_project, project_for_latest_manifest, build_download_target,
}
use walnut_billing.Cloud.Requests.{after_cloud, after_clouds}
use walnut_billing.Tests.Engine.{
  memory_create, memory_save, first_from, memory_first, found_from, memory_find, memory_table,
  memory_table-IsTable,
}

-- The new row, or columns of it assigned to the row with its key.
unfoldable pub upsert_assigned :
    (CloudObject → String)
    → (CloudObject → CloudObject → CloudObject)
    → CloudObject
    → List CloudObject
    → List CloudObject
upsert_assigned key assign o [] = o ∷ []
upsert_assigned key assign o (x ∷ xs) =
    if key x == key o then assign o x ∷ xs else x ∷ upsert_assigned key assign o xs

abbrev pub cloud_env : CloudEnv
cloud_env = record {
  gorm = record {
    users = memory_table user_id_of;
    grants = memory_table (λ g. g.id);
    projects = memory_table project_id_of;
    sessions = memory_table session_id_of;
    manifests = memory_table manifest_id_of;
    objects = memory_table object_id_of;
    upsert_object = λ key assign o rows. ok (upsert_assigned key assign o rows);
    sum_objects = λ p rows. ok (sum_object_bytes (pos 0) (keep p rows));
    begin = λ s. ok tt;
    commit = λ s. ok tt;
    rollback = λ before now. before;
  };
  clock = λ n. 50 + n;
  random = λ n. some (if ltb n 4 then "1" else "2");
  config = record {
    default_quota_bytes = pos 5;
    trial_quota_bytes = pos 7;
    monthly_quota_bytes = pos 50;
    lifetime_quota_bytes = negsuc 0;
  };
  has_uow = true;
  provider_id = "s3";
  upload_target = λ t r. ok (record {
    object_key = r.object_key;
    upload_url = "put";
    method = "PUT";
    headers = [];
    provider = "s3";
  });
  download_target = λ t key. ok (record {
    object_key = key;
    download_url = "get";
    method = "GET";
    headers = [];
    provider = "s3";
    expires_at = 1000;
  });
  decimal = λ n. "n";
  digest = λ lines. "d";
}

abbrev pub start : CloudState
start = record {
  users =
      record {
        id = "u";
        email = "a@b.c";
        display_name = "A";
        status = UserStatus.active;
        created_at = 1;
        updated_at = 1;
      }
      ∷ [];
  grants =
      record {
        id = "g1";
        user_id = "u";
        entitlement_id = "cloud.storage";
        status = GrantStatus.active;
        source = "fulfillment";
        starts_at = 10;
        expires_at = some 1000;
        created_by = "";
        idempotency_key = none;
        created_at = 10;
        updated_at = 10;
        revoked_at = none;
      }
      ∷ [];
  projects = [];
  sessions = [];
  manifests = [];
  objects = [];
  ticks = 0;
  draws = 0;
}

abbrev pub ink : CloudResourceDescriptor
ink = record {
  resource_id = "a/b.png ";
  resource_kind = "ink";
  content_hash = "h1";
  size_bytes = pos 20;
  content_type = "";
  filename = "";
}

abbrev pub authorize_input : CloudSyncAuthorizationInput
authorize_input = record {
  user_id = " u";
  client_project_id = "p ";
  project_name = "P";
  resources = ink ∷ [];
}

abbrev pub commit_input : CloudManifestCommitInput
commit_input = record {
  user_id = "u";
  client_project_id = "p";
  project_name = "";
  sync_session_id = " csy_1";
  manifest_hash = "m";
  manifest_version = pos 0;
  resources = ink ∷ [];
  idempotency_key = "k ";
}

abbrev pub download_input : CloudDownloadTargetInput
download_input = record {
  user_id = "u";
  cloud_project_id = "";
  client_project_id = "";
  object_key = "accounts/u/projects/p/ink/h1/b.png";
}

-- The state of a run, with all the definitions that it goes through opened.
unfoldable pub cloud_after : {A : Type 0} → Result CloudError A × CloudState → CloudState
unfolding pure raise ◌>>=◌ raise_if from_result modify mapped default_string is_grant_active
    normalize_quota_config flag_grant counts_for_cloud flag_grants plan_of plan_for_grants quota_of
    decide_quota is_safe is_edge is_slash replace_unsafe cut_left put_kept cut_right
    sanitize_path_segment has_slash after_slash path_base sanitize_filename object_key_for
    clean_resource is_bad_resource same_resource put_resource seen_resources resource_before
    insert_resource sort_resources normalize_cloud_resources sum_resource_bytes sum_object_bytes
    fingerprint_line cloud_resource_fingerprint cloud_grant_matches cloud_now generate_cloud_id
    create_project update_project project_by_id project_by_client create_session update_session
    session_by_id create_manifest manifest_by_key upsert_object update_object object_by_key
    active_objects active_bytes cloud_grants projected_usage require_configured_provider
    cloud_user_by_id load_active_user wall_for quota_decision authorize_cloud_access entitled_user
    lifecycle_tags insert_target sort_targets rename_project new_project found_or_new_project
    ensure_project upload_targets session_of authorize_resources authorize_sync usage_for
    manifest_of object_of keeps_key expire_session validate_session authorized_commit_session
    store_objects replace_objects write_manifest commit_with_repos storage_usage finish_commit
    begun_commit commit_with_transaction replay_manifest replay_or_commit commit_manifest
    cloud_object_summary first_non_empty own_project project_for_latest_manifest
    build_download_target after_cloud after_clouds memory_create memory_save first_from memory_first
    found_from memory_find upsert_assigned assign_columns lookup upsert map_gorm_not_found wrap64
    add64 sub64 is_space is_empty trim_left put_right trim_right trim take_text text_lt ◌+ℤ◌ ◌-ℤ◌
    neg
cloud_after (r, s) = s

-- The state after the upload has been authorized.
abbrev pub authorized_state : CloudState
authorized_state = cloud_after (authorize_sync cloud_env authorize_input start)

pub cloud_env-IsLawful : IsLawfulCloud cloud_env
cloud_env-IsLawful = record {
  users = memory_table-IsTable user_id_of;
  grants = memory_table-IsTable (λ g. g.id);
  projects = memory_table-IsTable project_id_of;
  sessions = memory_table-IsTable session_id_of;
  manifests = memory_table-IsTable manifest_id_of;
  objects = memory_table-IsTable object_id_of;
  rolls_back = λ before now. refl;
}
