-- ===== src/Cloud/Summaries.antt =====
-- What the reading operations of internal/service/cloud_storage.go return: summaries of rows.
use walnut_billing.Prelude.{String, Bool, Option, none, some, List, [], ◌∷◌, map, if◌then◌else◌}
use walnut_billing.Prelude.Int.{ℤ}
use walnut_billing.Prelude.Text.{◌==◌, text_lt}
use walnut_billing.Domain.{Time}
use walnut_billing.Domain.Cloud.{CloudProject, CloudManifest, CloudObject, ObjectStatus}
use walnut_billing.Cloud.World.{CloudObjectDownloadTarget}

pub record CloudManifestSummary : Type 0 where
  pub id : String
  pub manifest_hash : String
  pub manifest_version : ℤ
  pub object_count : ℤ
  pub total_bytes : ℤ
  pub status : String
  pub committed_at : Option Time
  pub created_at : Time

pub record CloudObjectSummary : Type 0 where
  pub resource_id : String
  pub resource_kind : String
  pub object_key : String
  pub content_hash : String
  pub size_bytes : ℤ
  pub content_type : String
  pub status : ObjectStatus

pub record CloudStorageProjectSummary : Type 0 where
  pub id : String
  pub client_project_id : String
  pub name : String
  pub status : String
  pub last_manifest_id : String
  pub updated_at : Time
  pub latest_manifest : Option CloudManifestSummary

pub record CloudStorageProjectQuery : Type 0 where
  pub user_id : String
  pub status : String
  pub limit : ℤ
  pub offset : ℤ

pub record CloudStorageProjectList : Type 0 where
  pub user_id : String
  pub projects : List CloudStorageProjectSummary

pub record CloudStorageLatestManifestQuery : Type 0 where
  pub user_id : String
  pub cloud_project_id : String
  pub client_project_id : String

pub record CloudStorageLatestManifest : Type 0 where
  pub project : CloudStorageProjectSummary
  pub manifest : Option CloudManifestSummary
  pub objects : List CloudObjectSummary

pub record CloudDownloadTargetInput : Type 0 where
  pub user_id : String
  pub cloud_project_id : String
  pub client_project_id : String
  pub object_key : String

pub record CloudDownloadTargetAuthorization : Type 0 where
  pub user_id : String
  pub cloud_project_id : String
  pub client_project_id : String
  pub object : CloudObjectSummary
  pub download_target : CloudObjectDownloadTarget

-- `cloudManifestSummary`
unfoldable pub cloud_manifest_summary : Option CloudManifest → Option CloudManifestSummary
cloud_manifest_summary none = none
cloud_manifest_summary (some m) = some (record {
  id = m.id;
  manifest_hash = m.manifest_hash;
  manifest_version = m.manifest_version;
  object_count = m.object_count;
  total_bytes = m.total_bytes;
  status = m.status;
  committed_at = m.committed_at;
  created_at = m.created_at;
})

-- `cloudStorageProjectSummary`
unfoldable pub cloud_storage_project_summary :
    CloudProject → Option CloudManifest → CloudStorageProjectSummary
cloud_storage_project_summary p manifest = record {
  id = p.id;
  client_project_id = p.client_project_id;
  name = p.name;
  status = p.status;
  last_manifest_id = p.last_manifest_id;
  updated_at = p.updated_at;
  latest_manifest = cloud_manifest_summary manifest;
}

-- `cloudObjectSummary`
unfoldable pub cloud_object_summary : CloudObject → CloudObjectSummary
cloud_object_summary o = record {
  resource_id = o.resource_id;
  resource_kind = o.resource_kind;
  object_key = o.object_key;
  content_hash = o.content_hash;
  size_bytes = o.size_bytes;
  content_type = o.content_type;
  status = o.status;
}

-- The order of `sort.Slice`.
unfoldable pub summary_before : CloudObjectSummary → CloudObjectSummary → Bool
summary_before a b =
    if a.resource_kind == b.resource_kind
    then text_lt a.resource_id b.resource_id
    else text_lt a.resource_kind b.resource_kind

unfoldable pub insert_summary :
    CloudObjectSummary → List CloudObjectSummary → List CloudObjectSummary
insert_summary o [] = o ∷ []
insert_summary o (p ∷ ps) = if summary_before o p then o ∷ p ∷ ps else p ∷ insert_summary o ps

unfoldable pub sort_summaries : List CloudObjectSummary → List CloudObjectSummary
sort_summaries [] = []
sort_summaries (o ∷ os) = insert_summary o (sort_summaries os)

-- `cloudObjectSummaries`
unfoldable pub cloud_object_summaries : List CloudObject → List CloudObjectSummary
cloud_object_summaries os = sort_summaries (map cloud_object_summary os)
