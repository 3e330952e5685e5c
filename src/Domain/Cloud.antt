-- ===== src/Domain/Cloud.antt =====
-- Cloud storage: internal/domain/cloud_storage.go, and `EntitlementGrant` of internal/domain/models.go.
use walnut_billing.Prelude.{String, Bool, true, false, Option}
use walnut_billing.Prelude.Int.{ℤ}
use walnut_billing.Domain.{Time}

pub data GrantStatus : Type 0 where
  active revoked expired : GrantStatus

abbrev pub is_active_grant : GrantStatus → Bool
is_active_grant GrantStatus.active = true
is_active_grant _ = false

-- A row of the grants; the source is a text, which other services set.
pub record EntitlementGrant : Type 0 where
  pub id : String
  pub user_id : String
  pub entitlement_id : String
  pub status : GrantStatus
  pub source : String
  pub starts_at : Time
  pub expires_at : Option Time
  pub created_by : String
  pub idempotency_key : Option String
  pub created_at : Time
  pub updated_at : Time
  pub revoked_at : Option Time

pub record CloudProject : Type 0 where
  pub id : String
  pub user_id : String
  pub client_project_id : String
  pub name : String
  pub status : String
  pub last_manifest_id : String
  pub created_at : Time
  pub updated_at : Time

pub record CloudManifest : Type 0 where
  pub id : String
  pub user_id : String
  pub cloud_project_id : String
  pub client_project_id : String
  pub manifest_hash : String
  pub manifest_version : ℤ
  pub object_count : ℤ
  pub total_bytes : ℤ
  pub status : String
  pub sync_session_id : String
  pub idempotency_key : String
  pub created_at : Time
  pub committed_at : Option Time

pub data ObjectStatus : Type 0 where
  active replaced deleted : ObjectStatus

abbrev pub is_active_object : ObjectStatus → Bool
is_active_object ObjectStatus.active = true
is_active_object _ = false

pub record CloudObject : Type 0 where
  pub id : String
  pub user_id : String
  pub cloud_project_id : String
  pub client_project_id : String
  pub manifest_id : String
  pub resource_id : String
  pub resource_kind : String
  pub object_key : String
  pub content_hash : String
  pub size_bytes : ℤ
  pub content_type : String
  pub status : ObjectStatus
  pub created_at : Time
  pub updated_at : Time

-- The status of a session. No code writes an empty one, which a commit would take as authorized too.
pub data SyncStatus : Type 0 where
  authorized committed expired : SyncStatus

abbrev pub is_authorized : SyncStatus → Bool
is_authorized SyncStatus.authorized = true
is_authorized _ = false

abbrev pub is_committed_sync : SyncStatus → Bool
is_committed_sync SyncStatus.committed = true
is_committed_sync _ = false

-- An upload authorization, which a later commit of a manifest uses.
pub record CloudSyncSession : Type 0 where
  pub id : String
  pub user_id : String
  pub cloud_project_id : String
  pub client_project_id : String
  pub provider : String
  pub resource_fingerprint : String
  pub requested_bytes : ℤ
  pub used_bytes : ℤ
  pub quota_bytes : ℤ
  pub status : SyncStatus
  pub manifest_id : String
  pub expires_at : Time
  pub created_at : Time
  pub updated_at : Time
  pub committed_at : Option Time
