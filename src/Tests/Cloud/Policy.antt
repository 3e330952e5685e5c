-- ===== src/Tests/Cloud/Policy.antt =====
-- The theorems on cloud storage at concrete grants and keys.
use walnut_billing.Prelude.{◌≡◌, refl, true, none, some, [], ◌∷◌}
use walnut_billing.Prelude.Int.{pos, negsuc}
use walnut_billing.Domain.Cloud.{EntitlementGrant, GrantStatus}
use walnut_billing.Cloud.QuotaPolicy.{
  CloudStorageQuotaPolicyConfig, monthly, decide_quota, plan_for_grants, flag_grants, flag_grant,
  counts_for_cloud, is_grant_active, plan_of, quota_of, normalize_quota_config,
}
use walnut_billing.Cloud.QuotaPolicy.Best.{IsBest, best_rank, decide_quota-IsBest}
use walnut_billing.Cloud.Paths.{sanitize_path_segment, sanitize_filename, object_key_for}
use walnut_billing.Cloud.Paths.Safe.{IsSegment, sanitize_path_segment-IsSegment}
use walnut_billing.Cloud.Paths.Split.{split_slash, object_key_for-split}

abbrev trial_grant : EntitlementGrant
trial_grant = record {
  id = "g1";
  user_id = "u";
  entitlement_id = "cloud.storage";
  status = GrantStatus.active;
  source = "trial";
  starts_at = 10;
  expires_at = some 100;
  created_by = "";
  idempotency_key = none;
  created_at = 10;
  updated_at = 10;
  revoked_at = none;
}

abbrev pub monthly_grant : EntitlementGrant
monthly_grant = record trial_grant { id = "g2"; source = "fulfillment" }

abbrev old_lifetime_grant : EntitlementGrant
old_lifetime_grant = record trial_grant {
  id = "g3";
  source = "fulfillment";
  expires_at = none;
  status = GrantStatus.revoked;
}

abbrev config : CloudStorageQuotaPolicyConfig
config = record {
  default_quota_bytes = pos 5;
  trial_quota_bytes = pos 7;
  monthly_quota_bytes = pos 50;
  lifetime_quota_bytes = negsuc 0;
}

monthly_decision :
    decide_quota config 50 (trial_grant ∷ old_lifetime_grant ∷ monthly_grant ∷ []) 50
    ≡ record { plan = monthly; has_entitlement = true; quota_bytes = pos 50 }
unfolding decide_quota plan_for_grants flag_grants flag_grant counts_for_cloud is_grant_active
    plan_of quota_of normalize_quota_config
monthly_decision = refl

decide_quota-IsBest_example :
    IsBest config
      (best_rank 50 (trial_grant ∷ old_lifetime_grant ∷ monthly_grant ∷ []))
      (decide_quota config 50 (trial_grant ∷ old_lifetime_grant ∷ monthly_grant ∷ []) 50)
decide_quota-IsBest_example =
    decide_quota-IsBest config 50 (trial_grant ∷ old_lifetime_grant ∷ monthly_grant ∷ []) 50

sanitize_path_segment-IsSegment_example : IsSegment (sanitize_path_segment " ../My File?*.txt ")
sanitize_path_segment-IsSegment_example = sanitize_path_segment-IsSegment " ../My File?*.txt "

object_key_for-split_example :
    split_slash (object_key_for "u/1" "../p" "ink layer" "sha:1" "a/b.png")
    ≡ "accounts"
      ∷ sanitize_path_segment "u/1"
      ∷ "projects"
      ∷ sanitize_path_segment "../p"
      ∷ sanitize_path_segment "ink layer"
      ∷ sanitize_path_segment "sha:1"
      ∷ sanitize_filename "a/b.png"
      ∷ []
object_key_for-split_example = object_key_for-split "u/1" "../p" "ink layer" "sha:1" "a/b.png"
