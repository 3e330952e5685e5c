-- ===== src/Cloud/Resources.antt =====
-- The resources of a request of internal/service/cloud_storage.go: `normalizeCloudResources`, the
-- sums of bytes and the fingerprint.
use walnut_billing.Prelude.{String, Bool, ◌&&◌, ◌||◌, List, [], ◌∷◌, map, if◌then◌else◌}
use walnut_billing.Prelude.Int.{ℤ, pos, ltb_ℤ}
use walnut_billing.Prelude.Word.{add64}
use walnut_billing.Prelude.Text.{◌==◌, trim, is_empty, text_lt}
use walnut_billing.Domain.Cloud.{CloudObject}
use walnut_billing.Repository.Error.{Result, ok, err}
use walnut_billing.Credit.Ledger.{default_string}
use walnut_billing.Cloud.Errors.{CloudError, invalid}
use walnut_billing.Cloud.Paths.{path_base, sanitize_path_segment, sanitize_filename}

pub record CloudResourceDescriptor : Type 0 where
  pub resource_id : String
  pub resource_kind : String
  pub content_hash : String
  pub size_bytes : ℤ
  pub content_type : String
  pub filename : String

-- The fields of a resource, cleaned.
unfoldable pub clean_resource : CloudResourceDescriptor → CloudResourceDescriptor
clean_resource r = record r {
  resource_id = trim r.resource_id;
  resource_kind = sanitize_path_segment (default_string r.resource_kind "resource");
  content_hash = trim r.content_hash;
  content_type = default_string (trim r.content_type) "application/octet-stream";
  filename = sanitize_filename (default_string r.filename (path_base (trim r.resource_id)));
}

unfoldable pub is_bad_resource : CloudResourceDescriptor → Bool
is_bad_resource r = is_empty r.resource_id || is_empty r.content_hash || ltb_ℤ r.size_bytes (pos 0)

-- The same key of the map: a kind has no zero byte, so the key tells the kind and the id.
unfoldable pub same_resource : CloudResourceDescriptor → CloudResourceDescriptor → Bool
same_resource a b = (a.resource_kind == b.resource_kind) && (a.resource_id == b.resource_id)

-- `seen[key] = resource`
unfoldable pub put_resource :
    CloudResourceDescriptor → List CloudResourceDescriptor → List CloudResourceDescriptor
unfolding same_resource
put_resource r [] = r ∷ []
put_resource r (s ∷ seen) = if same_resource s r then r ∷ seen else s ∷ put_resource r seen

-- The loop over the resources, after those in `seen`.
unfoldable pub seen_resources :
    List CloudResourceDescriptor
    → List CloudResourceDescriptor
    → Result CloudError (List CloudResourceDescriptor)
unfolding clean_resource is_bad_resource put_resource
seen_resources seen [] = ok seen
seen_resources seen (r ∷ rs) =
    let rest = seen_resources (put_resource (clean_resource r) seen) rs in
    if is_bad_resource (clean_resource r) then err invalid else rest

-- The order of `sort.Slice`.
unfoldable pub resource_before : CloudResourceDescriptor → CloudResourceDescriptor → Bool
resource_before a b =
    if a.resource_kind == b.resource_kind
    then text_lt a.resource_id b.resource_id
    else text_lt a.resource_kind b.resource_kind

unfoldable pub insert_resource :
    CloudResourceDescriptor → List CloudResourceDescriptor → List CloudResourceDescriptor
unfolding resource_before
insert_resource r [] = r ∷ []
insert_resource r (s ∷ ss) = if resource_before r s then r ∷ s ∷ ss else s ∷ insert_resource r ss

unfoldable pub sort_resources : List CloudResourceDescriptor → List CloudResourceDescriptor
unfolding insert_resource
sort_resources [] = []
sort_resources (r ∷ rs) = insert_resource r (sort_resources rs)

-- What follows the loop.
abbrev pub sorted_result :
    Result CloudError (List CloudResourceDescriptor)
    → Result CloudError (List CloudResourceDescriptor)
sorted_result (ok seen) = ok (sort_resources seen)
sorted_result (err e) = err e

-- `normalizeCloudResources`
unfoldable pub normalize_cloud_resources :
    List CloudResourceDescriptor → Result CloudError (List CloudResourceDescriptor)
unfolding seen_resources sort_resources
normalize_cloud_resources [] = err invalid
normalize_cloud_resources (r ∷ rs) = sorted_result (seen_resources [] (r ∷ rs))

-- `sumResourceBytes`, after a total.
unfoldable pub sum_resource_bytes : ℤ → List CloudResourceDescriptor → ℤ
sum_resource_bytes total [] = total
sum_resource_bytes total (r ∷ rs) = sum_resource_bytes (add64 total r.size_bytes) rs

-- `sumObjectBytes`, after a total.
unfoldable pub sum_object_bytes : ℤ → List CloudObject → ℤ
sum_object_bytes total [] = total
sum_object_bytes total (o ∷ os) = sum_object_bytes (add64 total o.size_bytes) os

-- A line of the fingerprint, by its fields, with `%d` a parameter.
unfoldable pub fingerprint_line : (ℤ → String) → CloudResourceDescriptor → List String
fingerprint_line decimal r =
    r.resource_kind
    ∷ r.resource_id
    ∷ r.content_hash
    ∷ decimal r.size_bytes
    ∷ r.content_type
    ∷ r.filename
    ∷ []

-- `cloudResourceFingerprint`; the digest takes lines of fields, each field but the last with a zero
-- byte after it and each line with a newline.
unfoldable pub cloud_resource_fingerprint :
    (ℤ → String) → (List (List String) → String) → List CloudResourceDescriptor → String
unfolding sort_resources fingerprint_line
cloud_resource_fingerprint decimal digest rs =
    digest (map (fingerprint_line decimal) (sort_resources rs))
