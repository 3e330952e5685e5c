-- ===== src/Credit/Usage.antt =====
-- Usage metadata and usage records of internal/service/credit.go.
use walnut_billing.Prelude.{String, Option, none, some, List, [], ◌∷◌, if◌then◌else◌}
use walnut_billing.Prelude.Int.{ℤ}
use walnut_billing.Prelude.Text.{◌==◌, trim, is_empty}
use walnut_billing.Domain.{Time}
use walnut_billing.Domain.Credit.{CreditReservation, CreditTransaction, ReservationStatus}
use walnut_billing.Repository.World.{Env}
use walnut_billing.Credit.Ledger.{MetadataValue, text, bytes, other}

-- `metadata[key]`, with nil for a missing key.
unfoldable pub metadata_value : String → List (String × MetadataValue) → MetadataValue
metadata_value k [] = other
metadata_value k ((j, v) ∷ m) = if j == k then v else metadata_value k m

-- `toUsageMetadataString`
unfoldable pub to_usage_metadata_string : MetadataValue → String
to_usage_metadata_string (text s) = s
to_usage_metadata_string (bytes s) = s
to_usage_metadata_string other = ""

-- The keys that are kept.
abbrev pub usage_metadata_keys : List String
usage_metadata_keys = "project_id" ∷ "document_id" ∷ "conversation_id" ∷ "client_message_id" ∷ []

-- The loop of `sanitizedUsageMetadata` over the keys.
unfoldable pub sanitized_keys : List (String × MetadataValue) → List String → List (String × String)
unfolding metadata_value to_usage_metadata_string trim is_empty
sanitized_keys m [] = []
sanitized_keys m (k ∷ ks) =
    let value = trim (to_usage_metadata_string (metadata_value k m)) in
    if is_empty value then sanitized_keys m ks else (k, value) ∷ sanitized_keys m ks

-- `sanitizedUsageMetadata`
unfoldable pub sanitized_usage_metadata : List (String × MetadataValue) → List (String × String)
unfolding sanitized_keys
sanitized_usage_metadata [] = []
sanitized_usage_metadata (e ∷ m) = sanitized_keys (e ∷ m) usage_metadata_keys

-- `UsageRecord` of internal/domain/models.go
pub record UsageRecord : Type 0 where
  pub reservation_id : String
  pub user_id : String
  pub feature_id : String
  pub operation : String
  pub execution_id : String
  pub amount : ℤ
  pub status : ReservationStatus
  pub metadata : List (String × String)
  pub transactions : List CreditTransaction
  pub created_at : Time
  pub updated_at : Time
  pub committed_at : Option Time
  pub released_at : Option Time

module _ (env : Env) where
  -- `encodeUsageMetadata`
  unfoldable pub encode_usage_metadata : List (String × String) → String
  encode_usage_metadata [] = ""
  encode_usage_metadata (e ∷ m) = elim (env.marshal_metadata (e ∷ m)) [ none ↦ "" | some s ↦ s ]

  -- `decodeUsageMetadata`
  unfoldable pub decode_usage_metadata : String → List (String × String)
  unfolding trim is_empty
  decode_usage_metadata raw =
      if is_empty (trim raw)
      then []
      else elim (env.unmarshal_metadata (trim raw)) [ none ↦ [] | some m ↦ m ]

  -- `usageRecordFromReservation`
  unfoldable pub usage_record_from_reservation :
      CreditReservation → List CreditTransaction → UsageRecord
  unfolding decode_usage_metadata trim is_empty
  usage_record_from_reservation r transactions = record {
    reservation_id = r.id;
    user_id = r.user_id;
    feature_id = if is_empty (trim r.feature_id) then trim r.operation else trim r.feature_id;
    operation = r.operation;
    execution_id = r.execution_id;
    amount = r.amount;
    status = r.status;
    metadata = decode_usage_metadata r.metadata;
    transactions = transactions;
    created_at = r.created_at;
    updated_at = r.updated_at;
    committed_at = r.committed_at;
    released_at = r.released_at;
  }
