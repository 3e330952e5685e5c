-- ===== src/Domain/Registration.antt =====
-- Requests to unlock a capability: `RegistrationRequest` of internal/domain/models.go.
use walnut_billing.Prelude.{String, Option, none, some, if◌then◌else◌}
use walnut_billing.Prelude.Text.{◌==◌}
use walnut_billing.Domain.{Time}
use walnut_billing.Domain.Cloud.{GrantStatus}

pub data RegistrationStatus : Type 0 where
  pending approved rejected : RegistrationStatus

unfoldable pub registration_status_text : RegistrationStatus → String
registration_status_text RegistrationStatus.pending = "pending"
registration_status_text RegistrationStatus.approved = "approved"
registration_status_text RegistrationStatus.rejected = "rejected"

-- `validRegistrationStatus`, with the status that a text stands for.
unfoldable pub valid_registration_status : String → Option RegistrationStatus
valid_registration_status status =
    if status == "pending"
    then some RegistrationStatus.pending
    else if status == "approved"
    then some RegistrationStatus.approved
    else if status == "rejected"
    then some RegistrationStatus.rejected
    else none

unfoldable pub grant_status_text : GrantStatus → String
grant_status_text GrantStatus.active = "active"
grant_status_text GrantStatus.revoked = "revoked"
grant_status_text GrantStatus.expired = "expired"

pub record RegistrationRequest : Type 0 where
  pub id : String
  pub user_id : String
  pub email : String
  pub display_name : String
  pub requested_entitlement : String
  pub status : RegistrationStatus
  pub source : String
  pub device_id : String
  pub note : String
  pub review_note : String
  pub reviewed_by : String
  pub reviewed_at : Option Time
  pub created_at : Time
  pub updated_at : Time
