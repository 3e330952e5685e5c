-- ===== src/Domain/Access.antt =====
-- Login challenges: `AccessLoginChallenge` of internal/domain/models.go.
use walnut_billing.Prelude.{String, Bool, true, false, Option}
use walnut_billing.Prelude.Int.{ℤ}
use walnut_billing.Domain.{Time}

pub data ChallengeStatus : Type 0 where
  pending consumed expired : ChallengeStatus

abbrev pub is_pending_challenge : ChallengeStatus → Bool
is_pending_challenge ChallengeStatus.pending = true
is_pending_challenge _ = false

abbrev pub is_expired_challenge : ChallengeStatus → Bool
is_expired_challenge ChallengeStatus.expired = true
is_expired_challenge _ = false

unfoldable pub challenge_status_text : ChallengeStatus → String
challenge_status_text ChallengeStatus.pending = "pending"
challenge_status_text ChallengeStatus.consumed = "consumed"
challenge_status_text ChallengeStatus.expired = "expired"

pub record AccessLoginChallenge : Type 0 where
  pub id : String
  pub email : String
  pub device_id : String
  pub token_hash : String
  pub status : ChallengeStatus
  pub attempts : ℤ
  pub max_attempts : ℤ
  pub client_ip_hash : String
  pub user_agent_hash : String
  pub failure_reason : String
  pub source : String
  pub idempotency_key : String
  pub expires_at : Time
  pub consumed_at : Option Time
  pub created_at : Time
  pub updated_at : Time
