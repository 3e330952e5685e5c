-- ===== src/Access/Login/Metadata.antt =====
-- What a request is reduced to before it is stored or reported: hashes and fingerprints of
-- internal/service/access_login_challenge.go and internal/service/access_admin.go.
use walnut_billing.Prelude.{String, List, map, if◌then◌else◌}
use Prim.Native.String.{◌++◌}
use walnut_billing.Prelude.Int.{ℤ}
use walnut_billing.Prelude.Text.{take_text, trim, is_empty}

-- The functions of Go's library that are not followed further: `strings.ToLower`, and SHA-256 and
-- HMAC-SHA-256 in hexadecimal digits. `sha256_parts` hashes texts that each end with a zero byte.
pub record Digests : Type 0 where
  pub to_lower : String → String
  pub sha256 : String → String
  pub sha256_parts : List String → String
  pub hmac_sha256 : String → String → String

pub record AccessLoginChallengeAbuseEvent : Type 0 where
  pub challenge_id : String
  pub email_fingerprint : String
  pub device_id_fingerprint : String
  pub client_ip_hash : String
  pub user_agent_hash : String
  pub reason : String
  pub attempts : ℤ
  pub max_attempts : ℤ
  pub limit_window_seconds : ℤ
  pub limit : ℤ

pub record RequestMetadata : Type 0 where
  pub email_fingerprint : String
  pub device_id_fingerprint : String
  pub client_ip_hash : String
  pub user_agent_hash : String

-- `shortFingerprint`
unfoldable pub short_fingerprint : String → String
short_fingerprint value = take_text 12 (trim value)

module _ (go : Digests) where
  -- `normalizeEmail`
  unfoldable pub normalize_email : String → String
  normalize_email email = go.to_lower (trim email)

  -- `emailFingerprint`
  unfoldable pub email_fingerprint_of : String → String
  email_fingerprint_of email =
      if is_empty (normalize_email email)
      then ""
      else take_text 12 (go.sha256 ("walnut-access-admin-v1:" ++ normalize_email email))

  -- `deviceFingerprint`
  unfoldable pub device_fingerprint : String → String
  device_fingerprint device_id =
      if is_empty (trim device_id)
      then ""
      else take_text 12 (go.sha256 ("walnut-access-device-v1:" ++ trim device_id))

  -- `stableAccessSessionKey`
  unfoldable pub stable_access_session_key : List String → String
  stable_access_session_key parts = "acs_" ++ go.sha256_parts (map trim parts)

  module _ (secret : String) where
    -- `HMACAccessLoginTokenHasher.Hash`
    unfoldable pub hash_token : String → String
    hash_token token =
        go.hmac_sha256
          (if is_empty (trim secret) then "walnut-dev-login-challenge-secret" else trim secret)
          (trim token)

    -- `accessLoginChallengeHash`
    unfoldable pub access_login_challenge_hash : String → String → String
    access_login_challenge_hash scope value =
        if is_empty (trim value)
        then ""
        else hash_token ("metadata:" ++ (trim scope ++ (":" ++ trim value)))

    -- `newAccessLoginChallengeRequestMetadata`
    unfoldable pub request_metadata : String → String → String → String → RequestMetadata
    request_metadata email device_id client_ip user_agent = record {
      email_fingerprint = email_fingerprint_of email;
      device_id_fingerprint = device_fingerprint device_id;
      client_ip_hash = access_login_challenge_hash "client_ip" client_ip;
      user_agent_hash = access_login_challenge_hash "user_agent" user_agent;
    }
