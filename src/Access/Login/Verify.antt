-- ===== src/Access/Login/Verify.antt =====
-- `Verify` of internal/service/access_login_challenge.go: a token opens a session, once.
pub mod Outcomes
pub mod Ends
use walnut_billing.Prelude.{String, Bool, true, false, not, ◌&&◌, ◌||◌, is_some, if◌then◌else◌}
use Prim.Native.String.{◌++◌}
use walnut_billing.Prelude.Int.{ℤ, pos, ltb_ℤ, leb_ℤ}
use walnut_billing.Prelude.Word.{add64}
use walnut_billing.Prelude.Text.{◌==◌, trim, is_empty}
use walnut_billing.Domain.{Time}
use walnut_billing.Domain.Access.{AccessLoginChallenge, ChallengeStatus, is_pending_challenge}
use walnut_billing.Repository.Error.{Error, Result, ok, err, is_not_found}
use walnut_billing.Repository.Flow.{Flow, pure, raise, ◌>>=◌, ◌>>◌, raise_if, from_result, modify}
use walnut_billing.Credit.Ledger.{default_string}
use walnut_billing.Access.Login.Metadata.{
  AccessLoginChallengeAbuseEvent, short_fingerprint, email_fingerprint_of, device_fingerprint,
  hash_token,
}
use walnut_billing.Access.Login.Challenges.{
  LoginError, invalid, expired, failed, repository, AccessSessionInput, LoginEnv, LoginState,
  challenge_by_id, update_challenge, try_update_challenge, consume_pending, current_time,
  observe_abuse,
}
use walnut_billing.Access.Login.Create.{is_over}

pub record AccessLoginChallengeVerifyInput : Type 0 where
  pub challenge_id : String
  pub token : String
  pub device_id : String
  pub display_name : String
  pub source : String
  pub client_ip : String
  pub user_agent : String

-- The fields of a request, trimmed.
unfoldable pub clean_verify : AccessLoginChallengeVerifyInput → AccessLoginChallengeVerifyInput
clean_verify i = record i {
  challenge_id = trim i.challenge_id;
  token = trim i.token;
  device_id = trim i.device_id;
  source = default_string (trim i.source) "desktop";
  client_ip = trim i.client_ip;
  user_agent = trim i.user_agent;
}

-- `challenge.MaxAttempts > 0 && challenge.Attempts >= challenge.MaxAttempts`, after an attempt.
abbrev pub is_exhausted : AccessLoginChallenge → Bool
is_exhausted c = ltb_ℤ (pos 0) c.max_attempts && leb_ℤ c.max_attempts c.attempts

-- The challenge with one more attempt.
abbrev pub attempted : AccessLoginChallenge → Time → String → AccessLoginChallenge
attempted c now reason = record c {
  attempts = add64 c.attempts (pos 1);
  failure_reason = trim reason;
  updated_at = now;
}

-- The challenge as `recordFailedAttempt` stores it.
unfoldable pub failed_attempt : AccessLoginChallenge → Time → String → AccessLoginChallenge
failed_attempt c now reason =
    let c' = attempted c now reason in
    if is_exhausted c' then record c' { status = ChallengeStatus.expired } else c'

module _ {X R : Type 0} (env : LoginEnv X R) where
  -- The event that the last attempt reports.
  unfoldable pub max_attempts_event : AccessLoginChallenge → AccessLoginChallengeAbuseEvent
  max_attempts_event c = record {
    challenge_id = c.id;
    email_fingerprint = email_fingerprint_of env.digests c.email;
    device_id_fingerprint = device_fingerprint env.digests c.device_id;
    client_ip_hash = short_fingerprint c.client_ip_hash;
    user_agent_hash = short_fingerprint c.user_agent_hash;
    reason = "max_attempts_exceeded";
    attempts = c.attempts;
    max_attempts = c.max_attempts;
    limit_window_seconds = pos 0;
    limit = pos 0;
  }

  -- `recordFailedAttempt`, and the error that it returns.
  unfoldable pub record_failed_attempt :
      {A : Type 0} → AccessLoginChallenge → Time → String → Flow (LoginState X) LoginError A
  record_failed_attempt c now reason = do
    update_challenge env (failed_attempt c now reason)
    modify (λ s.
        if is_exhausted (attempted c now reason)
        then observe_abuse env (max_attempts_event (attempted c now reason)) s
        else s)
    raise failed

  -- `accessSession.RegisterOrRestore`
  unfoldable pub open_session : AccessSessionInput → Flow (LoginState X) LoginError R
  open_session i s =
      let (r, x) = env.register_or_restore i s.sessions in (r, record s { sessions = x })

  -- `Verify`, of a challenge whose token is right.
  unfoldable pub consume_and_open :
      AccessLoginChallengeVerifyInput
      → AccessLoginChallenge
      → Time
      → Flow (LoginState X) LoginError R
  consume_and_open i c now = do
    consumed ← consume_pending env c.id now
    raise_if (not consumed) failed
    open_session (record {
      email = c.email;
      display_name = i.display_name;
      device_id = i.device_id;
      source = i.source;
      note = "login_challenge:" ++ c.id;
    })

  -- `tokenHasher.Verify`
  unfoldable pub token_matches : String → AccessLoginChallenge → Bool
  token_matches token c = hash_token env.digests env.secret token == trim c.token_hash

  -- A challenge whose time is over expires.
  unfoldable pub expire_challenge :
      {A : Type 0} → AccessLoginChallenge → Time → Flow (LoginState X) LoginError A
  expire_challenge c now = do
    modify (
        try_update_challenge env (record c {
          status = ChallengeStatus.expired;
          failure_reason = "expired";
          updated_at = now;
        }))
    raise expired

  -- `Verify`, of a challenge that has been found, at a time.
  unfoldable pub verify_challenge :
      AccessLoginChallengeVerifyInput
      → AccessLoginChallenge
      → Time
      → Flow (LoginState X) LoginError R
  verify_challenge i c now =
      if not (is_pending_challenge c.status) || is_some c.consumed_at
      then raise failed
      else if is_over c.expires_at now
      then expire_challenge c now
      else if not (trim c.device_id == i.device_id)
      then record_failed_attempt c now "device_mismatch"
      else if not (token_matches i.token c)
      then record_failed_attempt c now "wrong_token"
      else consume_and_open i c now

  -- What follows the read of a challenge.
  unfoldable pub verify_found :
      AccessLoginChallengeVerifyInput
      → Result Error AccessLoginChallenge
      → Flow (LoginState X) LoginError R
  verify_found i (err e) = raise (if is_not_found e then failed else repository e)
  verify_found i (ok c) = do now ← current_time env; verify_challenge i c now

  unfoldable pub verify_clean : AccessLoginChallengeVerifyInput → Flow (LoginState X) LoginError R
  verify_clean i = do
    raise_if (is_empty i.challenge_id || is_empty i.token || is_empty i.device_id) invalid
    found ← from_result (λ s. ok (challenge_by_id env i.challenge_id s.challenges))
    verify_found i found

  -- `Verify`
  unfoldable pub verify : AccessLoginChallengeVerifyInput → Flow (LoginState X) LoginError R
  verify i = verify_clean (clean_verify i)
