-- ===== src/Access/Login/Create.antt =====
-- `Create` of internal/service/access_login_challenge.go: a challenge for an email and a device.
pub mod Outcomes
pub mod Ends
use walnut_billing.Prelude.{
  String, Bool, true, false, not, ◌&&◌, ◌||◌, List, [], ◌∷◌, ◌-◌, ◌/◌, ltb, nat_eq, is_some, none,
  if◌then◌else◌,
}
use walnut_billing.Prelude.Int.{ℤ, pos, pos_part, ◌+ℤ◌, ltb_ℤ, leb_ℤ}
use walnut_billing.Prelude.Text.{trim, is_empty}
use walnut_billing.Domain.{Time}
use walnut_billing.Domain.Access.{
  AccessLoginChallenge, ChallengeStatus, is_pending_challenge, is_expired_challenge,
}
use walnut_billing.Repository.Error.{GormError, Error, Result, ok, err, is_not_found}
use walnut_billing.Repository.Flow.{Flow, pure, raise, ◌>>=◌, ◌>>◌, raise_if, from_result, modify}
use walnut_billing.Credit.Ledger.{default_string}
use walnut_billing.Access.Login.Policy.{AccessLoginChallengeRateLimit, ttl, rate_limit}
use walnut_billing.Access.Login.Metadata.{
  AccessLoginChallengeAbuseEvent, RequestMetadata, short_fingerprint, normalize_email, hash_token,
  request_metadata, stable_access_session_key,
}
use walnut_billing.Access.Login.Challenges.{
  LoginError, invalid, expired, failed, rate_limited, repository, database,
  AccessLoginChallengeDeliveryResult, LoginEnv, LoginState, challenge_by_idempotency_key,
  try_update_challenge, count_challenges, current_time, generate_token, generate_challenge_id,
  observe_abuse,
}

pub record AccessLoginChallengeCreateInput : Type 0 where
  pub email : String
  pub device_id : String
  pub source : String
  pub idempotency_key : String
  pub client_ip : String
  pub user_agent : String

pub record AccessLoginChallengeCreateResult : Type 0 where
  pub challenge_id : String
  pub email : String
  pub device_id : String
  pub expires_at : Time
  pub delivery : String
  pub dev_token : String

-- `t.Add(d)`, no earlier than Go's zero time.
unfoldable pub add_duration : Time → ℤ → Time
add_duration t d = pos_part (pos t +ℤ d)

-- `!expiresAt.IsZero() && !expiresAt.After(now)`
abbrev pub is_over : Time → Time → Bool
is_over expires_at now = not (nat_eq expires_at 0) && not (ltb now expires_at)

-- `createResult`
unfoldable pub create_result :
    AccessLoginChallenge → AccessLoginChallengeDeliveryResult → AccessLoginChallengeCreateResult
create_result c delivery = record {
  challenge_id = c.id;
  email = c.email;
  device_id = c.device_id;
  expires_at = c.expires_at;
  delivery = default_string (trim delivery.channel) "email";
  dev_token = delivery.dev_token;
}

-- `createdAfter := now.Add(-limit.Window)`, of a positive window; all times are after zero time.
abbrev pub window_start : Time → ℤ → Time
window_start now window = now - pos_part window

module _ {X R : Type 0} (env : LoginEnv X R) where
  -- The fields of a request, trimmed.
  unfoldable pub clean_create : AccessLoginChallengeCreateInput → AccessLoginChallengeCreateInput
  clean_create i = record {
    email = normalize_email env.digests i.email;
    device_id = trim i.device_id;
    source = default_string (trim i.source) "desktop";
    idempotency_key = trim i.idempotency_key;
    client_ip = trim i.client_ip;
    user_agent = trim i.user_agent;
  }

  -- `replayCreateResult`, at a time.
  unfoldable pub replay_at :
      AccessLoginChallenge → Time → Result LoginError AccessLoginChallengeCreateResult
  replay_at c now =
      if is_expired_challenge c.status || is_over c.expires_at now
      then err expired
      else if not (is_pending_challenge c.status) || is_some c.consumed_at
      then err failed
      else ok (create_result c (record { channel = "idempotent_replay"; dev_token = "" }))

  -- `replayCreateResult`, which reads the clock unless the challenge has no time or is expired.
  unfoldable pub replay_create_result :
      AccessLoginChallenge → Flow (LoginState X) LoginError AccessLoginChallengeCreateResult
  replay_create_result c =
      if is_expired_challenge c.status || nat_eq c.expires_at 0
      then from_result (λ _. replay_at c 0)
      else do now ← current_time env; from_result (λ _. replay_at c now)

  -- The event that a rate limit reports.
  unfoldable pub rate_limit_event : RequestMetadata → ℤ → ℤ → AccessLoginChallengeAbuseEvent
  rate_limit_event m window limit = record {
    challenge_id = "";
    email_fingerprint = m.email_fingerprint;
    device_id_fingerprint = m.device_id_fingerprint;
    client_ip_hash = short_fingerprint m.client_ip_hash;
    user_agent_hash = short_fingerprint m.user_agent_hash;
    reason = "rate_limited";
    attempts = pos 0;
    max_attempts = pos 0;
    limit_window_seconds = pos (pos_part window / 1000000000);
    limit = limit;
  }

  -- A limit that is met is reported.
  unfoldable pub limited :
      AccessLoginChallengeAbuseEvent → Flow (LoginState X) LoginError (Unit {0})
  limited event = do modify (observe_abuse env event); raise rate_limited

  -- One of the two limits: a count of the challenges in the window against a number.
  unfoldable pub enforce_limit :
      Bool
      → ℤ
      → RequestMetadata
      → ℤ
      → String
      → String
      → Time
      → Flow (LoginState X) LoginError (Unit {0})
  enforce_limit false max m window email ip after = pure tt
  enforce_limit true max m window email ip after = do
    n ← from_result (
        count_challenges env
          (record { email = email; client_ip_hash = ip; created_after = after; statuses = [] }))
    if leb_ℤ max (pos n) then limited (rate_limit_event m window max) else pure tt

  -- `enforceCreateRateLimit`
  unfoldable pub enforce_create_rate_limit :
      AccessLoginChallengeCreateInput
      → RequestMetadata
      → Time
      → Flow (LoginState X) LoginError (Unit {0})
  enforce_create_rate_limit i m now =
      let l = rate_limit env.config in
      if leb_ℤ l.window (pos 0) then pure tt else do
        enforce_limit (ltb_ℤ (pos 0) l.max_per_email) l.max_per_email m l.window i.email ""
            (window_start now l.window)
        enforce_limit (ltb_ℤ (pos 0) l.max_per_ip && not (is_empty m.client_ip_hash)) l.max_per_ip m
            l.window "" m.client_ip_hash (window_start now l.window)

  -- The row of a new challenge.
  unfoldable pub new_challenge :
      AccessLoginChallengeCreateInput
      → RequestMetadata
      → Time
      → String
      → String
      → AccessLoginChallenge
  new_challenge i m now token id = record {
    id = id;
    email = i.email;
    device_id = i.device_id;
    token_hash = hash_token env.digests env.secret token;
    status = ChallengeStatus.pending;
    attempts = pos 0;
    max_attempts = env.config.max_attempts;
    client_ip_hash = m.client_ip_hash;
    user_agent_hash = m.user_agent_hash;
    failure_reason = "";
    source = i.source;
    idempotency_key =
        if is_empty i.idempotency_key
        then stable_access_session_key env.digests
            ("login_challenge" ∷ i.email ∷ i.device_id ∷ id ∷ [])
        else i.idempotency_key;
    expires_at = add_duration now (ttl env.config);
    consumed_at = none;
    created_at = now;
    updated_at = now;
  }

  -- What follows a delivery: the result, or the challenge expires with an error.
  unfoldable pub after_delivery :
      AccessLoginChallenge
      → Result LoginError AccessLoginChallengeDeliveryResult
      → Flow (LoginState X) LoginError AccessLoginChallengeCreateResult
  after_delivery c (ok delivery) = pure (create_result c delivery)
  after_delivery c (err e) = do
    now ← current_time env
    modify
        (try_update_challenge env (record c { status = ChallengeStatus.expired; updated_at = now }))
    raise e

  -- `if existing, getErr := …GetByIdempotencyKey(…); getErr == nil { replay }; return nil, err`
  unfoldable pub replay_or_fail :
      GormError
      → Result Error AccessLoginChallenge
      → Flow (LoginState X) LoginError AccessLoginChallengeCreateResult
  replay_or_fail e (ok existing) = replay_create_result existing
  replay_or_fail e (err _) = raise (database e)

  -- What follows the attempt to store a new challenge.
  unfoldable pub after_store :
      AccessLoginChallenge
      → String
      → Result GormError (List AccessLoginChallenge)
      → Flow (LoginState X) LoginError AccessLoginChallengeCreateResult
  after_store c token (err e) = do
    existing ←
        from_result (λ s. ok (challenge_by_idempotency_key env c.idempotency_key s.challenges))
    replay_or_fail e existing
  after_store c token (ok rows) = do
    modify (λ s. record s { challenges = rows })
    sent ← from_result (λ s. ok (env.deliver s.ticks c token))
    after_delivery c sent

  -- `Create`, from the reading of the clock on.
  unfoldable pub create_new :
      AccessLoginChallengeCreateInput
      → Flow (LoginState X) LoginError AccessLoginChallengeCreateResult
  create_new i =
      let m =
        request_metadata env.digests env.secret i.email i.device_id i.client_ip i.user_agent in
      do
        now ← current_time env
        enforce_create_rate_limit i m now
        token ← generate_token env
        id ← generate_challenge_id env
        stored ←
            from_result (λ s. ok (env.table.create (new_challenge i m now token id) s.challenges))
        after_store (new_challenge i m now token id) token stored

  -- A challenge with the key of the request is replayed.
  unfoldable pub replay_or_create :
      AccessLoginChallengeCreateInput
      → Result Error AccessLoginChallenge
      → Flow (LoginState X) LoginError AccessLoginChallengeCreateResult
  replay_or_create i (ok existing) = replay_create_result existing
  replay_or_create i (err e) = if is_not_found e then create_new i else raise (repository e)

  unfoldable pub create_clean :
      AccessLoginChallengeCreateInput
      → Flow (LoginState X) LoginError AccessLoginChallengeCreateResult
  create_clean i = do
    raise_if (is_empty i.email || is_empty i.device_id) invalid
    from_result (λ _. env.ensure_available)
    if is_empty i.idempotency_key then create_new i else do
      existing ←
          from_result (λ s. ok (challenge_by_idempotency_key env i.idempotency_key s.challenges))
      replay_or_create i existing

  -- `Create`
  unfoldable pub create_challenge :
      AccessLoginChallengeCreateInput
      → Flow (LoginState X) LoginError AccessLoginChallengeCreateResult
  create_challenge i = create_clean (clean_create i)
