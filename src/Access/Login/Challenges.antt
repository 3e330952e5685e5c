-- ===== src/Access/Login/Challenges.antt =====
-- `AccessLoginChallengeRepo` of internal/repository/gorm_repo/access_login_challenge.go, and the
-- state and the environment of the service that uses it.
use walnut_billing.Prelude.{
  ℕ, String, Bool, true, false, not, ◌&&◌, ◌||◌, Option, none, some, List, [], ◌∷◌, ◌++◌, leb,
  nat_eq, is_some, suc, if◌then◌else◌,
}
use Prim.Native.String
use walnut_billing.Prelude.Text.{◌==◌, trim, is_empty}
use walnut_billing.Domain.{Time}
use walnut_billing.Domain.Access.{
  AccessLoginChallenge, ChallengeStatus, is_pending_challenge, challenge_status_text,
}
use walnut_billing.Repository.Error.{GormError, Error, Result, ok, err, entropy}
use walnut_billing.Repository.Table.{Table}
use walnut_billing.Repository.Table.Bulk.{Bulk}
use walnut_billing.Repository.Flow.{Flow, mapped}
use walnut_billing.Access.Login.Policy.{AccessLoginChallengePolicyConfig}
use walnut_billing.Access.Login.Metadata.{Digests, AccessLoginChallengeAbuseEvent}

-- The errors of the service; `interface` is an error of a delivery or of the session service.
pub data LoginError : Type 0 where
  invalid expired failed delivery_unavailable rate_limited : LoginError
  repository : Error → LoginError
  database : GormError → LoginError
  interface : ℕ → LoginError

pub record AccessLoginChallengeDeliveryResult : Type 0 where
  pub channel : String
  pub dev_token : String

-- `AccessSessionInput` of internal/service/access_session.go
pub record AccessSessionInput : Type 0 where
  pub email : String
  pub display_name : String
  pub device_id : String
  pub source : String
  pub note : String

-- The dependencies of the service, and the configuration of its policy and hasher. A session
-- service with a state `X` gives a result `R`. A run reads the clock, the token generator and the
-- random source by how often they have been read.
pub record LoginEnv (X R : Type 0) : Type 0 where
  pub table : Table AccessLoginChallenge
  pub bulk : Bulk AccessLoginChallenge
  pub clock : ℕ → Time
  pub token : ℕ → Option String
  pub random : ℕ → Option String
  pub digests : Digests
  pub secret : String
  pub config : AccessLoginChallengePolicyConfig
  pub ensure_available : Result LoginError (Unit {0})
  pub deliver :
      ℕ → AccessLoginChallenge → String → Result LoginError AccessLoginChallengeDeliveryResult
  pub has_abuse_observer : Bool
  pub register_or_restore : AccessSessionInput → X → Result LoginError R × X

-- The rows of the challenges, the session service, how often the clock and the random sources have
-- been read, and the events that the observer has been told, the last one first.
pub record LoginState (X : Type 0) : Type 0 where
  pub challenges : List AccessLoginChallenge
  pub sessions : X
  pub ticks : ℕ
  pub draws : ℕ
  pub abuse : List AccessLoginChallengeAbuseEvent

pub record AccessLoginChallengeQuery : Type 0 where
  pub email : String
  pub client_ip_hash : String
  pub created_after : Time
  pub statuses : List String

unfoldable pub text_in : String → List String → Bool
text_in t [] = false
text_in t (s ∷ ss) = (s == t) || text_in t ss

-- The loop of `normalizeAccessLoginChallengeStatuses`, after the statuses in `result`.
unfoldable pub normalize_statuses : List String → List String → List String
unfolding text_in
normalize_statuses result [] = result
normalize_statuses result (s ∷ ss) =
    normalize_statuses
      (if is_empty (trim s) || text_in (trim s) result then result else result ++ trim s ∷ []) ss

abbrev pub in_statuses : List String → String → Bool
in_statuses [] status = true
in_statuses (s ∷ ss) status = text_in status (s ∷ ss)

-- The condition of `Count`.
unfoldable pub challenge_matches : AccessLoginChallengeQuery → AccessLoginChallenge → Bool
challenge_matches q c =
    (is_empty (trim q.email) || (c.email == trim q.email))
    && (is_empty (trim q.client_ip_hash) || (c.client_ip_hash == trim q.client_ip_hash))
    && (nat_eq q.created_after 0 || leb q.created_after c.created_at)
    && in_statuses (normalize_statuses [] q.statuses) (challenge_status_text c.status)

-- The condition of `ConsumePending`.
unfoldable pub is_consumable : String → AccessLoginChallenge → Bool
is_consumable id c = (c.id == id) && is_pending_challenge c.status && not (is_some c.consumed_at)

-- The row that `ConsumePending` leaves.
abbrev pub consumed_row : Time → AccessLoginChallenge → AccessLoginChallenge
consumed_row t c = record c {
  status = ChallengeStatus.consumed;
  consumed_at = some t;
  updated_at = t;
}

module _ {X R : Type 0} (env : LoginEnv X R) where
  -- `GetByID`
  unfoldable pub challenge_by_id :
      String → List AccessLoginChallenge → Result Error AccessLoginChallenge
  unfolding mapped
  challenge_by_id id rows = mapped (env.table.first (λ c. c.id == id) rows)

  -- `GetByIdempotencyKey`
  unfoldable pub challenge_by_idempotency_key :
      String → List AccessLoginChallenge → Result Error AccessLoginChallenge
  unfolding mapped
  challenge_by_idempotency_key key rows =
      mapped (env.table.first (λ c. c.idempotency_key == key) rows)

  abbrev pub with_rows :
      {A : Type 0}
      → A
      → LoginState X
      → Result GormError (List AccessLoginChallenge)
      → Result LoginError A × LoginState X
  with_rows a s (ok rows) = (ok a, record s { challenges = rows })
  with_rows a s (err e) = (err (database e), s)

  -- `Update`
  unfoldable pub update_challenge : AccessLoginChallenge → Flow (LoginState X) LoginError (Unit {0})
  update_challenge c s = with_rows tt s (env.table.save c s.challenges)

  abbrev pub try_rows : LoginState X → Result GormError (List AccessLoginChallenge) → LoginState X
  try_rows s (ok rows) = record s { challenges = rows }
  try_rows s (err _) = s

  -- `_ = s.challenges.Update(ctx, challenge)`
  unfoldable pub try_update_challenge : AccessLoginChallenge → LoginState X → LoginState X
  try_update_challenge c s = try_rows s (env.table.save c s.challenges)

  -- `Count`
  unfoldable pub count_challenges : AccessLoginChallengeQuery → LoginState X → Result LoginError ℕ
  unfolding challenge_matches
  count_challenges q s = elim (env.bulk.count (challenge_matches q) s.challenges) [
    | ok n ↦ ok n
    | err e ↦ err (database e)
  ]

  abbrev pub with_count :
      LoginState X
      → Result GormError (ℕ × List AccessLoginChallenge)
      → Result LoginError Bool × LoginState X
  with_count s (ok (n, rows)) = (ok (not (nat_eq n 0)), record s { challenges = rows })
  with_count s (err e) = (err (database e), s)

  -- `ConsumePending`
  unfoldable pub consume_pending : String → Time → Flow (LoginState X) LoginError Bool
  unfolding is_consumable
  consume_pending id t s =
      with_count s (env.bulk.updates (is_consumable id) (consumed_row t) s.challenges)

  -- `currentTime`
  unfoldable pub current_time : Flow (LoginState X) LoginError Time
  current_time s = (ok (env.clock s.ticks), record s { ticks = suc s.ticks })

  abbrev pub drawn : Option String → Result LoginError String
  drawn none = err (repository entropy)
  drawn (some t) = ok t

  -- `tokenGenerator.Generate`
  unfoldable pub generate_token : Flow (LoginState X) LoginError String
  generate_token s = (drawn (env.token s.draws), record s { draws = suc s.draws })

  abbrev pub prefixed : String → Option String → Result LoginError String
  prefixed prefix none = err (repository entropy)
  prefixed prefix (some digits) = ok (String.◌++◌ prefix digits)

  -- `generateEntityID`
  unfoldable pub generate_challenge_id : Flow (LoginState X) LoginError String
  generate_challenge_id s = (prefixed "alc_" (env.random s.draws), record s { draws = suc s.draws })

  -- `observeAbuse`
  unfoldable pub observe_abuse : AccessLoginChallengeAbuseEvent → LoginState X → LoginState X
  observe_abuse event s = if env.has_abuse_observer then record s { abuse = event ∷ s.abuse } else s
