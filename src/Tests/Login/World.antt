-- ===== src/Tests/Login/World.antt =====
-- A table of challenges in memory, an environment over it, and requests.
use walnut_billing.Prelude.{
  arith, ℕ, suc, ◌+◌, String, ◌≡◌, refl, true, some, List, [], ◌∷◌, length, keep,
}
use Prim.Native.String.{◌++◌}
use walnut_billing.Prelude.Int.{pos, ◌+ℤ◌, ◌-ℤ◌, neg}
use walnut_billing.Prelude.Word.{wrap64, add64}
use walnut_billing.Prelude.Text.{
  is_space, is_empty, trim_left, put_right, trim_right, trim, take_text, ◌==◌, eq_iff,
}
use walnut_billing.Domain.Access.{AccessLoginChallenge, challenge_status_text}
use walnut_billing.Repository.Error.{Result, ok, map_gorm_not_found}
use walnut_billing.Repository.Table.{lookup, upsert}
use walnut_billing.Repository.Table.Bulk.{Bulk, IsBulk, change_where}
use walnut_billing.Repository.Flow.{pure, raise, ◌>>=◌, raise_if, from_result, modify, mapped}
use walnut_billing.Credit.Ledger.{default_string}
use walnut_billing.Access.Login.Policy.{
  default_login_config, login_policy, seconds, ttl, rate_limit,
}
use walnut_billing.Access.Login.Metadata.{
  Digests, short_fingerprint, normalize_email, email_fingerprint_of, device_fingerprint,
  stable_access_session_key, hash_token, access_login_challenge_hash, request_metadata,
}
use walnut_billing.Access.Login.Challenges.{
  LoginError, LoginEnv, LoginState, text_in, normalize_statuses, challenge_matches, is_consumable,
  challenge_by_id, challenge_by_idempotency_key, update_challenge, try_update_challenge,
  count_challenges, consume_pending, current_time, generate_token, generate_challenge_id,
  observe_abuse,
}
use walnut_billing.Access.Login.Create.{
  AccessLoginChallengeCreateInput, add_duration, create_result, clean_create, replay_at,
  replay_create_result, rate_limit_event, limited, enforce_limit, enforce_create_rate_limit,
  new_challenge, after_delivery, replay_or_fail, after_store, create_new, replay_or_create,
  create_clean, create_challenge,
}
use walnut_billing.Access.Login.Verify.{
  AccessLoginChallengeVerifyInput, clean_verify, failed_attempt, max_attempts_event,
  record_failed_attempt, open_session, consume_and_open, token_matches, expire_challenge,
  verify_challenge, verify_found, verify_clean, verify,
}
use walnut_billing.Access.Login.Laws.{challenge_id, IsLawful, IsUp}
use walnut_billing.Access.Login.Requests.{after_login, after_logins}
use walnut_billing.Tests.Engine.{
  memory_create, memory_save, first_from, memory_first, memory_table, memory_table-IsTable,
}

abbrev pub memory_bulk : Bulk AccessLoginChallenge
memory_bulk = record {
  count = λ p rows. ok (length (keep p rows));
  updates = λ p f rows. ok (length (keep p rows), change_where p f rows);
}

-- A digest that shows what it digests.
abbrev pub shown : Digests
shown = record {
  to_lower = λ s. s;
  sha256 = λ s. s;
  sha256_parts = λ ps. "parts";
  hmac_sha256 = λ secret s. "h" ++ s;
}

abbrev pub login_env : LoginEnv ℕ String
login_env = record {
  table = memory_table challenge_id;
  bulk = memory_bulk;
  clock = λ n. 5000000000000 + n;
  token = λ n. some "123456";
  random = λ n. some "1";
  digests = shown;
  secret = "s";
  config = login_policy (record default_login_config { max_attempts = pos 2 });
  ensure_available = ok tt;
  deliver = λ n c token. ok (record { channel = "dev"; dev_token = token });
  has_abuse_observer = true;
  register_or_restore = λ i x. (ok i.email, suc x);
}

abbrev pub no_challenges : LoginState ℕ
no_challenges = record { challenges = []; sessions = 0; ticks = 0; draws = 0; abuse = [] }

abbrev pub create_input : AccessLoginChallengeCreateInput
create_input = record {
  email = " a@b.c";
  device_id = "mac";
  source = "";
  idempotency_key = "k1 ";
  client_ip = "10.0.0.1";
  user_agent = "";
}

abbrev pub verify_input : String → AccessLoginChallengeVerifyInput
verify_input token = record {
  challenge_id = "alc_1";
  token = token;
  device_id = "mac ";
  display_name = "A";
  source = "";
  client_ip = "";
  user_agent = "";
}

-- The state of a run, with all the definitions that it goes through opened.
unfoldable pub state_of : {A : Type 0} → Result LoginError A × LoginState ℕ → LoginState ℕ
unfolding pure raise ◌>>=◌ raise_if from_result modify mapped default_string login_policy seconds
    ttl rate_limit take_text short_fingerprint normalize_email email_fingerprint_of
    device_fingerprint stable_access_session_key hash_token access_login_challenge_hash
    request_metadata text_in normalize_statuses challenge_matches is_consumable challenge_by_id
    challenge_by_idempotency_key update_challenge try_update_challenge count_challenges
    consume_pending current_time generate_token generate_challenge_id observe_abuse add_duration
    create_result clean_create replay_at replay_create_result rate_limit_event limited enforce_limit
    enforce_create_rate_limit new_challenge after_delivery replay_or_fail after_store create_new
    replay_or_create create_clean create_challenge clean_verify failed_attempt max_attempts_event
    record_failed_attempt open_session consume_and_open token_matches expire_challenge
    verify_challenge verify_found verify_clean verify after_login after_logins memory_create
    memory_save first_from memory_first lookup upsert change_where map_gorm_not_found
    challenge_status_text wrap64 add64 is_space is_empty trim_left put_right trim_right trim ◌+ℤ◌
    ◌-ℤ◌ neg
state_of (r, s) = s

-- The state after the challenge has been created.
abbrev pub created : LoginState ℕ
created = state_of (create_challenge login_env create_input no_challenges)

memory_bulk-IsBulk : IsBulk memory_bulk
memory_bulk-IsBulk = record {
  count_ok = λ p rows n h. cc;
  updates_ok = λ p f rows rows' n h. (cc, cc);
}

pub login_env-IsLawful : IsLawful login_env
login_env-IsLawful = record { table = memory_table-IsTable challenge_id; bulk = memory_bulk-IsBulk }

first_is :
    (k : String) (c : AccessLoginChallenge) (all rows : List AccessLoginChallenge)
    → lookup challenge_id k all ≡ some c
    → lookup challenge_id k rows ≡ some c
    → first_from challenge_id (λ x. x.id == k) all rows ≡ ok c
unfolding lookup first_from
first_is k c all [] h e = cc
first_is k c all (r ∷ rows) h e = ground (arith, eq_iff r.id k, first_is k c all rows h)

pub login_env-IsUp : IsUp login_env
unfolding memory_first memory_save
login_env-IsUp = record {
  finds = λ k c rows h. first_is k c rows rows h h;
  saves = λ c rows. (upsert challenge_id c rows, refl);
}
