-- ===== src/Tests/Login/Witnesses.antt =====
-- The theorems on login challenges at concrete requests.
use walnut_billing.Prelude.{◌≡◌, refl, true, false, none, [], ◌∷◌, All, arith, map}
use walnut_billing.Prelude.Int.{pos, leb_ℤ, ltb_ℤ}
use walnut_billing.Access.Login.Policy.{rate_limit}
use walnut_billing.Domain.Access.{AccessLoginChallenge, ChallengeStatus}
use walnut_billing.Repository.Error.{ok}
use walnut_billing.Access.Login.Create.{create_challenge}
use walnut_billing.Access.Login.Verify.{verify}
use walnut_billing.Access.Login.Requests.{create, answer, after_logins}
use walnut_billing.Access.Login.Guarded.{IsGuarded, after_logins-IsGuarded}
use walnut_billing.Access.Login.Spent.Rows.{IsOk}
use walnut_billing.Access.Login.Once.{verify_once}
use walnut_billing.Access.Login.Proven.{IsProven, verify-IsProven}
use walnut_billing.Access.Login.Limited.{IsLimited, create-IsLimited}
use walnut_billing.Access.Login.Again.{create_twice}
use walnut_billing.Access.Login.Lockout.Worn.{IsWrong}
use walnut_billing.Access.Login.Lockout.{verify_lockout}
use walnut_billing.Tests.Login.World.{
  login_env, login_env-IsLawful, login_env-IsUp, no_challenges, create_input, verify_input, created,
  state_of,
}

after_logins-IsGuarded_example :
    All IsGuarded
      (after_logins login_env
        (create create_input ∷ answer (verify_input "0") ∷ [])
        no_challenges).challenges
unfolding state_of
after_logins-IsGuarded_example =
    after_logins-IsGuarded login_env login_env-IsLawful (omega arith) (omega arith)
      (create create_input ∷ answer (verify_input "0") ∷ []) no_challenges tt

right_opens : (verify login_env (verify_input "123456") created).0 ≡ ok "a@b.c"
unfolding state_of
right_opens = refl

verify_once_example :
    ¬ IsOk
      (verify login_env (verify_input "123456") (
        after_logins login_env
          (create create_input ∷ [])
          (verify login_env (verify_input "123456") created).1)).0
unfolding state_of
verify_once_example =
    verify_once login_env login_env-IsLawful (verify_input "123456") (verify_input "123456")
      (create create_input ∷ []) created tt refl

verify-IsProven_example : IsProven login_env (verify_input "123456") created
unfolding state_of
verify-IsProven_example =
    verify-IsProven login_env (verify_input "123456") created login_env-IsLawful tt

in_window : leb_ℤ (rate_limit login_env.config).window (pos 0) ≡ false
unfolding state_of
in_window = refl

is_set : ltb_ℤ (pos 0) (rate_limit login_env.config).max_per_email ≡ true
unfolding state_of
is_set = refl

create-IsLimited_example :
    IsLimited login_env "a@b.c" no_challenges
      (create_challenge login_env create_input no_challenges).1
unfolding state_of
create-IsLimited_example =
    create-IsLimited login_env in_window is_set create_input no_challenges login_env-IsLawful

create_twice_example :
    (create_challenge login_env create_input
      (create_challenge login_env create_input no_challenges).1).1.challenges
    ≡ (create_challenge login_env create_input no_challenges).1.challenges
unfolding state_of
create_twice_example =
    create_twice login_env login_env-IsLawful create_input create_input no_challenges refl refl tt

-- The challenge that the first request stores.
abbrev stored : AccessLoginChallenge
stored = record {
  id = "alc_1";
  email = "a@b.c";
  device_id = "mac";
  token_hash = "h123456";
  status = ChallengeStatus.pending;
  attempts = pos 0;
  max_attempts = pos 2;
  client_ip_hash = "hmetadata:client_ip:10.0.0.1";
  user_agent_hash = "";
  failure_reason = "";
  source = "desktop";
  idempotency_key = "k1";
  expires_at = 5600000000000;
  consumed_at = none;
  created_at = 5000000000000;
  updated_at = 5000000000000;
}

zero-IsWrong : IsWrong login_env stored (verify_input "0")
unfolding state_of
zero-IsWrong = record { named = refl; filled = refl; wrong = refl }

verify_lockout_example :
    ¬ IsOk
      (verify login_env
        (verify_input "123456")
        (after_logins login_env (map answer (verify_input "0" ∷ verify_input "0" ∷ [])) created)).0
unfolding state_of
verify_lockout_example =
    verify_lockout login_env login_env-IsLawful login_env-IsUp stored
      (verify_input "0" ∷ verify_input "0" ∷ []) (verify_input "123456") created refl refl refl
      (omega arith) (zero-IsWrong, (zero-IsWrong, tt)) (omega arith) refl
