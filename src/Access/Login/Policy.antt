-- ===== src/Access/Login/Policy.antt =====
-- `AccessLoginChallengePolicyConfig` of internal/service/access_login_challenge.go and its policy.
use walnut_billing.Prelude.{suc, ◌*◌, if◌then◌else◌}
use walnut_billing.Prelude.Int.{ℤ, pos, negsuc, neg, leb_ℤ}
use walnut_billing.Prelude.Word.{wrap64}

pub record AccessLoginChallengePolicyConfig : Type 0 where
  pub ttl_seconds : ℤ
  pub max_attempts : ℤ
  pub rate_limit_window_seconds : ℤ
  pub max_creates_per_email : ℤ
  pub max_creates_per_ip : ℤ

pub record AccessLoginChallengeRateLimit : Type 0 where
  pub window : ℤ
  pub max_per_email : ℤ
  pub max_per_ip : ℤ

-- `DefaultAccessLoginChallengePolicyConfig`
abbrev pub default_login_config : AccessLoginChallengePolicyConfig
default_login_config = record {
  ttl_seconds = pos 600;
  max_attempts = pos 5;
  rate_limit_window_seconds = pos 600;
  max_creates_per_email = pos 5;
  max_creates_per_ip = pos 20;
}

-- `if value <= 0 { value = fallback }`
abbrev pub positive_or : ℤ → ℤ → ℤ
positive_or fallback value = if leb_ℤ value (pos 0) then fallback else value

-- `NewConfigurableAccessLoginChallengePolicy`: the configuration that the policy keeps.
unfoldable pub login_policy : AccessLoginChallengePolicyConfig → AccessLoginChallengePolicyConfig
login_policy c = record {
  ttl_seconds = positive_or default_login_config.ttl_seconds c.ttl_seconds;
  max_attempts = positive_or default_login_config.max_attempts c.max_attempts;
  rate_limit_window_seconds =
      positive_or default_login_config.rate_limit_window_seconds c.rate_limit_window_seconds;
  max_creates_per_email =
      positive_or default_login_config.max_creates_per_email c.max_creates_per_email;
  max_creates_per_ip = positive_or default_login_config.max_creates_per_ip c.max_creates_per_ip;
}

-- `time.Duration(n) * time.Second`, in nanoseconds of 64 bits.
unfoldable pub seconds : ℤ → ℤ
seconds (pos n) = wrap64 (pos (n * 1000000000))
seconds (negsuc n) = wrap64 (neg (pos (suc n * 1000000000)))

-- `TTL`
unfoldable pub ttl : AccessLoginChallengePolicyConfig → ℤ
ttl c = seconds c.ttl_seconds

-- `RateLimit`
unfoldable pub rate_limit : AccessLoginChallengePolicyConfig → AccessLoginChallengeRateLimit
rate_limit c = record {
  window = seconds c.rate_limit_window_seconds;
  max_per_email = c.max_creates_per_email;
  max_per_ip = c.max_creates_per_ip;
}
