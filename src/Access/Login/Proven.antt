-- ===== src/Access/Login/Proven.antt =====
-- What an answer that opens a session has shown.
use walnut_billing.Prelude.{◌≡◌, true, false, some, is_some}
use mathlib.Core.Path.{subst}
use walnut_billing.Prelude.Text.{eq_iff, trim}
use walnut_billing.Domain.Access.{AccessLoginChallenge, is_pending_challenge}
use walnut_billing.Repository.Error.{Result}
use walnut_billing.Access.Login.Metadata.{hash_token}
use walnut_billing.Access.Login.Challenges.{LoginError, LoginEnv, LoginState}
use walnut_billing.Access.Login.Create.{is_over}
use walnut_billing.Access.Login.Verify.{
  AccessLoginChallengeVerifyInput, clean_verify, token_matches, verify,
}
use walnut_billing.Access.Login.Verify.Outcomes.{VerifyOutcome, refused, closed, counted, answered}
use walnut_billing.Access.Login.Verify.Ends.{verify-Outcome}
use walnut_billing.Access.Login.Laws.{row_of, IsLawful}
use walnut_billing.Access.Login.Spent.Rows.{IsOk}

module _ {X R : Type 0} (env : LoginEnv X R) where
  -- The challenge of the id, which waits, is in time, and was made for the device with the token.
  pub record IsProven (i : AccessLoginChallengeVerifyInput) (s : LoginState X) : Type 0 where
    pub challenge : AccessLoginChallenge
    pub there : row_of (trim i.challenge_id) s.challenges ≡ some challenge
    pub waits : is_pending_challenge challenge.status ≡ true
    pub unused : is_some challenge.consumed_at ≡ false
    pub in_time : is_over challenge.expires_at (env.clock s.ticks) ≡ false
    pub device : trim challenge.device_id ≡ trim i.device_id
    pub token : hash_token env.digests env.secret (trim i.token) ≡ trim challenge.token_hash

  proven :
      (i : AccessLoginChallengeVerifyInput) (s s' : LoginState X) (r : Result LoginError R)
      → VerifyOutcome env (clean_verify i) s r s'
      → IsOk r
      → IsProven i s
  unfolding clean_verify token_matches
  proven i s s' r (refused e is _) h = absurd (subst IsOk is h)
  proven i s s' r (closed c c' e found _ _ _ _ is _) h = absurd (subst IsOk is h)
  proven i s s' r (counted c now reason found is _) h = absurd (subst IsOk is h)
  proven i s s' r (answered c found alive right _) h = record {
    challenge = c;
    there = subst (λ x. row_of x s.challenges ≡ some c) found.named found.there;
    waits = found.waits;
    unused = found.unused;
    in_time = alive;
    device = (eq_iff (trim c.device_id) (trim i.device_id)).0 right.device;
    token = (eq_iff _ (trim c.token_hash)).0 right.token;
  }

  -- Under the laws of GORM: an answer returns a session only if the challenge of its id is in the
  -- table, pending, not consumed and in time, for the device of the request, and with the hash of
  -- the token of the request, all up to white space.
  pub verify-IsProven :
      (i : AccessLoginChallengeVerifyInput) (s : LoginState X)
      → IsLawful env
      → IsOk (verify env i s).0
      → IsProven i s
  verify-IsProven i s laws opened = proven i s _ _ (verify-Outcome env i s laws) opened
