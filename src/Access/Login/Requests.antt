-- ===== src/Access/Login/Requests.antt =====
-- The interface `AccessLoginChallengeService` as requests, and what a sequence of them does.
use walnut_billing.Prelude.{List, [], ◌∷◌}
use walnut_billing.Access.Login.Challenges.{LoginEnv, LoginState}
use walnut_billing.Access.Login.Create.{AccessLoginChallengeCreateInput, create_challenge}
use walnut_billing.Access.Login.Verify.{AccessLoginChallengeVerifyInput, verify}

pub data LoginRequest : Type 0 where
  create : AccessLoginChallengeCreateInput → LoginRequest
  answer : AccessLoginChallengeVerifyInput → LoginRequest

module _ {X R : Type 0} (env : LoginEnv X R) where
  -- The state after a request.
  unfoldable pub after_login : LoginRequest → LoginState X → LoginState X
  after_login (create i) s = (create_challenge env i s).1
  after_login (answer i) s = (verify env i s).1

  unfoldable pub after_logins : List LoginRequest → LoginState X → LoginState X
  unfolding after_login
  after_logins [] s = s
  after_logins (q ∷ qs) s = after_logins qs (after_login q s)
