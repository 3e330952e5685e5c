-- ===== src/Access/Login/Once.antt =====
-- A challenge opens one session at most.
use walnut_billing.Prelude.{◌≡◌, refl, sym, List}
use walnut_billing.Prelude.Text.{trim}
use walnut_billing.Access.Login.Challenges.{LoginEnv, LoginState}
use walnut_billing.Access.Login.Verify.{AccessLoginChallengeVerifyInput, clean_verify, verify}
use walnut_billing.Access.Login.Verify.Ends.{verify-Outcome}
use walnut_billing.Access.Login.Laws.{IsLawful}
use walnut_billing.Access.Login.Requests.{LoginRequest, after_logins}
use walnut_billing.Access.Login.Spent.Rows.{IsSpent, IsOk}
use walnut_billing.Access.Login.Spent.{after_logins-IsSpent, spent_refuses, ok_spends}

module _ {X R : Type 0} (env : LoginEnv X R) (laws : IsLawful env) where
  -- An answer to a challenge that does not wait any more opens no session.
  pub verify-IsSpent :
      (i : AccessLoginChallengeVerifyInput) (s : LoginState X)
      → IsSpent (trim i.challenge_id) s.challenges
      → ¬ IsOk (verify env i s).0
  unfolding clean_verify
  verify-IsSpent i s spent =
      spent_refuses env laws (trim i.challenge_id) (clean_verify i) s _ _ refl
        (verify-Outcome env i s laws) spent

  -- Under the laws of GORM: after an answer to a challenge that has returned a session, and any
  -- sequence of further requests, no answer to the same challenge returns a session.
  pub verify_once :
      (i j : AccessLoginChallengeVerifyInput) (qs : List LoginRequest) (s : LoginState X)
      → IsOk (verify env i s).0
      → trim j.challenge_id ≡ trim i.challenge_id
      → ¬ IsOk (verify env j (after_logins env qs (verify env i s).1)).0
  unfolding clean_verify
  verify_once i j qs s opened same = verify-IsSpent j _ (
      after_logins-IsSpent env laws (trim j.challenge_id) qs _ (
        ok_spends env laws (trim j.challenge_id) (clean_verify i) s _ _ (sym same)
          (verify-Outcome env i s laws) opened))
