-- ===== src/Access/Login/Spent.antt =====
-- A challenge that does not wait any more stays so, and opens no session.
pub mod Rows
use walnut_billing.Prelude.{
  String, Bool, ◌≡◌, refl, sym, ap, ◌∙◌, true, false, inl, inr, some, none, List, [], ◌∷◌, ◌++◌,
  Bool-cases, arith, if◌then◌else◌,
}
use mathlib.Core.Path.{subst}
use walnut_billing.Prelude.Text.{◌==◌, eq_iff, trim}
use walnut_billing.Domain.{Time}
use walnut_billing.Domain.Access.{AccessLoginChallenge, ChallengeStatus, is_pending_challenge}
use walnut_billing.Repository.Error.{Result, ok, err}
use walnut_billing.Repository.Table.{lookup, upsert}
use walnut_billing.Repository.Table.Lookup.{lookup-upsert, lookup-append_new}
use walnut_billing.Repository.Table.Bulk.{change_where, lookup-change_where}
use walnut_billing.Access.Login.Challenges.{
  LoginError, LoginEnv, LoginState, is_consumable, consumed_row,
}
use walnut_billing.Access.Login.Create.{AccessLoginChallengeCreateInput, create_challenge}
use walnut_billing.Access.Login.Create.Outcomes.{
  CreateOutcome, refused, replayed, added, dropped, made_by,
}
use walnut_billing.Access.Login.Create.Ends.{create-Outcome}
use walnut_billing.Access.Login.Verify.{
  AccessLoginChallengeVerifyInput, clean_verify, failed_attempt, verify,
}
use walnut_billing.Access.Login.Verify.Outcomes.{
  IsOpen, VerifyOutcome, refused, closed, counted, answered,
}
use walnut_billing.Access.Login.Verify.Ends.{verify-Outcome}
use walnut_billing.Access.Login.Laws.{challenge_id, row_of, IsLawful}
use walnut_billing.Access.Login.Requests.{LoginRequest, create, answer, after_login, after_logins}
use walnut_billing.Access.Login.Spent.Rows.{
  IsSpent, IsOk, IsSpent-append, IsSpent-save_shut, IsSpent-save_waiting, IsSpent-change,
  failed_attempt-id, lookup-consumed,
}

module _ {X R : Type 0} (env : LoginEnv X R) (laws : IsLawful env) (k : String) where
  pub IsSpent-after :
      (i : AccessLoginChallengeVerifyInput) (s s' : LoginState X) (r : Result LoginError R)
      → VerifyOutcome env i s r s'
      → IsSpent k s.challenges
      → IsSpent k s'.challenges
  IsSpent-after i s s' r (refused e _ same) p = subst (IsSpent k) (sym same) p
  IsSpent-after i s s' r (closed c c' e found same shut _ _ _ rows) p =
      subst (IsSpent k) (sym rows) (IsSpent-save_shut k c' s.challenges shut p)
  IsSpent-after i s s' r (counted c now reason found _ rows) p = subst (IsSpent k) (sym rows) (
      IsSpent-save_waiting k c (failed_attempt c now reason) s.challenges found.there found.waits
        (failed_attempt-id c now reason) p)
  IsSpent-after i s s' r (answered c found _ _ rows) p =
      subst (IsSpent k) (sym rows) (IsSpent-change k c.id _ s.challenges p)

  IsSpent-made :
      (i : AccessLoginChallengeCreateInput) (s s' : LoginState X) (r : _)
      → CreateOutcome env i s r s'
      → IsSpent k s.challenges
      → IsSpent k s'.challenges
  IsSpent-made i s s' r (refused e _ same) p = subst (IsSpent k) (sym same) p
  IsSpent-made i s s' r (replayed c _ _ same) p = subst (IsSpent k) (sym same) p
  IsSpent-made i s s' r (added token id adds rows) p =
      subst (IsSpent k) (sym rows) (IsSpent-append k _ s.challenges adds.fresh p)
  IsSpent-made i s s' r (dropped token id now e adds _ rows) p =
      subst (IsSpent k) (sym rows)
        (IsSpent-save_shut k _ _ refl (IsSpent-append k _ s.challenges adds.fresh p))

  IsSpent-login :
      (q : LoginRequest) (s : LoginState X)
      → IsSpent k s.challenges
      → IsSpent k (after_login env q s).challenges
  unfolding after_login
  IsSpent-login (create i) s p = IsSpent-made _ s _ _ (create-Outcome env i s laws) p
  IsSpent-login (answer i) s p = IsSpent-after _ s _ _ (verify-Outcome env i s laws) p

  pub after_logins-IsSpent :
      (qs : List LoginRequest) (s : LoginState X)
      → IsSpent k s.challenges
      → IsSpent k (after_logins env qs s).challenges
  unfolding after_logins
  after_logins-IsSpent [] s p = p
  after_logins-IsSpent (q ∷ qs) s p =
      after_logins-IsSpent qs (after_login env q s) (IsSpent-login q s p)

  not_open :
      (i : AccessLoginChallengeVerifyInput) (s : LoginState X) (c : AccessLoginChallenge)
      → i.challenge_id ≡ k
      → IsOpen env i.challenge_id s.challenges c
      → IsSpent k s.challenges
      → ⊥
  not_open i s c named found spent =
      differ (sym found.there ∙ ap (λ x. row_of x s.challenges) (found.named ∙ named) ∙ spent.there)
    where
      differ : some c ≡ some spent.row → ⊥
      differ e = let shut = spent.shut in let waits = found.waits in cc

  -- An answer to a challenge that does not wait opens no session.
  pub spent_refuses :
      (i : AccessLoginChallengeVerifyInput) (s s' : LoginState X) (r : Result LoginError R)
      → i.challenge_id ≡ k
      → VerifyOutcome env i s r s'
      → IsSpent k s.challenges
      → ¬ IsOk r
  spent_refuses i s s' r named (refused e is _) p = subst (λ x. ¬ IsOk x) (sym is) (λ h. h)
  spent_refuses i s s' r named (closed c c' e found _ _ _ _ is _) p =
      subst (λ x. ¬ IsOk x) (sym is) (λ h. h)
  spent_refuses i s s' r named (counted c now reason found is _) p =
      subst (λ x. ¬ IsOk x) (sym is) (λ h. h)
  spent_refuses i s s' r named (answered c found _ _ _) p = absurd (not_open i s c named found p)

  -- A session is opened only by spending the challenge.
  pub ok_spends :
      (i : AccessLoginChallengeVerifyInput) (s s' : LoginState X) (r : Result LoginError R)
      → i.challenge_id ≡ k
      → VerifyOutcome env i s r s'
      → IsOk r
      → IsSpent k s'.challenges
  ok_spends i s s' r named (refused e is _) h = absurd (subst IsOk is h)
  ok_spends i s s' r named (closed c c' e found _ _ _ _ is _) h = absurd (subst IsOk is h)
  ok_spends i s s' r named (counted c now reason found is _) h = absurd (subst IsOk is h)
  ok_spends i s s' r named (answered c found _ _ rows) h = record {
    row = consumed_row (env.clock s.ticks) c;
    there = ap (row_of k) rows ∙ here;
    shut = refl;
  }
    where
      here :
          row_of k
            (change_where (is_consumable c.id) (consumed_row (env.clock s.ticks)) s.challenges)
          ≡ some (consumed_row (env.clock s.ticks) c)
      here =
          subst
            (λ x.
              row_of x
                (change_where (is_consumable c.id) (consumed_row (env.clock s.ticks)) s.challenges)
              ≡ some (consumed_row (env.clock s.ticks) c))
            (found.named ∙ named)
            (lookup-consumed c (env.clock s.ticks) s.challenges found.there found.waits
              found.unused)
