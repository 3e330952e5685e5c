-- ===== src/Access/Login/Guarded.antt =====
-- The attempts of a challenge never pass its maximum, and a challenge that waits has one left.
use walnut_billing.Prelude.{String, ◌+◌, ◌∙◌, ap, ◌≡◌, refl, true, false, List, [], ◌∷◌, All, arith}
use mathlib.Core.Path.{subst}
use mathlib.Core.Path.{sym}
use walnut_billing.Prelude.Int.{ℤ, pos, negsuc, ◌≤ℤ◌, ◌<ℤ◌, pos_part, ◌+ℤ◌}
use walnut_billing.Prelude.Word.{add64, IsInt64, wrap64, wrap64_id}
use walnut_billing.Domain.{Time}
use walnut_billing.Domain.Access.{AccessLoginChallenge, is_pending_challenge}
use walnut_billing.Repository.Table.Lookup.{All-lookup}
use walnut_billing.Repository.Table.Rows.{All-append, All-upsert, All-change_where}
use walnut_billing.Access.Login.Challenges.{LoginEnv, LoginState, is_consumable, consumed_row}
use walnut_billing.Access.Login.Create.{AccessLoginChallengeCreateInput, new_challenge}
use walnut_billing.Access.Login.Create.Outcomes.{
  CreateOutcome, refused, replayed, added, dropped, made_by,
}
use walnut_billing.Access.Login.Create.Ends.{create-Outcome}
use walnut_billing.Access.Login.Verify.{AccessLoginChallengeVerifyInput, failed_attempt}
use walnut_billing.Access.Login.Verify.Outcomes.{VerifyOutcome, refused, closed, counted, answered}
use walnut_billing.Access.Login.Verify.Ends.{verify-Outcome}
use walnut_billing.Access.Login.Laws.{challenge_id, IsLawful}
use walnut_billing.Access.Login.Requests.{LoginRequest, create, answer, after_login, after_logins}

-- The attempts are between 0 and the maximum, and a challenge that waits has an attempt left.
pub record IsGuarded (c : AccessLoginChallenge) : Type 0 where
  pub from_zero : pos 0 ≤ℤ c.attempts
  pub to_max : c.attempts ≤ℤ c.max_attempts
  pub fits : IsInt64 c.max_attempts
  pub left : is_pending_challenge c.status ≡ true → c.attempts <ℤ c.max_attempts

pub next_attempt :
    (a m : ℤ) → pos 0 ≤ℤ a → a <ℤ m → IsInt64 m → add64 a (pos 1) ≡ pos (pos_part a + 1)
unfolding add64 ◌+ℤ◌
next_attempt (pos n) m low below fits =
    let e : pos n +ℤ pos 1 ≡ pos (n + 1) = ground arith in
    ap wrap64 e ∙ wrap64_id (pos (n + 1)) (omega arith)
next_attempt (negsuc n) m low below fits = absurd (omega arith)

pub failed_attempt-IsGuarded :
    (c : AccessLoginChallenge) (now : Time) (reason : String)
    → IsGuarded c
    → is_pending_challenge c.status ≡ true
    → IsGuarded (failed_attempt c now reason)
unfolding failed_attempt
failed_attempt-IsGuarded c now reason g waits =
    ground (arith, next_attempt c.attempts c.max_attempts g.from_zero (g.left waits) g.fits)

-- A challenge that is closed with the attempts that it had.
closed-IsGuarded :
    (c c' : AccessLoginChallenge)
    → c'.attempts ≡ c.attempts
    → c'.max_attempts ≡ c.max_attempts
    → is_pending_challenge c'.status ≡ false
    → IsGuarded c
    → IsGuarded c'
closed-IsGuarded c c' same_attempts same_max shut g =
    let a : c.attempts ≤ℤ c.max_attempts = g.to_max in
    record {
      from_zero = subst (λ x. pos 0 ≤ℤ x) (sym same_attempts) g.from_zero;
      to_max = rw same_attempts (rw same_max a);
      fits = subst IsInt64 (sym same_max) g.fits;
      left = λ waits. cc;
    }

module _ {X R : Type 0} (env : LoginEnv X R) (laws : IsLawful env) where
  abbrev AllGuarded : LoginState X → Type 0
  AllGuarded s = All IsGuarded s.challenges

  IsGuarded-after :
      (i : AccessLoginChallengeVerifyInput) (s s' : LoginState X) (r : _)
      → VerifyOutcome env i s r s'
      → AllGuarded s
      → AllGuarded s'
  IsGuarded-after i s s' r (refused e _ same) g = subst (All IsGuarded) (sym same) g
  IsGuarded-after i s s' r (closed c c' e found _ shut a m _ rows) g =
      subst (All IsGuarded) (sym rows) (
        All-upsert IsGuarded challenge_id c' s.challenges g (
          closed-IsGuarded c c' a m shut
            (All-lookup challenge_id IsGuarded c.id c s.challenges g found.there)))
  IsGuarded-after i s s' r (counted c now reason found _ rows) g =
      subst (All IsGuarded) (sym rows) (
        All-upsert IsGuarded challenge_id _ s.challenges g (
          failed_attempt-IsGuarded c now reason
            (All-lookup challenge_id IsGuarded c.id c s.challenges g found.there) found.waits))
  IsGuarded-after i s s' r (answered c found _ _ rows) g = subst (All IsGuarded) (sym rows) (
      All-change_where IsGuarded (is_consumable c.id) (consumed_row (env.clock s.ticks))
        s.challenges (λ x gx _. closed-IsGuarded x _ refl refl refl gx) g)

  module _ (positive : pos 0 <ℤ env.config.max_attempts)
      (fits : IsInt64 env.config.max_attempts) where
    made-IsGuarded :
        (i : AccessLoginChallengeCreateInput) (s : LoginState X) (token id : String)
        → IsGuarded (made_by env i s token id)
    unfolding new_challenge
    made-IsGuarded i s token id = record {
      from_zero = omega arith;
      to_max = omega arith;
      fits = fits;
      left = λ _. positive;
    }

    IsGuarded-made :
        (i : AccessLoginChallengeCreateInput) (s s' : LoginState X) (r : _)
        → CreateOutcome env i s r s'
        → AllGuarded s
        → AllGuarded s'
    IsGuarded-made i s s' r (refused e _ same) g = subst (All IsGuarded) (sym same) g
    IsGuarded-made i s s' r (replayed c _ _ same) g = subst (All IsGuarded) (sym same) g
    IsGuarded-made i s s' r (added token id _ rows) g =
        subst (All IsGuarded) (sym rows)
          (All-append IsGuarded _ s.challenges g (made-IsGuarded i s token id))
    IsGuarded-made i s s' r (dropped token id now e _ _ rows) g = subst (All IsGuarded) (sym rows) (
        All-upsert IsGuarded challenge_id _ _
          (All-append IsGuarded _ s.challenges g (made-IsGuarded i s token id))
          (closed-IsGuarded (made_by env i s token id) _ refl refl refl
            (made-IsGuarded i s token id)))

    IsGuarded-login :
        (q : LoginRequest) (s : LoginState X) → AllGuarded s → AllGuarded (after_login env q s)
    unfolding after_login
    IsGuarded-login (create i) s g = IsGuarded-made _ s _ _ (create-Outcome env i s laws) g
    IsGuarded-login (answer i) s g = IsGuarded-after _ s _ _ (verify-Outcome env i s laws) g

    -- Under the laws of GORM, with a positive maximum in the configuration, and however a sequence of
    -- requests to create and to answer challenges ends: if every challenge had between 0 attempts and
    -- its maximum, and fewer than its maximum while it is pending, every challenge has so afterwards.
    pub after_logins-IsGuarded :
        (qs : List LoginRequest) (s : LoginState X)
        → All IsGuarded s.challenges
        → All IsGuarded (after_logins env qs s).challenges
    unfolding after_logins
    after_logins-IsGuarded [] s g = g
    after_logins-IsGuarded (q ∷ qs) s g =
        after_logins-IsGuarded qs (after_login env q s) (IsGuarded-login q s g)
