-- ===== src/Access/Login/Lockout.antt =====
-- Wrong answers use up a challenge.
pub mod Worn
use walnut_billing.Prelude.{
  ℕ, suc, ◌+◌, ◌≤◌, String, Bool, ◌≡◌, refl, sym, ap, ◌∙◌, true, false, not, ◌&&◌, ◌||◌, ◌⊎◌, inl,
  inr, some, none, List, [], ◌∷◌, map, All, length, is_some, Bool-cases, arith, if◌then◌else◌,
}
use mathlib.Core.Path.{subst}
use walnut_billing.Prelude.Int.{ℤ, negsuc, ◌≤ℤ◌, ◌<ℤ◌, pos, pos_part, neg_part}
use walnut_billing.Prelude.Word.{add64}
use walnut_billing.Prelude.Text.{◌==◌, eq_iff, trim, is_empty}
use walnut_billing.Domain.{Time}
use walnut_billing.Domain.Access.{AccessLoginChallenge, ChallengeStatus, is_pending_challenge}
use walnut_billing.Repository.Error.{Result, ok, err}
use walnut_billing.Repository.Table.{upsert}
use walnut_billing.Repository.Table.Lookup.{lookup-upsert}
use walnut_billing.Repository.Flow.{
  Flow, pure, raise, ◌>>=◌, ◌>>◌, raise_if, from_result, modify, mapped,
}
use walnut_billing.Repository.Flow.Holds.{Post, Then, Post-bind, Post-raise, Post-if}
use walnut_billing.Access.Login.Metadata.{hash_token}
use walnut_billing.Access.Login.Challenges.{
  LoginError, failed, invalid, LoginEnv, LoginState, challenge_by_id, update_challenge,
  try_update_challenge, current_time,
}
use walnut_billing.Access.Login.Create.{is_over}
use walnut_billing.Access.Login.Verify.{
  AccessLoginChallengeVerifyInput, clean_verify, failed_attempt, attempted, is_exhausted,
  max_attempts_event, record_failed_attempt, token_matches, expire_challenge, consume_and_open,
  verify_challenge, verify_found, verify_clean, verify,
}
use walnut_billing.Access.Login.Verify.Outcomes.{observed}
use walnut_billing.Access.Login.Verify.Ends.{verify-Outcome}
use walnut_billing.Access.Login.Laws.{challenge_id, row_of, IsLawful, IsUp}
use walnut_billing.Access.Login.Requests.{LoginRequest, answer, after_login, after_logins}
use walnut_billing.Access.Login.Guarded.{IsGuarded, failed_attempt-IsGuarded, next_attempt}
use walnut_billing.Access.Login.Spent.Rows.{IsSpent, IsOk, failed_attempt-id}
use walnut_billing.Access.Login.Spent.{IsSpent-after}
use walnut_billing.Access.Login.Once.{verify-IsSpent}
use walnut_billing.Access.Login.Lockout.Worn.{IsWrong, IsWaiting, IsWorn, verify-Wears}

no_more : (a m : ℤ) (n : ℕ) → pos 0 ≤ℤ a → a <ℤ m → pos_part m ≤ n → n ≤ pos_part a → ⊥
no_more (pos k) m n low below enough tried = absurd (omega arith)
no_more (negsuc k) m n low below enough tried = absurd (omega arith)

module _ {X R : Type 0} (env : LoginEnv X R) (laws : IsLawful env) (up : IsUp env)
    (first : AccessLoginChallenge) where
  wears :
      (i : AccessLoginChallengeVerifyInput) (n : ℕ) (s : LoginState X)
      → IsWrong env first i
      → IsWorn first n s.challenges
      → IsWorn first (suc n) (verify env i s).1.challenges
  wears i n s bad (inl spent) =
      inl (IsSpent-after env laws first.id _ s _ _ (verify-Outcome env i s laws) spent)
  wears i n s bad (inr (c, there, w)) = verify-Wears env laws up first n s c there w i bad

  IsWorn-each :
      (wrongs : List AccessLoginChallengeVerifyInput) (n : ℕ) (s : LoginState X)
      → All (IsWrong env first) wrongs
      → IsWorn first n s.challenges
      → IsWorn first (n + length wrongs) (after_logins env (map answer wrongs) s).challenges
  unfolding after_logins after_login
  IsWorn-each [] n s bad h = subst (λ k. IsWorn first k s.challenges) (omega arith) h
  IsWorn-each (i ∷ is) n s (bad, rest) h =
      subst (λ k. IsWorn first k (after_logins env (map answer (i ∷ is)) s).challenges)
        (omega arith) (IsWorn-each is (suc n) (verify env i s).1 rest (wears i n s bad h))

  worn_out :
      (n : ℕ) (rows : List AccessLoginChallenge)
      → pos_part first.max_attempts ≤ n
      → IsWorn first n rows
      → IsSpent first.id rows
  worn_out n rows enough (inl spent) = spent
  worn_out n rows enough (inr (c, there, w)) =
      elim (no_more c.attempts c.max_attempts n w.guarded.from_zero (w.guarded.left w.waits)
        (rw w.same_max enough) w.tried) [ ]

  -- On a database that is up: after as many answers with a wrong device or a wrong token as the
  -- maximum of a challenge that is pending and within its attempts, no answer returns a session for
  -- it, not even the right one.
  pub verify_lockout :
      (wrongs : List AccessLoginChallengeVerifyInput) (j : AccessLoginChallengeVerifyInput)
      (s : LoginState X)
      → row_of first.id s.challenges ≡ some first
      → is_pending_challenge first.status ≡ true
      → is_some first.consumed_at ≡ false
      → IsGuarded first
      → All (IsWrong env first) wrongs
      → pos_part first.max_attempts ≤ length wrongs
      → trim j.challenge_id ≡ first.id
      → ¬ IsOk (verify env j (after_logins env (map answer wrongs) s)).0
  verify_lockout wrongs j s there waits unused guarded bad enough named =
      verify-IsSpent env laws j _ (
        subst (λ k. IsSpent k (after_logins env (map answer wrongs) s).challenges) (sym named)
          (worn_out (0 + length wrongs) _ (omega arith) (
            IsWorn-each wrongs 0 s bad (
              inr (
                first,
                there,
                record {
                  waits = waits;
                  unused = unused;
                  guarded = guarded;
                  tried = omega arith;
                  same_max = refl;
                  same_id = refl;
                  same_device = refl;
                  same_token = refl;
                },
              )))))
