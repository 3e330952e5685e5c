-- ===== src/Access/Login/Verify/Ends.antt =====
-- Each branch of `Verify` ends in one of its outcomes.
use walnut_billing.Prelude.{
  suc, ◌⊎◌, String, Bool, true, false, not, ◌||◌, ◌≡◌, refl, ◌∙◌, some, List, is_some, inl, inr,
  if◌then◌else◌,
}
use walnut_billing.Prelude.Text.{◌==◌, eq_iff, trim}
use walnut_billing.Domain.{Time}
use walnut_billing.Domain.Access.{AccessLoginChallenge, ChallengeStatus, is_pending_challenge}
use walnut_billing.Repository.Error.{GormError, Result, ok, err}
use walnut_billing.Repository.Table.{upsert}
use walnut_billing.Repository.Table.Bulk.{change_where}
use walnut_billing.Repository.Flow.{raise, ◌>>=◌, ◌>>◌, raise_if, from_result, modify, mapped}
use walnut_billing.Repository.Flow.Holds.{Post, Then, Post-bind, Post-raise, Post-raise_if, Post-if}
use walnut_billing.Access.Login.Challenges.{
  LoginError, invalid, failed, database, expired, LoginEnv, LoginState, AccessSessionInput,
  challenge_by_id, update_challenge, try_update_challenge, consume_pending, current_time,
  observe_abuse, is_consumable, consumed_row,
}
use walnut_billing.Access.Login.Create.{is_over}
use walnut_billing.Access.Login.Laws.{challenge_id, row_of, IsLawful}
use walnut_billing.Access.Login.Verify.{
  AccessLoginChallengeVerifyInput, clean_verify, failed_attempt, is_exhausted, attempted,
  max_attempts_event, record_failed_attempt, open_session, consume_and_open, token_matches,
  expire_challenge, verify_challenge, verify_found, verify_clean, verify,
}
use walnut_billing.Access.Login.Verify.Outcomes.{
  IsRight, IsOpen, VerifyOutcome, refused, closed, counted, answered, observed, try_update-cases,
  Post-update, Post-consume,
}

module _ {X R : Type 0} (env : LoginEnv X R) where
  module _ (laws : IsLawful env) where
    module _ (i : AccessLoginChallengeVerifyInput) (s : LoginState X) where
      abbrev Ends : Result LoginError R → LoginState X → Type 0
      Ends = VerifyOutcome env i s

      -- The state after the clock has been read.
      abbrev ticked : LoginState X
      ticked = record s { ticks = suc s.ticks }

      expire-Ends :
          (c : AccessLoginChallenge) (now : Time)
          → IsOpen env i.challenge_id s.challenges c
          → Post Ends (expire_challenge env c now ticked)
      unfolding expire_challenge ◌>>=◌ modify raise
      expire-Ends c now found = by_save (try_update-cases env laws late ticked)
        where
          late : AccessLoginChallenge
          late = record c {
            status = ChallengeStatus.expired;
            failure_reason = "expired";
            updated_at = now;
          }

          by_save :
              ((try_update_challenge env late ticked).challenges
                  ≡ upsert challenge_id late s.challenges)
                ⊎ ((try_update_challenge env late ticked).challenges ≡ s.challenges)
              → Post Ends (expire_challenge env c now ticked)
          by_save (inl saved) = closed c late expired found refl refl refl refl refl saved
          by_save (inr kept) = refused expired refl kept

      -- The report of the last attempt, and the error.
      report-Ends :
          (c : AccessLoginChallenge) (now : Time) (reason : String)
          (rows : List AccessLoginChallenge)
          → IsOpen env i.challenge_id s.challenges c
          → rows ≡ upsert challenge_id (failed_attempt c now reason) s.challenges
          → Post Ends (
              (modify (λ s'.
                    if is_exhausted (attempted c now reason)
                    then observe_abuse env (max_attempts_event env (attempted c now reason)) s'
                    else s')
                  >> raise failed)
                (record ticked { challenges = rows }))
      unfolding ◌>>=◌ modify raise
      report-Ends c now reason rows found saved =
          counted c now reason found refl (observed env _ _ _ ∙ saved)

      record-Ends :
          (c : AccessLoginChallenge) (now : Time) (reason : String)
          → IsOpen env i.challenge_id s.challenges c
          → Post Ends (record_failed_attempt env c now reason ticked)
      unfolding record_failed_attempt
      record-Ends c now reason found =
          Post-bind Ends (update_challenge env (failed_attempt c now reason)) _ ticked (
            Post-update env laws (Then Ends _) (failed_attempt c now reason) ticked
              (λ rows saved. report-Ends c now reason rows found saved)
              (λ e. refused (database e) refl refl))

      module _ (c : AccessLoginChallenge) (found : IsOpen env i.challenge_id s.challenges c) where
        -- A session is opened, or refused, on a challenge that has been consumed.
        open-Ends :
            (rows : List AccessLoginChallenge)
            → is_over c.expires_at (env.clock s.ticks) ≡ false
            → IsRight env i c
            → rows
              ≡ change_where (is_consumable c.id) (consumed_row (env.clock s.ticks)) s.challenges
            → (b : Bool) (input : AccessSessionInput)
            → Post Ends (
                (raise_if (not b) failed >> open_session env input)
                  (record ticked { challenges = rows }))
        unfolding ◌>>=◌ raise_if open_session
        open-Ends rows alive right saved true input = answered c found alive right saved
        open-Ends rows alive right saved false input = answered c found alive right saved

        consume-Ends :
            is_over c.expires_at (env.clock s.ticks) ≡ false
            → IsRight env i c
            → Post Ends (consume_and_open env i c (env.clock s.ticks) ticked)
        unfolding consume_and_open
        consume-Ends alive right =
            Post-bind Ends (consume_pending env c.id (env.clock s.ticks)) _ ticked (
              Post-consume env laws (Then Ends _) c.id (env.clock s.ticks) ticked
                (λ n rows saved _. open-Ends rows alive right saved _ _)
                (λ e. refused (database e) refl refl))

      still_open : (p u : Bool) → (not p || u) ≡ false → (p ≡ true) × (u ≡ false)
      still_open true false h = (refl, refl)
      still_open true true h = cc
      still_open false u h = cc

      of_not : (b : Bool) → not b ≡ false → b ≡ true
      of_not true h = refl
      of_not false h = cc

      challenge-Ends :
          (c : AccessLoginChallenge)
          → c.id ≡ i.challenge_id
          → row_of c.id s.challenges ≡ some c
          → Post Ends (verify_challenge env i c (env.clock s.ticks) ticked)
      unfolding verify_challenge
      challenge-Ends c named there =
          let now = env.clock s.ticks in
          Post-if Ends (not (is_pending_challenge c.status) || is_some c.consumed_at) _ _ ticked
            (λ _. Post-raise Ends failed ticked (refused failed refl refl))
            (λ open_.
              let (waits, unused) = still_open _ _ open_ in
              let found : IsOpen env i.challenge_id s.challenges c = record {
                named = named;
                there = there;
                waits = waits;
                unused = unused;
              } in
              Post-if Ends (is_over c.expires_at now) _ _ ticked (λ _. expire-Ends c now found)
                (λ alive.
                  Post-if Ends (not (trim c.device_id == i.device_id)) _ _ ticked
                    (λ _. record-Ends c now "device_mismatch" found)
                    (λ device.
                      Post-if Ends (not (token_matches env i.token c)) _ _ ticked
                        (λ _. record-Ends c now "wrong_token" found)
                        (λ token.
                          consume-Ends c found alive
                            (record { device = of_not _ device; token = of_not _ token })))))

      found-Ends :
          (q : Result GormError AccessLoginChallenge)
          → env.table.first (λ c. c.id == i.challenge_id) s.challenges ≡ q
          → Post Ends (verify_found env i (mapped q) s)
      unfolding verify_found mapped raise ◌>>=◌ current_time
      found-Ends (ok c) e =
          let (named, there) = laws.table.first_ok _ s.challenges c e in
          challenge-Ends c ((eq_iff c.id i.challenge_id).0 named) there
      found-Ends (err x) e = refused _ refl refl

      read-Ends : Post Ends (
          (from_result (λ s'. ok (challenge_by_id env i.challenge_id s'.challenges))
              >>= verify_found env i)
            s)
      unfolding ◌>>=◌ from_result challenge_by_id
      read-Ends = found-Ends _ refl

      clean-Ends : Post Ends (verify_clean env i s)
      unfolding verify_clean
      clean-Ends = Post-bind Ends (raise_if _ invalid) _ s (
          Post-raise_if (Then Ends _) _ invalid s (λ _. refused invalid refl refl) (λ _. read-Ends))

  pub verify-Outcome :
      (i : AccessLoginChallengeVerifyInput) (s : LoginState X)
      → IsLawful env
      → VerifyOutcome env (clean_verify i) s (verify env i s).0 (verify env i s).1
  unfolding verify
  verify-Outcome i s laws = clean-Ends laws (clean_verify i) s
