-- ===== src/Access/Login/Verify/Outcomes.antt =====
-- The ways in which `Verify` can end, with what each has found and stored.
use walnut_billing.Prelude.{
  ℕ, length, keep, ◌⊎◌, String, Bool, true, false, not, ◌≡◌, refl, some, List, is_some, inl, inr,
  nat_eq, arith, if◌then◌else◌,
}
use walnut_billing.Prelude.Text.{◌==◌, trim}
use walnut_billing.Domain.{Time}
use walnut_billing.Domain.Access.{AccessLoginChallenge, is_pending_challenge}
use walnut_billing.Repository.Error.{GormError, Result, ok, err}
use walnut_billing.Repository.Table.{upsert}
use walnut_billing.Repository.Table.Bulk.{change_where}
use walnut_billing.Repository.Flow.Holds.{Post}
use walnut_billing.Access.Login.Challenges.{
  LoginError, failed, database, LoginEnv, LoginState, update_challenge, try_update_challenge,
  consume_pending, observe_abuse, is_consumable, with_rows, with_count, try_rows, consumed_row,
}
use walnut_billing.Access.Login.Create.{is_over}
use walnut_billing.Access.Login.Laws.{challenge_id, row_of, IsLawful}
use walnut_billing.Access.Login.Verify.{
  AccessLoginChallengeVerifyInput, failed_attempt, token_matches,
}

module _ {X R : Type 0} (env : LoginEnv X R) where
  -- The right device and the right token for a challenge.
  pub record IsRight (i : AccessLoginChallengeVerifyInput) (c : AccessLoginChallenge) : Type 0 where
    pub device : (trim c.device_id == i.device_id) ≡ true
    pub token : token_matches env i.token c ≡ true

  -- A challenge in the table that can be answered.
  pub record IsOpen (id : String) (rows : List AccessLoginChallenge) (c : AccessLoginChallenge)
      : Type 0 where
    pub named : c.id ≡ id
    pub there : row_of c.id rows ≡ some c
    pub waits : is_pending_challenge c.status ≡ true
    pub unused : is_some c.consumed_at ≡ false

  pub data VerifyOutcome (i : AccessLoginChallengeVerifyInput) (s : LoginState X)
      (r : Result LoginError R) (s' : LoginState X) : Type 0 where
    refused : (e : LoginError) → r ≡ err e → s'.challenges ≡ s.challenges → VerifyOutcome i s r s'
    closed :
        (c c' : AccessLoginChallenge) (e : LoginError)
        → IsOpen i.challenge_id s.challenges c
        → c'.id ≡ c.id
        → is_pending_challenge c'.status ≡ false
        → c'.attempts ≡ c.attempts
        → c'.max_attempts ≡ c.max_attempts
        → r ≡ err e
        → s'.challenges ≡ upsert challenge_id c' s.challenges
        → VerifyOutcome i s r s'
    counted :
        (c : AccessLoginChallenge) (now : Time) (reason : String)
        → IsOpen i.challenge_id s.challenges c
        → r ≡ err failed
        → s'.challenges ≡ upsert challenge_id (failed_attempt c now reason) s.challenges
        → VerifyOutcome i s r s'
    answered :
        (c : AccessLoginChallenge)
        → IsOpen i.challenge_id s.challenges c
        → is_over c.expires_at (env.clock s.ticks) ≡ false
        → IsRight i c
        → s'.challenges
          ≡ change_where (is_consumable c.id) (consumed_row (env.clock s.ticks)) s.challenges
        → VerifyOutcome i s r s'

  pub observed :
      (b : Bool) (event : _) (s : LoginState X)
      → (if b then observe_abuse env event s else s).challenges ≡ s.challenges
  unfolding observe_abuse
  observed b event s = ground arith

  module _ (laws : IsLawful env) where
    -- A save whose error is ignored.
    pub try_update-cases :
        (c : AccessLoginChallenge) (s : LoginState X)
        → ((try_update_challenge env c s).challenges ≡ upsert challenge_id c s.challenges)
          ⊎ ((try_update_challenge env c s).challenges ≡ s.challenges)
    unfolding try_update_challenge
    try_update-cases c s = by_save (env.table.save c s.challenges) refl
      where
        by_save :
            (q : Result GormError (List AccessLoginChallenge))
            → env.table.save c s.challenges ≡ q
            → ((try_rows env s q).challenges ≡ upsert challenge_id c s.challenges)
              ⊎ ((try_rows env s q).challenges ≡ s.challenges)
        by_save (ok rows) e = inl (laws.table.save_ok c s.challenges rows e)
        by_save (err _) e = inr refl

    pub Post-update :
        (Q : Result LoginError (Unit {0}) → LoginState X → Type 0) (c : AccessLoginChallenge)
        (s : LoginState X)
        → ((rows : List AccessLoginChallenge)
            → rows ≡ upsert challenge_id c s.challenges
            → Q (ok tt) (record s { challenges = rows }))
        → ((e : GormError) → Q (err (database e)) s)
        → Post Q (update_challenge env c s)
    unfolding update_challenge
    Post-update Q c s saved lost = by_save (env.table.save c s.challenges) refl
      where
        by_save :
            (q : Result GormError (List AccessLoginChallenge))
            → env.table.save c s.challenges ≡ q
            → Post Q (with_rows env tt s q)
        by_save (ok rows) e = saved rows (laws.table.save_ok c s.challenges rows e)
        by_save (err x) e = lost x

    -- What a consumption has changed, if it says that it has changed a row.
    pub Post-consume :
        (Q : Result LoginError Bool → LoginState X → Type 0) (id : String) (t : Time)
        (s : LoginState X)
        → ((n : ℕ) (rows : List AccessLoginChallenge)
            → rows ≡ change_where (is_consumable id) (consumed_row t) s.challenges
            → n ≡ length (keep (is_consumable id) s.challenges)
            → Q (ok (not (nat_eq n 0))) (record s { challenges = rows }))
        → ((e : GormError) → Q (err (database e)) s)
        → Post Q (consume_pending env id t s)
    unfolding consume_pending
    Post-consume Q id t s done lost =
        by_call (env.bulk.updates (is_consumable id) (consumed_row t) s.challenges) refl
      where
        by_call :
            (q : Result GormError (ℕ × List AccessLoginChallenge))
            → env.bulk.updates (is_consumable id) (consumed_row t) s.challenges ≡ q
            → Post Q (with_count env s q)
        by_call (ok (n, rows)) e =
            let (number, rest) = laws.bulk.updates_ok _ _ s.challenges rows n e in
            done n rows rest number
        by_call (err x) e = lost x
