-- ===== src/Access/Login/Lockout/Worn.antt =====
-- What a wrong answer does to a challenge, on a database that is up.
use walnut_billing.Prelude.{
  ℕ, suc, ◌≤◌, String, Bool, ◌≡◌, sym, ◌∙◌, true, false, not, ◌&&◌, ◌||◌, ◌⊎◌, inl, inr, some, List,
  is_some, Bool-cases, arith, if◌then◌else◌,
}
use mathlib.Core.Path.{subst}
use walnut_billing.Prelude.Int.{pos, pos_part}
use walnut_billing.Prelude.Word.{add64}
use walnut_billing.Prelude.Text.{◌==◌, eq_iff, trim, is_empty}
use walnut_billing.Domain.{Time}
use walnut_billing.Domain.Access.{AccessLoginChallenge, ChallengeStatus, is_pending_challenge}
use walnut_billing.Repository.Error.{Result, ok}
use walnut_billing.Repository.Table.{upsert}
use walnut_billing.Repository.Table.Lookup.{lookup-upsert}
use walnut_billing.Repository.Flow.{raise, ◌>>=◌, raise_if, from_result, modify, mapped}
use walnut_billing.Repository.Flow.Holds.{Post, Post-if}
use walnut_billing.Access.Login.Metadata.{hash_token}
use walnut_billing.Access.Login.Challenges.{
  LoginError, LoginEnv, LoginState, challenge_by_id, update_challenge, try_update_challenge,
  current_time,
}
use walnut_billing.Access.Login.Create.{is_over}
use walnut_billing.Access.Login.Verify.{
  AccessLoginChallengeVerifyInput, clean_verify, failed_attempt, attempted, is_exhausted,
  record_failed_attempt, token_matches, expire_challenge, verify_challenge, verify_found,
  verify_clean, verify,
}
use walnut_billing.Access.Login.Verify.Outcomes.{observed}
use walnut_billing.Access.Login.Laws.{challenge_id, row_of, IsLawful, IsUp}
use walnut_billing.Access.Login.Guarded.{IsGuarded, failed_attempt-IsGuarded, next_attempt}
use walnut_billing.Access.Login.Spent.Rows.{IsSpent, failed_attempt-id}

module _ {X R : Type 0} (env : LoginEnv X R) where
  -- An answer with another device or another token than the challenge's.
  pub record IsWrong (c : AccessLoginChallenge) (i : AccessLoginChallengeVerifyInput) : Type 0 where
    pub named : trim i.challenge_id ≡ c.id
    pub filled :
        (is_empty (trim i.challenge_id) || is_empty (trim i.token) || is_empty (trim i.device_id))
        ≡ false
    pub wrong :
        ((trim c.device_id == trim i.device_id) && token_matches env (trim i.token) c) ≡ false

-- A challenge that waits, after at least `n` failed attempts.
pub record IsWaiting (first : AccessLoginChallenge) (n : ℕ) (c : AccessLoginChallenge)
    : Type 0 where
  pub waits : is_pending_challenge c.status ≡ true
  pub unused : is_some c.consumed_at ≡ false
  pub guarded : IsGuarded c
  pub tried : n ≤ pos_part c.attempts
  pub same_max : c.max_attempts ≡ first.max_attempts
  pub same_id : c.id ≡ first.id
  pub same_device : c.device_id ≡ first.device_id
  pub same_token : c.token_hash ≡ first.token_hash

-- The challenge does not wait, or has had `n` failed attempts.
abbrev pub IsWorn : AccessLoginChallenge → ℕ → List AccessLoginChallenge → Type 0
IsWorn first n rows =
    IsSpent first.id rows
    ⊎ ((c : AccessLoginChallenge) × (row_of c.id rows ≡ some c) × IsWaiting first n c)

row_of-upsert :
    (c : AccessLoginChallenge) (rows : List AccessLoginChallenge)
    → row_of c.id (upsert challenge_id c rows) ≡ some c
row_of-upsert c rows = lookup-upsert challenge_id c.id c rows ∙ ground (arith, eq_iff c.id c.id)

failed_attempt-IsWaiting :
    (first c : AccessLoginChallenge) (n : ℕ) (now : Time) (reason : String)
    → IsWaiting first n c
    → is_pending_challenge (failed_attempt c now reason).status ≡ true
    → IsWaiting first (suc n) (failed_attempt c now reason)
unfolding failed_attempt
failed_attempt-IsWaiting first c n now reason w =
    by_test (is_exhausted (attempted c now reason))
      (failed_attempt-IsGuarded c now reason w.guarded w.waits)
  where
    more : suc n ≤ pos_part (add64 c.attempts (pos 1))
    more =
        let g = w.guarded in
        let e = next_attempt c.attempts c.max_attempts g.from_zero (g.left w.waits) g.fits in
        let tried = w.tried in rw e (omega arith)

    closed : AccessLoginChallenge
    closed = record (attempted c now reason) { status = ChallengeStatus.expired }

    by_test :
        (b : Bool)
        → IsGuarded (if b then closed else attempted c now reason)
        → is_pending_challenge (if b then closed else attempted c now reason).status ≡ true
        → IsWaiting first (suc n) (if b then closed else attempted c now reason)
    by_test true g waits = cc
    by_test false g waits = record {
      waits = waits;
      unused = w.unused;
      guarded = g;
      tried = more;
      same_max = w.same_max;
      same_id = w.same_id;
      same_device = w.same_device;
      same_token = w.same_token;
    }

module _ {X R : Type 0} (env : LoginEnv X R) (laws : IsLawful env) (up : IsUp env)
    (first : AccessLoginChallenge) (n : ℕ) (s : LoginState X) (c : AccessLoginChallenge)
    (there : row_of c.id s.challenges ≡ some c) (w : IsWaiting first n c) where
  abbrev Wears : {A : Type 0} → Result LoginError A → LoginState X → Type 0
  Wears r s' = IsWorn first (suc n) s'.challenges

  abbrev ticked : LoginState X
  ticked = record s { ticks = suc s.ticks }

  -- The rows after an update of the challenge.
  IsWorn-saved :
      (c' : AccessLoginChallenge) (rows : List AccessLoginChallenge)
      → rows ≡ upsert challenge_id c' s.challenges
      → c'.id ≡ first.id
      → (is_pending_challenge c'.status ≡ true → IsWaiting first (suc n) c')
      → IsWorn first (suc n) rows
  IsWorn-saved c' rows is same waiting = elim (Bool-cases (is_pending_challenge c'.status)) [
    | inl waits ↦ inr (c', at_own, waiting waits)
    | inr shut ↦
        inl (record {
          row = c';
          there = subst (λ k. row_of k rows ≡ some c') same at_own;
          shut = shut;
        })
  ]
    where
      at_own : row_of c'.id rows ≡ some c'
      at_own = subst (λ x. row_of c'.id x ≡ some c') (sym is) (row_of-upsert c' s.challenges)

  expire-Wears : (now : Time) → Post (Wears {A = R}) (expire_challenge env c now ticked)
  unfolding expire_challenge ◌>>=◌ modify raise try_update_challenge
  expire-Wears now =
      let c' : AccessLoginChallenge = record c {
        status = ChallengeStatus.expired;
        failure_reason = "expired";
        updated_at = now;
      } in
      let (rows, e) = up.saves c' s.challenges in
      rw e (IsWorn-saved c' rows (laws.table.save_ok c' s.challenges rows e) w.same_id (λ h. cc))

  record-Wears :
      (now : Time) (reason : String)
      → Post (Wears {A = R}) (record_failed_attempt env c now reason ticked)
  unfolding record_failed_attempt ◌>>=◌ update_challenge modify raise
  record-Wears now reason =
      let c' = failed_attempt c now reason in
      let (rows, e) = up.saves c' s.challenges in
      rw e (
        IsWorn-saved c' _ (observed env _ _ _ ∙ laws.table.save_ok c' s.challenges rows e)
          (failed_attempt-id c now reason ∙ w.same_id)
          (failed_attempt-IsWaiting first c n now reason w))

  module _ (i : AccessLoginChallengeVerifyInput) (bad : IsWrong env first i) where
    still_wrong :
        ((trim c.device_id == trim i.device_id) && token_matches env (trim i.token) c) ≡ false
    unfolding token_matches
    still_wrong =
        subst
          (λ d.
            ((trim d == trim i.device_id)
              && (hash_token env.digests env.secret (trim i.token) == trim c.token_hash))
            ≡ false)
          (sym w.same_device)
          (subst
            (λ t.
              ((trim first.device_id == trim i.device_id)
                && (hash_token env.digests env.secret (trim i.token) == trim t))
              ≡ false)
            (sym w.same_token) bad.wrong)

    challenge-Wears :
        Post (Wears {A = R}) (verify_challenge env (clean_verify i) c (env.clock s.ticks) ticked)
    unfolding verify_challenge clean_verify
    challenge-Wears =
        let now = env.clock s.ticks in
        let waits = w.waits in
        let unused = w.unused in
        Post-if Wears (not (is_pending_challenge c.status) || is_some c.consumed_at) _ _ ticked
          (λ gone. absurd (ground arith))
          (λ _.
            Post-if Wears (is_over c.expires_at now) _ _ ticked (λ _. expire-Wears now)
              (λ _.
                Post-if Wears (not (trim c.device_id == trim i.device_id)) _ _ ticked
                  (λ _. record-Wears now "device_mismatch")
                  (λ device.
                    Post-if Wears (not (token_matches env (trim i.token) c)) _ _ ticked
                      (λ _. record-Wears now "wrong_token")
                      (λ token. let bad = still_wrong in absurd (ground arith)))))

    found-Wears : Post (Wears {A = R}) (verify_found env (clean_verify i) (ok c) s)
    unfolding verify_found ◌>>=◌ current_time
    found-Wears = challenge-Wears

    pub verify-Wears : Post (Wears {A = R}) (verify env i s)
    unfolding verify verify_clean ◌>>=◌ raise_if from_result challenge_by_id clean_verify mapped
    verify-Wears = rw bad.filled (
        rw
          (up.finds (trim i.challenge_id) c s.challenges
            (subst (λ k. row_of k s.challenges ≡ some c) (w.same_id ∙ sym bad.named) there))
          found-Wears)
