-- ===== src/Access/Login/Create/Outcomes.antt =====
-- The ways in which `Create` can end, with what each has counted and stored.
use walnut_billing.Prelude.{
  All, ℕ, length, keep, String, Bool, true, false, not, ◌&&◌, ◌≡◌, refl, sym, some, none, List, [],
  ◌∷◌, ◌++◌, arith,
}
use mathlib.Core.Path.{subst}
use walnut_billing.Prelude.Int.{ℤ, pos, leb_ℤ, ltb_ℤ}
use walnut_billing.Prelude.Text.{◌==◌, is_empty}
use walnut_billing.Domain.{Time}
use walnut_billing.Domain.Access.{AccessLoginChallenge, ChallengeStatus}
use walnut_billing.Repository.Error.{GormError, Result, ok, err}
use walnut_billing.Repository.Table.{upsert}
use walnut_billing.Repository.Flow.{pure, raise, ◌>>=◌, from_result, modify}
use walnut_billing.Repository.Flow.Holds.{Post, Then, Post-bind, Post-if}
use walnut_billing.Access.Login.Policy.{rate_limit}
use walnut_billing.Access.Login.Metadata.{
  AccessLoginChallengeAbuseEvent, RequestMetadata, request_metadata,
}
use walnut_billing.Access.Login.Challenges.{
  LoginError, rate_limited, database, LoginEnv, LoginState, AccessLoginChallengeQuery,
  challenge_matches, count_challenges, observe_abuse,
}
use walnut_billing.Access.Login.Laws.{challenge_id, row_of, IsLawful}
use walnut_billing.Access.Login.Create.{
  AccessLoginChallengeCreateInput, AccessLoginChallengeCreateResult, window_start, limited,
  enforce_limit, enforce_create_rate_limit, new_challenge,
}

-- The challenges of an email since a time, as the rate limit counts them.
abbrev pub recent_of : String → String → Time → AccessLoginChallengeQuery
recent_of email ip after = record {
  email = email;
  client_ip_hash = ip;
  created_after = after;
  statuses = [];
}

abbrev pub count_of : AccessLoginChallengeQuery → List AccessLoginChallenge → ℕ
count_of q rows = length (keep (challenge_matches q) rows)

module _ {X R : Type 0} (env : LoginEnv X R) where
  -- The number of recent challenges is below a limit that is set.
  abbrev pub HasRoom : AccessLoginChallengeCreateInput → Time → List AccessLoginChallenge → Type 0
  HasRoom i now rows =
      leb_ℤ (rate_limit env.config).window (pos 0) ≡ false
      → ltb_ℤ (pos 0) (rate_limit env.config).max_per_email ≡ true
      → leb_ℤ (rate_limit env.config).max_per_email (
          pos (
            count_of (recent_of i.email "" (window_start now (rate_limit env.config).window)) rows))
        ≡ false

  -- The challenge that a request makes, at the first reading of the clock.
  abbrev pub made_by :
      AccessLoginChallengeCreateInput → LoginState X → String → String → AccessLoginChallenge
  made_by i s token id =
      new_challenge env i
        (request_metadata env.digests env.secret i.email i.device_id i.client_ip i.user_agent)
        (env.clock s.ticks) token id

  -- What is known of a challenge that is added.
  pub record IsAdded (i : AccessLoginChallengeCreateInput) (s : LoginState X) (token id : String)
      : Type 0 where
    pub room : HasRoom i (env.clock s.ticks) s.challenges
    pub fresh : row_of (made_by i s token id).id s.challenges ≡ none
    pub unseen :
        is_empty i.idempotency_key ≡ false
        → All (λ c. (c.idempotency_key == i.idempotency_key) ≡ false) s.challenges

  pub data CreateOutcome (i : AccessLoginChallengeCreateInput) (s : LoginState X)
      (r : Result LoginError AccessLoginChallengeCreateResult) (s' : LoginState X) : Type 0 where
    refused : (e : LoginError) → r ≡ err e → s'.challenges ≡ s.challenges → CreateOutcome i s r s'
    replayed :
        (c : AccessLoginChallenge)
        → row_of c.id s.challenges ≡ some c
        → (is_empty i.idempotency_key ≡ false → (c.idempotency_key == i.idempotency_key) ≡ true)
        → s'.challenges ≡ s.challenges
        → CreateOutcome i s r s'
    added :
        (token id : String)
        → IsAdded i s token id
        → s'.challenges ≡ s.challenges ++ made_by i s token id ∷ []
        → CreateOutcome i s r s'
    dropped :
        (token id : String) (now : Time) (e : LoginError)
        → IsAdded i s token id
        → r ≡ err e
        → s'.challenges
          ≡ upsert challenge_id
              (record (made_by i s token id) { status = ChallengeStatus.expired; updated_at = now })
              (s.challenges ++ made_by i s token id ∷ [])
        → CreateOutcome i s r s'

  told : (event : _) (s : LoginState X) → (observe_abuse env event s).challenges ≡ s.challenges
  unfolding observe_abuse
  told event s = ground arith

  module _ (laws : IsLawful env) (Q : Result LoginError (Unit {0}) → LoginState X → Type 0)
      (s : LoginState X)
      (refuse : (e : LoginError) (s' : LoginState X)
        → s'.challenges ≡ s.challenges
        → Q (err e) s') where
    limited-Post : (event : AccessLoginChallengeAbuseEvent) → Post Q (limited env event s)
    unfolding limited ◌>>=◌ modify raise
    limited-Post event = refuse rate_limited _ (told event s)

    counted-Post :
        (q : AccessLoginChallengeQuery) (P : Result LoginError ℕ → LoginState X → Type 0)
        → ((e : LoginError) → P (err e) s)
        → P (ok (count_of q s.challenges)) s
        → Post P (from_result (count_challenges env q) s)
    unfolding from_result count_challenges
    counted-Post q P lost known = by_count (env.bulk.count (challenge_matches q) s.challenges) refl
      where
        by_count :
            (r : Result GormError ℕ)
            → env.bulk.count (challenge_matches q) s.challenges ≡ r
            → Post P (elim r [ ok n ↦ ok n | err e ↦ err (database e) ], s)
        by_count (ok n) e =
            subst (λ k. P (ok k) s) (sym (laws.bulk.count_ok _ s.challenges n e)) known
        by_count (err x) e = lost (database x)

    pub limit-Post :
        (b : Bool) (max : ℤ) (m : RequestMetadata) (window : ℤ) (email ip : String) (after : Time)
        → ((b ≡ true → leb_ℤ max (pos (count_of (recent_of email ip after) s.challenges)) ≡ false)
            → Q (ok tt) s)
        → Post Q (enforce_limit env b max m window email ip after s)
    unfolding enforce_limit pure
    limit-Post false max m window email ip after allow = allow (λ h. cc)
    limit-Post true max m window email ip after allow =
        Post-bind Q (from_result (count_challenges env (recent_of email ip after))) _ s (
          counted-Post (recent_of email ip after) (Then Q _) (λ e. refuse e s refl)
            (Post-if Q (leb_ℤ max (pos (count_of (recent_of email ip after) s.challenges))) _ _ s
              (λ _. limited-Post _) (λ room. allow (λ _. room))))

  module _ (laws : IsLawful env) (Q : Result LoginError (Unit {0}) → LoginState X → Type 0)
      (s : LoginState X)
      (refuse : (e : LoginError) (s' : LoginState X)
        → s'.challenges ≡ s.challenges
        → Q (err e) s') where
    pub rate-Post :
        (i : AccessLoginChallengeCreateInput) (m : RequestMetadata) (now : Time)
        → (HasRoom i now s.challenges → Q (ok tt) s)
        → Post Q (enforce_create_rate_limit env i m now s)
    unfolding enforce_create_rate_limit pure
    rate-Post i m now allow =
        let l = rate_limit env.config in
        let after = window_start now l.window in
        Post-if Q (leb_ℤ l.window (pos 0)) _ _ s (λ off. allow (λ on. cc))
          (λ on.
            Post-bind Q
              (enforce_limit env (ltb_ℤ (pos 0) l.max_per_email) l.max_per_email m l.window i.email
                "" after)
              _ s
              (limit-Post laws (Then Q _) s refuse (ltb_ℤ (pos 0) l.max_per_email) l.max_per_email m
                l.window i.email "" after
                (λ room.
                  limit-Post laws Q s refuse
                    (ltb_ℤ (pos 0) l.max_per_ip && not (is_empty m.client_ip_hash)) l.max_per_ip m
                    l.window "" m.client_ip_hash after (λ _. allow (λ _ bounded. room bounded)))))
