-- ===== src/Access/Login/Create/Ends.antt =====
-- Each branch of `Create` ends in one of its outcomes.
use walnut_billing.Prelude.{
  All, suc, String, true, false, ◌||◌, ◌≡◌, refl, ap, ◌∙◌, ◌⊎◌, inl, inr, some, none, Option, List,
  [], ◌∷◌, ◌++◌, nat_eq,
}
use mathlib.Core.Path.{subst}
use walnut_billing.Prelude.Text.{◌==◌, is_empty}
use walnut_billing.Domain.Access.{AccessLoginChallenge, ChallengeStatus, is_expired_challenge}
use walnut_billing.Repository.Error.{
  record_not_found, failed as gorm_failed, record_not_found, GormError, Result, ok, err,
  is_not_found, map_gorm_not_found,
}
use walnut_billing.Repository.Table.{upsert}
use walnut_billing.Repository.Flow.{Flow, pure, raise, ◌>>=◌, raise_if, from_result, modify, mapped}
use walnut_billing.Repository.Flow.Holds.{
  Post, Then, Post-bind, Post-raise, Post-raise_if, Post-if, Post-from_result,
}
use walnut_billing.Access.Login.Metadata.{request_metadata}
use walnut_billing.Access.Login.Challenges.{
  LoginError, invalid, repository, database, LoginEnv, LoginState,
  AccessLoginChallengeDeliveryResult, challenge_by_idempotency_key, try_update_challenge,
  current_time, generate_token, generate_challenge_id,
}
use walnut_billing.Access.Login.Laws.{challenge_id, row_of, IsLawful}
use walnut_billing.Access.Login.Verify.Outcomes.{try_update-cases}
use walnut_billing.Access.Login.Create.{
  AccessLoginChallengeCreateInput, AccessLoginChallengeCreateResult, clean_create,
  enforce_create_rate_limit, replay_at, replay_create_result, new_challenge, after_delivery,
  replay_or_fail, after_store, create_new, replay_or_create, create_clean, create_challenge,
}
use walnut_billing.Access.Login.Create.Outcomes.{
  HasRoom, made_by, IsAdded, CreateOutcome, refused, replayed, added, dropped, rate-Post,
}

module _ {X R : Type 0} (env : LoginEnv X R) (laws : IsLawful env)
    (i : AccessLoginChallengeCreateInput) (s : LoginState X) where
  abbrev Ends : Result LoginError AccessLoginChallengeCreateResult → LoginState X → Type 0
  Ends = CreateOutcome env i s

  module _ (t : LoginState X) (same : t.challenges ≡ s.challenges) where
    replay-Ends :
        (c : AccessLoginChallenge)
        → row_of c.id s.challenges ≡ some c
        → (is_empty i.idempotency_key ≡ false → (c.idempotency_key == i.idempotency_key) ≡ true)
        → Post Ends (replay_create_result env c t)
    unfolding replay_create_result ◌>>=◌ current_time
    replay-Ends c there keyed =
        Post-if Ends (is_expired_challenge c.status || nat_eq c.expires_at 0) _ _ t
          (λ _.
            Post-from_result Ends (λ _. replay_at env c 0) t (λ a _. replayed c there keyed same)
              (λ e _. replayed c there keyed same))
          (λ _.
            Post-from_result Ends (λ _. replay_at env c (env.clock t.ticks)) _
              (λ a _. replayed c there keyed same) (λ e _. replayed c there keyed same))

    -- A challenge that could not be stored.
    clash-Ends :
        (key : String)
        → (is_empty i.idempotency_key ≡ false → key ≡ i.idempotency_key)
        → (e : GormError) (q : Result GormError AccessLoginChallenge)
        → env.table.first (λ c. c.idempotency_key == key) s.challenges ≡ q
        → Post Ends (replay_or_fail env e (mapped q) t)
    unfolding replay_or_fail mapped raise
    clash-Ends key keyed e (ok c) h =
        let (named, there) = laws.table.first_ok _ s.challenges c h in
        replay-Ends c there
          (λ given. subst (λ k. (c.idempotency_key == k) ≡ true) (keyed given) named)
    clash-Ends key keyed e (err x) h = refused (database e) refl same

  -- The state before a challenge is stored.
  abbrev drawn_twice : LoginState X
  drawn_twice = record s { ticks = suc s.ticks; draws = suc (suc s.draws) }

  module _ (token id : String) (adds : IsAdded env i s token id) (t : LoginState X)
      (stored : t.challenges ≡ s.challenges ++ made_by env i s token id ∷ []) where
    abbrev undelivered : AccessLoginChallenge
    undelivered = record (made_by env i s token id) {
      status = ChallengeStatus.expired;
      updated_at = env.clock t.ticks;
    }

    drop-Ends :
        (e : LoginError)
        → ((try_update_challenge env undelivered (record t { ticks = suc t.ticks })).challenges
            ≡ upsert challenge_id undelivered t.challenges)
          ⊎ ((try_update_challenge env undelivered (record t { ticks = suc t.ticks })).challenges
              ≡ t.challenges)
        → Post Ends (after_delivery env (made_by env i s token id) (err e) t)
    unfolding after_delivery ◌>>=◌ current_time modify raise
    drop-Ends e (inl saved) =
        dropped token id (env.clock t.ticks) e adds refl
          (saved ∙ ap (upsert challenge_id undelivered) stored)
    drop-Ends e (inr kept) = added token id adds (kept ∙ stored)

    delivery-Ends :
        (d : Result LoginError AccessLoginChallengeDeliveryResult)
        → Post Ends (after_delivery env (made_by env i s token id) d t)
    unfolding after_delivery pure
    delivery-Ends (ok d) = added token id adds stored
    delivery-Ends (err e) = drop-Ends e (try_update-cases env laws _ _)

  pub key_given :
      (token id : String)
      → is_empty i.idempotency_key ≡ false
      → (made_by env i s token id).idempotency_key ≡ i.idempotency_key
  unfolding new_challenge
  key_given token id given = rw given refl

  module _
      (unseen : is_empty i.idempotency_key ≡ false
        → All (λ c. (c.idempotency_key == i.idempotency_key) ≡ false) s.challenges) where
    store-Ends :
        (token id : String)
        → HasRoom env i (env.clock s.ticks) s.challenges
        → (q : Result GormError (List AccessLoginChallenge))
        → env.table.create (made_by env i s token id) s.challenges ≡ q
        → Post Ends (after_store env (made_by env i s token id) token q drawn_twice)
    unfolding after_store ◌>>=◌ from_result modify challenge_by_idempotency_key
    store-Ends token id room (ok rows) e =
        let (fresh, is) = laws.table.create_ok _ s.challenges rows e in
        delivery-Ends token id (record { room = room; fresh = fresh; unseen = unseen })
          (record drawn_twice { challenges = rows }) is _
    store-Ends token id room (err x) e = clash-Ends drawn_twice refl _ (key_given token id) x _ refl

    -- `Create` after the rate limit.
    abbrev drawing : Flow (LoginState X) LoginError AccessLoginChallengeCreateResult
    drawing = do
      token ← generate_token env
      id ← generate_challenge_id env
      stored ← from_result (λ x. ok (env.table.create (made_by env i s token id) x.challenges))
      after_store env (made_by env i s token id) token stored

    draw-Ends :
        HasRoom env i (env.clock s.ticks) s.challenges
        → (a b : Option String) → env.token s.draws ≡ a
        → env.random (suc s.draws) ≡ b
        → Post Ends (drawing (record s { ticks = suc s.ticks }))
    unfolding ◌>>=◌ generate_token generate_challenge_id from_result
    draw-Ends room none b p q = rw p (refused _ refl refl)
    draw-Ends room (some token) none p q = rw p (rw q (refused _ refl refl))
    draw-Ends room (some token) (some id) p q = rw p (rw q (store-Ends token _ room _ refl))

    new-Ends : Post Ends (create_new env i s)
    unfolding create_new current_time
    new-Ends =
        let m =
          request_metadata env.digests env.secret i.email i.device_id i.client_ip i.user_agent in
        Post-bind Ends (current_time env) _ s (
          Post-bind Ends (enforce_create_rate_limit env i m (env.clock s.ticks)) _
            (record s { ticks = suc s.ticks })
            (rate-Post env laws (Then Ends _) (record s { ticks = suc s.ticks })
              (λ e s' same. refused e refl same) i m (env.clock s.ticks)
              (λ room. draw-Ends room _ _ refl refl)))

  missing_is : (x : GormError) → is_not_found (map_gorm_not_found x) ≡ true → x ≡ record_not_found
  unfolding map_gorm_not_found
  missing_is record_not_found h = refl
  missing_is (gorm_failed n) h = cc

  found-Ends :
      (q : Result GormError AccessLoginChallenge)
      → env.table.first (λ c. c.idempotency_key == i.idempotency_key) s.challenges ≡ q
      → Post Ends (replay_or_create env i (mapped q) s)
  unfolding replay_or_create mapped
  found-Ends (ok c) e =
      let (named, there) = laws.table.first_ok _ s.challenges c e in
      replay-Ends s refl c there (λ _. named)
  found-Ends (err x) e =
      let e' = map_gorm_not_found x in
      Post-if Ends (is_not_found e') (create_new env i) (raise (repository e')) s
        (λ missing.
          new-Ends
            (λ _. laws.table.first_not_found _ s.challenges (e ∙ ap err (missing_is x missing))))
        (λ _. Post-raise Ends (repository e') s (refused _ refl refl))

  look-Ends : Post Ends (
      (from_result (λ s'. ok (challenge_by_idempotency_key env i.idempotency_key s'.challenges))
          >>= replay_or_create env i)
        s)
  unfolding ◌>>=◌ from_result challenge_by_idempotency_key
  look-Ends = found-Ends _ refl

  clean-Ends : Post Ends (create_clean env i s)
  unfolding create_clean
  clean-Ends = Post-bind Ends (raise_if _ invalid) _ s (
      Post-raise_if (Then Ends _) _ invalid s (λ _. refused invalid refl refl)
        (λ _. Post-bind Ends (from_result (λ _. env.ensure_available)) _ s (
          Post-from_result (Then Ends _) (λ _. env.ensure_available) s
            (λ _ _.
              Post-if Ends (is_empty i.idempotency_key) (create_new env i) _ s
                (λ blank. new-Ends (λ given. cc)) (λ _. look-Ends))
            (λ e _. refused e refl refl))))

module _ {X R : Type 0} (env : LoginEnv X R) where
  pub create-Outcome :
      (i : AccessLoginChallengeCreateInput) (s : LoginState X)
      → IsLawful env
      → CreateOutcome env
          (clean_create env i)
          s
          (create_challenge env i s).0
          (create_challenge env i s).1
  unfolding create_challenge
  create-Outcome i s laws = clean-Ends env laws (clean_create env i) s
