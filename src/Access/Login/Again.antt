-- ===== src/Access/Login/Again.antt =====
-- A request for a challenge that is sent again.
use walnut_billing.Prelude.{String, ◌≡◌, sym, true, false, [], ◌∷◌, ◌++◌}
use mathlib.Core.Path.{subst}
use walnut_billing.Prelude.Text.{trim, is_empty}
use walnut_billing.Domain.Access.{AccessLoginChallenge}
use walnut_billing.Repository.Error.{Result}
use walnut_billing.Repository.Table.Key.{has_key, has_key-append, has_key-lookup, has_key-All}
use walnut_billing.Access.Login.Challenges.{LoginError, LoginEnv, LoginState}
use walnut_billing.Access.Login.Create.{
  AccessLoginChallengeCreateInput, AccessLoginChallengeCreateResult, clean_create, create_challenge,
}
use walnut_billing.Access.Login.Create.Outcomes.{
  made_by, CreateOutcome, refused, replayed, added, dropped,
}
use walnut_billing.Access.Login.Create.Ends.{create-Outcome, key_given}
use walnut_billing.Access.Login.Laws.{challenge_id, IsLawful}
use walnut_billing.Access.Login.Spent.Rows.{IsOk}

abbrev key_of : AccessLoginChallenge → String
key_of c = c.idempotency_key

module _ {X R : Type 0} (env : LoginEnv X R) (laws : IsLawful env) where
  -- A request that returns a challenge leaves its key in the table.
  keyed :
      (i : AccessLoginChallengeCreateInput) (s s' : LoginState X)
      (r : Result LoginError AccessLoginChallengeCreateResult)
      → is_empty i.idempotency_key ≡ false
      → CreateOutcome env i s r s'
      → IsOk r
      → has_key key_of i.idempotency_key s'.challenges ≡ true
  keyed i s s' r given (refused e is _) h = absurd (subst IsOk is h)
  keyed i s s' r given (dropped token id now e _ is _) h = absurd (subst IsOk is h)
  keyed i s s' r given (replayed c there named same) h =
      subst (λ x. has_key key_of i.idempotency_key x ≡ true) (sym same)
        (has_key-lookup key_of challenge_id c.id i.idempotency_key c s.challenges there
          (named given))
  keyed i s s' r given (added token id _ rows) h =
      subst (λ x. has_key key_of i.idempotency_key x ≡ true) (sym rows)
        (subst (λ k. has_key key_of k (s.challenges ++ made_by env i s token id ∷ []) ≡ true)
          (key_given env laws i s token id given)
          (has_key-append key_of (made_by env i s token id) s.challenges))

  -- With a key that the table has, nothing is stored.
  unchanged :
      (i : AccessLoginChallengeCreateInput) (s s' : LoginState X)
      (r : Result LoginError AccessLoginChallengeCreateResult)
      → is_empty i.idempotency_key ≡ false
      → CreateOutcome env i s r s'
      → has_key key_of i.idempotency_key s.challenges ≡ true
      → s'.challenges ≡ s.challenges
  unchanged i s s' r given (refused e _ same) h = same
  unchanged i s s' r given (replayed c _ _ same) h = same
  unchanged i s s' r given (added token id adds _) h =
      absurd (has_key-All key_of i.idempotency_key s.challenges h (adds.unseen given))
  unchanged i s s' r given (dropped token id now e adds _ _) h =
      absurd (has_key-All key_of i.idempotency_key s.challenges h (adds.unseen given))

  -- Under the laws of GORM: after a request with an idempotency key that has returned a challenge, a
  -- request with the same key, up to white space, leaves every challenge as it is.
  pub create_twice :
      (i j : AccessLoginChallengeCreateInput) (s : LoginState X)
      → is_empty (trim i.idempotency_key) ≡ false
      → trim j.idempotency_key ≡ trim i.idempotency_key
      → IsOk (create_challenge env i s).0
      → (create_challenge env j (create_challenge env i s).1).1.challenges
        ≡ (create_challenge env i s).1.challenges
  unfolding clean_create
  create_twice i j s given same opened =
      let s1 = (create_challenge env i s).1 in
      unchanged (clean_create env j) s1 _ _ (subst (λ k. is_empty k ≡ false) (sym same) given)
        (create-Outcome env j s1 laws)
        (subst (λ k. has_key key_of k s1.challenges ≡ true) (sym same)
          (keyed (clean_create env i) s s1 _ given (create-Outcome env i s laws) opened))
