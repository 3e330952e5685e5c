-- ===== src/Access/Login/Limited.antt =====
-- The rate limit of challenges for an email.
use walnut_billing.Prelude.{
  ℕ, ◌+◌, String, Bool, ◌≡◌, refl, sym, ap, ◌∙◌, true, false, ◌⊎◌, inl, inr, some, List, [], ◌∷◌,
  ◌++◌, arith, if◌then◌else◌,
}
use mathlib.Core.Path.{subst}
use walnut_billing.Prelude.Int.{ℤ, pos, ◌≤ℤ◌, leb_ℤ, ltb_ℤ}
use walnut_billing.Prelude.Text.{eq_iff}
use walnut_billing.Domain.{Time}
use walnut_billing.Domain.Access.{AccessLoginChallenge, ChallengeStatus}
use walnut_billing.Repository.Table.Lookup.{lookup-append_new}
use walnut_billing.Repository.Table.Rows.{length-keep-append, length-keep-upsert}
use walnut_billing.Access.Login.Policy.{rate_limit}
use walnut_billing.Access.Login.Metadata.{normalize_email}
use walnut_billing.Access.Login.Challenges.{
  LoginEnv, LoginState, challenge_matches, normalize_statuses,
}
use walnut_billing.Access.Login.Create.{
  AccessLoginChallengeCreateInput, clean_create, window_start, create_challenge,
}
use walnut_billing.Access.Login.Create.Outcomes.{
  recent_of, count_of, made_by, IsAdded, CreateOutcome, refused, replayed, added, dropped,
}
use walnut_billing.Access.Login.Create.Ends.{create-Outcome}
use walnut_billing.Access.Login.Laws.{challenge_id, row_of, IsLawful}

-- Both rows count alike if they have the email and the time in common.
matches-drop :
    (email : String) (after now : Time) (c : AccessLoginChallenge)
    → challenge_matches
        (recent_of email "" after)
        (record c { status = ChallengeStatus.expired; updated_at = now })
      ≡ challenge_matches (recent_of email "" after) c
unfolding challenge_matches normalize_statuses
matches-drop email after now c = refl

add_one : (n : ℕ) (b : Bool) (m : ℤ) → leb_ℤ m (pos n) ≡ false → pos (n + (if b then 1 else 0)) ≤ℤ m
add_one n b m h = ground arith

module _ {X R : Type 0} (env : LoginEnv X R) where
  -- The challenges for an email in the window before the state's time.
  abbrev pub recent_count : String → Time → List AccessLoginChallenge → ℕ
  recent_count email now =
      count_of (recent_of email "" (window_start now (rate_limit env.config).window))

  -- The rows are as before, or the count is within the limit.
  abbrev pub IsLimited : String → LoginState X → LoginState X → Type 0
  IsLimited email s s' =
      (s'.challenges ≡ s.challenges)
      ⊎ (pos (recent_count email (env.clock s.ticks) s'.challenges)
          ≤ℤ (rate_limit env.config).max_per_email)

module _ {X R : Type 0} (env : LoginEnv X R)
    (windowed : leb_ℤ (rate_limit env.config).window (pos 0) ≡ false)
    (limited : ltb_ℤ (pos 0) (rate_limit env.config).max_per_email ≡ true) where
  module _ (i : AccessLoginChallengeCreateInput) (s s' : LoginState X) where
    after_append :
        (token id : String)
        → IsAdded env i s token id
        → pos (
            recent_count env i.email
              (env.clock s.ticks)
              (s.challenges ++ made_by env i s token id ∷ []))
          ≤ℤ (rate_limit env.config).max_per_email
    after_append token id adds =
        let q =
          recent_of i.email "" (window_start (env.clock s.ticks) (rate_limit env.config).window) in
        subst (λ n. pos n ≤ℤ (rate_limit env.config).max_per_email)
          (sym (length-keep-append (challenge_matches q) (made_by env i s token id) s.challenges))
          (add_one _ (challenge_matches q (made_by env i s token id)) _
            (adds.room windowed limited))

    made-IsLimited : (r : _) → CreateOutcome env i s r s' → IsLimited env i.email s s'
    made-IsLimited r (refused e _ same) = inl same
    made-IsLimited r (replayed c _ _ same) = inl same
    made-IsLimited r (added token id adds rows) = inr (
        subst
          (λ x.
            pos (recent_count env i.email (env.clock s.ticks) x)
            ≤ℤ (rate_limit env.config).max_per_email)
          (sym rows) (after_append token id adds))
    made-IsLimited r (dropped token id now e adds _ rows) = inr (
        subst (λ x. pos x ≤ℤ (rate_limit env.config).max_per_email)
          (sym (
            ap (recent_count env i.email (env.clock s.ticks)) rows
            ∙ length-keep-upsert _ challenge_id _ (made_by env i s token id) _ there
                (matches-drop i.email _ now (made_by env i s token id))))
          (after_append token id adds))
      where
        there :
            row_of (made_by env i s token id).id (s.challenges ++ made_by env i s token id ∷ [])
            ≡ some (made_by env i s token id)
        there =
            lookup-append_new challenge_id _ (made_by env i s token id) s.challenges adds.fresh
            ∙ ground (arith, eq_iff (made_by env i s token id).id (made_by env i s token id).id)

  -- Under the laws of GORM, with a positive window and a positive limit: whatever the outcome of a
  -- request for a challenge, the table is as it was, or it has no more challenges for the email in
  -- the window before the request than the limit.
  pub create-IsLimited :
      (i : AccessLoginChallengeCreateInput) (s : LoginState X)
      → IsLawful env
      → IsLimited env (normalize_email env.digests i.email) s (create_challenge env i s).1
  unfolding clean_create
  create-IsLimited i s laws =
      made-IsLimited (clean_create env i) s _ _ (create-Outcome env i s laws)
