-- ===== src/Entitlement/Grants/Ends.antt =====
-- How `CreateGrant` of internal/service/entitlement.go ends when it returns a grant.
use walnut_billing.Prelude.{arith, ◌≡◌, ◌⊎◌, inl, inr, refl, true, false, none, some, All}
use mathlib.Core.Path.{subst}
use walnut_billing.Prelude.Text.{eq_iff, trim, is_empty}
use walnut_billing.Domain.Cloud.{EntitlementGrant}
use walnut_billing.Domain.Registration.{RegistrationRequest}
use walnut_billing.Repository.Error.{Error, is_not_found, Result, ok, err}
use walnut_billing.Repository.Table.{lookup}
use walnut_billing.Repository.Flow.{pure}
use walnut_billing.Repository.Flow.Success.{
  OnOk, OnOk-value, OnOk-mono, OnOk-raise, OnOk-if, OnOk-bind, OnOk-guard, OnOk-read,
}
use walnut_billing.Entitlement.World.{
  EntitlementState, EntitlementEnv, registered_user, registration_by_id, grant_by_key,
  grants_of_user, has_grant_key,
}
use walnut_billing.Entitlement.Laws.{
  registration_id, IsLawfulEntitlement, required_row, read_row, no_row, listed_rows,
}
use walnut_billing.Entitlement.Grants.{
  GrantInput, new_grant, replay_or_grant, create_grant_with_repos, from_registration,
  resolve_registration, create_grant,
}
use walnut_billing.Entitlement.Grants.Steps.{
  Granted, IsReady, OfUser, now-Same, store_grant-Granted, found_or_stored-Granted,
}

module _ (env : EntitlementEnv) where
  new_grant-Granted :
      (i : GrantInput) (s : EntitlementState)
      → IsLawfulEntitlement env
      → (is_empty (trim i.idempotency_key) ≡ true)
        ⊎ All (λ x. has_grant_key (trim i.idempotency_key) x.idempotency_key ≡ false) s.grants
      → OnOk (λ g s'. Granted env i s g s') (new_grant env i s)
  unfolding new_grant registered_user grants_of_user
  new_grant-Granted i s laws new_key = OnOk-guard _ _ _ _ s λ known. OnOk-read _ _ _ s λ u read.
      let found = laws.users.first_ok _ s.users u (required_row _ _ u read) in
      let ready : IsReady env i s = record {
        known = ground (arith, known);
        owner = (u, found.1, (eq_iff u.id (trim i.user_id)).0 found.0);
        new_key = new_key;
      } in
      OnOk-bind _ _ _ _ s (now-Same env s) λ now t (at, h).
        OnOk-if _ (is_empty (trim i.idempotency_key)) _ _ t
          (λ no_key. OnOk-read _ _ _ t λ gs listed.
            let rows = laws.grants.find_ok _ _ none none t.grants gs (listed_rows _ gs listed) in
            let of_s = subst (λ table. All (OfUser env (trim i.user_id) table) gs) h.grants rows in
            found_or_stored-Granted env i now s t gs _ laws ready at h.grants no_key of_s refl)
          (λ _. store_grant-Granted env i now s t laws ready at h.grants)

  replay_or_grant-Granted :
      (i : GrantInput) (s : EntitlementState) (r : Result Error EntitlementGrant)
      → IsLawfulEntitlement env
      → grant_by_key env (trim i.idempotency_key) s ≡ r
      → OnOk (λ g s'. Granted env i s g s') (replay_or_grant env i r s)
  unfolding replay_or_grant grant_by_key pure
  replay_or_grant-Granted i s (ok g) laws found = OnOk-guard _ _ _ _ s λ same.
      let row = laws.grants.first_ok _ s.grants g (read_row _ g found) in
      inl (record {
        there = row.1;
        user = (eq_iff g.user_id (trim i.user_id)).0 (ground (arith, same));
        entitlement = (eq_iff g.entitlement_id (trim i.entitlement_id)).0 (ground (arith, same));
        reason = inl row.0;
        unchanged = refl;
      })
  replay_or_grant-Granted i s (err e) laws found =
      OnOk-if _ (is_not_found e) _ _ s
        (λ missing.
          new_grant-Granted i s laws
            (inr (laws.grants.first_not_found _ s.grants (no_row _ e found missing))))
        (λ _. OnOk-raise _ _ s)

  create_with_repos-Granted :
      (i : GrantInput) (s : EntitlementState)
      → IsLawfulEntitlement env
      → OnOk (λ g s'. Granted env i s g s') (create_grant_with_repos env i s)
  unfolding create_grant_with_repos
  create_with_repos-Granted i s laws = OnOk-guard _ _ _ _ s λ _.
      OnOk-if _ (is_empty (trim i.idempotency_key)) _ _ s
        (λ no_key. new_grant-Granted i s laws (inl no_key))
        (λ _. OnOk-read _ _ _ s λ r found.
          let read : grant_by_key env (trim i.idempotency_key) s ≡ r = cc in
          replay_or_grant-Granted i s r laws read)

  -- The input that a grant is made from: that of the request, or with the user and the entitlement of
  -- the registration that it names.
  abbrev pub Resolves : GrantInput → EntitlementState → GrantInput → Type 0
  Resolves i s j =
      ((is_empty (trim i.registration_id) ≡ true) × (j ≡ i))
      ⊎ ((r : RegistrationRequest) × (lookup registration_id r.id s.registrations ≡ some r)
          × (r.id ≡ trim i.registration_id)
          × (j ≡ record i { user_id = r.user_id; entitlement_id = r.requested_entitlement }))

  resolve-Resolves :
      (i : GrantInput) (s : EntitlementState)
      → IsLawfulEntitlement env
      → OnOk (λ j t. Resolves i s j × (t ≡ s)) (resolve_registration env i s)
  unfolding resolve_registration from_registration registration_by_id pure
  resolve-Resolves i s laws =
      OnOk-if _ (is_empty (trim i.registration_id)) _ _ s (λ direct. (inl (direct, refl), refl))
        (λ _. OnOk-read _ _ _ s λ r read. OnOk-guard _ _ _ _ s λ _. OnOk-guard _ _ _ _ s λ _.
          let row = laws.registrations.first_ok _ s.registrations r (required_row _ _ r read) in
          (inr (r, row.1, (eq_iff r.id (trim i.registration_id)).0 row.0, refl), refl))

  -- Under the laws of GORM, for every request for a grant that returns one, with the user and the
  -- entitlement of the registration that it names, or its own: either the grant was a row of the table
  -- for that user and entitlement, with the key of the request, or, if the request has no key, active at
  -- the time of the request, and the grants are as they were; or exactly the new grant was added, made at
  -- the time of the request, with an id that no grant had, for an entitlement of the catalog and a user
  -- that is in the table, and no grant had the key.
  -- The time of the request is the next reading of the clock.
  pub create_grant-Ends :
      (i : GrantInput) (s : EntitlementState) (g : EntitlementGrant)
      → IsLawfulEntitlement env
      → (create_grant env i s).0 ≡ ok g
      → (j : GrantInput) × Resolves i s j × Granted env j s g (create_grant env i s).1
  unfolding create_grant
  create_grant-Ends i s g laws returned =
      OnOk-value (λ g s'. (j : GrantInput) × Resolves i s j × Granted env j s g s') _ g
        (OnOk-bind _ _ _ _ s (resolve-Resolves i s laws) λ j t (resolves, same).
          OnOk-mono (λ g s'. Granted env j t g s') _ _ (create_with_repos-Granted j t laws)
            λ g s' granted. (j, resolves, subst (λ x. Granted env j x g s') same granted))
        returned
