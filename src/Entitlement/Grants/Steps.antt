-- ===== src/Entitlement/Grants/Steps.antt =====
-- The steps of `CreateGrant` of internal/service/entitlement.go that store a grant, or find an active one.
use walnut_billing.Prelude.{
  arith, suc, String, Bool, ◌≡◌, ◌⊎◌, inl, inr, refl, ap, ◌∙◌, true, false, ◌&&◌, Option, none,
  some, List, [], ◌∷◌, ◌++◌, All, if◌then◌else◌,
}
use mathlib.Core.Path.{subst}
use walnut_billing.Prelude.Text.{◌==◌, eq_iff, trim, is_empty}
use walnut_billing.Domain.{Time, User}
use walnut_billing.Domain.Cloud.{EntitlementGrant}
use walnut_billing.Repository.Error.{GormError, Result, ok, err}
use walnut_billing.Repository.Table.{lookup}
use walnut_billing.Repository.Flow.{pure}
use walnut_billing.Repository.Flow.Success.{OnOk, OnOk-bind}
use walnut_billing.Cloud.QuotaPolicy.{is_grant_active}
use walnut_billing.Entitlement.World.{
  EntitlementState, EntitlementEnv, has_entitlement, prefixed_id, entitlement_now,
  generate_entitlement_id, add_grant, stored, put_grants, has_grant_key,
}
use walnut_billing.Entitlement.Laws.{person_id, grant_id, IsLawfulEntitlement}
use walnut_billing.Entitlement.Grants.{
  GrantInput, active_grant_for, grant_of, store_grant, found_or_stored,
}

module _ (env : EntitlementEnv) where
  -- The tables are the same.
  pub record IsSameTables (s t : EntitlementState) : Type 0 where
    pub users : t.users ≡ s.users
    pub grants : t.grants ≡ s.grants

  -- A grant for the user and the entitlement was there: with the key, or, for a request without a key,
  -- active at the time that the clock shows to the request.
  pub record IsFoundGrant (i : GrantInput) (s : EntitlementState) (g : EntitlementGrant)
      (s' : EntitlementState) : Type 0 where
    pub there : lookup grant_id g.id s.grants ≡ some g
    pub user : g.user_id ≡ trim i.user_id
    pub entitlement : g.entitlement_id ≡ trim i.entitlement_id
    pub reason :
        (has_grant_key (trim i.idempotency_key) g.idempotency_key ≡ true)
        ⊎ ((is_empty (trim i.idempotency_key) ≡ true)
            × (is_grant_active g (env.clock s.ticks) ≡ true))
    pub unchanged : s'.grants ≡ s.grants

  -- A grant was added, for a known entitlement and a user that is there, and with a new key or none.
  pub record IsAddedGrant (i : GrantInput) (s : EntitlementState) (g : EntitlementGrant)
      (s' : EntitlementState) : Type 0 where
    pub known : has_entitlement env.catalog (trim i.entitlement_id) ≡ true
    pub owner : (u : User) × (lookup person_id u.id s.users ≡ some u) × (u.id ≡ trim i.user_id)
    pub made : g ≡ grant_of g.id i (env.clock s.ticks)
    pub new_id : lookup grant_id g.id s.grants ≡ none
    pub added : s'.grants ≡ s.grants ++ g ∷ []
    pub new_key :
        (is_empty (trim i.idempotency_key) ≡ true)
        ⊎ All (λ x. has_grant_key (trim i.idempotency_key) x.idempotency_key ≡ false) s.grants

  abbrev pub Granted : GrantInput → EntitlementState → EntitlementGrant → EntitlementState → Type 0
  Granted i s g s' = IsFoundGrant i s g s' ⊎ IsAddedGrant i s g s'

  pub now-Same :
      (s : EntitlementState)
      → OnOk (λ now t. (now ≡ env.clock s.ticks) × IsSameTables s t) (entitlement_now env s)
  unfolding entitlement_now
  now-Same s = (refl, record { users = refl; grants = refl })

  id-Same :
      (prefix : String) (s : EntitlementState)
      → OnOk (λ _ t. IsSameTables s t) (generate_entitlement_id env prefix s)
  unfolding generate_entitlement_id
  id-Same prefix s = by_draw (env.random s.draws)
    where
      by_draw :
          (o : Option String)
          → OnOk
              (λ _ t. IsSameTables s t)
              (prefixed_id env prefix o, record s { draws = suc s.draws })
      by_draw none = tt
      by_draw (some digits) = record { users = refl; grants = refl }

  add-Added :
      (g : EntitlementGrant) (s : EntitlementState)
      → IsLawfulEntitlement env
      → OnOk
          (λ _ t. (lookup grant_id g.id s.grants ≡ none) × (t.grants ≡ s.grants ++ g ∷ []))
          (add_grant env g s)
  unfolding add_grant
  add-Added g s laws = by_create (env.grants.create g s.grants) refl
    where
      by_create :
          (r : Result GormError (List EntitlementGrant))
          → env.grants.create g s.grants ≡ r
          → OnOk
              (λ _ t. (lookup grant_id g.id s.grants ≡ none) × (t.grants ≡ s.grants ++ g ∷ []))
              (stored put_grants s r)
      by_create (ok rows) e = laws.grants.create_ok g s.grants rows e
      by_create (err e) _ = tt

  -- What has been shown before a row is stored.
  pub record IsReady (i : GrantInput) (s : EntitlementState) : Type 0 where
    pub known : has_entitlement env.catalog (trim i.entitlement_id) ≡ true
    pub owner : (u : User) × (lookup person_id u.id s.users ≡ some u) × (u.id ≡ trim i.user_id)
    pub new_key :
        (is_empty (trim i.idempotency_key) ≡ true)
        ⊎ All (λ x. has_grant_key (trim i.idempotency_key) x.idempotency_key ≡ false) s.grants

  pub store_grant-Granted :
      (i : GrantInput) (now : Time) (s t : EntitlementState)
      → IsLawfulEntitlement env
      → IsReady i s
      → now ≡ env.clock s.ticks
      → t.grants ≡ s.grants
      → OnOk (λ g s'. Granted i s g s') (store_grant env i now t)
  unfolding store_grant pure grant_of
  store_grant-Granted i now s t laws ready read same =
      OnOk-bind _ _ _ _ t (id-Same "grt_" t) λ id u h.
        OnOk-bind _ _ _ _ u (add-Added (grant_of id i now) u laws) λ _ v (new, added).
          let from_s = h.grants ∙ same in
          inr (record {
            known = ready.known;
            owner = ready.owner;
            made = ap (grant_of id i) read;
            new_id = subst (λ rows. lookup grant_id (grant_of id i now).id rows ≡ none) from_s new;
            added = added ∙ ap (λ rows. rows ++ grant_of id i now ∷ []) from_s;
            new_key = ready.new_key;
          })

  active_grant-Row :
      (entitlement_id : String) (now : Time) (P : EntitlementGrant → Type 0)
      (gs : List EntitlementGrant) (g : EntitlementGrant)
      → All P gs
      → active_grant_for entitlement_id now gs ≡ some g
      → P g × (g.entitlement_id ≡ entitlement_id) × (is_grant_active g now ≡ true)
  unfolding active_grant_for
  active_grant-Row entitlement_id now P [] g all h = cc
  active_grant-Row entitlement_id now P (x ∷ gs) g (p, all) h =
      by_test ((x.entitlement_id == entitlement_id) && is_grant_active x now) refl h
        (active_grant-Row entitlement_id now P gs g all)
    where
      by_test :
          (b : Bool)
          → ((x.entitlement_id == entitlement_id) && is_grant_active x now) ≡ b
          → (if b then some x else active_grant_for entitlement_id now gs) ≡ some g
          → (active_grant_for entitlement_id now gs ≡ some g
              → P g × (g.entitlement_id ≡ entitlement_id) × (is_grant_active g now ≡ true))
          → P g × (g.entitlement_id ≡ entitlement_id) × (is_grant_active g now ≡ true)
      by_test true e h rest =
          let is : x ≡ g = cc in
          subst (λ y. P y × (y.entitlement_id ≡ entitlement_id) × (is_grant_active y now ≡ true)) is
            (p, (eq_iff x.entitlement_id entitlement_id).0 (ground (arith, e)), ground (arith, e))
      by_test false e h rest = rest h

  -- A row of the grants that belongs to the user.
  abbrev pub OfUser : String → List EntitlementGrant → EntitlementGrant → Type 0
  OfUser user_id rows g = ((g.user_id == user_id) ≡ true) × (lookup grant_id g.id rows ≡ some g)

  pub found_or_stored-Granted :
      (i : GrantInput) (now : Time) (s t : EntitlementState) (gs : List EntitlementGrant)
      (o : Option EntitlementGrant)
      → IsLawfulEntitlement env
      → IsReady i s
      → now ≡ env.clock s.ticks
      → t.grants ≡ s.grants
      → is_empty (trim i.idempotency_key) ≡ true
      → All (OfUser (trim i.user_id) s.grants) gs
      → active_grant_for (trim i.entitlement_id) now gs ≡ o
      → OnOk (λ g s'. Granted i s g s') (found_or_stored env i now o t)
  unfolding found_or_stored pure
  found_or_stored-Granted i now s t gs (some g) laws ready read same no_key all h =
      let ((own, there), entitled, active) =
        active_grant-Row (trim i.entitlement_id) now (OfUser (trim i.user_id) s.grants) gs g all
          h in
      inl (record {
        there = there;
        user = (eq_iff g.user_id (trim i.user_id)).0 own;
        entitlement = entitled;
        reason = inr (no_key, subst (λ at. is_grant_active g at ≡ true) read active);
        unchanged = same;
      })
  found_or_stored-Granted i now s t gs none laws ready read same no_key all h =
      store_grant-Granted i now s t laws ready read same
