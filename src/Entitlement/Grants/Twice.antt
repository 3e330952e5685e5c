-- ===== src/Entitlement/Grants/Twice.antt =====
-- A request for a grant that is sent again.
use walnut_billing.Prelude.{
  String, ◌≡◌, ◌⊎◌, inl, inr, refl, sym, ap, ◌∙◌, true, false, none, some, List, [], ◌∷◌, ◌++◌, All,
}
use mathlib.Core.Path.{subst}
use walnut_billing.Prelude.Text.{eq_iff, trim, is_empty}
use walnut_billing.Cloud.QuotaPolicy.{is_grant_active}
use walnut_billing.Domain.Cloud.{EntitlementGrant}
use walnut_billing.Repository.Error.{ok}
use walnut_billing.Repository.Table.{lookup}
use walnut_billing.Repository.Table.Lookup.{All-lookup, lookup-append_new}
use walnut_billing.Entitlement.World.{EntitlementState, EntitlementEnv, has_grant_key}
use walnut_billing.Entitlement.Laws.{grant_id, IsLawfulEntitlement}
use walnut_billing.Entitlement.Grants.{GrantInput, grant_of, create_grant}
use walnut_billing.Entitlement.Grants.Steps.{Granted}
use walnut_billing.Entitlement.Grants.Ends.{Resolves, create_grant-Ends}

module _ (env : EntitlementEnv) where
  -- The key of an input is that of the request.
  Resolves-key :
      (i j : GrantInput) (s : EntitlementState)
      → Resolves env i s j
      → j.idempotency_key ≡ i.idempotency_key
  Resolves-key i j s (inl (_, e)) = ap (λ x. x.idempotency_key) e
  Resolves-key i j s (inr (r, _, _, e)) = ap (λ x. x.idempotency_key) e

  made_key :
      (id : String) (i : GrantInput) (now : _)
      → is_empty (trim i.idempotency_key) ≡ false
      → has_grant_key (trim i.idempotency_key) (grant_of id i now).idempotency_key ≡ true
  unfolding grant_of
  made_key id i now filled =
      rw filled ((eq_iff (trim i.idempotency_key) (trim i.idempotency_key)).1 refl)

  own_row :
      (rows : List EntitlementGrant) (g : EntitlementGrant)
      → lookup grant_id g.id rows ≡ none
      → lookup grant_id g.id (rows ++ g ∷ []) ≡ some g
  own_row rows g new =
      lookup-append_new grant_id g.id g rows new ∙ rw ((eq_iff g.id g.id).1 refl) refl

  -- A row with the key of the request.
  abbrev HasKeyed : String → List EntitlementGrant → Type 0
  HasKeyed key rows =
      (g : EntitlementGrant) × (lookup grant_id g.id rows ≡ some g)
      × (has_grant_key key g.idempotency_key ≡ true)

  Granted-keyed :
      (j : GrantInput) (s : EntitlementState) (g : EntitlementGrant) (s' : EntitlementState)
      → is_empty (trim j.idempotency_key) ≡ false
      → Granted env j s g s'
      → HasKeyed (trim j.idempotency_key) s'.grants
  Granted-keyed j s g s' filled (inl found) = by_reason found.reason
    where
      by_reason :
          (has_grant_key (trim j.idempotency_key) g.idempotency_key ≡ true)
            ⊎ ((is_empty (trim j.idempotency_key) ≡ true)
                × (is_grant_active g (env.clock s.ticks) ≡ true))
          → HasKeyed (trim j.idempotency_key) s'.grants
      by_reason (inl keyed) = (
        g,
        subst (λ rows. lookup grant_id g.id rows ≡ some g) (sym found.unchanged) found.there,
        keyed,
      )
      by_reason (inr (no_key, _)) = cc
  Granted-keyed j s g s' filled (inr added) = (
    g,
    subst (λ rows. lookup grant_id g.id rows ≡ some g) (sym added.added)
        (own_row s.grants g added.new_id),
    subst (λ x. has_grant_key (trim j.idempotency_key) x.idempotency_key ≡ true) (sym added.made)
        (made_key g.id j (env.clock s.ticks) filled),
  )

  keyed-Unchanged :
      (j : GrantInput) (s : EntitlementState) (g : EntitlementGrant) (s' : EntitlementState)
      → is_empty (trim j.idempotency_key) ≡ false
      → HasKeyed (trim j.idempotency_key) s.grants
      → Granted env j s g s'
      → s'.grants ≡ s.grants
  keyed-Unchanged j s g s' filled keyed (inl found) = found.unchanged
  keyed-Unchanged j s g s' filled (h, there, keyed) (inr added) = by_key added.new_key
    where
      by_key :
          (is_empty (trim j.idempotency_key) ≡ true)
            ⊎ All (λ x. has_grant_key (trim j.idempotency_key) x.idempotency_key ≡ false) s.grants
          → s'.grants ≡ s.grants
      by_key (inl no_key) = cc
      by_key (inr fresh) =
          let other : has_grant_key (trim j.idempotency_key) h.idempotency_key ≡ false =
            All-lookup grant_id _ h.id h s.grants fresh there in
          cc

  -- Under the laws of GORM: after a request with an idempotency key that has returned a grant, a request
  -- with the same key (up to white space) that returns a grant leaves the grants as they are, whatever
  -- else it asks for.
  pub create_grant_twice :
      (i i' : GrantInput) (s : EntitlementState) (g g' : EntitlementGrant)
      → IsLawfulEntitlement env
      → is_empty (trim i.idempotency_key) ≡ false
      → trim i'.idempotency_key ≡ trim i.idempotency_key
      → (create_grant env i s).0 ≡ ok g
      → (create_grant env i' (create_grant env i s).1).0 ≡ ok g'
      → (create_grant env i' (create_grant env i s).1).1.grants ≡ (create_grant env i s).1.grants
  create_grant_twice i i' s g g' laws filled same first second =
      let (j, from_i, granted) = create_grant-Ends env i s g laws first in
      let s1 = (create_grant env i s).1 in
      let (j', from_i', granted') = create_grant-Ends env i' s1 g' laws second in
      let key : trim j.idempotency_key ≡ trim i.idempotency_key =
        ap trim (Resolves-key i j s from_i) in
      let key' : trim j'.idempotency_key ≡ trim i.idempotency_key =
        ap trim (Resolves-key i' j' s1 from_i') ∙ same in
      let keyed : HasKeyed (trim i.idempotency_key) s1.grants =
        subst (λ k. HasKeyed k s1.grants) key
          (Granted-keyed j s g s1 (ap is_empty key ∙ filled) granted) in
      keyed-Unchanged j' s1 g' _ (ap is_empty key' ∙ filled)
        (subst (λ k. HasKeyed k s1.grants) (sym key') keyed) granted'
