-- ===== src/Entitlement/Snapshot/Earned.antt =====
-- The entitlements of a snapshot of internal/service/entitlement.go come from grants.
use walnut_billing.Prelude.{
  arith, String, Bool, ◌≡◌, refl, true, false, ◌&&◌, none, some, List, [], ◌∷◌, All, if◌then◌else◌,
}
use mathlib.Core.Path.{subst}
use walnut_billing.Prelude.Text.{◌==◌, eq_iff, trim}
use walnut_billing.Domain.{Time, User}
use walnut_billing.Domain.Cloud.{EntitlementGrant}
use walnut_billing.Repository.Error.{ok}
use walnut_billing.Repository.Table.{lookup}
use walnut_billing.Repository.Flow.{pure}
use walnut_billing.Repository.Flow.Success.{OnOk, OnOk-value, OnOk-bind, OnOk-guard, OnOk-read}
use walnut_billing.Cloud.QuotaPolicy.{is_grant_active}
use walnut_billing.Entitlement.World.{
  EntitlementState, EntitlementEnv, entitlement_now, registered_user, grants_of_user,
}
use walnut_billing.Entitlement.Laws.{
  person_id, grant_id, IsLawfulEntitlement, required_row, listed_rows,
}
use walnut_billing.Entitlement.Snapshot.{
  EntitlementSnapshot, is_one_of, is_current_access_entitlement_id, put_entitlement,
  active_entitlements, snapshot_for_user,
}

-- A grant for an entitlement that is current, active at a time.
pub record IsEarned (P : EntitlementGrant → Type 0) (now : Time) (id : String) : Type 0 where
  pub grant : EntitlementGrant
  pub from : P grant
  pub active : is_grant_active grant now ≡ true
  pub current : is_current_access_entitlement_id id ≡ true
  pub of_grant : grant.entitlement_id ≡ id

put_entitlement-Earned :
    (Q : String → Type 0) (id : String) (ids : List String)
    → Q id
    → All Q ids
    → All Q (put_entitlement id ids)
unfolding put_entitlement
put_entitlement-Earned Q id ids q all = by_test (is_one_of ids id)
  where
    by_test : (b : Bool) → All Q (if b then ids else id ∷ ids)
    by_test true = all
    by_test false = (q, all)

active_entitlements-Earned :
    (P : EntitlementGrant → Type 0) (now : Time) (gs : List EntitlementGrant) (ids : List String)
    → All P gs
    → All (IsEarned P now) ids
    → All (IsEarned P now) (active_entitlements now gs ids)
unfolding active_entitlements
active_entitlements-Earned P now [] ids all earned = earned
active_entitlements-Earned P now (g ∷ gs) ids (p, all) earned =
    active_entitlements-Earned P now gs _ all
      (by_test (is_grant_active g now && is_current_access_entitlement_id g.entitlement_id) refl)
  where
    by_test :
        (b : Bool)
        → (is_grant_active g now && is_current_access_entitlement_id g.entitlement_id) ≡ b
        → All (IsEarned P now) (if b then put_entitlement g.entitlement_id ids else ids)
    by_test true e =
        put_entitlement-Earned (IsEarned P now) g.entitlement_id ids
          (record {
            grant = g;
            from = p;
            active = ground (arith, e);
            current = ground (arith, e);
            of_grant = refl;
          })
          earned
    by_test false e = earned

module _ (env : EntitlementEnv) where
  -- A grant of the user in the table.
  abbrev pub OwnGrant : String → EntitlementState → EntitlementGrant → Type 0
  OwnGrant user_id s g = ((g.user_id == user_id) ≡ true) × (lookup grant_id g.id s.grants ≡ some g)

  -- A snapshot of a user in the table, whose entitlements are earned at a time of the clock.
  pub record IsEarnedSnapshot (user_id : String) (s : EntitlementState) (a : EntitlementSnapshot)
      : Type 0 where
    pub owner : User
    pub there : lookup person_id owner.id s.users ≡ some owner
    pub named : owner.id ≡ trim user_id
    pub shown : a.user.id ≡ trim user_id
    pub earned : All (IsEarned (OwnGrant (trim user_id) s) (env.clock s.ticks)) a.entitlements

  clock_now :
      (s : EntitlementState) → OnOk (λ now _. now ≡ env.clock s.ticks) (entitlement_now env s)
  unfolding entitlement_now
  clock_now s = refl

  snapshot-Earned :
      (user_id : String) (s : EntitlementState)
      → IsLawfulEntitlement env
      → OnOk (λ a _. IsEarnedSnapshot user_id s a) (snapshot_for_user env user_id s)
  unfolding snapshot_for_user registered_user grants_of_user pure
  snapshot-Earned user_id s laws = OnOk-guard _ _ _ _ s λ _. OnOk-read _ _ _ s λ u read.
      OnOk-read _ _ _ s λ gs listed. OnOk-bind _ _ _ _ s (clock_now s) λ now t at.
        OnOk-read _ _ _ t λ credits _.
          let found = laws.users.first_ok _ s.users u (required_row _ _ u read) in
          let rows = laws.grants.find_ok _ _ none none s.grants gs (listed_rows _ gs listed) in
          let named = (eq_iff u.id (trim user_id)).0 found.0 in
          record {
            owner = u;
            there = found.1;
            named = named;
            shown = named;
            earned =
                subst
                  (λ n.
                    All (IsEarned (OwnGrant (trim user_id) s) n) (active_entitlements now gs []))
                  at (active_entitlements-Earned (OwnGrant (trim user_id) s) now gs [] rows tt);
          }

  -- Under the laws of GORM: a snapshot is of a user in the table, and has an entitlement only if it is one
  -- of the current ones and the table has a grant of the user for it that is active at the time of the
  -- request.
  pub snapshot_for_user-Earned :
      (user_id : String) (s : EntitlementState) (a : EntitlementSnapshot)
      → IsLawfulEntitlement env
      → (snapshot_for_user env user_id s).0 ≡ ok a
      → IsEarnedSnapshot user_id s a
  snapshot_for_user-Earned user_id s a laws returned =
      OnOk-value (λ a _. IsEarnedSnapshot user_id s a) _ a (snapshot-Earned user_id s laws) returned
