-- ===== src/Cloud/Entry/Entitled.antt =====
-- What `authorizeCloudAccess` of internal/service/cloud_storage.go has shown when it passes: a grant of
-- the user, and a quota by it.
use walnut_billing.Prelude.{
  arith, ℕ, suc, String, ◌≡◌, refl, sym, ap, ◌∙◌, true, false, inl, inr, Bool-cases, none, some,
  List, All, ltb, nat_eq, if◌then◌else◌,
}
use mathlib.Core.Path.{subst}
use walnut_billing.Prelude.Int.{pos, leb_ℤ}
use walnut_billing.Prelude.Text.{eq_iff, trim, is_empty}
use walnut_billing.Domain.{Time, User}
use walnut_billing.Domain.Cloud.{EntitlementGrant}
use walnut_billing.Repository.Error.{GormError, Result, ok, err}
use walnut_billing.Repository.Table.{lookup}
use walnut_billing.Repository.Flow.{pure, ◌>>=◌}
use walnut_billing.Repository.Flow.Success.{OnOk, OnOk-bind, OnOk-guard, OnOk-read}
use walnut_billing.Cloud.QuotaPolicy.{CloudStorageQuotaDecision, decide_quota}
use walnut_billing.Cloud.QuotaPolicy.Best.{
  plan_of_grant, is_usable, best_rank, decided_at, promised, IsBest, decide_quota-IsBest,
}
use walnut_billing.Cloud.QuotaPolicy.Ranked.{best_rank-IsRanked, same_plan, set_time}
use walnut_billing.Cloud.World.{
  CloudState, CloudEnv, CloudFlow, from_gorm, cloud_now, cloud_grant_matches, cloud_grants,
}
use walnut_billing.Cloud.Laws.{grant_id_of, IsLawfulCloud}
use walnut_billing.Cloud.Entry.{CloudAccess, wall_for, quota_decision, authorize_cloud_access}
use walnut_billing.Cloud.Entry.Passed.{IsSameCloud, load_active_user-Passed}

module _ (env : CloudEnv) where
  -- The time of the decision on the quota, when the clock has been read `n` times before the checks: the
  -- second reading, or the third if the second is zero.
  abbrev pub quota_time : ℕ → Time
  quota_time n = decided_at (env.clock (suc (suc n))) (env.clock (suc n))

  -- How often the clock has been read after the checks.
  abbrev pub after_quota : ℕ → ℕ
  after_quota n = if nat_eq (env.clock (suc n)) 0 then suc (suc (suc n)) else suc (suc n)

  -- A grant that the quota of a user was decided by: a row of the user for cloud storage, which is active,
  -- has started and has not expired; and the quota is what is promised for its plan.
  pub record IsEntitled (user_id : String) (s : CloudState) (quota : CloudStorageQuotaDecision)
      : Type 0 where
    pub grant : EntitlementGrant
    pub there : lookup grant_id_of grant.id s.grants ≡ some grant
    pub own : grant.user_id ≡ user_id
    pub usable : is_usable (quota_time s.ticks) grant ≡ true
    pub plan : quota.plan ≡ plan_of_grant grant
    pub amount : quota.quota_bytes ≡ promised env.config (plan_of_grant grant)

  -- The user may store, and has an amount to store.
  pub record IsGranted (user_id : String) (s : CloudState) (access : CloudAccess) : Type 0 where
    pub named : access.user.id ≡ trim user_id
    pub entitled : IsEntitled (trim user_id) s access.quota
    pub has_quota : leb_ℤ access.quota.quota_bytes (pos 0) ≡ false

  -- A row of the grants that the list for a user and cloud storage may show.
  abbrev IsListed : String → CloudState → EntitlementGrant → Type 0
  IsListed user_id s g =
      (cloud_grant_matches user_id (env.clock s.ticks) g ≡ true)
      × (lookup grant_id_of g.id s.grants ≡ some g)

  -- The quota is decided by grants of the list.
  record IsDecided (user_id : String) (s : CloudState) (quota : CloudStorageQuotaDecision)
      : Type 0 where
    grants : List EntitlementGrant
    listed : All (IsListed user_id s) grants
    best : IsBest env.config (best_rank (quota_time s.ticks) grants) quota

  -- One reading of the clock.
  abbrev ticked : CloudState → CloudState
  ticked s = record s { ticks = suc s.ticks }

  OnOk-now :
      {A : Type 0} (Q : A → CloudState → Type 0) (f : Time → CloudFlow A) (s : CloudState)
      → OnOk Q (f (env.clock s.ticks) (ticked s))
      → OnOk Q ((cloud_now env >>= f) s)
  unfolding cloud_now ◌>>=◌
  OnOk-now Q f s h = h

  OnOk-wall :
      {A : Type 0} (Q : A → CloudState → Type 0) (now : Time) (f : Time → CloudFlow A)
      (s : CloudState)
      → (nat_eq now 0 ≡ true → OnOk Q (f (env.clock s.ticks) (ticked s)))
      → (nat_eq now 0 ≡ false → OnOk Q (f now s))
      → OnOk Q ((wall_for env now >>= f) s)
  unfolding wall_for cloud_now pure ◌>>=◌
  OnOk-wall Q now f s h k = elim (Bool-cases (nat_eq now 0)) [
    | inl zero_ ↦ rw zero_ (h zero_)
    | inr set ↦ rw set (k set)
  ]

  grants-listed :
      (user_id : String) (s : CloudState) (gs : List EntitlementGrant)
      → IsLawfulCloud env
      → cloud_grants env user_id (env.clock s.ticks) (ticked s) ≡ ok gs
      → All (IsListed user_id s) gs
  unfolding cloud_grants
  grants-listed user_id s gs laws h =
      laws.grants.find_ok _ _ none none s.grants gs (from_gorm_ok _ gs h)
    where
      from_gorm_ok :
          (r : Result GormError (List EntitlementGrant)) (x : List EntitlementGrant)
          → from_gorm r ≡ ok x
          → r ≡ ok x
      from_gorm_ok (ok a) x h = cc
      from_gorm_ok (err e) x h = cc

  quota_decision-Decided :
      (user : User) (s : CloudState)
      → IsLawfulCloud env
      → OnOk
          (λ quota t. IsDecided user.id s quota × IsSameCloud s t × (t.ticks ≡ after_quota s.ticks))
          (quota_decision env user s)
  unfolding quota_decision pure
  quota_decision-Decided user s laws = OnOk-now _ _ s (
      OnOk-read _ _ _ (ticked s) λ grants listed.
        let now = env.clock (suc s.ticks) in
        let all = grants-listed user.id s grants laws listed in
        OnOk-now _ _ (ticked s) (
          OnOk-wall _ now _ (ticked (ticked s))
            (λ zero_. (
              record {
                grants = grants;
                listed = all;
                best = decide_quota-IsBest env.config _ grants now;
              },
              record { projects = refl; sessions = refl; manifests = refl; objects = refl },
              rw zero_ refl,
            ))
            (λ set. (
              record {
                grants = grants;
                listed = all;
                best =
                    subst
                      (λ at.
                        IsBest env.config (best_rank at grants)
                          (decide_quota env.config now grants now))
                      (set_time now _ now set) (decide_quota-IsBest env.config now grants now);
              },
              record { projects = refl; sessions = refl; manifests = refl; objects = refl },
              rw set refl,
            ))))

  Decided-Entitled :
      (user_id : String) (s : CloudState) (quota : CloudStorageQuotaDecision)
      → is_empty user_id ≡ false
      → quota.has_entitlement ≡ true
      → IsDecided user_id s quota
      → IsEntitled user_id s quota
  unfolding cloud_grant_matches
  Decided-Entitled user_id s quota named entitled decided =
      let now = quota_time s.ticks in
      let usable : ltb 0 (best_rank now decided.grants) ≡ true =
        sym decided.best.entitled ∙ entitled in
      let found =
        best_rank-IsRanked (IsListed user_id s) now decided.grants decided.listed usable in
      let (matches, there) = found.holds in
      let plan =
        same_plan quota.plan (plan_of_grant found.grant) (decided.best.plan ∙ found.ranks) in
      record {
        grant = found.grant;
        there = there;
        own = (eq_iff found.grant.user_id user_id).0 (ground (arith, named, matches));
        usable = found.usable;
        plan = plan;
        amount = decided.best.quota ∙ ap (promised env.config) plan;
      }

  pub authorize_cloud_access-Passed :
      (user_id : String) (s : CloudState)
      → IsLawfulCloud env
      → OnOk
          (λ a t. IsGranted user_id s a × IsSameCloud s t × (t.ticks ≡ after_quota s.ticks))
          (authorize_cloud_access env user_id s)
  unfolding authorize_cloud_access pure
  authorize_cloud_access-Passed user_id s laws =
      OnOk-bind _ _ _ _ s (load_active_user-Passed env user_id s laws) λ u t (named, filled, e).
        OnOk-bind _ _ _ _ t (quota_decision-Decided u t laws) λ quota v (decided, h, ticks).
          OnOk-guard _ _ _ _ v λ entitled. OnOk-guard _ _ _ _ v λ has_quota.
            OnOk-read _ _ _ v λ used _.
              let own : IsDecided (trim user_id) s quota =
                subst (λ x. IsDecided (trim user_id) x quota) e
                  (subst (λ id. IsDecided id t quota) named decided) in
              (
                record {
                  named = named;
                  entitled =
                      Decided-Entitled (trim user_id) s quota filled (ground (arith, entitled)) own;
                  has_quota = has_quota;
                },
                subst (λ x. IsSameCloud x v) e h,
                subst (λ x. v.ticks ≡ after_quota x.ticks) e ticks,
              )
