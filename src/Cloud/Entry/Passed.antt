-- ===== src/Cloud/Entry/Passed.antt =====
-- What the checks before an operation of cloud storage have shown when they pass: the user, and a
-- state with the same tables.
use walnut_billing.Prelude.{String, ◌≡◌, refl, ◌∙◌, false, nat_eq}
use walnut_billing.Prelude.Text.{eq_iff, trim, is_empty}
use walnut_billing.Domain.{Time, User}
use mathlib.Core.Path.{subst}
use walnut_billing.Repository.Error.{GormError, Result, ok, err}
use walnut_billing.Repository.Flow.{pure, mapped}
use walnut_billing.Repository.Flow.Success.{OnOk, OnOk-if, OnOk-bind, OnOk-guard, OnOk-read}
use walnut_billing.Cloud.Errors.{CloudError}
use walnut_billing.Cloud.World.{CloudState, CloudEnv, from_read, cloud_now}
use walnut_billing.Cloud.Entry.{
  cloud_user_by_id, load_active_user, wall_for, quota_decision, entitled_user,
}
use walnut_billing.Cloud.Laws.{IsLawfulCloud}

-- Two states with the same tables.
pub record IsSameCloud (s s' : CloudState) : Type 0 where
  pub projects : s'.projects ≡ s.projects
  pub sessions : s'.sessions ≡ s.sessions
  pub manifests : s'.manifests ≡ s.manifests
  pub objects : s'.objects ≡ s.objects

abbrev pub same : (s : CloudState) → IsSameCloud s s
same s = record { projects = refl; sessions = refl; manifests = refl; objects = refl }

pub same-trans : {s t u : CloudState} → IsSameCloud s t → IsSameCloud t u → IsSameCloud s u
same-trans h k = record {
  projects = k.projects ∙ h.projects;
  sessions = k.sessions ∙ h.sessions;
  manifests = k.manifests ∙ h.manifests;
  objects = k.objects ∙ h.objects;
}

-- A read that has found a row.
pub found_row :
    {Row : Type 0} (missing : CloudError) (r : Result GormError Row) (x : Row)
    → from_read missing (mapped r) ≡ ok x
    → r ≡ ok x
unfolding mapped
found_row missing (ok a) x h = cc
found_row missing (err e) x h = cc

module _ (env : CloudEnv) where
  pub load_active_user-Passed :
      (user_id : String) (s : CloudState)
      → IsLawfulCloud env
      → OnOk
          (λ u s'. (u.id ≡ trim user_id) × (is_empty (trim user_id) ≡ false) × (s' ≡ s))
          (load_active_user env user_id s)
  unfolding load_active_user cloud_user_by_id pure
  load_active_user-Passed user_id s laws = OnOk-guard _ _ _ _ s λ named. OnOk-read _ _ _ s λ u read.
      OnOk-guard _ _ _ _ s λ _.
        let found = laws.users.first_ok _ s.users u (found_row _ _ u read) in
        ((eq_iff u.id (trim user_id)).0 found.0, named, refl)

  ticks_only : (s : CloudState) → OnOk (λ _ s'. IsSameCloud s s') (cloud_now env s)
  unfolding cloud_now
  ticks_only s = record { projects = refl; sessions = refl; manifests = refl; objects = refl }

  wall_for-Same :
      (now : Time) (s : CloudState) → OnOk (λ _ s'. IsSameCloud s s') (wall_for env now s)
  unfolding wall_for pure
  wall_for-Same now s = OnOk-if _ (nat_eq now 0) _ _ s (λ _. ticks_only s) (λ _. same s)

  pub quota_decision-Same :
      (user : User) (s : CloudState) → OnOk (λ _ s'. IsSameCloud s s') (quota_decision env user s)
  unfolding quota_decision pure
  quota_decision-Same user s = OnOk-bind _ _ _ _ s (ticks_only s) λ listed_at t h.
      OnOk-read _ _ _ t λ grants _. OnOk-bind _ _ _ _ t (ticks_only t) λ now u k.
        OnOk-bind _ _ _ _ u (wall_for-Same now u) λ wall v l. same-trans h (same-trans k l)

  pub entitled_user-Passed :
      (user_id : String) (s : CloudState)
      → IsLawfulCloud env
      → OnOk (λ u s'. (u.id ≡ trim user_id) × IsSameCloud s s') (entitled_user env user_id s)
  unfolding entitled_user pure
  entitled_user-Passed user_id s laws =
      OnOk-bind _ _ _ _ s (load_active_user-Passed user_id s laws) λ u t (named, _, e).
        OnOk-bind _ _ _ _ t (quota_decision-Same u t)
          λ quota v h. OnOk-guard _ _ _ _ v λ _. (named, subst (λ x. IsSameCloud x v) e h)
