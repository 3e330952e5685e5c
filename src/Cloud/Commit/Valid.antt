-- ===== src/Cloud/Commit/Valid.antt =====
-- What the check of the session of a commit has shown when it passes.
use walnut_billing.Prelude.{
  arith, ℕ, String, Bool, ◌≡◌, refl, sym, ap, ◌∙◌, true, false, not, ◌||◌, some, List, ltb,
}
use mathlib.Core.Path.{subst}
use walnut_billing.Prelude.Int.{pos, eqb_ℤ}
use walnut_billing.Prelude.Text.{◌==◌, eq_iff, trim, is_empty}
use walnut_billing.Domain.Cloud.{CloudProject, CloudSyncSession, is_authorized, is_committed_sync}
use walnut_billing.Repository.Flow.{pure, modify}
use walnut_billing.Repository.Flow.Success.{
  OnOk, OnOk-raise, OnOk-if, OnOk-bind, OnOk-guard, OnOk-read,
}
use walnut_billing.Cloud.Resources.{
  CloudResourceDescriptor, sum_resource_bytes, cloud_resource_fingerprint,
}
use walnut_billing.Cloud.World.{CloudState, CloudEnv, cloud_now, session_by_id, project_by_id}
use walnut_billing.Cloud.Laws.{session_row, IsLawfulCloud}
use walnut_billing.Cloud.Entry.Passed.{found_row}
use walnut_billing.Cloud.Commit.{
  CloudManifestCommitInput, expire_session, validate_session, authorized_commit_session,
}
use walnut_billing.Cloud.Commit.Writes.{IsKept, cloud_now-Kept}

module _ (env : CloudEnv) where
  -- An unused session of the user, the project and the provider for these resources, in time at the
  -- reading of the clock with that number.
  pub record IsUsable (tick : ℕ) (user_id client_project_id : String)
      (resources : List CloudResourceDescriptor) (x : CloudSyncSession) : Type 0 where
    pub owner : x.user_id ≡ user_id
    pub client : x.client_project_id ≡ client_project_id
    pub provider : x.provider ≡ env.provider_id
    pub unused : is_committed_sync x.status ≡ false
    pub no_manifest : is_empty (trim x.manifest_id) ≡ true
    pub authorized : is_authorized x.status ≡ true
    pub in_time : ltb x.expires_at (env.clock tick) ≡ false
    pub fingerprint :
        x.resource_fingerprint ≡ cloud_resource_fingerprint env.decimal env.digest resources
    pub requested : eqb_ℤ x.requested_bytes (sum_resource_bytes (pos 0) resources) ≡ true

  expire-Never :
      {A : Type 0} (P : A → CloudState → Type 0) (x : CloudSyncSession) (s : CloudState)
      → OnOk P (expire_session env x s)
  unfolding expire_session modify
  expire-Never P x s =
      OnOk-bind _ P _ _ s (cloud_now-Kept env s)
        λ now t _. OnOk-bind (λ _ _. Unit {0}) P _ _ t tt λ _ u _. OnOk-raise P _ u

  clock_read :
      (s : CloudState) → OnOk (λ now t. (now ≡ env.clock s.ticks) × IsKept s t) (cloud_now env s)
  unfolding cloud_now
  clock_read s = (refl, record { sessions = refl; manifests = refl })

  three : (a b c : Bool) → (not a || not b || not c) ≡ false → (a ≡ true) × (b ≡ true) × (c ≡ true)
  three a b c h = ground arith

  validate-Usable :
      (x : CloudSyncSession) (user_id client_project_id : String)
      (resources : List CloudResourceDescriptor) (s : CloudState)
      → OnOk
          (λ y t.
            (y ≡ x) × IsUsable s.ticks user_id (trim client_project_id) resources x × IsKept s t)
          (validate_session env x user_id client_project_id resources s)
  unfolding validate_session pure
  validate-Usable x user_id client_project_id resources s = OnOk-guard _ _ _ _ s λ own.
      OnOk-guard _ _ _ _ s λ fresh. OnOk-guard _ _ _ _ s λ authorized.
        OnOk-bind _ _ _ _ s (clock_read s) λ now t (at, h).
          OnOk-if _ (ltb x.expires_at now) _ _ t (λ _. expire-Never _ x t)
            λ in_time. OnOk-guard _ _ _ _ t λ matched.
              let (o, c, p) =
                three (x.user_id == user_id) (x.client_project_id == trim client_project_id)
                  (x.provider == env.provider_id) own in
              (
                refl,
                record {
                  owner = (eq_iff x.user_id user_id).0 o;
                  client = (eq_iff x.client_project_id (trim client_project_id)).0 c;
                  provider = (eq_iff x.provider env.provider_id).0 p;
                  unused = ground (arith, fresh);
                  no_manifest = ground (arith, fresh);
                  authorized = ground (arith, authorized);
                  in_time = subst (λ n. ltb x.expires_at n ≡ false) at in_time;
                  fingerprint = (eq_iff x.resource_fingerprint _).0 (ground (arith, matched));
                  requested = ground (arith, matched);
                },
                h,
              )

  -- The session of a request, found and usable, and the project that it is for.
  pub record IsAuthorized (tick : ℕ) (user_id : String) (i : CloudManifestCommitInput)
      (resources : List CloudResourceDescriptor) (s : CloudState) (x : CloudSyncSession)
      (p : CloudProject) : Type 0 where
    pub there : session_row x.id s.sessions ≡ some x
    pub named : x.id ≡ trim i.sync_session_id
    pub usable : IsUsable tick user_id (trim (trim i.client_project_id)) resources x
    pub for_project : p.id ≡ x.cloud_project_id
    pub owner : p.user_id ≡ user_id
    pub client : p.client_project_id ≡ trim i.client_project_id

  pub authorized_commit_session-Authorized :
      (user_id : String) (i : CloudManifestCommitInput) (resources : List CloudResourceDescriptor)
      (s : CloudState)
      → IsLawfulCloud env
      → OnOk
          (λ f t. IsAuthorized s.ticks user_id i resources s f.0 f.1 × IsKept s t)
          (authorized_commit_session env user_id i resources s)
  unfolding authorized_commit_session pure session_by_id project_by_id
  authorized_commit_session-Authorized user_id i resources s laws = OnOk-read _ _ _ s λ x read.
      OnOk-bind _ _ _ _ s (validate-Usable x user_id (trim i.client_project_id) resources s)
        λ y t (e, usable, h). OnOk-read _ _ _ t λ p read_project. OnOk-guard _ _ _ _ t λ mine.
          let found = laws.sessions.first_ok _ s.sessions x (found_row _ _ x read) in
          let of_project = laws.projects.first_ok _ t.projects p (found_row _ _ p read_project) in
          let whole : IsAuthorized s.ticks user_id i resources s x p = record {
            there = found.1;
            named = (eq_iff x.id (trim i.sync_session_id)).0 found.0;
            usable = usable;
            for_project =
                (eq_iff p.id y.cloud_project_id).0 of_project.0 ∙ ap (λ z. z.cloud_project_id) e;
            owner = (eq_iff p.user_id user_id).0 (ground (arith, mine));
            client =
                (eq_iff p.client_project_id (trim i.client_project_id)).0 (ground (arith, mine));
          } in
          (subst (λ z. IsAuthorized s.ticks user_id i resources s z p) (sym e) whole, h)
