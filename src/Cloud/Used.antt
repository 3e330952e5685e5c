-- ===== src/Cloud/Used.antt =====
-- A session of an upload that has been used: the steps of internal/service/cloud_storage.go keep it.
pub mod Reading
pub mod Sessions
pub mod Authorizing
pub mod Committing
use walnut_billing.Prelude.{
  suc, Option, String, Bool, ◌≡◌, refl, sym, true, false, not, ◌&&◌, none, some, List, [], ◌∷◌,
  nat_eq, if◌then◌else◌,
}
use mathlib.Core.Path.{subst}
use walnut_billing.Prelude.Text.{◌==◌, trim, is_empty}
use walnut_billing.Domain.{Time, User}
use walnut_billing.Domain.Cloud.{CloudProject, CloudObject, CloudSyncSession, is_committed_sync}
use walnut_billing.Repository.Error.{GormError, Result, ok, err}
use walnut_billing.Repository.Flow.{pure, ◌>>=◌, ◌>>◌}
use walnut_billing.Repository.Flow.Invariant.{Keeps, Keeps-bind, Keeps-guard, Keeps-read, Keeps-if}
use walnut_billing.Cloud.World.{
  CloudState, CloudEnv, CloudFlow, put_projects, put_objects, put_manifests, written, with_prefix,
  cloud_now, generate_cloud_id, create_project, update_project, create_manifest, upsert_object,
  assign_columns, update_object,
}
use walnut_billing.Cloud.Laws.{session_row}

-- The session with an id has been used for a manifest.
pub record IsUsed (id : String) (s : CloudState) : Type 0 where
  pub session : CloudSyncSession
  pub there : session_row id s.sessions ≡ some session
  pub is_used : is_committed_sync session.status ≡ true

pub IsUsed-same :
    (id : String) (s t : CloudState) → t.sessions ≡ s.sessions → IsUsed id s → IsUsed id t
IsUsed-same id s t e h = record {
  session = h.session;
  there = subst (λ rows. session_row id rows ≡ some h.session) (sym e) h.there;
  is_used = h.is_used;
}

abbrev pub Any : {A : Type 0} → A → Type 0
Any a = Unit {0}

module _ (id : String) where
  -- An action after which the session is still used.
  abbrev pub Stays : {A : Type 0} → CloudFlow A → Type 0
  Stays m = (s : CloudState) → IsUsed id s → Keeps (IsUsed id) Any (m s)

  written-Stays :
      {Row : Type 0} (put : List Row → CloudState → CloudState) (s : CloudState)
      (r : Result GormError (List Row))
      → ((rows : List Row) → (put rows s).sessions ≡ s.sessions)
      → IsUsed id s
      → Keeps (IsUsed id) Any (written put s r)
  written-Stays put s (ok rows) same h = (IsUsed-same id s (put rows s) (same rows) h, tt)
  written-Stays put s (err e) same h = h

  module _ (env : CloudEnv) where
    pub cloud_now-Stays : Stays (cloud_now env)
    unfolding cloud_now
    cloud_now-Stays s h = (IsUsed-same id s (record s { ticks = suc s.ticks }) refl h, tt)

    pub generate-Stays : (prefix : String) → Stays (generate_cloud_id env prefix)
    unfolding generate_cloud_id
    generate-Stays prefix s h = by_draw (env.random s.draws)
      where
        after : IsUsed id (record s { draws = suc s.draws })
        after = IsUsed-same id s (record s { draws = suc s.draws }) refl h

        by_draw :
            (o : Option String)
            → Keeps (IsUsed id) Any (with_prefix env prefix o, record s { draws = suc s.draws })
        by_draw none = after
        by_draw (some digits) = (after, tt)

    pub create_project-Stays : (p : CloudProject) → Stays (create_project env p)
    unfolding create_project
    create_project-Stays p s h =
        written-Stays put_projects s (env.gorm.projects.create p s.projects) (λ _. refl) h

    pub update_project-Stays : (p : CloudProject) → Stays (update_project env p)
    unfolding update_project
    update_project-Stays p s h =
        written-Stays put_projects s (env.gorm.projects.save p s.projects) (λ _. refl) h

    pub create_manifest-Stays : (m : _) → Stays (create_manifest env m)
    unfolding create_manifest
    create_manifest-Stays m s h =
        written-Stays put_manifests s (env.gorm.manifests.create m s.manifests) (λ _. refl) h

    pub upsert_object-Stays : (o : CloudObject) → Stays (upsert_object env o)
    unfolding upsert_object
    upsert_object-Stays o s h =
        written-Stays put_objects s
          (env.gorm.upsert_object (λ x. x.object_key) assign_columns o s.objects) (λ _. refl) h

    pub update_object-Stays : (o : CloudObject) → Stays (update_object env o)
    unfolding update_object
    update_object-Stays o s h =
        written-Stays put_objects s (env.gorm.objects.save o s.objects) (λ _. refl) h
