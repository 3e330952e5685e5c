-- ===== src/Cloud/Used/Sessions.antt =====
-- The changes of the sessions of internal/service/cloud_storage.go leave a used session used: a new
-- session has another id, and a commit that finds the session used ends there.
use walnut_billing.Prelude.{
  arith, String, ◌≡◌, refl, sym, ap, ◌∙◌, false, inl, inr, Bool-cases, none, some, List, [], ◌∷◌,
  ◌++◌, ltb,
}
use mathlib.Core.Path.{subst}
use walnut_billing.Prelude.Text.{◌==◌, eq_iff, trim}
use walnut_billing.Domain.Cloud.{CloudSyncSession, SyncStatus, is_committed_sync}
use walnut_billing.Repository.Error.{GormError, Result, ok, err}
use walnut_billing.Repository.Table.{upsert}
use walnut_billing.Repository.Table.Lookup.{lookup-upsert, lookup-append_new}
use walnut_billing.Repository.Flow.{pure, raise, modify}
use walnut_billing.Repository.Flow.Invariant.{
  Keeps, Keeps-bind, Keeps-guard, Keeps-read, Keeps-if, Keeps-state,
}
use walnut_billing.Cloud.Resources.{CloudResourceDescriptor}
use walnut_billing.Cloud.World.{
  CloudState, CloudEnv, put_sessions, written, create_session, update_session, session_by_id,
}
use walnut_billing.Cloud.Laws.{session_id_of, session_row, IsLawfulCloud}
use walnut_billing.Cloud.Entry.Passed.{found_row}
use walnut_billing.Cloud.Commit.{
  CloudManifestCommitInput, expire_session, validate_session, authorized_commit_session,
}
use walnut_billing.Cloud.Used.{IsUsed, Any, Stays, cloud_now-Stays}

module _ (id : String) (env : CloudEnv) (laws : IsLawfulCloud env) where
  added :
      (x : CloudSyncSession) (s : CloudState)
      → session_row x.id s.sessions ≡ none
      → IsUsed id s
      → session_row id (s.sessions ++ x ∷ []) ≡ session_row id s.sessions
  added x s new h =
      lookup-append_new session_id_of id x s.sessions new ∙ elim (Bool-cases (x.id == id)) [
        | inl same ↦
            let e : x.id ≡ id = (eq_iff x.id id).0 same in
            let none_there : session_row id s.sessions ≡ none =
              subst (λ k. session_row k s.sessions ≡ none) e new in
            cc
        | inr other ↦ rw other refl
      ]

  pub create_session-Stays : (x : CloudSyncSession) → Stays id (create_session env x)
  unfolding create_session
  create_session-Stays x s h = by_create (env.gorm.sessions.create x s.sessions) refl
    where
      by_create :
          (r : Result GormError (List CloudSyncSession))
          → env.gorm.sessions.create x s.sessions ≡ r
          → Keeps (IsUsed id) Any (written put_sessions s r)
      by_create (ok rows) e =
          let (new, is) = laws.sessions.create_ok x s.sessions rows e in
          (
            record {
              session = h.session;
              there = ap (session_row id) is ∙ added x s new h ∙ h.there;
              is_used = h.is_used;
            },
            tt,
          )
      by_create (err e) _ = h

  pub update_session-Stays :
      (x : CloudSyncSession) → (x.id == id) ≡ false → Stays id (update_session env x)
  unfolding update_session
  update_session-Stays x other s h = by_save (env.gorm.sessions.save x s.sessions) refl
    where
      by_save :
          (r : Result GormError (List CloudSyncSession))
          → env.gorm.sessions.save x s.sessions ≡ r
          → Keeps (IsUsed id) Any (written put_sessions s r)
      by_save (ok rows) e =
          let is = laws.sessions.save_ok x s.sessions rows e in
          let at : session_row id (upsert session_id_of x s.sessions) ≡ session_row id s.sessions =
            lookup-upsert session_id_of id x s.sessions ∙ rw other refl in
          (
            record {
              session = h.session;
              there = ap (session_row id) is ∙ at ∙ h.there;
              is_used = h.is_used;
            },
            tt,
          )
      by_save (err e) _ = h

  -- An unused session in the table is another one.
  other_session :
      (x : CloudSyncSession) (s : CloudState)
      → IsUsed id s
      → session_row x.id s.sessions ≡ some x
      → is_committed_sync x.status ≡ false
      → (x.id == id) ≡ false
  other_session x s h there unused = elim (Bool-cases (x.id == id)) [
    | inl same ↦
        let e : x.id ≡ id = (eq_iff x.id id).0 same in
        let both : some x ≡ some h.session =
          sym there ∙ ap (λ k. session_row k s.sessions) e ∙ h.there in
        let is : x ≡ h.session = cc in cc
    | inr other ↦ other
  ]

  after_update :
      (x : CloudSyncSession) (s : CloudState)
      → (x.id == id) ≡ false
      → IsUsed id s
      → IsUsed id (update_session env x s).1
  after_update x s other h =
      Keeps-state (IsUsed id) Any (update_session env x s) (update_session-Stays x other s h)

  expire_session-Keeps :
      {A : Type 0} (P : A → Type 0) (x : CloudSyncSession) (s : CloudState)
      → (x.id == id) ≡ false
      → IsUsed id s
      → Keeps (IsUsed id) P (expire_session env x s)
  unfolding expire_session modify raise
  expire_session-Keeps P x s other h =
      Keeps-bind _ Any P _ _ s (cloud_now-Stays id env s h) λ now t i _.
        Keeps-bind _ Any P _ _ t
          (after_update (record x { status = SyncStatus.expired; updated_at = now }) t other i, tt)
          λ _ u j _. j

  -- The id of another session.
  abbrev pub Other : CloudSyncSession → Type 0
  Other x = (x.id == id) ≡ false

  validate_session-Keeps :
      (x : CloudSyncSession) (user_id client_project_id : String)
      (resources : List CloudResourceDescriptor) (s : CloudState)
      → IsUsed id s
      → session_row x.id s.sessions ≡ some x
      → Keeps (IsUsed id) Other (validate_session env x user_id client_project_id resources s)
  unfolding validate_session pure
  validate_session-Keeps x user_id client_project_id resources s h there =
      Keeps-guard _ Other _ _ _ s h λ _. Keeps-guard _ Other _ _ _ s h λ fresh.
        let other : Other x = other_session x s h there (ground (arith, fresh)) in
        Keeps-guard _ Other _ _ _ s h λ _.
          Keeps-bind _ Any Other _ _ s (cloud_now-Stays id env s h) λ now t i _.
            Keeps-if _ Other (ltb x.expires_at now) _ _ t
              (λ _. expire_session-Keeps Other x t other i)
              (λ _. Keeps-guard _ Other _ _ _ t i λ _. (i, other))

  pub authorized_commit_session-Keeps :
      (user_id : String) (i : CloudManifestCommitInput) (resources : List CloudResourceDescriptor)
      (s : CloudState)
      → IsUsed id s
      → Keeps (IsUsed id) (λ f. Other f.0) (authorized_commit_session env user_id i resources s)
  unfolding authorized_commit_session pure session_by_id
  authorized_commit_session-Keeps user_id i resources s h = Keeps-read _ _ _ _ s h λ x read.
      let found = laws.sessions.first_ok _ s.sessions x (found_row _ _ x read) in
      Keeps-bind _ Other _ _ _ s
        (validate_session-Keeps x user_id (trim i.client_project_id) resources s h found.1)
        λ y t j other. Keeps-read _ _ _ _ t j λ p _. Keeps-guard _ _ _ _ _ t j λ _. (j, other)
