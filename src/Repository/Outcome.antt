-- ===== src/Repository/Outcome.antt =====
-- What holds after an action that returns no error, by its last step alone; and after a unit of work.
use walnut_billing.Prelude.{◌≡◌}
use mathlib.Core.Path.{subst}
use walnut_billing.Repository.Error.{GormError, Error, database, Result, ok, err}
use walnut_billing.Repository.World.{World, Gorm, Store}
use walnut_billing.Repository.Monad.{Action, ◌>>=◌}
use walnut_billing.Repository.Transaction.{
  begin_uow, finish_uow, begun, in_transaction, rolled_back,
}
use walnut_billing.Repository.Ensures.{Ensures, Ensures-bind}

module _ {A : Type 0} (Q : A → World → Type 0) where
  everywhere : (r : Result Error A × World) → ((a : A) (w : World) → Q a w) → Ensures Q r
  unfolding Ensures
  everywhere (ok a, w) h = h a w
  everywhere (err e, w) h = tt

  committed :
      (g : Gorm) (before : Store) (a : A) (w : World) (r : Result GormError (Unit {0}))
      → Q a w
      → Ensures Q (elim r [ ok _ ↦ (ok a, w) | err e ↦ (err (database e), rolled_back g before w) ])
  unfolding Ensures
  committed g before a w (ok u) h = h
  committed g before a w (err e) h = tt

  finished :
      (g : Gorm) (before : Store) (r : Result Error A × World)
      → Ensures Q r
      → Ensures Q (finish_uow g before r)
  unfolding finish_uow Ensures
  finished g before (ok a, w) h = committed g before a w (g.commit w.store) h
  finished g before (err e, w) h = tt

  begun_ensures :
      (g : Gorm) (m : Action A) (w : World) (r : Result GormError (Unit {0}))
      → Ensures Q (m w)
      → Ensures Q (begun g m w.store (elim r [ ok u ↦ (ok u, w) | err e ↦ (err (database e), w) ]))
  unfolding begun Ensures
  begun_ensures g m w (ok u) h = finished g w.store (m w) h
  begun_ensures g m w (err e) h = tt

  -- A unit of work that commits ends where its operation ended.
  pub Ensures-in_transaction :
      (g : Gorm) (m : Action A) (w : World) → Ensures Q (m w) → Ensures Q (in_transaction g m w)
  unfolding in_transaction begin_uow
  Ensures-in_transaction g m w h = begun_ensures g m w (g.begin w.store) h

-- What the last action ensures, whatever comes before it.
pub Ensures-last :
    {A B : Type 0} (Q : A → World → Type 0) (m : Action B) (f : B → Action A) (w : World)
    → ((b : B) (w' : World) → Ensures Q (f b w'))
    → Ensures Q ((m >>= f) w)
Ensures-last Q m f w h = Ensures-bind Q m f w (everywhere (λ b w'. Ensures Q (f b w')) (m w) h)

-- What an action ensures, at the outcome it has.
pub after :
    {A : Type 0} (Q : A → World → Type 0) (r : Result Error A × World) (a : A) (w : World)
    → Ensures Q r
    → r ≡ (ok a, w)
    → Q a w
unfolding Ensures
after Q r a w h e = subst (Ensures Q) e h
